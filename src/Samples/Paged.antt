-- ===== src/Samples/Paged.antt =====
-- Machines with a page allocator and a page directory, for runs of the functions.
use yack.Common.{ℕ, ◌+◌, ◌*◌, ◌%◌, ◌<◌, ◌≤◌, ◌≡◌, ◌∙◌, sym, arith, [], ◌∷◌, refl, true}
use mathlib.Core.Bool.{true≢false}
use yack.Machine.{Machine}
use yack.Memory.{Memory, load32, store32, load16, store16, write}
use yack.Memory.Laws.{store32_outside}
use yack.Memory.Region.{load32-same}
use yack.Pages.{magic}
use yack.Pages.Linked.Laws.{linked-laws, Seg-Holds}
use yack.Pages.Queue.{Free}
use yack.Paging.Tables.{absent, Tables}
use yack.Samples.{sample}

-- Both links of a node, and those of a free page with its magic number.
abbrev links : (node next prev : ℕ) → Memory → Memory
links node next prev m = store32 (store32 m node next) (node + 4) prev

abbrev page : (p next prev : ℕ) → Memory → Memory
page p next prev m = links (p + 4) next prev (store32 m p magic)

-- No free pages, with a registry at 0x80105000.
abbrev pub no_pages : Machine
no_pages = record sample { memory = links 0x80105000 0x80105000 0x80105000 (λ _. 0) }

pub no_pages-Free : Free linked-laws 0x80105000 [] no_pages.memory
unfolding load32 store32 load16 store16 write
no_pages-Free = record {
  head = (omega arith, omega arith);
  head_off = omega arith;
  pages = tt;
  holds = Seg-Holds 0x80105000 [] _ (refl, refl);
  magics = tt;
}

-- Three free pages behind one another.
abbrev pub three_pages : Machine
three_pages = record sample {
  memory = page 0x8010A000 0x80105000 0x80109004 (
      page 0x80109000 0x8010A004 0x80108004
        (page 0x80108000 0x80109004 0x80105000 (links 0x80105000 0x80108004 0x8010A004 (λ _. 0))));
}

pub three_pages-Free :
    Free linked-laws 0x80105000 (0x80108000 ∷ 0x80109000 ∷ 0x8010A000 ∷ []) three_pages.memory
unfolding load32 store32 load16 store16 write
three_pages-Free = record {
  head = (omega arith, omega arith);
  head_off = omega arith;
  pages = (
    (refl, omega arith, omega arith, omega arith),
    omega arith,
    (omega arith, (omega arith, tt)),
    (
      (refl, omega arith, omega arith, omega arith),
      omega arith,
      (omega arith, tt),
      ((refl, omega arith, omega arith, omega arith), omega arith, tt, tt),
    ),
  );
  holds =
      Seg-Holds 0x80105000 (0x80108004 ∷ 0x80109004 ∷ 0x8010A004 ∷ []) _
        ((refl, refl), ((refl, refl), ((refl, refl), (refl, refl))));
  magics = (refl, (refl, (refl, tt)));
}

-- Behind the links the pages are empty.
links-inner :
    (node next prev q : ℕ) (m : Memory)
    → node % 4096 < 5
    → 12 ≤ q % 4096
    → links node next prev m q ≡ m q
links-inner node next prev q m h i =
    store32_outside (store32 m node next) (node + 4) prev q (ground arith)
    ∙ store32_outside m node next q (ground arith)

page-inner :
    (p next prev q : ℕ) (m : Memory) → p % 4096 ≡ 0 → 12 ≤ q % 4096 → page p next prev m q ≡ m q
page-inner p next prev q m h i =
    links-inner (p + 4) next prev q (store32 m p magic) (omega arith) i
    ∙ store32_outside m p magic q (ground arith)

three_pages-inner : (q : ℕ) → 12 ≤ q % 4096 → three_pages.memory q ≡ 0
three_pages-inner q h =
    page-inner 0x8010A000 0x80105000 0x80109004 q _ refl h
    ∙ page-inner 0x80109000 0x8010A004 0x80108004 q _ refl h
    ∙ page-inner 0x80108000 0x80109004 0x80105000 q _ refl h
    ∙ links-inner 0x80105000 0x80108004 0x8010A004 q _ (omega arith) h

empty_entry :
    (m : Memory) (directory i : ℕ)
    → ((q : ℕ) → 12 ≤ q % 4096 → m q ≡ 0)
    → directory % 4096 ≡ 0
    → 512 ≤ i
    → i < 1024
    → absent m directory i ≡ true
empty_entry m directory i zeros a l u =
    let none : load32 m (directory + 4 * i) ≡ 0 =
      load32-same (directory + 4 * i) (λ _. 0) m (λ q lq uq. zeros q (omega arith))
      ∙ unfold load32 load16 in refl in
    rw none refl

-- No address of the kernel is mapped by the directory.
pub three_pages-absent :
    (directory i : ℕ)
    → directory % 4096 ≡ 0
    → 512 ≤ i
    → i < 1024
    → absent three_pages.memory directory i ≡ true
three_pages-absent directory i = empty_entry three_pages.memory directory i three_pages-inner

pub no_pages-absent :
    (directory i : ℕ)
    → directory % 4096 ≡ 0
    → 512 ≤ i
    → i < 1024
    → absent no_pages.memory directory i ≡ true
no_pages-absent directory i =
    empty_entry no_pages.memory directory i
      (λ q h. links-inner 0x80105000 0x80105000 0x80105000 q (λ _. 0) (omega arith) h)

-- An empty directory at 0x80107000.
pub three_pages-Tables :
    Tables linked-laws 0x80105000 0x80107000 512 1024
      (0x80108000 ∷ 0x80109000 ∷ 0x8010A000 ∷ [])
      three_pages.memory
three_pages-Tables = record {
  free = three_pages-Free;
  top = omega arith;
  own = (
    (refl, omega arith, omega arith, omega arith),
    omega arith,
    (omega arith, (omega arith, (omega arith, tt))),
  );
  owned = λ i l u q. absurd (true≢false (sym (three_pages-absent 0x80107000 i refl l u) ∙ q));
  distinct = λ i j l u l' u' q r ne.
      absurd (true≢false (sym (three_pages-absent 0x80107000 i refl l u) ∙ q));
}
