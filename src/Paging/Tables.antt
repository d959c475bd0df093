-- ===== src/Paging/Tables.antt =====
-- The page tables of a directory: the pages that hold them, and what is read from them.
use yack.Common.{
  ℕ, ◌+◌, ◌*◌, ◌%◌, ◌≤◌, ◌<◌, ◌≡◌, ◌≢◌, ◌⊎◌, sym, ◌∙◌, arith, Bool, false, List, ◌==◌, bit_and,
}
use yack.Memory.{Memory, load32}
use yack.Memory.Region.{Outside, Apart, load32-Outside}
use yack.Pages.{ListOps}
use yack.Pages.Lists.{ListLaws}
use yack.Pages.Queue.{IsPage, NotIn, OffPages, Free, Free-Outside}
use yack.Paging.{present, table_of}

-- The entry `i` of the directory, whether it is absent, and the table that it leads to.
abbrev pub entry : Memory → (directory i : ℕ) → ℕ
entry m directory i = load32 m (directory + 4 * i)

abbrev pub absent : Memory → (directory i : ℕ) → Bool
absent m directory i = bit_and (entry m directory i) present == 0

abbrev pub table : Memory → (directory i : ℕ) → ℕ
table m directory i = table_of (entry m directory i)

-- The entry `k` of that table.
abbrev pub mapped : Memory → (directory i k : ℕ) → ℕ
mapped m directory i k = load32 m (table m directory i + 4 * k)

-- A page in use that is not the registry's and not free.
abbrev pub IsOwned : (registry : ℕ) (ps : List ℕ) → ℕ → Type 0
IsOwned registry ps p = IsPage p × Apart registry 8 p 4096 × NotIn p ps

-- The entries from `lo` to `hi` of the directory are in order: each present one has a page of its
-- own for its table, and no page in use is free.
pub record Tables {lists : ListOps} (laws : ListLaws lists) (registry directory lo hi : ℕ)
    (ps : List ℕ) (m : Memory) : Type 0 where
  pub free : Free laws registry ps m
  pub top : hi ≤ 1024
  pub own : IsOwned registry ps directory
  pub owned :
      (i : ℕ)
      → lo ≤ i
      → i < hi
      → absent m directory i ≡ false
      → IsOwned registry ps (table m directory i) × (table m directory i ≢ directory)
  pub distinct :
      (i j : ℕ)
      → lo ≤ i
      → i < hi
      → lo ≤ j
      → j < hi
      → absent m directory i ≡ false
      → absent m directory j ≡ false
      → i ≢ j
      → table m directory i ≢ table m directory j

-- The entry `l` of the table `i` maps nothing: there is no such table, or the entry is 0.
abbrev pub IsBlank : Memory → (directory i l : ℕ) → Type 0
IsBlank m directory i l = absent m directory i ≡ false → mapped m directory i l ≡ 0

-- What is present in `m` is present in `m'`, with the same entries but for the entry `k` of the
-- table `i`, and what mapped nothing still maps nothing but for that entry.
pub record SameBut (directory lo hi i k : ℕ) (m m' : Memory) : Type 0 where
  pub still :
      (j : ℕ) → lo ≤ j → j < hi → absent m directory j ≡ false → absent m' directory j ≡ false
  pub same :
      (j l : ℕ)
      → lo ≤ j
      → j < hi
      → l < 1024
      → absent m directory j ≡ false
      → (j ≢ i) ⊎ (l ≢ k)
      → mapped m' directory j l ≡ mapped m directory j l
  pub blank :
      (j l : ℕ)
      → lo ≤ j
      → j < hi
      → l < 1024
      → (j ≢ i) ⊎ (l ≢ k)
      → IsBlank m directory j l
      → IsBlank m' directory j l

pub SameBut-trans :
    (directory lo hi i k : ℕ) (m n o : Memory)
    → SameBut directory lo hi i k m n
    → SameBut directory lo hi i k n o
    → SameBut directory lo hi i k m o
SameBut-trans directory lo hi i k m n o a b = record {
  still = λ j l u p. b.still j l u (a.still j l u p);
  same = λ j e l u h p ne. b.same j e l u h (a.still j l u p) ne ∙ a.same j e l u h p ne;
  blank = λ j e l u h ne z. b.blank j e l u h ne (a.blank j e l u h ne z);
}

-- Two pages are the same or have no byte in common.
pub pages-Apart : (a b : ℕ) → a % 4096 ≡ 0 → b % 4096 ≡ 0 → a ≢ b → Apart a 4096 b 4096
pages-Apart a b x y ne = ground arith

-- A change of memory that is no part of the directory leaves its entries.
pub entry-Outside :
    (directory : ℕ) (m m' : Memory) (start size i : ℕ)
    → i < 1024
    → Outside start size m m'
    → Apart start size directory 4096
    → entry m' directory i ≡ entry m directory i
entry-Outside directory m m' start size i h out off =
    load32-Outside start size (directory + 4 * i) out (omega arith)

module _ {lists : ListOps} {laws : ListLaws lists} (registry directory lo hi : ℕ) (ps : List ℕ)
    (m m' : Memory) (start size : ℕ) where
  -- A change elsewhere leaves the tables in order.
  pub Tables-Outside :
      Outside start size m m'
      → Apart start size directory 4096
      → Apart start size registry 8
      → OffPages start size ps
      → Tables laws registry directory lo hi ps m
      → Tables laws registry directory lo hi ps m'
  Tables-Outside out off r offs t =
      let same : (i : ℕ) → i < hi → entry m' directory i ≡ entry m directory i =
        λ i h. entry-Outside directory m m' start size i (omega (arith, t.top)) out off in
      record {
        free = Free-Outside registry ps start size m m' out offs r t.free;
        top = t.top;
        own = t.own;
        owned = λ i l u p.
            let p' : absent m directory i ≡ false = rw (sym (same i u)) p in
            rw (same i u) (t.owned i l u p');
        distinct = λ i j l u l' u' p q ne.
            let p' : absent m directory i ≡ false = rw (sym (same i u)) p in
            let q' : absent m directory j ≡ false = rw (sym (same j u')) q in
            rw (same i u, same j u') (t.distinct i j l u l' u' p' q' ne);
      }
