-- ===== src/Pages/Range.antt =====
-- `kpfree_range` gives all the pages of a range to the allocator, in their order.
use yack.Common.{
  ℕ, zero, suc, ◌+◌, ◌-◌, ◌*◌, ◌/◌, ◌%◌, ◌^◌, ◌≤◌, ◌<◌, ◌≡◌, ◌⊎◌, inr, refl, sym, ◌∙◌, arith, List,
  [], ◌∷◌, ◌++◌, append_assoc, append-nil,
}
use yack.Memory.{Memory}
use yack.Memory.Region.{Apart}
use yack.Layout.{page_up}
use yack.Layout.Laws.{page_up_lem}
use yack.Screen.{buffer}
use yack.Machine.{Machine, done}
use yack.Machine.Kept.{Kept, Kept-trans}
use yack.Machine.Returns.{Returns, returns}
use yack.Format.{word, codes}
use yack.Format.Room.{room}
use yack.Io.Logged.{IsReady, klog-Logged}
use yack.Io.Stores.{stored-IsReady, stored-Kept}
use yack.Screen.Writes.{OffScreen}
use yack.Pages.{ListOps, free_pages, page_count, kpfree_range}
use yack.Pages.Lists.{ListLaws}
use yack.Pages.Queue.{IsPage, NotIn, OffPages, Free, Free-Screen}
use yack.Pages.Alloc.{OffOwn, screen-OffOwn, kpfree-Free, OffPages-inside}

-- The pages from `curr` on.
abbrev pub pages_from : (rounds curr : ℕ) → List ℕ
pages_from zero curr = []
pages_from (suc rounds) curr = curr ∷ pages_from rounds (curr + 4096)

-- Whole pages of ordinary memory that the allocator does not have.
pub record IsRange (registry : ℕ) (ps : List ℕ) (rounds curr : ℕ) : Type 0 where
  pub aligned : curr % 4096 ≡ 0
  pub positive : 0 < curr
  pub inside : curr + rounds * 4096 ≤ 2 ^ 32
  pub off_screen : Apart buffer 4000 curr (rounds * 4096)
  pub off_registry : Apart registry 8 curr (rounds * 4096)
  pub off_pages : OffPages curr (rounds * 4096) ps

OffPages-NotIn : (start size : ℕ) (ps : List ℕ) → 0 < size → OffPages start size ps → NotIn start ps
OffPages-NotIn start size [] h o = tt
OffPages-NotIn start size (p ∷ ps) h (o, os) = (ground arith, OffPages-NotIn start size ps h os)

OffPages-append :
    (start size p : ℕ) (ps : List ℕ)
    → Apart start size p 4096
    → OffPages start size ps
    → OffPages start size (ps ++ p ∷ [])
OffPages-append start size p [] a o = (a, tt)
OffPages-append start size p (x ∷ xs) a (o, os) = (o, OffPages-append start size p xs a os)

OffOwn-append :
    (registry p q : ℕ) (ps : List ℕ)
    → (q < p) ⊎ (p + 4096 ≤ q)
    → OffOwn registry ps q
    → OffOwn registry (ps ++ p ∷ []) q
OffOwn-append registry p q [] a o = (a, o)
OffOwn-append registry p q (x ∷ xs) a (o, os) = (o, OffOwn-append registry p q xs a os)

-- The first page of a range, and the others.
IsRange-IsPage :
    {registry : ℕ} {ps : List ℕ} (rounds : ℕ) {curr : ℕ}
    → IsRange registry ps (suc rounds) curr
    → IsPage curr
IsRange-IsPage rounds r = (r.aligned, r.positive, omega arith, omega arith)

IsRange-suc :
    (registry : ℕ) (ps : List ℕ) (rounds curr : ℕ)
    → IsRange registry ps (suc rounds) curr
    → IsRange registry (ps ++ curr ∷ []) rounds (curr + 4096)
IsRange-suc registry ps rounds curr r = record {
  aligned = omega arith;
  positive = omega arith;
  inside = omega arith;
  off_screen = omega arith;
  off_registry = omega arith;
  off_pages = OffPages-append (curr + 4096) (rounds * 4096) curr ps (inr omega arith) (
      OffPages-inside curr (suc rounds * 4096) (curr + 4096) (rounds * 4096) ps (omega arith) omega
        arith r.off_pages);
}

page_up-lt : (a : ℕ) → a < 2 ^ 32 → page_up a < 2 ^ 32
page_up-lt a h = ground (arith, page_up_lem a h)

page_count-lt : (first last : ℕ) → page_count first last < 2 ^ 32
page_count-lt first last = ground arith

-- Off a range and the rest of the pages.
OffOwn-range :
    (registry q rounds curr : ℕ) (ps : List ℕ)
    → OffOwn registry (pages_from rounds curr ++ ps) q
    → ((q < curr) ⊎ (curr + rounds * 4096 ≤ q)) × OffOwn registry ps q
OffOwn-range registry q zero curr ps o = (omega arith, o)
OffOwn-range registry q (suc rounds) curr ps (o, os) =
    let rest = OffOwn-range registry q rounds (curr + 4096) ps os in
    (omega (arith, rest.0, o), rest.1)

module _ {lists : ListOps} (laws : ListLaws lists) (registry : ℕ) where
  -- The loop leaves the pages of the range behind the others.
  free_pages-Free :
      (rounds curr : ℕ) (ps : List ℕ) (m : Machine)
      → IsRange registry ps rounds curr
      → Free laws registry ps m.memory
      → (memory : Memory) × (free_pages lists registry rounds curr m
          ≡ done tt (record m { memory = memory }))
        × Free laws registry (ps ++ pages_from rounds curr) memory
        × ((q : ℕ)
            → (q < curr) ⊎ (curr + rounds * 4096 ≤ q)
            → OffOwn registry ps q
            → memory q ≡ m.memory q)
        × ((q : ℕ) → (q < registry) ⊎ (registry + 8 ≤ q) → 12 ≤ q % 4096 → memory q ≡ m.memory q)
  unfolding free_pages
  free_pages-Free zero curr ps m r f =
      (m.memory, refl, rw append-nil f, (λ q o p. refl), (λ q o h. refl))
  free_pages-Free (suc rounds) curr ps m r f =
      let one =
        kpfree-Free laws registry curr ps m (IsRange-IsPage rounds r) (omega arith)
          (OffPages-NotIn curr (suc rounds * 4096) ps (omega arith) r.off_pages) f in
      let rest =
        free_pages-Free rounds (curr + 4096) (ps ++ curr ∷ []) (record m { memory = one.0 })
          (IsRange-suc registry ps rounds curr r) one.2 in
      (
        rest.0,
        rw one.1 rest.1,
        rw (sym (append_assoc ps (curr ∷ []) (pages_from rounds (curr + 4096)))) rest.2,
        λ q o p.
            rest.3 q (omega arith) (OffOwn-append registry curr q ps (omega arith) p)
            ∙ one.3 q (omega arith, p),
        λ q o h. rest.4 q o h ∙ one.4 q o h,
      )

  -- What is left once the pages `new` are put behind the pages `ps`.
  pub record Freed (ps new : List ℕ) (m n : Machine) : Type 0 where
    pub ready : IsReady n
    pub kept : Kept m n
    pub free : Free laws registry (ps ++ new) n.memory
    pub spared : (q : ℕ) → OffScreen q → OffOwn registry (new ++ ps) q → n.memory q ≡ m.memory q
    pub inner :
        (q : ℕ)
        → OffScreen q
        → (q < registry) ⊎ (registry + 8 ≤ q)
        → 12 ≤ q % 4096
        → n.memory q ≡ m.memory q

  pub kpfree_range-Freed :
      (start end : ℕ) (ps : List ℕ) (m : Machine)
      → start < 2 ^ 32
      → end < 2 ^ 32
      → IsRange registry ps ((page_up end - page_up start) / 4096) (page_up start)
      → IsReady m
      → Free laws registry ps m.memory
      → Returns
          (λ _ n. Freed ps (pages_from ((page_up end - page_up start) / 4096) (page_up start)) m n)
          (kpfree_range lists registry start end m)
  unfolding kpfree_range
  kpfree_range-Freed start end ps m hs he range ready f =
      let first = page_up start in
      let last = page_up end in
      let l =
        klog-Logged (codes "DEBUG") (codes "pages: first = %p, last = %p, count = %u\n")
          (word first ∷ word last ∷ word (page_count first last) ∷ []) 86 m (omega arith)
          (unfold room in refl) (omega arith)
          (page_up-lt start hs, (page_up-lt end he, (page_count-lt first last, tt))) ready in
      let looped =
        free_pages-Free ((last - first) / 4096) first ps l.after range
          (Free-Screen registry ps m.memory l.after.memory l.outside f) in
      rw l.returns (
        rw looped.1 (
          returns (record {
            ready = stored-IsReady looped.0 l.after l.ready;
            kept = Kept-trans l.kept (
                stored-Kept looped.0 l.after (λ q lo hi.
                  looped.3 q (omega (arith, range.off_screen))
                    (screen-OffOwn registry q ps f.head_off f.pages lo hi)));
            free = looped.2;
            spared = λ q o p.
                let split = OffOwn-range registry q ((last - first) / 4096) first ps p in
                looped.3 q split.0 split.1 ∙ l.outside q o;
            inner = λ q o a h. looped.4 q a h ∙ l.outside q o;
          })))
