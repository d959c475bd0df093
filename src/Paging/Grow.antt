-- ===== src/Paging/Grow.antt =====
-- A new table: the page is cleared and the entry of the directory is made to lead to it.
use yack.Common.{
  ℕ, ◌+◌, ◌*◌, ◌≤◌, ◌<◌, ◌≡◌, ◌≢◌, inl, inr, refl, sym, ap, ◌∙◌, arith, true, false, List, ◌∷◌,
  ◌==◌, ==_iff, Bool-cases,
}
use mathlib.Core.Bool.{true≢false}
use yack.Memory.{Memory, load32, load16, store32, memset}
use yack.Memory.Copy.{memset_lem}
use yack.Memory.Laws.{load32-store32_self, load32-store32_ne, store32_outside}
use yack.Memory.Region.{Outside, Apart, load32-Outside, load32-same}
use yack.Screen.Showing.{SameScreen}
use yack.Pages.{ListOps}
use yack.Pages.Lists.{ListLaws}
use yack.Pages.Queue.{IsPage, NotIn, OffPages, Free, Free-Outside}
use yack.Pages.Alloc.{OffOwn, screen-OffOwn, region-OffOwn, NotIn-OffPages, OffPages-inside}
use yack.Paging.Tables.{entry, absent, table, mapped, IsOwned, Tables, SameBut, pages-Apart}
use yack.Paging.Flags.{dir_flags, dir_flags-table}

NotIn-ne : (x p : ℕ) (ps : List ℕ) → NotIn x (p ∷ ps) → p ≢ x
NotIn-ne x p ps n e = n.0 (sym e)

-- `taken` is the memory once the allocator has given out the page `p`.
module _ {lists : ListOps} {laws : ListLaws lists} (registry directory lo hi : ℕ) (p : ℕ)
    (ps : List ℕ) (d : ℕ) (m taken : Memory) (t : Tables laws registry directory lo hi (p ∷ ps) m)
    (low : lo ≤ d) (high : d < hi) (new : absent m directory d ≡ true)
    (free : Free laws registry ps taken)
    (spared : (q : ℕ) → OffOwn registry (p ∷ ps) q → taken q ≡ m q) where
  -- The memory with a cleared table and its entry.
  abbrev pub grown : Memory
  grown = store32 (memset p 0 4096 taken).1 (directory + 4 * d) (dir_flags p)

  clears : Outside p 4096 taken (memset p 0 4096 taken).1
  clears q o = ground (arith, (memset_lem p 0 4096 taken).1 q)

  enters : Outside (directory + 4 * d) 4 (memset p 0 4096 taken).1 grown
  enters q o = store32_outside (memset p 0 4096 taken).1 (directory + 4 * d) (dir_flags p) q o

  page : IsPage p
  page = t.free.pages.0

  -- A word of memory that is neither the allocator's nor the new entry is as before.
  kept_word :
      (a : ℕ)
      → Apart a 4 registry 8
      → OffPages a 4 (p ∷ ps)
      → Apart (directory + 4 * d) 4 a 4
      → load32 grown a ≡ load32 m a
  kept_word a r (o, os) e =
      load32-store32_ne (memset p 0 4096 taken).1 (directory + 4 * d) a (dir_flags p) e
      ∙ load32-Outside p 4096 a clears (omega arith)
      ∙ load32-same a m taken
          (λ q l u. spared q (region-OffOwn registry a 4 q (p ∷ ps) r (o, os) l u))

  -- A word of a page in use is neither the registry's nor a free page's.
  owned_word :
      (x k : ℕ)
      → IsOwned registry (p ∷ ps) x
      → k < 1024
      → Apart (x + 4 * k) 4 registry 8 × OffPages (x + 4 * k) 4 (p ∷ ps)
  owned_word x k (ix, rx, nx) h = (
    omega arith,
    OffPages-inside x 4096 (x + 4 * k) 4 (p ∷ ps) (omega arith) (omega arith)
        (NotIn-OffPages registry x (p ∷ ps) ix.0 nx t.free.pages),
  )

  other_entry : (i : ℕ) → i < hi → i ≢ d → entry grown directory i ≡ entry m directory i
  other_entry i h ne =
      let w = owned_word directory i t.own (omega (arith, t.top)) in
      kept_word (directory + 4 * i) w.0 w.1 (ground arith)

  new_entry : entry grown directory d ≡ dir_flags p
  new_entry =
      load32-store32_self (memset p 0 4096 taken).1 (directory + 4 * d) (dir_flags p)
        (dir_flags-table p page).0

  new_table : table grown directory d ≡ p
  new_table = rw new_entry (dir_flags-table p page).1

  pub grown-there : absent grown directory d ≡ false
  grown-there = rw new_entry (dir_flags-table p page).2

  -- None of the writes is on the screen.
  pub grown-SameScreen : SameScreen m grown
  grown-SameScreen q l u =
      enters q (omega (arith, t.own.0.3, t.top))
      ∙ clears q (omega (arith, page.3))
      ∙ spared q (screen-OffOwn registry q (p ∷ ps) t.free.head_off t.free.pages l u)

  Free-grown : Free laws registry ps grown
  Free-grown =
      let off = NotIn-OffPages registry p ps page.0 t.free.pages.2 t.free.pages.3 in
      let cleared =
        Free-Outside registry ps p 4096 taken (memset p 0 4096 taken).1 clears off
          (omega (arith, t.free.pages.1)) free in
      let w = owned_word directory d t.own (omega (arith, t.top)) in
      Free-Outside registry ps (directory + 4 * d) 4 (memset p 0 4096 taken).1 grown enters w.1.1
        w.0 cleared

  -- The entries that were there are there, and lead to the same tables.
  old_entry :
      (i : ℕ)
      → i < hi
      → absent m directory i ≡ false
      → (i ≢ d) × (entry grown directory i ≡ entry m directory i)
  old_entry i h q =
      let ne : i ≢ d = λ e. true≢false (sym new ∙ ap (absent m directory) (sym e) ∙ q) in
      (ne, other_entry i h ne)

  fewer : (x : ℕ) → IsOwned registry (p ∷ ps) x → IsOwned registry ps x
  fewer x (ix, rx, nx) = (ix, rx, nx.1)

  grown-IsOwned :
      (i : ℕ)
      → lo ≤ i
      → i < hi
      → absent grown directory i ≡ false
      → IsOwned registry ps (table grown directory i) × (table grown directory i ≢ directory)
  grown-IsOwned i l u q = elim (Bool-cases (i == d)) [
    | inl e ↦
        let e' : i ≡ d = (==_iff i d).0 e in
        rw (e', new_entry, (dir_flags-table p page).1)
          ((page, t.free.pages.1, t.free.pages.2), NotIn-ne directory p ps t.own.2)
    | inr ne ↦
        let same = other_entry i u (ground arith) in
        let q' : absent m directory i ≡ false = rw (sym same) q in
        let o = t.owned i l u q' in rw same (fewer (table m directory i) o.0, o.1)
  ]

  -- The new table is no other one: those were in use, and it was free.
  new_apart :
      (j : ℕ)
      → lo ≤ j
      → j < hi
      → j ≢ d
      → absent grown directory j ≡ false
      → p ≢ table grown directory j
  new_apart j l u ne q =
      let same = other_entry j u ne in
      let q' : absent m directory j ≡ false = rw (sym same) q in
      rw same (NotIn-ne (table m directory j) p ps (t.owned j l u q').0.2)

  grown_distinct :
      (i j : ℕ)
      → lo ≤ i
      → i < hi
      → lo ≤ j
      → j < hi
      → absent grown directory i ≡ false
      → absent grown directory j ≡ false
      → i ≢ j
      → table grown directory i ≢ table grown directory j
  grown_distinct i j li hi' lj hj qi qj ne = elim (Bool-cases (i == d)) [
    | inl e ↦
        let e' : i ≡ d = (==_iff i d).0 e in
        rw (e', new_table) (new_apart j lj hj (λ x. ne (e' ∙ sym x)) qj)
    | inr ni ↦ elim (Bool-cases (j == d)) [
      | inl e ↦
          let e' : j ≡ d = (==_iff j d).0 e in
          rw (e', new_table) (λ x. new_apart i li hi' (ground arith) qi (sym x))
      | inr nj ↦
          let si = other_entry i hi' (ground arith) in
          let sj = other_entry j hj (ground arith) in
          let qi' : absent m directory i ≡ false = rw (sym si) qi in
          let qj' : absent m directory j ≡ false = rw (sym sj) qj in
          rw (si, sj) (t.distinct i j li hi' lj hj qi' qj' ne)
    ]
  ]

  -- The directory and its tables are in order, and one page less is free.
  pub grown-Tables : Tables laws registry directory lo hi ps grown
  grown-Tables = record {
    free = Free-grown;
    top = t.top;
    own = fewer directory t.own;
    owned = grown-IsOwned;
    distinct = grown_distinct;
  }

  zero_word : (k : ℕ) → k < 1024 → load32 (memset p 0 4096 taken).1 (p + 4 * k) ≡ 0
  zero_word k h =
      load32-same (p + 4 * k) (λ _. 0) (memset p 0 4096 taken).1
        (λ q l u. ground (arith, (memset_lem p 0 4096 taken).1 q))
      ∙ unfold load32 load16 in refl

  -- The new table maps nothing yet.
  grown-zero : (k : ℕ) → k < 1024 → mapped grown directory d k ≡ 0
  grown-zero k h =
      let apart = pages-Apart p directory page.0 t.own.0.0 (NotIn-ne directory p ps t.own.2) in
      rw new_table (
        load32-store32_ne (memset p 0 4096 taken).1 (directory + 4 * d) (p + 4 * k) (dir_flags p)
          (omega (arith, apart, t.top))
        ∙ zero_word k h)

  old_mapped :
      (j e : ℕ)
      → lo ≤ j
      → j < hi
      → e < 1024
      → absent m directory j ≡ false
      → mapped grown directory j e ≡ mapped m directory j e
  old_mapped j e l u h q =
      let o = old_entry j u q in
      let x = (t.owned j l u q).0 in
      let w = owned_word (table m directory j) e x h in
      let apart = pages-Apart (table m directory j) directory x.0.0 t.own.0.0 (t.owned j l u q).1 in
      rw o.1 (kept_word (table m directory j + 4 * e) w.0 w.1 (omega (arith, apart, t.top)))

  -- What was mapped is still mapped, and nothing else is.
  pub grown-SameBut : (i k : ℕ) → SameBut directory lo hi i k m grown
  grown-SameBut i k = record {
    still = λ j l u q. let o = old_entry j u q in rw o.1 q;
    same = λ j e l u h q ne. old_mapped j e l u h q;
    blank = λ j e l u h ne z q. elim (Bool-cases (j == d)) [
      | inl y ↦ let y' : j ≡ d = (==_iff j d).0 y in rw y' (grown-zero e h)
      | inr y ↦
          let q' : absent m directory j ≡ false = rw (sym (other_entry j u (ground arith))) q in
          old_mapped j e l u h q' ∙ z q'
    ];
  }
