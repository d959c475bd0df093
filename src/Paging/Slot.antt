-- ===== src/Paging/Slot.antt =====
-- The end of `vm_map_page_`: an entry of a table that is there is written.
use yack.Common.{
  ℕ, ◌+◌, ◌*◌, ◌/◌, ◌^◌, ◌≤◌, ◌<◌, ◌≡◌, ◌≢◌, ◌⊎◌, inl, inr, sym, arith, false, List, ◌==◌, ==_iff,
  Bool-cases, ◌∙◌,
}
use yack.Memory.{Memory, store32}
use yack.Memory.Laws.{load32-store32_self, load32-store32_ne, store32_outside}
use yack.Memory.Region.{Outside, Apart}
use yack.Layout.{pt_index}
use yack.Layout.Laws.{index_mask}
use yack.Screen.Showing.{SameScreen}
use yack.Pages.{ListOps}
use yack.Pages.Lists.{ListLaws}
use yack.Pages.Alloc.{NotIn-OffPages, OffPages-inside}
use yack.Paging.Tables.{
  entry, absent, table, mapped, IsOwned, Tables, SameBut, pages-Apart, entry-Outside,
  Tables-Outside,
}

pub pt_index-lt : (v : ℕ) → pt_index v < 1024
unfolding pt_index
pt_index-lt v = omega (arith, index_mask (v / 4096))

-- What `vm_map_page_` is to write: the frame, the permissions and the present bit.
abbrev pub entry_for : (paddr permissions : ℕ) → ℕ
entry_for paddr permissions = paddr + (permissions / 2 * 2 + 1)

words-Apart : (a k l : ℕ) → l ≢ k → Apart (a + 4 * k) 4 (a + 4 * l) 4
words-Apart a k l ne = ground arith

module _ {lists : ListOps} {laws : ListLaws lists} (registry directory lo hi : ℕ) (ps : List ℕ)
    (i k value : ℕ) (m : Memory) (t : Tables laws registry directory lo hi ps m) (low : lo ≤ i)
    (high : i < hi) (in_table : k < 1024) (there : absent m directory i ≡ false) where
  -- The memory with the entry `k` of the table `i` written.
  abbrev pub written : Memory
  written = store32 m (table m directory i + 4 * k) value

  owner : IsOwned registry ps (table m directory i) × (table m directory i ≢ directory)
  owner = t.owned i low high there

  slot_off : Apart (table m directory i + 4 * k) 4 directory 4096
  slot_off =
      let apart = pages-Apart (table m directory i) directory owner.0.0.0 t.own.0.0 owner.1 in
      omega (arith, apart)

  changes : Outside (table m directory i + 4 * k) 4 m written
  changes q o = store32_outside m (table m directory i + 4 * k) value q o

  pub written-SameScreen : SameScreen m written
  written-SameScreen q l u = changes q (omega (arith, owner.0.0.3))

  pub written-Tables : Tables laws registry directory lo hi ps written
  written-Tables =
      Tables-Outside registry directory lo hi ps m written (table m directory i + 4 * k) 4 changes
        slot_off (omega (arith, owner.0.1))
        (OffPages-inside (table m directory i) 4096 (table m directory i + 4 * k) 4 ps (omega arith)
          (omega arith)
          (NotIn-OffPages registry (table m directory i) ps owner.0.0.0 owner.0.2 t.free.pages))
        t

  pub same_entry : (j : ℕ) → j < hi → entry written directory j ≡ entry m directory j
  same_entry j h =
      entry-Outside directory m written (table m directory i + 4 * k) 4 j (omega (arith, t.top))
        changes slot_off

  pub written-mapped : value < 2 ^ 32 → mapped written directory i k ≡ value
  written-mapped small =
      rw (same_entry i high) (load32-store32_self m (table m directory i + 4 * k) value small)

  other_slot :
      (j l : ℕ)
      → lo ≤ j
      → j < hi
      → l < 1024
      → absent m directory j ≡ false
      → (j ≢ i) ⊎ (l ≢ k)
      → Apart (table m directory i + 4 * k) 4 (table m directory j + 4 * l) 4
  other_slot j l lj hj hl p ne = elim (Bool-cases (j == i)) [
    | inl e ↦
        let e' : j ≡ i = (==_iff j i).0 e in
        rw e' (elim ne [ inl d ↦ absurd (d e') | inr d ↦ words-Apart (table m directory i) k l d ])
    | inr d ↦
        let d' : j ≢ i = ground arith in
        let other = t.owned j lj hj p in
        let apart =
          pages-Apart (table m directory i) (table m directory j) owner.0.0.0 other.0.0.0
            (t.distinct i j low high lj hj there p (λ e. d' (sym e))) in
        omega (arith, apart)
  ]

  pub written-SameBut : SameBut directory lo hi i k m written
  written-SameBut = record {
    still = λ j l u p. rw (same_entry j u) p;
    same = λ j l lj hj hl p ne. rw (same_entry j hj) (
        load32-store32_ne m (table m directory i + 4 * k) (table m directory j + 4 * l) value
          (other_slot j l lj hj hl p ne));
    blank = λ j l lj hj hl ne z p.
        let p' : absent m directory j ≡ false = rw (sym (same_entry j hj)) p in
        rw (same_entry j hj) (
          load32-store32_ne m (table m directory i + 4 * k) (table m directory j + 4 * l) value
            (other_slot j l lj hj hl p' ne)
          ∙ z p');
  }
