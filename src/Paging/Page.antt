-- ===== src/Paging/Page.antt =====
-- `vm_map_page_` as a whole, with and without a new table.
use yack.Common.{ℕ, ◌%◌, ◌^◌, ◌≤◌, ◌<◌, ◌≡◌, refl, arith, Bool, true, false, List, [], ◌∷◌}
use yack.Layout.{is_page_aligned, pd_index, pt_index}
use yack.Machine.{Machine, done}
use yack.Machine.Kept.{Kept, Kept-trans}
use yack.Io.{kassert}
use yack.Io.Logged.{IsReady}
use yack.Io.Stores.{stored-IsReady, stored-Kept}
use yack.Pages.{ListOps}
use yack.Pages.Lists.{ListLaws}
use yack.Paging.{dir_entry, set_entry, allocate_table, vm_map_page}
use yack.Paging.Walk.{aligned, entry_value, vm_map_page_lem}
use yack.Paging.Tables.{absent, mapped, Tables, SameBut, SameBut-trans}
use yack.Paging.Slot.{
  pt_index-lt, entry_for, written-SameScreen, written-Tables, written-mapped, written-SameBut,
  same_entry,
}
use yack.Paging.NewTable.{allocate_table-Tables}

-- A free page for the table, if there is none yet, and the pages that are free then.
abbrev pub Supplied : (absent : Bool) → List ℕ → Type 0
Supplied true [] = ⊥
Supplied true (p ∷ ps) = Unit {0}
Supplied false ps = Unit {0}

abbrev pub remaining : (absent : Bool) → List ℕ → List ℕ
remaining true [] = []
remaining true (p ∷ ps) = ps
remaining false ps = ps

module _ {lists : ListOps} (laws : ListLaws lists) (registry directory lo hi : ℕ) where
  -- What is left once the address `vaddr` has the entry `value`.
  pub record PageMapped (ps : List ℕ) (vaddr value : ℕ) (m n : Machine) : Type 0 where
    pub ready : IsReady n
    pub kept : Kept m n
    pub tables : Tables laws registry directory lo hi ps n.memory
    pub there : absent n.memory directory (pd_index vaddr) ≡ false
    pub at : mapped n.memory directory (pd_index vaddr) (pt_index vaddr) ≡ value
    pub others : SameBut directory lo hi (pd_index vaddr) (pt_index vaddr) m.memory n.memory

  value_lt :
      (paddr permissions : ℕ)
      → paddr % 4096 ≡ 0
      → paddr < 2 ^ 32
      → permissions < 4096
      → entry_for paddr permissions < 2 ^ 32
  value_lt paddr permissions a s l = omega arith

  -- The write of the entry, when the table is there.
  set_entry-PageMapped :
      (vaddr paddr permissions : ℕ) (ps : List ℕ) (m : Machine)
      → paddr % 4096 ≡ 0
      → paddr < 2 ^ 32
      → permissions < 4096
      → lo ≤ pd_index vaddr
      → pd_index vaddr < hi
      → absent m.memory directory (pd_index vaddr) ≡ false
      → Tables laws registry directory lo hi ps m.memory
      → IsReady m
      → PageMapped ps vaddr
          (entry_for paddr permissions)
          m
          (set_entry directory vaddr paddr permissions m)
  set_entry-PageMapped vaddr paddr permissions ps m a small perm low high there t r =
      let v = entry_for paddr permissions in
      let i = pd_index vaddr in
      let k = pt_index vaddr in
      rw (entry_value paddr permissions a perm) (record {
        ready = stored-IsReady _ m r;
        kept = stored-Kept _ m (
            written-SameScreen registry directory lo hi ps i k v m.memory t low high
              (pt_index-lt vaddr) there);
        tables =
            written-Tables registry directory lo hi ps i k v m.memory t low high (pt_index-lt vaddr)
              there;
        there =
            rw
              (same_entry registry directory lo hi ps i k v m.memory t low high (pt_index-lt vaddr)
                there i high)
              there;
        at =
            written-mapped registry directory lo hi ps i k v m.memory t low high (pt_index-lt vaddr)
              there (value_lt paddr permissions a small perm);
        others =
            written-SameBut registry directory lo hi ps i k v m.memory t low high
              (pt_index-lt vaddr) there;
      })

  vm_map_page-new :
      (vaddr paddr permissions : ℕ) (m n : Machine)
      → is_page_aligned vaddr ≡ true
      → is_page_aligned paddr ≡ true
      → absent m.memory directory (pd_index vaddr) ≡ true
      → allocate_table lists registry (dir_entry directory vaddr) m ≡ done tt n
      → vm_map_page lists registry directory vaddr paddr permissions m
        ≡ done 0 (set_entry directory vaddr paddr permissions n)
  unfolding vm_map_page kassert
  vm_map_page-new vaddr paddr permissions m n va pa new e = rw (va, pa) (rw new (rw e refl))

  PageMapped-trans :
      (ps : List ℕ) (vaddr value : ℕ) (m n o : Machine)
      → Kept m n
      → SameBut directory lo hi (pd_index vaddr) (pt_index vaddr) m.memory n.memory
      → PageMapped ps vaddr value n o
      → PageMapped ps vaddr value m o
  PageMapped-trans ps vaddr value m n o k s p = record {
    ready = p.ready;
    kept = Kept-trans k p.kept;
    tables = p.tables;
    there = p.there;
    at = p.at;
    others =
        SameBut-trans directory lo hi (pd_index vaddr) (pt_index vaddr) m.memory n.memory o.memory s
          p.others;
  }

  by_presence :
      (b : Bool) (vaddr paddr permissions : ℕ) (ps : List ℕ) (m : Machine)
      → absent m.memory directory (pd_index vaddr) ≡ b
      → is_page_aligned vaddr ≡ true
      → is_page_aligned paddr ≡ true
      → paddr < 2 ^ 32
      → permissions < 4096
      → lo ≤ pd_index vaddr
      → pd_index vaddr < hi
      → Supplied b ps
      → Tables laws registry directory lo hi ps m.memory
      → IsReady m
      → (n : Machine) × (vm_map_page lists registry directory vaddr paddr permissions m ≡ done 0 n)
        × PageMapped (remaining b ps) vaddr (entry_for paddr permissions) m n
  by_presence false vaddr paddr permissions ps m e va pa small perm low high s t r = (
    set_entry directory vaddr paddr permissions m,
    vm_map_page_lem lists registry directory vaddr paddr permissions m va pa e,
    set_entry-PageMapped vaddr paddr permissions ps m (aligned paddr pa) small perm low high e t r,
  )
  by_presence true vaddr paddr permissions [] m e va pa small perm low high s t r = absurd s
  by_presence true vaddr paddr permissions (p ∷ ps) m e va pa small perm low high s t r =
      let i = pd_index vaddr in
      let k = pt_index vaddr in
      let a = allocate_table-Tables laws registry directory lo hi i i k p ps m low high e t r in
      (
        set_entry directory vaddr paddr permissions a.0,
        vm_map_page-new vaddr paddr permissions m a.0 va pa e a.1,
        PageMapped-trans ps vaddr (entry_for paddr permissions) m a.0
            (set_entry directory vaddr paddr permissions a.0) a.3 a.6
            (set_entry-PageMapped vaddr paddr permissions ps a.0 (aligned paddr pa) small perm low
              high a.5 a.4 a.2),
      )

  -- For aligned addresses, permissions below 4096, tables in order and a free page if the table
  -- is absent, on a machine that is ready for output: `vm_map_page_` returns 0 and leaves the
  -- tables in order, the entry for the address present with its frame and permissions, every
  -- other entry of the tables that were there as it was, no other entry that maps anything where
  -- nothing was mapped, and one free page less just if the table was absent.
  pub vm_map_page-PageMapped :
      (vaddr paddr permissions : ℕ) (ps : List ℕ) (m : Machine)
      → is_page_aligned vaddr ≡ true
      → is_page_aligned paddr ≡ true
      → paddr < 2 ^ 32
      → permissions < 4096
      → lo ≤ pd_index vaddr
      → pd_index vaddr < hi
      → Supplied (absent m.memory directory (pd_index vaddr)) ps
      → Tables laws registry directory lo hi ps m.memory
      → IsReady m
      → (n : Machine) × (vm_map_page lists registry directory vaddr paddr permissions m ≡ done 0 n)
        × PageMapped
            (remaining (absent m.memory directory (pd_index vaddr)) ps)
            vaddr
            (entry_for paddr permissions)
            m
            n
  vm_map_page-PageMapped vaddr paddr permissions ps m va pa small perm low high s t r =
      by_presence (absent m.memory directory (pd_index vaddr)) vaddr paddr permissions ps m refl va
        pa small perm low high s t r
