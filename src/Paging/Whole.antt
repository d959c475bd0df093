-- ===== src/Paging/Whole.antt =====
-- `vm_map_pages` on its arguments: what it maps, and that it never returns for a frame that is not
-- aligned.
use yack.Common.{
  ℕ, suc, ◌+◌, ◌-◌, ◌*◌, ◌/◌, ◌%◌, ◌^◌, ◌≤◌, ◌<◌, ◌≡◌, refl, ap, ◌∙◌, arith, false, ◌&&◌, List,
  length, u32,
}
use yack.Layout.{is_page_aligned, page_up, page_down, pd_index}
use yack.Layout.Laws.{page_mask_lem, page_up_lem}
use yack.Machine.{Machine, done, hung}
use yack.Machine.Kept.{Kept}
use yack.Format.{codes}
use yack.Io.Logged.{IsReady, kassert-hangs}
use yack.Pages.{ListOps}
use yack.Pages.Lists.{ListLaws}
use yack.Paging.{vm_map_page, map_loop, vm_map_pages}
use yack.Paging.Tables.{absent, Tables}
use yack.Paging.Range.{need, RangeMapped, map_loop-RangeMapped}

-- The number of pages that `size` bytes from `vaddr` on touch.
abbrev pub touched : (vaddr size : ℕ) → ℕ
touched vaddr size = (vaddr + size + 4095) / 4096 - vaddr / 4096

-- The first address of the page of `vaddr`.
abbrev pub page_of : ℕ → ℕ
page_of vaddr = vaddr / 4096 * 4096

module _ (lists : ListOps) (registry directory : ℕ) where
  vm_map_pages_loop :
      (vaddr paddr size permissions : ℕ) (m : Machine)
      → vaddr + size + 4096 ≤ 2 ^ 32
      → vm_map_pages lists registry directory vaddr paddr size permissions m
        ≡ map_loop lists registry
            (touched vaddr size)
            directory
            (page_of vaddr)
            paddr
            permissions
            0
            m
  unfolding vm_map_pages page_down
  vm_map_pages_loop vaddr paddr size permissions m small =
      let down = page_mask_lem vaddr (omega arith) in
      let wrap : u32 (vaddr + size) ≡ vaddr + size = omega arith in
      let up : page_up (vaddr + size) ≡ (vaddr + size + 4095) / 4096 * 4096 =
        ground (arith, page_up_lem (vaddr + size)) in
      let rounds : ((vaddr + size + 4095) / 4096 * 4096 - vaddr / 4096 * 4096) / 4096
          ≡ touched vaddr size =
        omega arith in
      rw (down, wrap, up, rounds) refl

module _ {lists : ListOps} (laws : ListLaws lists) (registry directory lo hi : ℕ) where
  -- For a range that does not reach the last page of the address space, page-aligned frames that
  -- stay inside 32 bits, permissions below 4096, tables in order for the range and free pages
  -- enough for the tables that it needs, on a machine that is ready for output: `vm_map_pages`
  -- returns the number of pages that the range touches. Each of them has its entry with its
  -- frame, all other entries are as before, where nothing was mapped nothing is mapped but for
  -- them, the tables are in order, and no more free pages are used than the range needs.
  pub vm_map_pages-RangeMapped :
      (vaddr paddr size permissions : ℕ) (ps : List ℕ) (m : Machine)
      → vaddr + size + 4096 ≤ 2 ^ 32
      → paddr % 4096 ≡ 0
      → paddr + touched vaddr size * 4096 ≤ 2 ^ 32
      → permissions < 4096
      → lo * 4194304 ≤ page_of vaddr
      → page_of vaddr + touched vaddr size * 4096 ≤ hi * 4194304
      → need
          (touched vaddr size)
          (absent m.memory directory (pd_index (page_of vaddr)))
          (page_of vaddr)
        ≤ length ps
      → Tables laws registry directory lo hi ps m.memory
      → IsReady m
      → (ps' : List ℕ) × (n : Machine) × (vm_map_pages lists registry directory vaddr paddr size
            permissions m
          ≡ done (touched vaddr size) n)
        × RangeMapped laws registry directory lo hi ps'
            (touched vaddr size)
            (page_of vaddr)
            paddr
            permissions
            m
            n
        × (length ps
            ≤ length ps'
              + need
                  (touched vaddr size)
                  (absent m.memory directory (pd_index (page_of vaddr)))
                  (page_of vaddr))
  vm_map_pages-RangeMapped vaddr paddr size permissions ps m small ap' up perm low high s t r =
      let l =
        map_loop-RangeMapped laws registry directory lo hi (touched vaddr size) (page_of vaddr)
          paddr permissions 0 ps m (omega arith) ap' (omega arith) up perm low high s t r in
      let all : 0 + touched vaddr size ≡ touched vaddr size = omega arith in
      (
        l.0,
        l.1,
        vm_map_pages_loop lists registry directory vaddr paddr size permissions m small
            ∙ l.2
            ∙ ap (λ k. done k l.1) all,
        l.3,
        l.4,
      )

-- An entry is written only for a frame that is aligned.
vm_map_page_unaligned :
    (lists : ListOps) (registry directory vaddr paddr permissions : ℕ) (m : Machine)
    → is_page_aligned paddr ≡ false
    → IsReady m
    → (n : Machine) × (vm_map_page lists registry directory vaddr paddr permissions m ≡ hung n)
      × Kept m n
unfolding vm_map_page
vm_map_page_unaligned lists registry directory vaddr paddr permissions m pa r =
    let h =
      kassert-hangs (codes "kvm.c") 210
        (codes "mm_is_page_aligned(vaddr) && mm_is_page_aligned(paddr)") m (omega arith)
        (omega arith) r in
    let no : (is_page_aligned vaddr && is_page_aligned paddr) ≡ false = ground (arith, pa) in
    (h.0, rw no (rw h.1 refl), h.2)

-- For a range that is not empty and does not reach the last page of the address space, with a
-- frame that is not aligned, `vm_map_pages` never returns, on a machine that is ready for output:
-- it ends in the failed assertion, with the other components' state as before.
pub vm_map_pages_unaligned :
    (lists : ListOps) (registry directory vaddr paddr size permissions : ℕ) (m : Machine)
    → vaddr + size + 4096 ≤ 2 ^ 32
    → 0 < size
    → is_page_aligned paddr ≡ false
    → IsReady m
    → (n : Machine) × (vm_map_pages lists registry directory vaddr paddr size permissions m
        ≡ hung n)
      × Kept m n
unfolding map_loop
vm_map_pages_unaligned lists registry directory vaddr paddr size permissions m small pos pa r =
    let some_pages : touched vaddr size ≡ suc (touched vaddr size - 1) = omega arith in
    let h =
      vm_map_page_unaligned lists registry directory (page_of vaddr) paddr permissions m pa r in
    (
      h.0,
      vm_map_pages_loop lists registry directory vaddr paddr size permissions m small
          ∙ rw some_pages (rw h.1 refl),
      h.2,
    )
