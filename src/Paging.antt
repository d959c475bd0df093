-- ===== src/Paging.antt =====
-- The page tables: `vm_map_page_`, `vm_map_pages`, `kvm_create` and `kvm_init` of
-- kernel/mm/kvm.c. A table is 1024 entries of 32 bits in memory.
pub mod Walk
pub mod Tables
pub mod Slot
pub mod Flags
pub mod Grow
pub mod Page
pub mod NewTable
pub mod Exhausted
pub mod Range
pub mod Whole
pub mod Calls
pub mod Create
pub mod Screened
pub mod Translate
pub mod Init
mod Tests
use yack.Common.{
  ℕ, zero, suc, ◌+◌, ◌-◌, ◌*◌, ◌/◌, ◌%◌, ◌^◌, bit_and, bit_or, Bool, not, ◌&&◌, ◌==◌, if◌then◌else◌,
  sub_u32, u32, [],
}
use yack.Layout.{
  page_size, page_up, page_down, is_page_aligned, pd_index, pt_index, pte_addr, phys_addr,
  virt_addr, extended_memory, kernel_base, kernel_link,
}
use yack.Memory.{Memory, store32, load32, memset}
use yack.Machine.{Machine, Outcome, done, Kernel, ◌>>=◌, ◌>>◌, pure, change, when, and_then}
use yack.Format.{codes}
use yack.Io.{klog, kassert}
use yack.Pages.{ListOps, kpalloc, kpfree_range}

abbrev pub present : ℕ
present = 1

-- `X86_PTE_RDONLY` and `X86_PTE_RDWR`
abbrev pub read_only : ℕ
read_only = 0

abbrev pub read_write : ℕ
read_write = 2

-- `&directory[page_index]`
abbrev pub dir_entry : (directory vaddr : ℕ) → ℕ
dir_entry directory vaddr = directory + 4 * pd_index vaddr

-- The table that an entry of the directory leads to, and `&page_table[table_index]` in it.
abbrev pub table_of : (entry : ℕ) → ℕ
table_of entry = virt_addr (pte_addr entry)

abbrev pub table_entry : (entry vaddr : ℕ) → ℕ
table_entry entry vaddr = table_of entry + 4 * pt_index vaddr

-- The end of `vm_map_page_`, once the directory has an entry.
abbrev pub set_entry : (directory vaddr paddr permissions : ℕ) → Machine → Machine
set_entry directory vaddr paddr permissions m = record m {
  memory =
      store32 m.memory (table_entry (load32 m.memory (dir_entry directory vaddr)) vaddr)
        (bit_or (bit_or paddr permissions) present);
}

module _ (lists : ListOps) (registry : ℕ) where
  -- A new table for the entry at `entry`.
  unfoldable pub allocate_table : (entry : ℕ) → Kernel (Unit {0})
  allocate_table entry =
      klog (codes "DEBUG") (codes "Allocating a new page directory\n") []
      >> (kpalloc lists registry >>= λ page_table.
          kassert (not (page_table == 0)) (codes "kvm.c") 226 (codes "page_table != NULL")
          >> change (λ m. record m { memory = (memset page_table 0 page_size m.memory).1 })
          >> change (λ m. record m {
            memory = store32 m.memory entry (bit_or (bit_or (bit_or (phys_addr page_table) 1) 2) 4);
          }))

  unfoldable pub vm_map_page : (directory vaddr paddr permissions : ℕ) → Kernel ℕ
  vm_map_page directory vaddr paddr permissions =
      kassert (is_page_aligned vaddr && is_page_aligned paddr) (codes "kvm.c") 210
        (codes "mm_is_page_aligned(vaddr) && mm_is_page_aligned(paddr)")
      >> (λ m.
          when (bit_and (load32 m.memory (dir_entry directory vaddr)) present == 0)
            (allocate_table (dir_entry directory vaddr)) m)
      >> change (set_entry directory vaddr paddr permissions)
      >> pure 0

  -- The loop of `vm_map_pages`, with the rounds left; it ends early when a page is not mapped.
  unfoldable pub map_loop : (rounds directory curr paddr permissions total_maps : ℕ) → Kernel ℕ
  map_loop zero directory curr paddr permissions total_maps = pure total_maps
  map_loop (suc rounds) directory curr paddr permissions total_maps =
      vm_map_page directory curr paddr permissions >>= λ result.
      if result == 0
      then map_loop rounds directory (curr + page_size) (u32 (paddr + page_size)) permissions
          (total_maps + 1)
      else pure total_maps

  -- Both ends are at page boundaries, so that the loop has one round for each page between them.
  unfoldable pub vm_map_pages : (directory vaddr paddr size permissions : ℕ) → Kernel ℕ
  vm_map_pages directory vaddr paddr size permissions =
      let first = page_down vaddr in
      let last = page_up (u32 (vaddr + size)) in
      map_loop ((last - first) / page_size) directory first paddr permissions 0

  -- `data` and `end` are the symbols of the linker.
  unfoldable pub kvm_create : (data_start end : ℕ) → Kernel ℕ
  kvm_create data_start end = kpalloc lists registry >>= λ pagedir.
      kassert (not (pagedir == 0)) (codes "kvm.c") 31 (codes "pagedir != NULL")
      >> (vm_map_pages pagedir kernel_base 0 extended_memory read_write >>= λ _.
          vm_map_pages pagedir kernel_link extended_memory
            (sub_u32 (phys_addr data_start) extended_memory) read_only
          >>= λ _.
              vm_map_pages pagedir data_start (phys_addr data_start) (sub_u32 end data_start)
                read_write
              >>= λ _. pure pagedir)

  -- The result is what the code keeps in `kpagedir_`; `boot_directory` is the address of
  -- `x86_page_directory`.
  unfoldable pub kvm_init : (boot_directory data_start end : ℕ) → Kernel ℕ
  kvm_init boot_directory data_start end =
      change (λ m. record m { memory = store32 m.memory boot_directory 0 })
      >> kpfree_range lists registry end (virt_addr 0x400000)
      >> kvm_create data_start end
