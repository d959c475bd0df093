-- ===== src/Pages.antt =====
-- The page allocator, kernel/mm/pages.c. A free page holds the magic number and, behind it, its
-- links in the list of free pages. The lock is an empty structure whose operations do nothing.
pub mod Lists
pub mod Linked
pub mod Queue
pub mod Alloc
pub mod Range
pub mod Calls
mod Tests
use yack.Common.{
  ℕ, zero, suc, ◌+◌, ◌-◌, ◌/◌, ◌%◌, ◌^◌, not, ◌&&◌, ◌==◌, ltb, if◌then◌else◌, sub_u32, [], ◌∷◌,
}
use yack.Layout.{page_size, page_up, is_page_aligned}
use yack.Memory.{Memory, store32, load32}
use yack.Machine.{Kernel, when, ◌>>◌, pure, change}
use yack.Format.{word, codes}
use yack.Io.{klog, kassert}

-- The functions of utils/include/list.h that the allocator calls. `first` is the first entry of
-- the list with the given head, or 0.
pub record ListOps : Type 0 where
  pub first : (head : ℕ) → Memory → ℕ
  pub del : (entry : ℕ) → Memory → Memory
  pub add_tail : (entry head : ℕ) → Memory → Memory

abbrev pub magic : ℕ
magic = 0xDEADBEAF

-- The offset of `free_list` in `struct page`.
abbrev pub free_list : ℕ
free_list = 4

-- The page of an entry, 0 for none.
abbrev pub page_at : ℕ → ℕ
page_at entry = if entry == 0 then 0 else entry - free_list

-- A difference of pointers is signed, and its quotient is rounded towards 0.
abbrev pub page_count : (first last : ℕ) → ℕ
page_count first last =
    let size = sub_u32 last first in
    if ltb size (2 ^ 31) then size / page_size else sub_u32 0 (sub_u32 0 size / page_size)

-- `registry` is the address of `registry_.pr_freepages`.
module _ (lists : ListOps) (registry : ℕ) where
  -- With no free page the code takes the links at address 4 out of a list, and returns 0.
  unfoldable pub kpalloc : Kernel ℕ
  kpalloc m =
      let page = page_at (lists.first registry m.memory) in
      (change (λ n. record n { memory = lists.del (page + free_list) n.memory })
          >> (λ n.
              when (not (page == 0))
                (kassert (load32 n.memory page == magic) (codes "pages.c") 35
                  (codes "page->magic_number == 0xDEADBEAF"))
                n)
          >> pure page)
        m

  unfoldable pub kpfree : (address : ℕ) → Kernel (Unit {0})
  kpfree address =
      kassert (not (address == 0) && is_page_aligned address) (codes "pages.c") 56
        (codes "address && mm_is_page_aligned(address)")
      >> change (λ m. record m { memory = store32 m.memory address magic })
      >> change (λ m. record m { memory = lists.add_tail (address + free_list) registry m.memory })

  -- The loop of `kpfree_range`, with the rounds left.
  unfoldable pub free_pages : (rounds curr : ℕ) → Kernel (Unit {0})
  free_pages zero curr = pure tt
  free_pages (suc rounds) curr = kpfree curr >> free_pages rounds (curr + page_size)

  -- Both ends are at page boundaries, so that the loop has one round for each page between them.
  unfoldable pub kpfree_range : (start end : ℕ) → Kernel (Unit {0})
  kpfree_range start end =
      let first = page_up start in
      let last = page_up end in
      klog (codes "DEBUG") (codes "pages: first = %p, last = %p, count = %u\n")
        (word first ∷ word last ∷ word (page_count first last) ∷ [])
      >> free_pages ((last - first) / page_size) first
