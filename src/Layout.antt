-- ===== src/Layout.antt =====
-- The address macros of arch/i386/include/x86.h and arch/i386/include/memlayout.h, in 32 bits.
pub mod Laws
use yack.Common.{
  ℕ, ◌+◌, ◌-◌, ◌*◌, ◌/◌, ◌%◌, ◌^◌, bit_and, bit_or, Bool, u32, sub_u32, ◌<<<◌, ◌>>>◌, ◌==◌,
}

abbrev pub extended_memory : ℕ
extended_memory = 0x100000

abbrev pub kernel_base : ℕ
kernel_base = 0x80000000

abbrev pub kernel_link : ℕ
kernel_link = 0x80100000

abbrev pub page_size : ℕ
page_size = 4096

unfoldable pub phys_addr : ℕ → ℕ
phys_addr va = sub_u32 va kernel_base

unfoldable pub virt_addr : ℕ → ℕ
virt_addr pa = u32 (pa + kernel_base)

-- `~(X86_PAGESZ - 1)` and `~0xFFF` in 32 bits.
abbrev pub page_mask : ℕ
page_mask = 0xFFFFF000

-- The sum is done in `u32` before the mask.
unfoldable pub page_up : ℕ → ℕ
page_up size = bit_and (u32 (size + 4095)) page_mask

unfoldable pub page_down : ℕ → ℕ
page_down size = bit_and size page_mask

unfoldable pub is_page_aligned : ℕ → Bool
is_page_aligned addr = addr % page_size == 0

unfoldable pub pd_index : ℕ → ℕ
pd_index va = bit_and (va >>> 22) 0x3FF

unfoldable pub pt_index : ℕ → ℕ
pt_index va = bit_and (va >>> 12) 0x3FF

unfoldable pub pte_addr : ℕ → ℕ
pte_addr pte = bit_and pte page_mask

unfoldable pub pte_flags : ℕ → ℕ
pte_flags pte = bit_and pte 0xFFF

unfoldable pub make_va : ℕ → ℕ → ℕ → ℕ
make_va dir tab off =
    bit_or (bit_or (u32 (bit_and dir 0x3FF <<< 22)) (bit_and tab 0x3FF <<< 12)) (bit_and off 0xFFF)
