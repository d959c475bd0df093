-- ===== src/Layout/Laws.antt =====
-- What the address macros compute, and how they fit together.
use yack.Common.{
  ℕ, ◌+◌, ◌*◌, ◌/◌, ◌%◌, ◌^◌, ◌≤◌, ◌<◌, ◌≡◌, true, bit_and, bit_or, arith, u32, leb, if◌then◌else◌,
}
use yack.Common.Bits.{and_low, and_high, or_low, or_congr}
use yack.Layout.{
  phys_addr, virt_addr, page_up, page_down, is_page_aligned, pd_index, pt_index, pte_addr,
  pte_flags, make_va,
}

pub page_mask_lem : (a : ℕ) → a < 2 ^ 32 → bit_and a 0xFFFFF000 ≡ a / 4096 * 4096
page_mask_lem a h = and_high 12 20 a h

low_mask : (a : ℕ) → bit_and a 0xFFF ≡ a % 4096
low_mask a = and_low 12 a

pub index_mask : (a : ℕ) → bit_and a 0x3FF ≡ a % 1024
index_mask a = and_low 10 a

-- A kernel address and its physical address, of 32 bits, are converted back and forth without
-- loss.
pub phys_addr-virt_addr :
    (a : ℕ) → a < 2 ^ 32 → (phys_addr (virt_addr a) ≡ a) × (virt_addr (phys_addr a) ≡ a)
unfolding phys_addr virt_addr
phys_addr-virt_addr a h = omega arith

-- Rounding down a 32-bit address gives the last page boundary at or below it.
page_down_lem :
    (a : ℕ)
    → a < 2 ^ 32
    → (is_page_aligned (page_down a) ≡ true) × (page_down a ≤ a) × (a < page_down a + 4096)
unfolding page_down is_page_aligned
page_down_lem a h = ground (arith, page_mask_lem a h)

-- Rounding up a 32-bit address gives the first page boundary at or above it, unless the address
-- lies in the last page of the address space, where the sum wraps and the result is 0.
pub page_up_lem :
    (a : ℕ)
    → a < 2 ^ 32
    → (is_page_aligned (page_up a) ≡ true)
      × (page_up a ≡ (if leb a 0xFFFFF000 then (a + 4095) / 4096 * 4096 else 0))
unfolding page_up is_page_aligned
page_up_lem a h = ground (arith, page_mask_lem (u32 (a + 4095)) (omega arith))

make_va_sum :
    (dir tab off : ℕ) → make_va dir tab off ≡ dir % 1024 * 4194304 + tab % 1024 * 4096 + off % 4096
unfolding make_va
make_va_sum dir tab off = omega (
  arith,
  index_mask dir,
  index_mask tab,
  low_mask off,
  or_congr (u32 (bit_and dir 1023 * 4194304)) (dir % 1024 * 2 ^ 22) (bit_and tab 1023 * 4096)
      (tab % 1024 * 4096) (omega (arith, index_mask dir)) (omega (arith, index_mask tab)),
  or_low 22 (dir % 1024) (tab % 1024 * 4096) (omega arith),
  or_congr (bit_or (u32 (bit_and dir 1023 * 4194304)) (bit_and tab 1023 * 4096))
      ((dir % 1024 * 1024 + tab % 1024) * 2 ^ 12) (bit_and off 4095) (off % 4096),
  or_low 12 (dir % 1024 * 1024 + tab % 1024) (off % 4096) (omega arith),
)

-- The two indices and the offset of an address of 32 bits make up the address again.
make_va-split : (va : ℕ) → va < 2 ^ 32 → make_va (pd_index va) (pt_index va) (pte_flags va) ≡ va
unfolding pd_index pt_index pte_flags
make_va-split va h = omega (
  arith,
  make_va_sum (bit_and (va / 4194304) 1023) (bit_and (va / 4096) 1023) (bit_and va 4095),
  index_mask (va / 4194304),
  index_mask (va / 4096),
  low_mask va,
)

-- Taking apart an address that was put together from indices below 1024 and an offset below 4096
-- gives the parts back.
split-make_va :
    (dir tab off : ℕ)
    → dir < 1024
    → tab < 1024
    → off < 4096
    → (pd_index (make_va dir tab off) ≡ dir)
      × (pt_index (make_va dir tab off) ≡ tab)
      × (pte_flags (make_va dir tab off) ≡ off)
unfolding pd_index pt_index pte_flags
split-make_va dir tab off hd ht ho = (
  omega (arith, make_va_sum dir tab off, index_mask (make_va dir tab off / 4194304)),
  omega (arith, make_va_sum dir tab off, index_mask (make_va dir tab off / 4096)),
  omega (arith, make_va_sum dir tab off, low_mask (make_va dir tab off)),
)

-- A table entry of 32 bits is its frame address and its flags.
pte_addr-flags : (pte : ℕ) → pte < 2 ^ 32 → bit_or (pte_addr pte) (pte_flags pte) ≡ pte
unfolding pte_addr pte_flags
pte_addr-flags pte h =
    rw (page_mask_lem pte h, low_mask pte, or_low 12 (pte / 4096) (pte % 4096) (omega arith))
      (omega arith)
