-- ===== src/Paging/Walk.antt =====
-- What a walk of the page tables finds after a page has been mapped.
use yack.Common.{
  ℕ, zero, suc, ◌+◌, ◌*◌, ◌/◌, ◌%◌, ◌^◌, ◌≤◌, ◌<◌, ◌≡◌, ◌⊎◌, refl, ◌∙◌, arith, true, false, ◌==◌,
  ==_iff, bit_and, bit_or,
}
use yack.Common.Bits.{or_congr, or_fields, or-zero, or_low}
use yack.Layout.{is_page_aligned}
use yack.Memory.{Memory, load32}
use yack.Memory.Laws.{load32-store32_self, load32-store32_ne, store32_outside}
use yack.Machine.{Machine, done}
use yack.Io.{kassert}
use yack.Pages.{ListOps}
use yack.Paging.{dir_entry, table_entry, set_entry, vm_map_page}

-- The table entry that the processor finds for an address, through an entry of the directory.
abbrev pub walk : Memory → (directory vaddr : ℕ) → ℕ
walk m directory vaddr = load32 m (table_entry (load32 m (dir_entry directory vaddr)) vaddr)

low_bit : (b : ℕ) → b < 2 → bit_or b 1 ≡ 1
low_bit zero h = refl
low_bit (suc zero) h = refl
low_bit (suc (suc b)) h = absurd (omega arith)

-- With the low bit set a number is the next odd one, or itself.
or_one : (r : ℕ) → bit_or r 1 ≡ r / 2 * 2 + 1
or_one r = omega (
  arith,
  or_congr r (r / 2 * 2 ^ 1 + r % 2) 1 (0 * 2 ^ 1 + 1) (omega arith) (omega arith),
  or_fields 1 (r / 2) (r % 2) 0 1 (omega arith) (omega arith),
  or-zero (r / 2),
  low_bit (r % 2) (omega arith),
)

pub entry_value :
    (paddr permissions : ℕ)
    → paddr % 4096 ≡ 0
    → permissions < 4096
    → bit_or (bit_or paddr permissions) 1 ≡ paddr + (permissions / 2 * 2 + 1)
entry_value paddr permissions a small = omega (
  arith,
  or_congr paddr (paddr / 4096 * 2 ^ 12) permissions permissions (omega arith) refl,
  or_low 12 (paddr / 4096) permissions (omega arith),
  or_one (bit_or paddr permissions),
)

pub aligned : (a : ℕ) → is_page_aligned a ≡ true → a % 4096 ≡ 0
unfolding is_page_aligned
aligned a h = (==_iff (a % 4096) 0).0 h

-- The address of the slot that is written.
abbrev pub slot : Memory → (directory vaddr : ℕ) → ℕ
slot m directory vaddr = table_entry (load32 m (dir_entry directory vaddr)) vaddr

-- The bytes of the slot are not those of the entry of the directory.
abbrev pub Apart : Memory → (directory vaddr : ℕ) → Type 0
Apart m directory vaddr =
    (slot m directory vaddr + 4 ≤ dir_entry directory vaddr)
    ⊎ (dir_entry directory vaddr + 4 ≤ slot m directory vaddr)

walk-set_entry :
    (directory vaddr paddr permissions : ℕ) (m : Machine)
    → paddr % 4096 ≡ 0
    → paddr < 2 ^ 32
    → permissions < 4096
    → Apart m.memory directory vaddr
    → walk (set_entry directory vaddr paddr permissions m).memory directory vaddr
      ≡ paddr + (permissions / 2 * 2 + 1)
walk-set_entry directory vaddr paddr permissions m a small low apart =
    let e = entry_value paddr permissions a low in
    let kept =
      load32-store32_ne m.memory (slot m.memory directory vaddr) (dir_entry directory vaddr)
        (bit_or (bit_or paddr permissions) 1) apart in
    rw kept (
      load32-store32_self m.memory (slot m.memory directory vaddr)
        (bit_or (bit_or paddr permissions) 1) (rw e (omega arith))
      ∙ e)

pub vm_map_page_lem :
    (lists : ListOps) (registry directory vaddr paddr permissions : ℕ) (m : Machine)
    → is_page_aligned vaddr ≡ true
    → is_page_aligned paddr ≡ true
    → (bit_and (load32 m.memory (dir_entry directory vaddr)) 1 == 0) ≡ false
    → vm_map_page lists registry directory vaddr paddr permissions m
      ≡ done 0 (set_entry directory vaddr paddr permissions m)
unfolding vm_map_page kassert
vm_map_page_lem lists registry directory vaddr paddr permissions m va pa there =
    rw (va, pa) (rw there refl)

-- For aligned addresses, permissions below 4096 and a directory whose entry for the address is
-- present and does not share its bytes with the slot of the table that it leads to,
-- `vm_map_page_` returns 0; a walk of the tables then finds the physical address with the
-- permissions and the present bit, and any byte `q` outside the slot is as before.
vm_map_page-walk :
    (lists : ListOps) (registry directory vaddr paddr permissions : ℕ) (m : Machine) (q : ℕ)
    → is_page_aligned vaddr ≡ true
    → is_page_aligned paddr ≡ true
    → paddr < 2 ^ 32
    → permissions < 4096
    → (bit_and (load32 m.memory (dir_entry directory vaddr)) 1 == 0) ≡ false
    → Apart m.memory directory vaddr
    → (q < slot m.memory directory vaddr) ⊎ (slot m.memory directory vaddr + 4 ≤ q)
    → (n : Machine) × (vm_map_page lists registry directory vaddr paddr permissions m ≡ done 0 n)
      × (walk n.memory directory vaddr ≡ paddr + (permissions / 2 * 2 + 1))
      × (n.memory q ≡ m.memory q)
vm_map_page-walk lists registry directory vaddr paddr permissions m q va pa small low there apart
      o =
    (
      set_entry directory vaddr paddr permissions m,
      vm_map_page_lem lists registry directory vaddr paddr permissions m va pa there,
      walk-set_entry directory vaddr paddr permissions m (aligned paddr pa) small low apart,
      store32_outside m.memory (slot m.memory directory vaddr) (bit_or (bit_or paddr permissions) 1)
          q o,
    )
