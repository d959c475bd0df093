-- ===== src/Control.antt =====
-- The control registers of arch/i386/include/x86.h and `kmv_switch` of kernel/mm/kvm.c.
pub mod Switch
mod Tests
use yack.Common.{ℕ, bit_or}
use yack.Layout.{phys_addr}

pub record Registers : Type 0 where
  pub cr0 : ℕ
  pub cr2 : ℕ
  pub cr3 : ℕ
  pub cr4 : ℕ

-- Each write is an `orl` on the value that the register has.
unfoldable pub set_cr0 : (value : ℕ) → Registers → Registers
set_cr0 value r = record r { cr0 = bit_or r.cr0 value }

unfoldable pub set_cr2 : (value : ℕ) → Registers → Registers
set_cr2 value r = record r { cr2 = bit_or r.cr2 value }

unfoldable pub set_cr3 : (value : ℕ) → Registers → Registers
set_cr3 value r = record r { cr3 = bit_or r.cr3 value }

unfoldable pub set_cr4 : (value : ℕ) → Registers → Registers
set_cr4 value r = record r { cr4 = bit_or r.cr4 value }

-- `kpagedir` is the address that `kvm_init` keeps.
unfoldable pub kmv_switch : (kpagedir : ℕ) → Registers → Registers
kmv_switch kpagedir r = set_cr3 (phys_addr kpagedir) r
