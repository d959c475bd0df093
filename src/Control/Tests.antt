-- ===== src/Control/Tests.antt =====
-- A switch from the directory of the loader, at 0x103000, to one at 0x107000 and to one at 0x10C000.
use yack.Common.{◌≡◌, ◌↔◌, refl, bit_and}
use yack.Layout.{phys_addr}
use yack.Control.{Registers, set_cr3, kmv_switch}
use yack.Control.Switch.{kmv_switch-switches}

abbrev loaded : Registers
loaded = record { cr0 = 0x80000001; cr2 = 0; cr3 = 0x103000; cr4 = 0x10 }

lucky : (kmv_switch 0x80107000 loaded).cr3 ≡ 0x107000
unfolding kmv_switch set_cr3 phys_addr
lucky = refl

-- Neither directory is there.
lost : (kmv_switch 0x8010C000 loaded).cr3 ≡ 0x10F000
unfolding kmv_switch set_cr3 phys_addr
lost = refl

kmv_switch-switches_example :
    ((kmv_switch 0x8010C000 loaded).cr3 ≡ phys_addr 0x8010C000)
    ↔ (bit_and 0x103000 (phys_addr 0x8010C000) ≡ 0x103000)
kmv_switch-switches_example = kmv_switch-switches 0x8010C000 loaded
