-- ===== src/Boot.antt =====
-- kernel/kmain.c: the order in which the kernel is set up, the shutdown and the timer's counter.
pub mod Timer
pub mod Line
pub mod Start
pub mod Running
pub mod Keys
mod Tests
use yack.Common.{ℕ, ◌+◌, ◌*◌, ◌/◌, ◌%◌, ◌^◌, bit_and, bit_or, ltb, [], u16, ◌<<<◌, ◌>>>◌}
use yack.Layout.{kernel_link}
use yack.Machine.{
  Machine, Outcome, done, Kernel, ◌>>=◌, ◌>>◌, pure, change, outb, outw, inb, io_wait, cli, sti,
  and_then,
}
use yack.Format.{codes}
use yack.Io.{klog, kassert, infinite_loop}
use yack.Ports.{serial_init_port, serial_set_default_port}
use yack.Trap.{trap_init, pic_eoi}
use yack.Pages.{ListOps}
use yack.Paging.{kvm_init}
use yack.Segments.{Processor, segments_init}

unfoldable pub do_shutdown : Kernel (Unit {0})
do_shutdown = klog (codes "INFO") (codes "Shutting down...\n") [] >> change (outw 0x604 0x2000)

-- The control byte is the `0b0000100` of the code.
unfoldable pub read_pit_count : Kernel ℕ
read_pit_count =
    change (outb 0x43 0b0000100)
    >> (inb 0x40 >>= λ low. inb 0x40 >>= λ high.
        change (pic_eoi 0x20) >> change io_wait >> pure (u16 (bit_or low (high <<< 8))))

unfoldable pub set_pit_count : (count : ℕ) → Kernel (Unit {0})
set_pit_count count =
    change (outb 0x40 (bit_and count 0xFF))
    >> change (outb 0x40 (bit_and count 0xFF00 >>> 8))
    >> change (pic_eoi 0x20)
    >> change io_wait

-- What the linker and the assembly define.
pub record Image : Type 0 where
  pub kmain_address : ℕ
  pub vectors : ℕ → ℕ
  pub trap_table : ℕ
  pub boot_directory : ℕ
  pub data_start : ℕ
  pub end : ℕ
  pub registry : ℕ
  pub gdt_address : ℕ
  pub tss : ℕ

-- The endless loop at the end keeps `do_shutdown` from being reached.
unfoldable pub kmain : (lists : ListOps) (image : Image) (cpu : Processor) → Kernel (Unit {0})
kmain lists image cpu =
    change cli
    >> kassert (ltb kernel_link image.kmain_address) (codes "kmain.c") 45
        (codes "(void *)kmain > (void *)MM_KERNEL_LINK")
    >> serial_init_port 0x3F8
    >> (serial_set_default_port 0x3F8 >>= λ _. pure tt)
    >> trap_init image.vectors image.trap_table
    >> (kvm_init lists image.registry image.boot_directory image.data_start image.end >>= λ _.
        pure tt)
    >> segments_init image.gdt_address image.tss cpu
    >> klog (codes "DEBUG") (codes "Calling STI\n") []
    >> change sti
    >> infinite_loop
