-- ===== src/Serial.antt =====
-- The serial line: `serial_write` of kernel/drivers/serial.c, and what arch/i386/include/x86.h
-- has for serial ports. The two functions that log are in `Ports`.
pub mod Poll
mod Tests
use yack.Common.{
  ℕ, zero, suc, ◌+◌, ◌/◌, ◌^◌, bit_and, Bool, true, false, List, [], ◌∷◌, ◌==◌, ◌>>>◌,
}
use yack.Machine.{
  Machine, Outcome, done, waiting, Kernel, ◌>>=◌, ◌>>◌, pure, change, outb, inb, and_then,
}

abbrev pub data_port : ℕ → ℕ
data_port base = base

abbrev pub line_cmd_port : ℕ → ℕ
line_cmd_port base = base + 3

abbrev pub line_status_port : ℕ → ℕ
line_status_port base = base + 5

-- `do { status = inb(...); } while (status == 0x20)`. The fuel is the number of reads.
unfoldable pub poll : (fuel port : ℕ) → Kernel (Unit {0})
unfolding inb
poll zero port m = waiting
poll (suc fuel) port m =
    and_then (inb (line_status_port port) m)
      λ status m'. elim (status == 0x20) [ true ↦ poll fuel port m' | false ↦ done tt m' ]

-- The loop over the bytes of the buffer; the result counts them.
unfoldable pub serial_loop : List ℕ → (port bytes : ℕ) → Kernel ℕ
unfolding outb
serial_loop [] port bytes m = done bytes m
serial_loop (c ∷ buffer) port bytes m =
    and_then (poll m.patience port m)
      λ _ m'. serial_loop buffer port (bytes + 1) (outb (data_port port) c m')

-- `serial_default_port_` is 0 while bytes are sent, so that a log message of the driver does not
-- come back to it.
unfoldable pub serial_write : List ℕ → Kernel ℕ
serial_write buffer m =
    let port = m.serial_default_port in
    let quiet = record m { serial_default_port = 0 } in
    elim (port == 0) [
      | true ↦ done 0 quiet
      | false ↦
          and_then (serial_loop buffer port 0 quiet)
            λ bytes m'. done bytes (record m' { serial_default_port = port })
    ]

unfoldable pub serial_config_baud_rate : (port divisor : ℕ) → Machine → Machine
unfolding outb
serial_config_baud_rate port divisor m =
    outb (data_port port) (bit_and divisor 0xFF)
      (outb (data_port port) (bit_and (divisor >>> 8) 0xFF) (outb (line_cmd_port port) 0x80 m))

unfoldable pub serial_config_line : ℕ → Machine → Machine
unfolding outb
serial_config_line port = outb (line_cmd_port port) 0x03
