-- ===== src/Ports.antt =====
-- `serial_init_port` and `serial_set_default_port` of kernel/drivers/serial.c.
pub mod Places
pub mod Registry
pub mod Choice
pub mod Known
mod Tests
use yack.Common.{
  ℕ, zero, suc, ◌+◌, ◌-◌, Bool, true, false, List, [], ◌∷◌, ◌==◌, ltb, set, u16, if◌then◌else◌,
}
use yack.Machine.{Machine, Outcome, done, Kernel, ◌>>=◌, ◌>>◌, pure, change, inb, and_then}
use yack.Serial.{serial_config_baud_rate, serial_config_line, line_status_port}
use yack.Format.{Arg, word, codes}
use yack.Io.{klog, kassert}

-- How the search through `serial_ports_` ends: at the port itself, at the first free place, or
-- behind the last place.
pub data Search : Type 0 where
  found : (i : ℕ) → Search
  free : (i : ℕ) → Search
  full : Search

-- `for (i = 0; i < SERIAL_PORTS_MAX && serial_ports_[i] != 0; i++)`
unfoldable pub search_port : (port i : ℕ) → List ℕ → Search
search_port port i [] = full
search_port port i (p ∷ ports) = elim (p == 0) [
  | true ↦ free i
  | false ↦ elim (p == port) [ true ↦ found i | false ↦ search_port port (i + 1) ports ]
]

-- The end of `serial_init_port`, once there is a free place.
unfoldable pub try_port : (port i : ℕ) → Kernel (Unit {0})
try_port port i =
    change (serial_config_baud_rate port 12)
    >> change (serial_config_line port)
    >> (inb (line_status_port port) >>= λ status.
        if status == 0xFF
        then klog (codes "DEBUG") (codes "Port %p not available\n") (word port ∷ [])
        else change (λ m. record m { serial_ports = set m.serial_ports i port }))

unfoldable pub init_at : (port : ℕ) → Search → Kernel (Unit {0})
init_at port (found i) =
    klog (codes "DEBUG") (codes "Port %p was already initialized\n") (word port ∷ [])
init_at port (free i) = try_port port i
init_at port full = klog (codes "KWARN") (codes "No available space to init another COM port.\n") []

unfoldable pub serial_init_port : (port : ℕ) → Kernel (Unit {0})
serial_init_port port m = init_at port (search_port port 0 m.serial_ports) m

-- Whether the loop of `serial_set_default_port` stops at the port.
unfoldable pub has_port : (port : ℕ) → List ℕ → Bool
has_port port [] = false
has_port port (p ∷ ports) = if p == port then true else has_port port ports

-- The word of the `int` that is returned; -1 is `2 ^ 32 - 1`. The warning names a port by `%p`
-- and passes none.
unfoldable pub serial_set_default_port : (port : ℕ) → Kernel ℕ
serial_set_default_port port = kassert (ltb 0 port) (codes "serial.c") 36 (codes "com > 0") >> (λ m.
    elim (has_port port m.serial_ports) [
      | false ↦
          (klog (codes "KWARN") (codes "Port %p not initialized yet...\n") [] >>= λ _.
          pure 0xFFFFFFFF)
            m
      | true ↦ done 0 (record m { serial_default_port = port })
    ])
