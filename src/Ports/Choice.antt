-- ===== src/Ports/Choice.antt =====
-- Which port `serial_set_default_port` makes the default.
use yack.Common.{
  ℕ, ◌<◌, ◌≡◌, refl, ap, ◌∙◌, arith, true, false, [], ◌∷◌, ltb, if◌then◌else◌, inl, inr, lt→ltb,
  Bool-cases,
}
use yack.Machine.{Machine, done, fault, Kernel, ◌>>=◌, pure, and_then}
use yack.Format.{text, codes, kvsnprintf}
use yack.Format.Room.{room}
use yack.Io.{klog, kprintf, kassert}
use yack.Io.Logged.{IsReady, kprintf-Logged}
use yack.Ports.{has_port, serial_set_default_port}

valid_port :
    (port : ℕ) (m : Machine)
    → 0 < port
    → kassert (ltb 0 port) (codes "serial.c") 36 (codes "com > 0") m ≡ done tt m
unfolding kassert
valid_port port m pos = rw (lt→ltb 0 port pos) refl

-- What follows the assertion.
abbrev choose : (port : ℕ) → Kernel ℕ
choose port m = elim (has_port port m.serial_ports) [
  | false ↦
      (klog (codes "KWARN") (codes "Port %p not initialized yet...\n") [] >>= λ _. pure 0xFFFFFFFF)
        m
  | true ↦ done 0 (record m { serial_default_port = port })
]

choose_lem : (port : ℕ) (m : Machine) → 0 < port → serial_set_default_port port m ≡ choose port m
unfolding serial_set_default_port
choose_lem port m pos = ap (λ o. and_then o (λ _. choose port)) (valid_port port m pos)

-- For a port above 0, on a machine that is ready for output: `serial_set_default_port` makes a
-- registered port the default and returns 0. For any other port its warning takes an argument
-- that is not passed, so that the call has no defined behaviour.
pub serial_set_default_port_lem :
    (port : ℕ) (m : Machine)
    → 0 < port
    → IsReady m
    → serial_set_default_port port m ≡ (
        if has_port port m.serial_ports
        then done 0 (record m { serial_default_port = port })
        else fault)
unfolding klog
serial_set_default_port_lem port m pos r =
    let l =
      kprintf-Logged (codes "[%s] ") (text 0 (codes "KWARN") ∷ []) 8 m (unfold room in refl)
        (omega arith) (omega arith, tt) r in
    choose_lem port m pos ∙ elim (Bool-cases (has_port port m.serial_ports)) [
      | inl known ↦ rw (known, choose) refl
      | inr unknown ↦ rw (unknown, choose) (rw l.returns (unfold kprintf kvsnprintf in refl))
    ]
