-- ===== src/Boot/Line.antt =====
-- The serial line of `kmain`: the port at 0x3F8 is set up and becomes the default.
use yack.Common.{ℕ, ◌≡◌, inr, refl, sym, subst, arith, true}
use yack.Machine.{Machine, done, Kernel, ◌>>=◌, ◌>>◌, pure}
use yack.Screen.Showing.{Showing, Showing-same}
use yack.Screen.Writes.{OffScreen}
use yack.Serial.Poll.{Answers}
use yack.Io.Logged.{IsReady}
use yack.Ports.{serial_init_port, serial_set_default_port, has_port}
use yack.Ports.Registry.{HasRoom, IsPresent, serial_init_port-Ends}
use yack.Ports.Choice.{serial_set_default_port_lem}

abbrev pub line_up : Kernel (Unit {0})
line_up = serial_init_port 0x3F8 >> (serial_set_default_port 0x3F8 >>= λ _. pure tt)

pub record LineUp (m n : Machine) : Type 0 where
  pub ready : IsReady n
  pub port : n.serial_default_port ≡ 0x3F8
  pub gates : n.trap_table ≡ m.trap_table
  pub callbacks : n.trap_callback_table ≡ m.trap_callback_table
  pub device : n.device ≡ m.device
  pub counter : n.trap_counter ≡ m.trap_counter
  pub showing : Showing m → Showing n
  pub outside : (q : ℕ) → OffScreen q → n.memory q ≡ m.memory q

pub line_up-LineUp :
    (m : Machine)
    → HasRoom 0x3F8 m.serial_ports
    → IsPresent 0x3F8 m
    → Answers 0x3F8 m.device
    → IsReady m
    → (n : Machine) × (line_up m ≡ done tt n) × LineUp m n
line_up-LineUp m space present answers r =
    let e = serial_init_port-Ends 0x3F8 m (omega arith) r in
    let n = e.0 in
    let s = serial_set_default_port_lem 0x3F8 n (omega arith) e.2.ready in
    let known : has_port 0x3F8 n.serial_ports ≡ true = e.3 space present in
    (
      record n { serial_default_port = 0x3F8 },
      rw e.1 (rw s (rw known refl)),
      record {
        ready = record {
          on_screen = record {
            row_lt = e.2.ready.on_screen.row_lt;
            col_lt = e.2.ready.on_screen.col_lt;
          };
          digits = e.2.ready.digits;
          patient = e.2.ready.patient;
          line = inr (subst (Answers 0x3F8) (sym e.2.spared.device) answers);
        };
        port = refl;
        gates = e.2.spared.gates;
        callbacks = e.2.spared.callbacks;
        device = e.2.spared.device;
        counter = e.2.spared.counter;
        showing = λ q.
            Showing-same n (record n { serial_default_port = 0x3F8 }) refl refl (λ _ _ _. refl)
              (e.2.spared.showing q);
        outside = e.2.spared.outside;
      },
    )
