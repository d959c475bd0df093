-- ===== src/Ports/Tests.antt =====
-- A second serial port of the sample machine.
use yack.Common.{ℕ, ◌≡◌, ◌≢◌, refl, arith, inr, if◌then◌else◌}
use yack.Machine.{Machine, done, fault, ◌>>◌}
use yack.Ports.{serial_init_port, serial_set_default_port, has_port}
use yack.Ports.Registry.{Inited, serial_init_port-Inited}
use yack.Ports.Choice.{serial_set_default_port_lem}
use yack.Ports.Places.{free_places}
use yack.Ports.Known.{known, add, serial_init_port-add, serial_init_port_comm}
use yack.Samples.{sample, sample-IsReady}

serial_init_port-Inited_example :
    (n : Machine) × (serial_init_port 0x2F8 sample ≡ done tt n) × Inited sample n
serial_init_port-Inited_example = serial_init_port-Inited 0x2F8 sample (omega arith) sample-IsReady

answers : (n : ℕ) → n ≡ 0x60 → n ≢ 0xFF
answers n e h = absurd (omega arith)

serial_init_port-add_example :
    (n : Machine) × (serial_init_port 0x2F8 sample ≡ done tt n)
    × Inited sample n
    × (known n ≡ add 0x2F8 (known sample))
serial_init_port-add_example =
    serial_init_port-add 0x2F8 sample (omega arith) (inr (unfold has_port in refl))
      (λ _. answers 0x60 refl) sample-IsReady

serial_init_port_comm_example :
    (n k : Machine) × ((serial_init_port 0x2F8 >> serial_init_port 0x3E8) sample ≡ done tt n)
    × ((serial_init_port 0x3E8 >> serial_init_port 0x2F8) sample ≡ done tt k)
    × (known n ≡ known k)
serial_init_port_comm_example =
    serial_init_port_comm 0x2F8 0x3E8 sample (omega arith) (omega arith)
      (unfold free_places in omega arith) (λ _. answers 0x60 refl) (λ _. answers 0x60 refl)
      sample-IsReady

serial_set_default_port_example : serial_set_default_port 0x3F8 sample ≡ (
    if has_port 0x3F8 sample.serial_ports
    then done 0 (record sample { serial_default_port = 0x3F8 })
    else fault)
serial_set_default_port_example =
    serial_set_default_port_lem 0x3F8 sample (omega arith) sample-IsReady
