-- ===== src/Machine/Kept.antt =====
-- The state that output to the console and the serial line leaves alone.
use yack.Common.{◌≡◌, refl, ◌∙◌}
use yack.Machine.{Machine}
use yack.Screen.Showing.{Shown, Showing}

pub record Kept (m m' : Machine) : Type 0 where
  pub serial_ports : m'.serial_ports ≡ m.serial_ports
  pub serial_default_port : m'.serial_default_port ≡ m.serial_default_port
  pub trap_counter : m'.trap_counter ≡ m.trap_counter
  pub last_trapno : m'.last_trapno ≡ m.last_trapno
  pub trap_table : m'.trap_table ≡ m.trap_table
  pub trap_callback_table : m'.trap_callback_table ≡ m.trap_callback_table
  pub gdt : m'.gdt ≡ m.gdt
  pub device : m'.device ≡ m.device
  pub patience : m'.patience ≡ m.patience
  -- A screen that shows a paper goes on showing one.
  pub shown : Shown m → Shown m'
  pub showing : Showing m → Showing m'

pub Kept-refl : (m : Machine) → Kept m m
Kept-refl m = record {
  serial_ports = refl;
  serial_default_port = refl;
  trap_counter = refl;
  last_trapno = refl;
  trap_table = refl;
  trap_callback_table = refl;
  gdt = refl;
  device = refl;
  patience = refl;
  shown = λ s. s;
  showing = λ s. s;
}

pub Kept-trans : {m n k : Machine} → Kept m n → Kept n k → Kept m k
Kept-trans p q = record {
  serial_ports = q.serial_ports ∙ p.serial_ports;
  serial_default_port = q.serial_default_port ∙ p.serial_default_port;
  trap_counter = q.trap_counter ∙ p.trap_counter;
  last_trapno = q.last_trapno ∙ p.last_trapno;
  trap_table = q.trap_table ∙ p.trap_table;
  trap_callback_table = q.trap_callback_table ∙ p.trap_callback_table;
  gdt = q.gdt ∙ p.gdt;
  device = q.device ∙ p.device;
  patience = q.patience ∙ p.patience;
  shown = λ s. q.shown (p.shown s);
  showing = λ s. q.showing (p.showing s);
}
