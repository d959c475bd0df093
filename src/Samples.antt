-- ===== src/Samples.antt =====
-- A machine as it stands before the traps are set up, for runs of the functions.
pub mod Paged
pub mod Prompt
use yack.Common.{
  ℕ, ◌+◌, ◌*◌, ◌^◌, ◌%◌, ◌<◌, ◌≤◌, ◌==◌, ◌≢◌, ◌≡◌, ◌⊎◌, ◌∙◌, sym, arith, [], ◌∷◌, inl, inr, refl,
  replicate, true, false, bit_and,
}
use yack.Machine.{Machine, null}
use yack.Trap.{no_gate}
use yack.Segments.{no_descriptor}
use yack.Io.Logged.{IsReady}

-- The serial line COM1 is in use and always answers 0x60.
abbrev pub sample : Machine
sample = record {
  memory = λ _. 0;
  row = 0;
  col = 0;
  digits = replicate 16 0;
  serial_ports = 0x3F8 ∷ 0 ∷ 0 ∷ 0 ∷ [];
  serial_default_port = 0x3F8;
  trap_counter = 0;
  last_trapno = 0;
  trap_table = replicate 256 no_gate;
  trap_callback_table = replicate 256 null;
  gdt = replicate 6 no_descriptor;
  history = [];
  device = λ _ _. 0x60;
  patience = 3;
}

pub not_ready : (n : ℕ) → n ≡ 0x60 → n ≢ 0x20
not_ready n e h = absurd (omega arith)

pub sample-IsReady : IsReady sample
sample-IsReady = record {
  on_screen = record { row_lt = omega arith; col_lt = omega arith };
  digits = record { size = refl; end = refl };
  patient = omega arith;
  line = inr (λ _. not_ready 0x60 refl);
}
