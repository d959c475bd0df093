-- ===== src/Trap/Tests.antt =====
-- The traps of the sample machine.
use yack.Common.{ℕ, ◌%◌, ◌^◌, ◌++◌, ◌∷◌, replicate, get_or, inr, ◌≡◌, ◌+◌, ◌*◌, refl, arith}
use yack.Machine.{Machine, done, null, keyboard_handler}
use yack.Trap.{Trapframe, idt_enable, idt_disable, trap_init, trap_handler}
use yack.Trap.Table.{HasTables}
use yack.Trap.Switch.{Enabled, Disabled, idt_enable-Enabled, idt_disable-Disabled}
use yack.Trap.Init.{TrapsSet, trap_init-TrapsSet}
use yack.Trap.Handler.{Handled, noticed, trap_handler-Handled}
use yack.Io.Spared.{Undisturbed}
use yack.Trap.Texts.{trap_text, callback_text, reads_of}
use yack.Trap.Letters.{Handles, trap_handler-Written}
use yack.Io.Logged.{IsReady}
use yack.Samples.Prompt.{
  paper, paper-IsStarted, prompted, prompted-Shows, prompted-Typed, prompted-IsOnLine,
}
use yack.Samples.{sample, sample-IsReady}

abbrev sample-HasTables : HasTables sample
sample-HasTables = record { gates = refl; callbacks = refl }

abbrev vectors : ℕ → ℕ
vectors i = 0x80101000 + 10 * i

trap_init-TrapsSet_example :
    (n : Machine) × (trap_init vectors 0x80104000 sample ≡ done tt n)
    × TrapsSet vectors n
    × Undisturbed sample n
trap_init-TrapsSet_example =
    trap_init-TrapsSet vectors 0x80104000 sample (omega arith) sample-HasTables sample-IsReady

idt_enable-Enabled_example :
    (n : Machine) × (idt_enable 0x21 keyboard_handler sample ≡ done tt n)
    × Enabled 0x21 keyboard_handler sample n
idt_enable-Enabled_example =
    idt_enable-Enabled 0x21 keyboard_handler sample (omega arith) sample-HasTables

idt_disable-Disabled_example :
    (n : Machine) × (idt_disable 0x21 sample ≡ done tt n) × Disabled 0x21 sample n
idt_disable-Disabled_example = idt_disable-Disabled 0x21 sample (omega arith) sample-HasTables

abbrev keyboard_trap : Trapframe
keyboard_trap = record {
  edi = 0;
  esi = 0;
  ebp = 0;
  oesp = 0;
  ebx = 0;
  edx = 0;
  ecx = 0;
  eax = 0;
  gs = 0;
  fs = 0;
  es = 0;
  ds = 0x10;
  trapno = 0x21;
  err = 0;
  eip = 0x80100000;
  cs = 8;
  eflags = 0x202;
  esp = 0;
  ss = 0x10;
}

trap_handler-Handled_example :
    (n : Machine) × (trap_handler keyboard_trap sample ≡ done tt n) × Handled keyboard_trap sample n
trap_handler-Handled_example =
    trap_handler-Handled keyboard_trap sample (omega arith) sample-IsReady

-- The keyboard has its callback, and the key A is held down.
abbrev keyed : Machine
keyed = record sample {
  trap_callback_table = replicate 0x21 null ++ keyboard_handler ∷ replicate 222 null;
  device = λ _ _. 0x1E;
}

keyed-IsReady : IsReady keyed
keyed-IsReady = record {
  on_screen = record { row_lt = omega arith; col_lt = omega arith };
  digits = sample-IsReady.digits;
  patient = omega arith;
  line = inr (λ _. omega arith);
}

trap_handler-Written_example :
    Handles
      (trap_text (((prompted keyed).trap_counter + 1) % 2 ^ 32) 0x21
        ++ callback_text (get_or (prompted keyed).trap_callback_table 0x21 null) 0x1E)
      (reads_of (get_or (prompted keyed).trap_callback_table 0x21 null))
      paper
      (noticed keyboard_trap (prompted keyed))
      (trap_handler keyboard_trap (prompted keyed))
trap_handler-Written_example =
    let t = prompted-Typed keyed in
    trap_handler-Written keyboard_trap (λ _. 0x1E) paper (prompted keyed) (omega arith)
      t.kept.serial_default_port (λ h. rw t.kept.device refl)
      (prompted-IsOnLine keyed keyed-IsReady refl (λ _. omega arith)) paper-IsStarted
      (prompted-Shows keyed)
