-- ===== src/Trap/Switch.antt =====
-- Interrupts enabled and disabled: `x86_idt_enable` and `x86_idt_disable` of arch/i386/trap.c.
use yack.Common.{
  ℕ, ◌%◌, ◌<◌, ◌≡◌, ◌≢◌, refl, sym, ◌∙◌, set, length-set, get_or-set_self, get_or-set_ne, lt→ltb,
}
use yack.Common.Bits.{and_low}
use yack.Machine.{Machine, Gate, Callback, null, done}
use yack.Trap.{no_gate, idt_enable, idt_disable}
use yack.Trap.Table.{gate, callback, HasTables, enabled}

abbrev pub enabled_at : (i : ℕ) (c : Callback) → Machine → Machine
enabled_at i c m = record m {
  trap_callback_table = set m.trap_callback_table i c;
  trap_table = set m.trap_table i (enabled (gate m i));
}

-- `x86_idt_enable` sets the present bit of the gate, keeps its base and segment, registers the
-- callback and leaves the other interrupts alone.
pub record Enabled (i : ℕ) (c : Callback) (m m' : Machine) : Type 0 where
  pub gates : HasTables m'
  pub present : gate m' i ≡ enabled (gate m i)
  pub callback_at : callback m' i ≡ c
  pub other : (j : ℕ) → j ≢ i → gate m' j ≡ gate m j
  pub other_callback : (j : ℕ) → j ≢ i → callback m' j ≡ callback m j

pub enabled_at-Enabled :
    (i : ℕ) (c : Callback) (m : Machine) → i < 256 → HasTables m → Enabled i c m (enabled_at i c m)
enabled_at-Enabled i c m h t = record {
  gates = record {
    gates = length-set m.trap_table i (enabled (gate m i)) ∙ t.gates;
    callbacks = length-set m.trap_callback_table i c ∙ t.callbacks;
  };
  present = get_or-set_self m.trap_table i (enabled (gate m i)) no_gate (rw t.gates h);
  callback_at = get_or-set_self m.trap_callback_table i c null (rw t.callbacks h);
  other = λ j ne. get_or-set_ne m.trap_table i j (enabled (gate m i)) no_gate (λ e. ne (sym e));
  other_callback = λ j ne. get_or-set_ne m.trap_callback_table i j c null (λ e. ne (sym e));
}

pub idt_enable_lem :
    (i : ℕ) (c : Callback) (m : Machine) → i < 256 → idt_enable i c m ≡ done tt (enabled_at i c m)
unfolding idt_enable
idt_enable_lem i c m h = rw (lt→ltb i 256 h)

-- Enabling an interrupt below 256 with its two tables in order succeeds: the present bit of its
-- gate is set, the gate is otherwise as it was, the callback is registered, and every other
-- interrupt keeps its gate and its callback.
pub idt_enable-Enabled :
    (i : ℕ) (c : Callback) (m : Machine)
    → i < 256
    → HasTables m
    → (n : Machine) × (idt_enable i c m ≡ done tt n) × Enabled i c m n
idt_enable-Enabled i c m h t =
    (enabled_at i c m, idt_enable_lem i c m h, enabled_at-Enabled i c m h t)

abbrev absent : Gate → Gate
absent g = record g { flags = g.flags % 128 }

-- `x86_idt_disable` clears the present bit of the gate and forgets the callback.
pub record Disabled (i : ℕ) (m m' : Machine) : Type 0 where
  pub gates : HasTables m'
  pub cleared : gate m' i ≡ absent (gate m i)
  pub forgotten : callback m' i ≡ null
  pub other : (j : ℕ) → j ≢ i → gate m' j ≡ gate m j
  pub other_callback : (j : ℕ) → j ≢ i → callback m' j ≡ callback m j

abbrev disabled_at : ℕ → Machine → Machine
disabled_at i m = record m {
  trap_callback_table = set m.trap_callback_table i null;
  trap_table = set m.trap_table i (absent (gate m i));
}

idt_disable_lem : (i : ℕ) (m : Machine) → i < 256 → idt_disable i m ≡ done tt (disabled_at i m)
unfolding idt_disable
idt_disable_lem i m h = rw (lt→ltb i 256 h) (rw (and_low 7 (gate m i).flags) refl)

-- Disabling an interrupt below 256 with the tables in order succeeds: the present bit of its gate
-- is cleared, its callback is forgotten, and every other interrupt keeps its gate and its
-- callback.
pub idt_disable-Disabled :
    (i : ℕ) (m : Machine)
    → i < 256
    → HasTables m
    → (n : Machine) × (idt_disable i m ≡ done tt n) × Disabled i m n
idt_disable-Disabled i m h t = (
  disabled_at i m,
  idt_disable_lem i m h,
  record {
    gates = record {
      gates = length-set m.trap_table i (absent (gate m i)) ∙ t.gates;
      callbacks = length-set m.trap_callback_table i null ∙ t.callbacks;
    };
    cleared = get_or-set_self m.trap_table i (absent (gate m i)) no_gate (rw t.gates h);
    forgotten = get_or-set_self m.trap_callback_table i null null (rw t.callbacks h);
    other = λ j ne. get_or-set_ne m.trap_table i j (absent (gate m i)) no_gate (λ e. ne (sym e));
    other_callback = λ j ne. get_or-set_ne m.trap_callback_table i j null null (λ e. ne (sym e));
  },
)
