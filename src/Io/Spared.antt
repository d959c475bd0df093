-- ===== src/Io/Spared.antt =====
-- What the set-up of one component leaves of the others, with its output.
use yack.Common.{ℕ, List, ◌≡◌, ◌∙◌, refl}
use yack.Machine.{Machine, Outcome, Event, Gate, Callback, Descriptor}
use yack.Screen.Writes.{OffScreen}
use yack.Screen.Showing.{Shown, Showing, Shown-same, Showing-same}
use yack.Io.Logged.{Logged}

-- The line, the screen and the memory, and the counter of the traps.
pub record Undisturbed (m n : Machine) : Type 0 where
  pub default_port : n.serial_default_port ≡ m.serial_default_port
  pub device : n.device ≡ m.device
  pub counter : n.trap_counter ≡ m.trap_counter
  pub shown : Shown m → Shown n
  pub showing : Showing m → Showing n
  pub outside : (q : ℕ) → OffScreen q → n.memory q ≡ m.memory q

-- A change of the registry, of the tables or of the history is none of them.
pub retable-Undisturbed :
    (ports : List ℕ) (gates : List Gate) (callbacks : List Callback) (gdt : List Descriptor)
    (h : List Event) (m : Machine)
    → Undisturbed m (record m {
      serial_ports = ports;
      trap_table = gates;
      trap_callback_table = callbacks;
      gdt = gdt;
      history = h;
    })
retable-Undisturbed ports gates callbacks gdt h m =
    let n = record m {
      serial_ports = ports;
      trap_table = gates;
      trap_callback_table = callbacks;
      gdt = gdt;
      history = h;
    } in
    record {
      default_port = refl;
      device = refl;
      counter = refl;
      shown = Shown-same m n refl refl (λ _ _ _. refl);
      showing = Showing-same m n refl refl (λ _ _ _. refl);
      outside = λ q o. refl;
    }

pub Undisturbed-trans : {m n k : Machine} → Undisturbed m n → Undisturbed n k → Undisturbed m k
Undisturbed-trans a b = record {
  default_port = b.default_port ∙ a.default_port;
  device = b.device ∙ a.device;
  counter = b.counter ∙ a.counter;
  shown = λ s. b.shown (a.shown s);
  showing = λ s. b.showing (a.showing s);
  outside = λ q o. b.outside q o ∙ a.outside q o;
}

pub Logged-Undisturbed :
    {A : Type 0} {m : Machine} {o : Outcome A} → (l : Logged m o) → Undisturbed m l.after
Logged-Undisturbed l = record {
  default_port = l.kept.serial_default_port;
  device = l.kept.device;
  counter = l.kept.trap_counter;
  shown = l.kept.shown;
  showing = l.kept.showing;
  outside = l.outside;
}

-- All that, and the tables of the traps.
pub record Spared (m n : Machine) : Type 0 where
  pub undisturbed : Undisturbed m n
  pub open undisturbed use *
  pub gates : n.trap_table ≡ m.trap_table
  pub callbacks : n.trap_callback_table ≡ m.trap_callback_table

pub Spared-trans : {m n k : Machine} → Spared m n → Spared n k → Spared m k
Spared-trans a b = record {
  undisturbed = Undisturbed-trans a.undisturbed b.undisturbed;
  gates = b.gates ∙ a.gates;
  callbacks = b.callbacks ∙ a.callbacks;
}

pub Logged-Spared : {A : Type 0} {m : Machine} {o : Outcome A} → (l : Logged m o) → Spared m l.after
Logged-Spared l = record {
  undisturbed = Logged-Undisturbed l;
  gates = l.kept.trap_table;
  callbacks = l.kept.trap_callback_table;
}

pub retable-Spared :
    (ports : List ℕ) (gdt : List Descriptor) (h : List Event) (m : Machine)
    → Spared m (record m { serial_ports = ports; gdt = gdt; history = h })
retable-Spared ports gdt h m = record {
  undisturbed = retable-Undisturbed ports m.trap_table m.trap_callback_table gdt h m;
  gates = refl;
  callbacks = refl;
}
