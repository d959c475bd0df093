-- ===== src/Io/Stores.antt =====
-- A change of memory, of the history or of the tables leaves the rest of the machine, and output can
-- go on.
use yack.Common.{ℕ, List, refl}
use yack.Memory.{Memory}
use yack.Machine.{Machine, Event, Gate, Descriptor, Callback, done}
use yack.Machine.Kept.{Kept}
use yack.Screen.Showing.{SameScreen, Shown-same, Showing-same}
use yack.Io.Logged.{IsReady, Logged}

pub stored-IsReady :
    (memory : Memory) (m : Machine) → IsReady m → IsReady (record m { memory = memory })
stored-IsReady memory m r = record {
  on_screen = record { row_lt = r.on_screen.row_lt; col_lt = r.on_screen.col_lt };
  digits = r.digits;
  patient = r.patient;
  line = r.line;
}

pub stored-Kept :
    (memory : Memory) (m : Machine)
    → SameScreen m.memory memory
    → Kept m (record m { memory = memory })
stored-Kept memory m same = record {
  serial_ports = refl;
  serial_default_port = refl;
  trap_counter = refl;
  last_trapno = refl;
  trap_table = refl;
  trap_callback_table = refl;
  gdt = refl;
  device = refl;
  patience = refl;
  shown = Shown-same m (record m { memory = memory }) refl refl same;
  showing = Showing-same m (record m { memory = memory }) refl refl same;
}

-- A run that only adds to the history.
pub history-Logged :
    {A : Type 0} (a : A) (h : List Event) (m : Machine)
    → IsReady m
    → Logged m (done a (record m { history = h }))
history-Logged a h m r = record {
  value = a;
  after = record m { history = h };
  returns = refl;
  ready = record {
    on_screen = record { row_lt = r.on_screen.row_lt; col_lt = r.on_screen.col_lt };
    digits = r.digits;
    patient = r.patient;
    line = r.line;
  };
  kept = record {
    serial_ports = refl;
    serial_default_port = refl;
    trap_counter = refl;
    last_trapno = refl;
    trap_table = refl;
    trap_callback_table = refl;
    gdt = refl;
    device = refl;
    patience = refl;
    shown = Shown-same m (record m { history = h }) refl refl (λ _ _ _. refl);
    showing = Showing-same m (record m { history = h }) refl refl (λ _ _ _. refl);
  };
  outside = λ q o. refl;
}

-- Output does not depend on the tables, the counters of the traps and the history.
pub retable-IsReady :
    (ports : List ℕ) (count last : ℕ) (gates : List Gate) (callbacks : List Callback)
    (gdt : List Descriptor) (h : List Event) (m : Machine)
    → IsReady m
    → IsReady (record m {
      serial_ports = ports;
      trap_counter = count;
      last_trapno = last;
      trap_table = gates;
      trap_callback_table = callbacks;
      gdt = gdt;
      history = h;
    })
retable-IsReady ports count last gates callbacks gdt h m r = record {
  on_screen = record { row_lt = r.on_screen.row_lt; col_lt = r.on_screen.col_lt };
  digits = r.digits;
  patient = r.patient;
  line = r.line;
}
