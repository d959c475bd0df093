-- ===== src/Io/Written/History.antt =====
-- Of the history only what was sent counts for what output leaves.
use yack.Common.{ℕ, ◌≡◌, refl, ◌∙◌, ap, List, ◌++◌, map, u8, u16}
use yack.Machine.{Machine, Event}
use yack.Machine.Kept.{Kept}
use yack.Screen.Paper.{Paper}
use yack.Screen.Text.{Shows-elsewhere}
use yack.Screen.Spoken.{spoken}
use yack.Screen.Showing.{Shown-same, Showing-same}
use yack.Io.Written.{IsOnLine, Written}

pub rehistory-IsOnLine :
    {m : Machine} (h : List Event) → IsOnLine m → IsOnLine (record m { history = h })
rehistory-IsOnLine h l = record {
  ready = record {
    on_screen = record { row_lt = l.ready.on_screen.row_lt; col_lt = l.ready.on_screen.col_lt };
    digits = l.ready.digits;
    patient = l.ready.patient;
    line = l.ready.line;
  };
  used = l.used;
  elsewhere = l.elsewhere;
  unasked = l.unasked;
  answers = l.answers;
}

Kept-elsewhere :
    {m n : Machine} (g h : List Event)
    → Kept (record m { history = g }) n
    → Kept m (record n { history = h })
Kept-elsewhere {m} {n} g h k = record {
  serial_ports = k.serial_ports;
  serial_default_port = k.serial_default_port;
  trap_counter = k.trap_counter;
  last_trapno = k.last_trapno;
  trap_table = k.trap_table;
  trap_callback_table = k.trap_callback_table;
  gdt = k.gdt;
  device = k.device;
  patience = k.patience;
  shown = λ s.
      Shown-same n (record n { history = h }) refl refl (λ _ _ _. refl)
        (k.shown (Shown-same m (record m { history = g }) refl refl (λ _ _ _. refl) s));
  showing = λ s.
      Showing-same n (record n { history = h }) refl refl (λ _ _ _. refl)
        (k.showing (Showing-same m (record m { history = g }) refl refl (λ _ _ _. refl) s));
}

pub rehistory-Written :
    (h : List Event) (t : List ℕ) (p : Paper) (m n : Machine)
    → spoken (u16 m.serial_default_port) h ≡ spoken (u16 m.serial_default_port) n.history
    → Written t p m n
    → Written t p m (record n { history = h })
rehistory-Written h t p m n e w = record {
  on_line = rehistory-IsOnLine h w.on_line;
  kept = Kept-elsewhere m.history h w.kept;
  shows = Shows-elsewhere h w.shows;
  said = e ∙ w.said;
  outside = w.outside;
}

pub before-Written :
    (h : List Event) (t : List ℕ) (p : Paper) (m n : Machine)
    → spoken (u16 m.serial_default_port) h ≡ spoken (u16 m.serial_default_port) m.history
    → Written t p (record m { history = h }) n
    → Written t p m n
before-Written h t p m n e w = record {
  on_line = w.on_line;
  kept = Kept-elsewhere h n.history w.kept;
  shows = w.shows;
  said = w.said ∙ ap (λ x. x ++ map u8 t) e;
  outside = w.outside;
}
