-- ===== src/Io/Written.antt =====
-- What output leaves on the screen and on the serial line.
pub mod History
pub mod Joined
use yack.Common.{
  ℕ, ◌<◌, ◌≡◌, ◌≢◌, refl, sym, subst, ◌∙◌, ap, arith, true, false, List, [], ◌∷◌, ◌++◌, map, u8,
  u16, leb, length, some, append-nil,
}
use yack.Machine.{Machine, Outcome, done}
use yack.Machine.Returns.{done-same}
use yack.Machine.Kept.{Kept, Kept-refl}
use yack.Screen.{put_bytes}
use yack.Screen.Paper.{Paper, print_text}
use yack.Screen.Typing.{Shows}
use yack.Screen.Text.{IsStarted, put_bytes-print_text, Shows-elsewhere}
use yack.Screen.Showing.{Shown-same, Showing-same}
use yack.Screen.Spoken.{
  spoken, spoken-sent, IsElsewhere, put_bytes-spoken, asked, put_bytes-asked, asked-sent,
}
use yack.Screen.Writes.{OffScreen}
use yack.Serial.{line_status_port}
use yack.Serial.Poll.{Answers, sent, serial_write-sent}
use yack.Format.{Arg, printed, plain}
use yack.Format.Number.{IsDigits}
use yack.Format.Room.{AreWords}
use yack.Format.Rendered.{rendered}
use yack.Format.Rendered.Loop.{kvsnprintf-rendered}
use yack.Io.{write, flush, kprintf}
use yack.Io.Logged.{IsReady, write-Logged}

-- The line is in use, on a port that is not the screen's and has its status elsewhere than at the
-- keyboard's.
pub record IsOnLine (m : Machine) : Type 0 where
  pub ready : IsReady m
  pub used : m.serial_default_port ≢ 0
  pub elsewhere : IsElsewhere (u16 m.serial_default_port)
  pub unasked : u16 (line_status_port m.serial_default_port) ≢ 0x60
  pub answers : Answers m.serial_default_port m.device

-- The text `t` has been printed behind what stood on the paper, and sent behind what had been sent.
pub record Written (t : List ℕ) (p : Paper) (m n : Machine) : Type 0 where
  pub on_line : IsOnLine n
  pub kept : Kept m n
  pub shows : Shows (print_text t p) n
  pub said :
      spoken (u16 m.serial_default_port) n.history
      ≡ spoken (u16 m.serial_default_port) m.history ++ map u8 t
  pub outside : (q : ℕ) → OffScreen q → n.memory q ≡ m.memory q

-- The keyboard was not read.
abbrev pub Unasked : (m n : Machine) → Type 0
Unasked m n = asked n.history ≡ asked m.history

abbrev pub Writes : {A : Type 0} → A → List ℕ → Paper → Machine → Outcome A → Type 0
Writes a t p m o = (n : Machine) × (o ≡ done a n) × Written t p m n × Unasked m n

still_on : {m n : Machine} → IsOnLine m → Kept m n → IsReady n → IsOnLine n
still_on {m} {n} l k r = record {
  ready = r;
  used = λ e. l.used (sym k.serial_default_port ∙ e);
  elsewhere = rw k.serial_default_port l.elsewhere;
  unasked = rw k.serial_default_port l.unasked;
  answers = λ h. rw (k.device, k.serial_default_port) (l.answers h);
}

-- On a machine that is ready for output, with a default port in use that is none of the cursor's
-- and has its status elsewhere than at the keyboard's, a line that answers, and a screen that
-- shows a paper past its first position: `write` returns the number of bytes, leaves the screen
-- showing the paper with them printed, and has sent them to the serial line, in order, behind
-- those sent before; the conditions hold again, and the other components' state and all memory
-- outside the screen are as before.
write-Written :
    (t : List ℕ) (p : Paper) (m : Machine)
    → IsOnLine m
    → IsStarted p
    → Shows p m
    → Writes (length t) t p m (write t m)
unfolding write
write-Written t p m l st s =
    let past = sent m.serial_default_port t m.history in
    let q = record m { history = past } in
    let sw = serial_write-sent t m l.used l.ready.patient l.answers in
    let w = write-Logged t m l.ready in
    let typed = put_bytes-print_text t 0 st (Shows-elsewhere past s) in
    let n = (put_bytes t 0 q).1 in
    let run : write t m ≡ done (length t) n = rw sw (ap (λ k. done k n) (typed.1 ∙ omega arith)) in
    let same : w.after ≡ n = done-same w.returns run in
    let kept : Kept m n = subst (Kept m) same w.kept in
    (
      n,
      run,
      record {
        on_line = still_on l kept (subst IsReady same w.ready);
        kept = kept;
        shows = typed.0;
        said =
            put_bytes-spoken (u16 m.serial_default_port) l.elsewhere t 0 q
            ∙ spoken-sent m.serial_default_port t m.history;
        outside = λ x o. ap (λ (k : Machine). k.memory x) (sym same) ∙ w.outside x o;
      },
      put_bytes-asked t 0 q ∙ asked-sent m.serial_default_port t m.history l.unasked,
    )

-- The static buffer of `utoa` is no part of it.
redigit-Shows :
    {p : Paper} {m : Machine} (d : List ℕ) → Shows p m → Shows p (record m { digits = d })
redigit-Shows d s = record {
  lines = record { on_row = s.on_row; cells = s.cells; fresh = s.fresh };
  on_col = s.on_col;
  in_cols = s.in_cols;
}

redigit-IsOnLine :
    {m : Machine} (d : List ℕ) → IsDigits d → IsOnLine m → IsOnLine (record m { digits = d })
redigit-IsOnLine d w l = record {
  ready = record {
    on_screen = record { row_lt = l.ready.on_screen.row_lt; col_lt = l.ready.on_screen.col_lt };
    digits = w;
    patient = l.ready.patient;
    line = l.ready.line;
  };
  used = l.used;
  elsewhere = l.elsewhere;
  unasked = l.unasked;
  answers = l.answers;
}

redigit-Written :
    (d t : List ℕ) (p : Paper) (m n : Machine)
    → Written t p (record m { digits = d }) n
    → Written t p m n
redigit-Written d t p m n w = record {
  on_line = w.on_line;
  kept = record {
    serial_ports = w.kept.serial_ports;
    serial_default_port = w.kept.serial_default_port;
    trap_counter = w.kept.trap_counter;
    last_trapno = w.kept.last_trapno;
    trap_table = w.kept.trap_table;
    trap_callback_table = w.kept.trap_callback_table;
    gdt = w.kept.gdt;
    device = w.kept.device;
    patience = w.kept.patience;
    shown = λ s. w.kept.shown (Shown-same m (record m { digits = d }) refl refl (λ _ _ _. refl) s);
    showing =
        λ s. w.kept.showing (Showing-same m (record m { digits = d }) refl refl (λ _ _ _. refl) s);
  };
  shows = w.shows;
  said = w.said;
  outside = w.outside;
}

pub Written-nil : (p : Paper) (m : Machine) → IsOnLine m → Shows p m → Written [] p m m
Written-nil p m l s = record {
  on_line = l;
  kept = Kept-refl m;
  shows = unfold print_text in s;
  said = sym (append-nil (spoken (u16 m.serial_default_port) m.history));
  outside = λ q o. refl;
}

short_text : (t : List ℕ) → length t < 4096 → leb 4096 (length t) ≡ false
short_text t h = ground arith

flush-Written :
    (t d : List ℕ) (p : Paper) (m : Machine)
    → length t < 4096
    → IsDigits d
    → IsOnLine m
    → IsStarted p
    → Shows p m
    → Writes (length t) t p m (flush (printed t d) m)
unfolding flush
flush-Written [] d p m short w l st s =
    let n = record m { digits = d } in
    (
      n,
      refl,
      redigit-Written d [] p m n (Written-nil p n (redigit-IsOnLine d w l) (redigit-Shows d s)),
      refl,
    )
flush-Written (c ∷ cs) d p m short w l st s =
    let q = record m { digits = d } in
    let e = write-Written (c ∷ cs) p q (redigit-IsOnLine d w l) st (redigit-Shows d s) in
    let some_text : leb 1 (length (c ∷ cs)) ≡ true = ground arith in
    (
      e.0,
      rw (short_text (c ∷ cs) short) (rw some_text (rw e.1 refl)),
      redigit-Written d (c ∷ cs) p m e.0 e.2,
      e.3,
    )

-- A format that stands for a text of less than 4096 bytes is printed as that text.
pub kprintf-Written :
    (fmt : List ℕ) (args : List Arg) (t : List ℕ) (p : Paper) (m : Machine)
    → AreWords args
    → rendered plain fmt args ≡ some t
    → length t < 4096
    → IsOnLine m
    → IsStarted p
    → Shows p m
    → Writes (length t) t p m (kprintf fmt args m)
unfolding kprintf
kprintf-Written fmt args t p m ws e short l st s =
    let k = kvsnprintf-rendered 4096 fmt args m.digits t ws l.ready.digits e short in
    let f = flush-Written t k.0 p m short k.2 l st s in (f.0, rw (k.1, kprintf) f.1, f.2, f.3)
