-- ===== src/Samples/Prompt.antt =====
-- A machine whose screen shows a prompt, with the line at 0x3F8.
use yack.Common.{◌≡◌, ◌⊎◌, inl, inr, refl, sym, ◌∙◌, subst, arith, [], ◌∷◌}
use yack.Machine.{Machine}
use yack.Screen.{put_bytes}
use yack.Screen.Paper.{Paper, blank_paper, print_text}
use yack.Screen.Typing.{Shows}
use yack.Screen.Text.{IsStarted, print_char-IsStarted, put_bytes-home}
use yack.Screen.Fields.{Typed, put_bytes-Typed}
use yack.Serial.Poll.{Answers}
use yack.Io.Logged.{IsReady}
use yack.Io.Written.{IsOnLine}

abbrev pub paper : Paper
paper = print_text (b'>' ∷ []) blank_paper

pub paper-IsStarted : IsStarted paper
unfolding print_text
paper-IsStarted = print_char-IsStarted b'>' blank_paper

abbrev pub home : Machine → Machine
home m = record m { row = 0; col = 0 }

-- The prompt is printed at home.
abbrev pub prompted : Machine → Machine
prompted m = (put_bytes (b'>' ∷ []) 0 (home m)).1

pub prompted-Shows : (m : Machine) → Shows paper (prompted m)
prompted-Shows m = put_bytes-home b'>' [] (home m) refl

pub prompted-Typed : (m : Machine) → Typed (home m) (prompted m)
prompted-Typed m =
    put_bytes-Typed (b'>' ∷ []) 0 (home m) (record { row_lt = omega arith; col_lt = omega arith })

pub prompted-IsReady : (m : Machine) → IsReady m → IsReady (prompted m)
prompted-IsReady m r =
    let t = prompted-Typed m in
    record {
      on_screen = t.on_screen;
      digits = rw t.digits r.digits;
      patient = rw t.kept.patience r.patient;
      line = line_of m (prompted m) t.kept.serial_default_port t.kept.device r.line;
    }
  where
    line_of :
        (n k : Machine)
        → k.serial_default_port ≡ n.serial_default_port
        → k.device ≡ n.device
        → (n.serial_default_port ≡ 0) ⊎ Answers n.serial_default_port n.device
        → (k.serial_default_port ≡ 0) ⊎ Answers k.serial_default_port k.device
    line_of n k p d (inl e) = inl (p ∙ e)
    line_of n k p d (inr a) = inr (λ h. rw (d, p) (a h))

pub prompted-IsOnLine :
    (m : Machine)
    → IsReady m
    → m.serial_default_port ≡ 0x3F8
    → Answers 0x3F8 m.device
    → IsOnLine (prompted m)
prompted-IsOnLine m r e a =
    let t = prompted-Typed m in
    let port : (prompted m).serial_default_port ≡ 0x3F8 = t.kept.serial_default_port ∙ e in
    record {
      ready = prompted-IsReady m r;
      used = rw port (omega arith);
      elsewhere = rw port (omega arith, omega arith);
      unasked = rw port (omega arith);
      answers =
          subst (λ p. Answers p (prompted m).device) (sym port)
            (subst (Answers 0x3F8) (sym t.kept.device) a);
    }
