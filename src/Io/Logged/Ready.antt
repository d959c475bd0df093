-- ===== src/Io/Logged/Ready.antt =====
-- When output can go through, and what a run of it leaves; what `serial_write` of
-- kernel/drivers/serial.c changes either way.
use yack.Common.{
  ℕ, ◌<◌, ◌≡◌, ◌⊎◌, inl, inr, refl, ◌∙◌, arith, List, length, Bool-cases, ◌==◌, ==_iff,
}
use yack.Machine.{Machine, Event, Outcome, done, Kernel, and_then}
use yack.Machine.Kept.{Kept, Kept-refl, Kept-trans}
use yack.Screen.Writes.{IsOnScreen, OffScreen}
use yack.Serial.{serial_write}
use yack.Serial.Poll.{Answers, sent, serial_write-sent, serial_write-none}
use yack.Format.Number.{IsDigits}

-- Output can go through: the cursor is on the screen, `utoa`'s buffer is in order, and the serial
-- line is not in use, or answers.
pub record IsReady (m : Machine) : Type 0 where
  pub on_screen : IsOnScreen m
  pub digits : IsDigits m.digits
  pub patient : 0 < m.patience
  pub line : (m.serial_default_port ≡ 0) ⊎ Answers m.serial_default_port m.device

-- A run that returns, ready for more output, with the other components' state as before.
pub record Logged {A : Type 0} (m : Machine) (o : Outcome A) : Type 0 where
  pub value : A
  pub after : Machine
  pub returns : o ≡ done value after
  pub ready : IsReady after
  pub kept : Kept m after
  pub outside : (q : ℕ) → OffScreen q → after.memory q ≡ m.memory q

unfoldable pub Line : Machine → Type 0
Line m = (m.serial_default_port ≡ 0) ⊎ Answers m.serial_default_port m.device

pub Line-Kept : {m m' : Machine} → Kept m m' → Line m → Line m'
unfolding Line
Line-Kept k (inl e) = inl (k.serial_default_port ∙ e)
Line-Kept k (inr a) = inr (λ h. rw (k.device, k.serial_default_port) (a h))

-- A pure end.
pub pure-Logged : {A : Type 0} (a : A) (m : Machine) → IsReady m → Logged m (done a m)
pure-Logged a m r = record {
  value = a;
  after = m;
  returns = refl;
  ready = r;
  kept = Kept-refl m;
  outside = λ q o. refl;
}

-- One run after another.
pub and_then-Logged :
    {A B : Type 0} {m : Machine} {o : Outcome A} (k : A → Kernel B)
    → Logged m o
    → ((a : A) (n : Machine) → IsReady n → Kept m n → Logged n (k a n))
    → Logged m (and_then o k)
and_then-Logged k l next =
    let rest = next l.value l.after l.ready l.kept in
    rw l.returns (record {
      value = rest.value;
      after = rest.after;
      returns = rest.returns;
      ready = rest.ready;
      kept = Kept-trans l.kept rest.kept;
      outside = λ q o. rest.outside q o ∙ l.outside q o;
    })

-- `serial_write` changes the history only, whether or not a port is in use.
pub record Sends (str : List ℕ) (m : Machine) : Type 0 where
  pub count : ℕ
  pub past : List Event
  pub returns : serial_write str m ≡ done count (record m { history = past })

pub serial_write-Sends : (str : List ℕ) (m : Machine) → 0 < m.patience → Line m → Sends str m
unfolding Line
serial_write-Sends str m p (inl e) = record {
  count = 0;
  past = m.history;
  returns = serial_write-none str m e;
}
serial_write-Sends str m p (inr a) = elim (Bool-cases (m.serial_default_port == 0)) [
  | inl e ↦ record {
    count = 0;
    past = m.history;
    returns = serial_write-none str m ((==_iff _ _).0 e);
  }
  | inr ne ↦ record {
    count = length str;
    past = sent m.serial_default_port str m.history;
    returns = serial_write-sent str m (ground arith) p a;
  }
]
