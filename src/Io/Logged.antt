-- ===== src/Io/Logged.antt =====
-- Output ends, and changes nothing but the console, the history of the ports and the static
-- buffer of `utoa`.
pub mod Ready
use yack.Common.{
  ℕ, suc, ◌+◌, ◌<◌, ◌≡◌, inl, inr, refl, arith, false, List, [], ◌∷◌, leb, length, some, Bool-cases,
  ◌^◌,
}
use yack.Machine.{Machine, Outcome, done, hung, ◌>>=◌, pure}
use yack.Machine.Kept.{Kept}
use yack.Screen.{put_bytes}
use yack.Screen.Showing.{Shown, Showing, put_bytes-first, Shown-same, Showing-same}
use yack.Screen.Writes.{IsOnScreen}
use yack.Screen.Fields.{put_bytes-Typed}
use yack.Format.{Arg, word, text, Printed, codes, plain}
use yack.Format.Number.{IsDigits}
use yack.Format.Room.{AreWords, room}
use yack.Format.Output.{kvsnprintf-room}
use yack.Io.{write, flush, kprintf, klog, kassert}
pub use yack.Io.Logged.Ready.{IsReady, Logged, pure-Logged, and_then-Logged}
use yack.Io.Logged.Ready.{Line, Line-Kept, serial_write-Sends}

-- On a machine that is ready for output `write` sends the text to the serial line and to the
-- screen and returns; the machine is ready for more output, and the other components' state and
-- all memory outside the screen are as before.
pub write-Logged : (str : List ℕ) (m : Machine) → IsReady m → Logged m (write str m)
unfolding write Line
write-Logged str m r =
    let s = serial_write-Sends str m r.patient r.line in
    let n = record m { history = s.past } in
    let seen : IsOnScreen n = record { row_lt = r.on_screen.row_lt; col_lt = r.on_screen.col_lt } in
    let t = put_bytes-Typed str 0 n seen in
    rw s.returns (record {
      value = (put_bytes str 0 n).0;
      after = (put_bytes str 0 n).1;
      returns = refl;
      ready = record {
        on_screen = t.on_screen;
        digits = rw t.digits r.digits;
        patient = rw t.kept.patience r.patient;
        line = Line-Kept t.kept r.line;
      };
      kept = record {
        serial_ports = t.kept.serial_ports;
        serial_default_port = t.kept.serial_default_port;
        trap_counter = t.kept.trap_counter;
        last_trapno = t.kept.last_trapno;
        trap_table = t.kept.trap_table;
        trap_callback_table = t.kept.trap_callback_table;
        gdt = t.kept.gdt;
        device = t.kept.device;
        patience = t.kept.patience;
        shown = λ q. t.kept.shown (Shown-same m n refl refl (λ _ _ _. refl) q);
        showing = λ q. t.kept.showing (Showing-same m n refl refl (λ _ _ _. refl) q);
      };
      outside = t.outside;
    })

-- A text that is not empty is on the screen then, also the first one.
pub write-Shown :
    (c : ℕ) (cs : List ℕ) (m : Machine)
    → IsReady m
    → Showing m
    → (k : ℕ) × (n : Machine) × (write (c ∷ cs) m ≡ done k n) × Shown n
unfolding write Line
write-Shown c cs m r s =
    let sends = serial_write-Sends (c ∷ cs) m r.patient r.line in
    let n = record m { history = sends.past } in
    (
      (put_bytes (c ∷ cs) 0 n).0,
      (put_bytes (c ∷ cs) 0 n).1,
      rw sends.returns refl,
      put_bytes-first c cs n (Showing-same m n refl refl (λ _ _ _. refl) s),
    )

le→leb_false : (a b : ℕ) → b < a → leb a b ≡ false
le→leb_false a b h = ground arith

forget_digits :
    {A : Type 0} (d : List ℕ) (m : Machine) {o : Outcome A}
    → Logged (record m { digits = d }) o
    → Logged m o
forget_digits d m l = record {
  value = l.value;
  after = l.after;
  returns = l.returns;
  ready = l.ready;
  kept = record {
    serial_ports = l.kept.serial_ports;
    serial_default_port = l.kept.serial_default_port;
    trap_counter = l.kept.trap_counter;
    last_trapno = l.kept.last_trapno;
    trap_table = l.kept.trap_table;
    trap_callback_table = l.kept.trap_callback_table;
    gdt = l.kept.gdt;
    device = l.kept.device;
    patience = l.kept.patience;
    shown = λ q. l.kept.shown (Shown-same m (record m { digits = d }) refl refl (λ _ _ _. refl) q);
    showing =
        λ q. l.kept.showing (Showing-same m (record m { digits = d }) refl refl (λ _ _ _. refl) q);
  };
  outside = l.outside;
}

flush-Logged :
    (p : Printed) (m : Machine)
    → length p.out < 4096
    → IsDigits p.digits
    → IsReady m
    → Logged m (flush p m)
unfolding flush
flush-Logged p m short d r =
    let n = record m { digits = p.digits } in
    let ready : IsReady n = record {
      on_screen = record { row_lt = r.on_screen.row_lt; col_lt = r.on_screen.col_lt };
      digits = d;
      patient = r.patient;
      line = r.line;
    } in
    elim (Bool-cases (leb 1 (length p.out))) [
      | inl some_text ↦
          rw (le→leb_false _ _ short, some_text)
            (forget_digits p.digits m (
              and_then-Logged (λ _. pure (length p.out)) (write-Logged p.out n ready)
                (λ _ k rk _. pure-Logged (length p.out) k rk)))
      | inr empty ↦
          rw (le→leb_false _ _ short, empty) (forget_digits p.digits m (pure-Logged 0 n ready))
    ]

-- A format that fits its arguments, with room for less than the 4096 bytes of the buffer, is
-- printed: `kprintf` returns, and neither runs over its buffer nor faults.
pub kprintf-Logged :
    (fmt : List ℕ) (args : List Arg) (n : ℕ) (m : Machine)
    → room plain fmt args ≡ some n
    → n < 4096
    → AreWords args
    → IsReady m
    → Logged m (kprintf fmt args m)
unfolding kprintf
kprintf-Logged fmt args n m e small ws r =
    let p = kvsnprintf-room 4096 fmt args m.digits n ws r.digits e small in
    rw (p.1, kprintf) (flush-Logged p.0 m p.2 p.4 r)

-- A log message whose level has less than 100 characters, whose format fits its 32-bit arguments
-- and whose room is below the 4096 bytes of the buffer is printed on a machine that is ready for
-- output: `klog` returns without undefined behaviour, the machine is ready for more output, and
-- the other components' state and all memory outside the screen are as before.
pub klog-Logged :
    (level fmt : List ℕ) (args : List Arg) (n : ℕ) (m : Machine)
    → length level < 100
    → room plain fmt args ≡ some n
    → n < 4096
    → AreWords args
    → IsReady m
    → Logged m (klog level fmt args m)
unfolding klog
klog-Logged level fmt args n m short e small ws r =
    and_then-Logged (λ _. kprintf fmt args >>= λ _. pure tt)
      (kprintf-Logged (codes "[%s] ") (text 0 level ∷ []) (suc (length level + 2)) m
        (unfold room in refl) (omega arith) (omega arith, tt) r)
      (λ _ k rk _.
        and_then-Logged (λ _. pure tt) (kprintf-Logged fmt args n k e small ws rk)
          (λ _ j rj _. pure-Logged tt j rj))

-- On a machine that is ready for output, with a file name and an expression of together less than
-- 1000 characters and a line number of 32 bits, a failed assertion prints its message and then
-- never returns, with the other components' state as before.
pub kassert-hangs :
    (file : List ℕ) (line : ℕ) (expr : List ℕ) (m : Machine)
    → length file + length expr < 1000
    → line < 2 ^ 32
    → IsReady m
    → (n : Machine) × (kassert false file line expr m ≡ hung n) × Kept m n
unfolding kassert room
kassert-hangs file line expr m short small r =
    let l =
      kprintf-Logged (codes "ERROR [%s:%d] Failed assertion: %s\n")
        (text 0 file ∷ word line ∷ text 0 expr ∷ []) _ m refl (omega arith)
        (omega arith, (small, (omega arith, tt))) r in
    (l.after, rw (l.returns, kassert), l.kept)
