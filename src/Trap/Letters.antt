-- ===== src/Trap/Letters.antt =====
-- What `common_trap_handler` of arch/i386/trap.c prints: the number of the trap, and the letter of
-- the key if it is the keyboard's.
use yack.Common.{
  ℕ, ◌+◌, ◌%◌, ◌^◌, ◌<◌, ◌≡◌, refl, sym, subst, ◌∙◌, ap, arith, List, [], ◌∷◌, ◌++◌, ◌==◌, get_or,
  u8, u16, inl, inr, lt→ltb, Bool-cases,
}
use yack.Machine.{Outcome, Machine, Event, Callback, null, keyboard_handler, done, inb, port_read}
use yack.Screen.Paper.{Paper}
use yack.Screen.Typing.{Shows}
use yack.Screen.Text.{print_text-IsStarted, IsStarted, Shows-elsewhere}
use yack.Screen.Spoken.{spoken, asked}
use yack.Format.{word, codes}
use yack.Format.Rendered.{digits_of, padded}
use yack.Io.Written.{Written, IsOnLine, Writes, Written-nil}
use yack.Io.Written.Joined.{Written-append}
use yack.Io.Written.History.{rehistory-IsOnLine, rehistory-Written, before-Written}
use yack.Io.Messages.{klog-Written}
use yack.Trap.{Trapframe, scan_code, handle_keyboard, run_callback, dispatch, trap_handler}
use yack.Trap.Texts.{
  trap_text, letter_text, callback_text, reads_of, length-hex, length-padded, length-five,
  trapno_rendered, counter_rendered, letter_rendered,
}
use yack.Trap.Handler.{acknowledged, noticed, log_trap, letter, scan_code-lt, pic_eoi-acknowledged}

-- The keyboard gives one scan code after the other, one at each read.
abbrev pub Gives : (scans : ℕ → ℕ) → Machine → Type 0
Gives scans m = (h : List Event) → u8 (m.device h 0x60) ≡ scans (asked h)

-- What a trap writes, with the scan codes that it takes from the keyboard.
abbrev pub Handles : (t : List ℕ) (reads : ℕ) → Paper → (m : Machine) → Outcome (Unit {0}) → Type 0
Handles t reads p m o =
    (n : Machine) × (o ≡ done tt n) × Written t p m n × (asked n.history ≡ asked m.history + reads)

-- A machine that has counted and noted the trap.
abbrev marked : Trapframe → (counter : ℕ) → Machine → Machine
marked tf counter m = record m { trap_counter = counter; last_trapno = tf.trapno }

log_trap-Writes :
    (tf : Trapframe) (counter : ℕ) (p : Paper) (m0 : Machine)
    → counter < 2 ^ 32
    → tf.trapno < 256
    → IsOnLine (marked tf counter m0)
    → IsStarted p
    → Shows p (marked tf counter m0)
    → Writes tt
        (trap_text counter tf.trapno)
        p
        (marked tf counter m0)
        (log_trap tf (marked tf counter m0))
log_trap-Writes tf counter p m0 c h l st s = elim (Bool-cases (tf.trapno == 0x20)) [
  | inl e ↦ rw e (marked tf counter m0, refl, Written-nil p (marked tf counter m0) l s, refl)
  | inr ne ↦
      let m = marked tf counter m0 in
      rw ne (
        klog-Written (codes "TRAP") (codes "trapcounter: 0x%0x    trapno: %x\n")
          (word counter ∷ word tf.trapno ∷ [])
          (codes "trapcounter: 0x"
            ++ (padded 8 (digits_of 16 counter)
                ++ (codes "    trapno: " ++ (digits_of 16 tf.trapno ++ codes "\n"))))
          p m (c, (omega arith, tt))
          (counter_rendered counter (codes "    trapno: %x\n") (word tf.trapno ∷ []) _
            (trapno_rendered tf.trapno))
          (omega arith)
          (omega (
            arith,
            length-five (codes "trapcounter: 0x") (padded 8 (digits_of 16 counter))
                (codes "    trapno: ") (digits_of 16 tf.trapno) (codes "\n"),
            length-padded (digits_of 16 counter) (length-hex counter c),
            length-hex tf.trapno (omega arith),
          ))
          l st s)
]

letter-Writes :
    (byte : ℕ) (p : Paper) (m : Machine)
    → IsOnLine m
    → IsStarted p
    → Shows p m
    → Writes tt (letter_text (scan_code byte)) p m (letter byte m)
letter-Writes byte p m l st s = elim (Bool-cases (scan_code byte == 0)) [
  | inl e ↦ rw e (m, refl, Written-nil p m l s, refl)
  | inr ne ↦ rw ne (
      klog-Written (codes "TRAP") (codes "Letter: %c\n") (word (scan_code byte) ∷ [])
        (codes "Letter: " ++ (u8 (scan_code byte) ∷ codes "\n")) p m
        (omega (arith, scan_code-lt byte), tt) (letter_rendered (scan_code byte)) (omega arith)
        (omega arith) l st s)
]

run_callback-Writes :
    (c : Callback) (scans : ℕ → ℕ) (p : Paper) (m : Machine)
    → Gives scans m
    → IsOnLine m
    → IsStarted p
    → Shows p m
    → Handles (callback_text c (scans (asked m.history))) (reads_of c) p m (run_callback c m)
unfolding run_callback handle_keyboard inb spoken asked
run_callback-Writes null scans p m g l st s = (m, refl, Written-nil p m l s, omega arith)
run_callback-Writes keyboard_handler scans p m g l st s =
    let past = port_read 0x60 ∷ m.history in
    let scan = scans (asked m.history) in
    let w =
      letter-Writes scan p (record m { history = past }) (rehistory-IsOnLine past l) st
        (Shows-elsewhere past s) in
    (w.0, rw (g m.history) w.1, before-Written past _ p m w.0 refl w.2, w.3)

marked-Shows :
    {p : Paper} {m : Machine} (tf : Trapframe) (counter : ℕ)
    → Shows p m
    → Shows p (marked tf counter m)
marked-Shows tf counter s = record {
  lines = record { on_row = s.on_row; cells = s.cells; fresh = s.fresh };
  on_col = s.on_col;
  in_cols = s.in_cols;
}

marked-IsOnLine :
    {m : Machine} (tf : Trapframe) (counter : ℕ) → IsOnLine m → IsOnLine (marked tf counter m)
marked-IsOnLine tf counter l = record {
  ready = record {
    on_screen = record { row_lt = l.ready.on_screen.row_lt; col_lt = l.ready.on_screen.col_lt };
    digits = l.ready.digits;
    patient = l.ready.patient;
    line = l.ready.line;
  };
  used = l.used;
  elsewhere = l.elsewhere;
  unasked = l.unasked;
  answers = l.answers;
}

acknowledged-spoken :
    (port irq : ℕ) (h : List Event)
    → port ≡ 0x3F8
    → spoken port (acknowledged irq h) ≡ spoken port h
unfolding spoken
acknowledged-spoken port irq h e = ground arith

acknowledged-asked : (irq : ℕ) (h : List Event) → asked (acknowledged irq h) ≡ asked h
unfolding asked
acknowledged-asked irq h = ground arith

handler-runs :
    (tf : Trapframe) (m n k : Machine)
    → tf.trapno < 256
    → log_trap tf (noticed tf m) ≡ done tt n
    → n.trap_callback_table ≡ m.trap_callback_table
    → run_callback (get_or m.trap_callback_table tf.trapno null) n ≡ done tt k
    → trap_handler tf m ≡ done tt (record k { history = acknowledged tf.trapno k.history })
unfolding trap_handler dispatch
handler-runs tf m n k h logs same calls = rw logs (
    rw (lt→ltb tf.trapno 256 h) (
      rw (subst (λ t. run_callback (get_or t tf.trapno null) n ≡ done tt k) (sym same) calls)
        (ap (done tt) (pic_eoi-acknowledged tf.trapno k h))))

-- On a machine that is ready for output, with 0x3F8 as its default port, a line that answers, a
-- keyboard that gives one scan code after the other, one at each read, and a screen that shows a
-- paper past its first position, for a trap with a number below 256: the handler returns and has
-- printed, on the screen and on the serial line, the log message of the trap, if it is not the
-- clock's, and behind it what its callback prints, nothing without one, and with the keyboard's
-- the letter of the next scan code, if it has one. It has read the keyboard just for that; the
-- trap counted and its number noted, the other components' state and all memory outside the
-- screen are as before.
pub trap_handler-Written :
    (tf : Trapframe) (scans : ℕ → ℕ) (p : Paper) (m : Machine)
    → tf.trapno < 256
    → m.serial_default_port ≡ 0x3F8
    → Gives scans m
    → IsOnLine m
    → IsStarted p
    → Shows p m
    → Handles
        (trap_text ((m.trap_counter + 1) % 2 ^ 32) tf.trapno
          ++ callback_text (get_or m.trap_callback_table tf.trapno null) (scans (asked m.history)))
        (reads_of (get_or m.trap_callback_table tf.trapno null))
        p
        (noticed tf m)
        (trap_handler tf m)
trap_handler-Written tf scans p m h port g l st s =
    let start = noticed tf m in
    let first =
      log_trap-Writes tf ((m.trap_counter + 1) % 2 ^ 32) p m (omega arith) h
        (marked-IsOnLine tf _ l) st (marked-Shows tf _ s) in
    let n = first.0 in
    let w = first.2 in
    let calls = get_or m.trap_callback_table tf.trapno null in
    let logged = trap_text ((m.trap_counter + 1) % 2 ^ 32) tf.trapno in
    let second =
      run_callback-Writes calls scans _ n (λ q. rw w.kept.device (g q)) w.on_line
        (print_text-IsStarted _ p st) w.shows in
    let k = second.0 in
    let past = acknowledged tf.trapno k.history in
    (
      record k { history = past },
      handler-runs tf m n k h first.1 w.kept.trap_callback_table second.1,
      subst
          (λ r.
            Written (logged ++ callback_text calls (scans r)) p start (record k { history = past }))
          first.3
          (rehistory-Written past _ p start k
            (acknowledged-spoken (u16 m.serial_default_port) tf.trapno k.history (rw port refl))
            (Written-append _ _ p start n k w second.2)),
      acknowledged-asked tf.trapno k.history ∙ second.3 ∙ ap (λ r. r + reads_of calls) first.3,
    )
