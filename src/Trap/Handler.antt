-- ===== src/Trap/Handler.antt =====
-- `common_trap_handler` and the keyboard's callback of arch/i386/trap.c: what a trap leaves.
use yack.Common.{
  ℕ, zero, suc, ◌+◌, ◌%◌, ◌^◌, ◌<◌, ◌≡◌, refl, ap, arith, Bool, true, false, not, List, [], ◌∷◌,
  leb, ltb, ◌==◌, if◌then◌else◌, get_or, u8, u16, u32, inl, inr, lt→ltb, ltb→lt, Bool-cases,
}
use yack.Machine.{
  Machine, Event, port_byte, Callback, null, keyboard_handler, done, Kernel, when, outb, inb,
  port_read,
}
use yack.Screen.Writes.{OffScreen}
use yack.Format.{word, codes}
use yack.Format.Room.{room}
use yack.Io.{klog}
use yack.Io.Logged.{IsReady, Logged, and_then-Logged, klog-Logged, pure-Logged}
use yack.Io.Stores.{history-Logged, retable-IsReady}
use yack.Trap.{
  Trapframe, keyboard_scan_codes, scan_code, handle_keyboard, pic_eoi, run_callback, dispatch,
  trap_handler,
}

all_lt : ℕ → List ℕ → Bool
all_lt n [] = true
all_lt n (x ∷ xs) = if ltb x n then all_lt n xs else false

get_or-lt : (n : ℕ) (xs : List ℕ) (i : ℕ) → 0 < n → all_lt n xs ≡ true → get_or xs i 0 < n
unfolding all_lt
get_or-lt n [] i h e = h
get_or-lt n (x ∷ xs) i h e = elim (Bool-cases (ltb x n)) [
  | inl lt ↦ elim i as (λ j. get_or (x ∷ xs) j 0 < n) [
    | zero ↦ ltb→lt x n lt
    | suc j ↦ get_or-lt n xs j h (ground (arith, e, lt))
  ]
  | inr ge ↦ absurd (ground (arith, e, ge))
]

-- Every key gives a character of one byte.
pub scan_code-lt : (byte : ℕ) → scan_code byte < 256
scan_code-lt byte = get_or-lt 256 keyboard_scan_codes byte (omega arith) (unfold all_lt in refl)

abbrev pub letter : ℕ → Kernel (Unit {0})
letter byte =
    when (not (scan_code byte == 0))
      (klog (codes "TRAP") (codes "Letter: %c\n") (word (scan_code byte) ∷ []))

letter-Logged : (byte : ℕ) (m : Machine) → IsReady m → Logged m (letter byte m)
letter-Logged byte m r = elim (Bool-cases (scan_code byte == 0)) [
  | inl e ↦ rw e (pure-Logged tt m r)
  | inr ne ↦ rw ne (
      klog-Logged (codes "TRAP") (codes "Letter: %c\n") (word (scan_code byte) ∷ []) 26 m
        (omega arith) (unfold room in refl) (omega arith) (omega (arith, scan_code-lt byte), tt) r)
]

-- The callback of the keyboard reads one scan code and logs its letter, if it has one.
handle_keyboard-Logged : (m : Machine) → IsReady m → Logged m (handle_keyboard m)
unfolding handle_keyboard inb
handle_keyboard-Logged m r =
    and_then-Logged letter
      (history-Logged (u8 (m.device m.history (u16 0x60))) (port_read (u16 0x60) ∷ m.history) m r)
      (λ byte n rn _. letter-Logged byte n rn)

run_callback-Logged : (c : Callback) (m : Machine) → IsReady m → Logged m (run_callback c m)
unfolding run_callback
run_callback-Logged null m r = pure-Logged tt m r
run_callback-Logged keyboard_handler m r = handle_keyboard-Logged m r

dispatch-Logged : (i : ℕ) (m : Machine) → i < 256 → IsReady m → Logged m (dispatch i m)
unfolding dispatch
dispatch-Logged i m h r =
    rw (lt→ltb i 256 h) (run_callback-Logged (get_or m.trap_callback_table i null) m r)

-- The bytes that end the interrupt `irq`: to the second controller if it is one of its, and to the
-- first if it comes from any.
abbrev pub acknowledged : (irq : ℕ) → List Event → List Event
acknowledged irq h =
    if leb 0x28 irq
    then port_byte 0xA0 0x20 ∷ port_byte 0x20 0x20 ∷ h
    else if leb 0x20 irq
    then port_byte 0x20 0x20 ∷ h
    else h

pub pic_eoi-acknowledged :
    (irq : ℕ) (m : Machine)
    → irq < 256
    → pic_eoi irq m ≡ record m { history = acknowledged irq m.history }
unfolding pic_eoi outb
pic_eoi-acknowledged irq m h =
    let same : irq % 256 ≡ irq = ground arith in
    rw same (elim (Bool-cases (leb 0x28 irq)) [
      | inl e ↦ let e' : leb 0x20 irq ≡ true = ground arith in rw (e, e')
      | inr ne ↦ elim (Bool-cases (leb 0x20 irq)) [ inl e ↦ rw (ne, e) | inr ne' ↦ rw (ne, ne') ]
    ])

-- What one trap leaves: it is counted, its number is noted, the tables and all memory but the
-- screen stay as they are, output can go on, and the last that the machine does is to end the
-- interrupt.
pub record Handled (tf : Trapframe) (m n : Machine) : Type 0 where
  pub ready : IsReady n
  pub counted : n.trap_counter ≡ (m.trap_counter + 1) % 2 ^ 32
  pub noted : n.last_trapno ≡ tf.trapno
  pub gates : n.trap_table ≡ m.trap_table
  pub callbacks : n.trap_callback_table ≡ m.trap_callback_table
  pub default_port : n.serial_default_port ≡ m.serial_default_port
  pub gdt : n.gdt ≡ m.gdt
  pub outside : (q : ℕ) → OffScreen q → n.memory q ≡ m.memory q
  pub ended : (h : List Event) × (n.history ≡ acknowledged tf.trapno h)

abbrev pub noticed : Trapframe → Machine → Machine
noticed tf m = record m { trap_counter = u32 (m.trap_counter + 1); last_trapno = tf.trapno }

abbrev pub log_trap : Trapframe → Kernel (Unit {0})
log_trap tf m =
    when (not (m.last_trapno == 0x20))
      (klog (codes "TRAP") (codes "trapcounter: 0x%0x    trapno: %x\n")
        (word m.trap_counter ∷ word tf.trapno ∷ []))
      m

log_trap-Logged :
    (tf : Trapframe) (m : Machine)
    → m.trap_counter < 2 ^ 32
    → tf.trapno < 256
    → IsReady m
    → Logged m (log_trap tf m)
log_trap-Logged tf m c h r = elim (Bool-cases (m.last_trapno == 0x20)) [
  | inl e ↦ rw e (pure-Logged tt m r)
  | inr ne ↦ rw ne (
      klog-Logged (codes "TRAP") (codes "trapcounter: 0x%0x    trapno: %x\n")
        (word m.trap_counter ∷ word tf.trapno ∷ []) 62 m (omega arith) (unfold room in refl)
        (omega arith) (c, (omega arith, tt)) r)
]

-- On a machine that is ready for output a trap with a number below 256 is handled: the handler
-- returns, has counted the trap and noted its number, has left the default port, the two tables,
-- the segments and all memory outside the screen as they were, and has ended with the bytes that
-- acknowledge the interrupt.
pub trap_handler-Handled :
    (tf : Trapframe) (m : Machine)
    → tf.trapno < 256
    → IsReady m
    → (n : Machine) × (trap_handler tf m ≡ done tt n) × Handled tf m n
unfolding trap_handler
trap_handler-Handled tf m h r =
    let start = noticed tf m in
    let l =
      and_then-Logged (λ _. dispatch tf.trapno)
        (log_trap-Logged tf start (ground arith) h (
          retable-IsReady m.serial_ports (u32 (m.trap_counter + 1)) tf.trapno m.trap_table
            m.trap_callback_table m.gdt m.history m r))
        (λ _ n rn _. dispatch-Logged tf.trapno n h rn) in
    let n = l.after in
    let past = acknowledged tf.trapno n.history in
    (
      record n { history = past },
      rw l.returns (ap (done tt) (pic_eoi-acknowledged tf.trapno n h)),
      record {
        ready =
            retable-IsReady n.serial_ports n.trap_counter n.last_trapno n.trap_table
              n.trap_callback_table n.gdt past n l.ready;
        counted = l.kept.trap_counter;
        noted = l.kept.last_trapno;
        gates = l.kept.trap_table;
        callbacks = l.kept.trap_callback_table;
        default_port = l.kept.serial_default_port;
        gdt = l.kept.gdt;
        outside = l.outside;
        ended = (n.history, refl);
      },
    )
