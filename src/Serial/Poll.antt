-- ===== src/Serial/Poll.antt =====
-- The wait for the line, and what `serial_write` sends.
use yack.Common.{
  ℕ, zero, suc, ◌+◌, ◌<◌, ◌≡◌, ◌≢◌, refl, ap, ◌∙◌, arith, List, [], ◌∷◌, length, u8, u16,
}
use yack.Machine.{Machine, Event, port_byte, port_read, done, waiting, event}
use yack.Serial.{line_status_port, poll, serial_loop, serial_write}

-- The answer to the next read of the line status.
abbrev pub status : (port : ℕ) → Machine → ℕ
status port m = u8 (m.device m.history (u16 (line_status_port port)))

-- The line answers each read of its status with some byte other than 0x20, whatever happened.
abbrev pub Answers : (port : ℕ) → (List Event → ℕ → ℕ) → Type 0
Answers port device = (h : List Event) → u8 (device h (u16 (line_status_port port))) ≢ 0x20

-- What the wait and the sending of the bytes add to the history.
unfoldable pub sent : (port : ℕ) → List ℕ → List Event → List Event
sent port [] h = h
sent port (c ∷ cs) h =
    sent port cs (port_byte (u16 port) (u8 c) ∷ port_read (u16 (line_status_port port)) ∷ h)

-- One read is enough.
poll-Answers :
    (fuel port : ℕ) (m : Machine)
    → 0 < fuel
    → Answers port m.device
    → poll fuel port m ≡ done tt (event (port_read (u16 (line_status_port port))) m)
unfolding poll
poll-Answers zero port m h a = absurd (omega arith)
poll-Answers (suc fuel) port m h a = ground (arith, a m.history)

-- While the line answers 0x20 at each read of its status, the wait goes on: it outlasts any
-- patience.
pub poll_stuck :
    (fuel port : ℕ) (m : Machine)
    → ((h : List Event) → u8 (m.device h (u16 (line_status_port port))) ≡ 0x20)
    → poll fuel port m ≡ waiting
unfolding poll
poll_stuck zero port m a = refl
poll_stuck (suc fuel) port m a =
    rw (a m.history) (poll_stuck fuel port (event (port_read (u16 (line_status_port port))) m) a)

serial_loop-cons :
    (c : ℕ) (buffer : List ℕ) (port n : ℕ) (m : Machine)
    → 0 < m.patience
    → Answers port m.device
    → serial_loop (c ∷ buffer) port n m
      ≡ serial_loop buffer port (n + 1) (record m {
        history = port_byte (u16 port) (u8 c) ∷ port_read (u16 (line_status_port port)) ∷ m.history;
      })
unfolding serial_loop
serial_loop-cons c buffer port n m h a = rw (poll-Answers m.patience port m h a)

serial_loop-sent :
    (buffer : List ℕ) (port n : ℕ) (m : Machine)
    → 0 < m.patience
    → Answers port m.device
    → serial_loop buffer port n m
      ≡ done (n + length buffer) (record m { history = sent port buffer m.history })
unfolding sent
serial_loop-sent [] port n m h a = unfold serial_loop in ap (λ k. done k m) (omega arith)
serial_loop-sent (c ∷ buffer) port n m h a =
    let m' = record m {
      history = port_byte (u16 port) (u8 c) ∷ port_read (u16 (line_status_port port)) ∷ m.history;
    } in
    serial_loop-cons c buffer port n m h a
    ∙ serial_loop-sent buffer port (n + 1) m' h a
    ∙ ap (λ k. done k (record m { history = sent port (c ∷ buffer) m.history })) (omega arith)

-- With a default port that is in use, a positive patience and a line that never answers 0x20,
-- `serial_write` returns the number of bytes, has sent each of them in order to the data port,
-- each after one read of the status, and has changed nothing else, so that the default port too
-- is what it was.
pub serial_write-sent :
    (buffer : List ℕ) (m : Machine)
    → m.serial_default_port ≢ 0
    → 0 < m.patience
    → Answers m.serial_default_port m.device
    → serial_write buffer m
      ≡ done (length buffer) (record m { history = sent m.serial_default_port buffer m.history })
unfolding serial_write
serial_write-sent buffer m ne h a =
    let q = record m { serial_default_port = 0 } in
    ground (arith, serial_loop-sent buffer m.serial_default_port 0 q h a)

-- With no default port nothing is sent.
pub serial_write-none :
    (buffer : List ℕ) (m : Machine) → m.serial_default_port ≡ 0 → serial_write buffer m ≡ done 0 m
unfolding serial_write
serial_write-none buffer m e = ground arith
