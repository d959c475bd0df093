-- ===== src/Screen/Spoken.antt =====
-- What has been sent to a port, and that the console sends to the ports of its cursor only.
use yack.Common.{
  ℕ, ◌+◌, ◌-◌, ◌*◌, ◌≡◌, ◌≢◌, refl, ◌∙◌, ap, arith, ◌==◌, ◌&&◌, inl, inr, Bool-cases, List, [], ◌∷◌,
  ◌++◌, if◌then◌else◌, map, u8, u16, sym, ==_iff, true, append-nil, append_assoc,
}
use yack.Memory.{memmove}
use yack.Machine.{Machine, Event, port_byte, port_read, outb}
use yack.Serial.{line_status_port}
use yack.Serial.Poll.{sent}
use yack.Screen.{
  buffer, to_vga, put_cell, init_buffer, scroll, new_line, advance, type_char, move_cursor, putchar,
  put_bytes,
}
use yack.Screen.Typing.{blank_cells-memory}

-- The bytes that were written to a port, the first one first. The history has the last event first.
unfoldable pub spoken : (port : ℕ) → List Event → List ℕ
spoken port [] = []
spoken port (port_byte q v ∷ h) = if q == port then spoken port h ++ v ∷ [] else spoken port h
spoken port (_ ∷ h) = spoken port h

-- `serial_write` speaks its text.
pub spoken-sent :
    (port : ℕ) (cs : List ℕ) (h : List Event)
    → spoken (u16 port) (sent port cs h) ≡ spoken (u16 port) h ++ map u8 cs
unfolding spoken sent
spoken-sent port [] h = sym (append-nil (spoken (u16 port) h))
spoken-sent port (c ∷ cs) h =
    let same : (u16 port == u16 port) ≡ true = (==_iff (u16 port) (u16 port)).1 refl in
    spoken-sent port cs _ ∙ rw same (append_assoc (spoken (u16 port) h) (u8 c ∷ []) (map u8 cs))

init_buffer_history : (m : Machine) → (init_buffer m).history ≡ m.history
unfolding init_buffer
init_buffer_history m = ap (λ (x : Machine). x.history) (blank_cells-memory 2000 0 m)

scroll_history : (m : Machine) → (scroll m).history ≡ m.history
unfolding scroll
scroll_history m =
    ap (λ (x : Machine). x.history)
      (blank_cells-memory 80 ((m.row - 1) * 80)
        (record m { memory = (memmove buffer (buffer + 160) 3840 m.memory).1; row = m.row - 1 }))

new_line_history : (m : Machine) → (new_line m).history ≡ m.history
unfolding new_line
new_line_history m = elim (Bool-cases (m.row + 1 == 25)) [
  | inl full ↦ rw full (scroll_history (record m { col = 0; row = m.row + 1 }))
  | inr room ↦ rw room
]

advance_history : (m : Machine) → (advance m).history ≡ m.history
unfolding advance
advance_history m = elim (Bool-cases (m.col + 1 == 80)) [
  | inl full ↦ rw full (new_line_history (record m { col = m.col + 1 }))
  | inr room ↦ rw room
]

type_char_history : (c : ℕ) (m : Machine) → (type_char c m).history ≡ m.history
unfolding type_char
type_char_history c m = elim (Bool-cases (c == b'\n')) [
  | inl feeds ↦ rw feeds (new_line_history m)
  | inr prints ↦ rw prints (advance_history (put_cell (m.row * 80 + m.col) (to_vga c) m))
]

-- Neither port of the cursor.
abbrev pub IsElsewhere : ℕ → Type 0
IsElsewhere port = (0x3D4 ≢ port) × (0x3D5 ≢ port)

-- What is heard of the history does not depend on the bytes to those ports.
module _ {X : Type 0} (heard : List Event → X)
    (select : (v : ℕ) (h : List Event) → heard (port_byte 0x3D4 v ∷ h) ≡ heard h)
    (place : (v : ℕ) (h : List Event) → heard (port_byte 0x3D5 v ∷ h) ≡ heard h) where
  move_cursor-heard : (pos : ℕ) (m : Machine) → heard (move_cursor pos m).history ≡ heard m.history
  unfolding move_cursor outb
  move_cursor-heard pos m = place _ _ ∙ select _ _ ∙ place _ _ ∙ select _ _

  putchar-heard : (c : ℕ) (m : Machine) → heard (putchar c m).history ≡ heard m.history
  unfolding putchar
  putchar-heard c m = elim (Bool-cases (m.col == 0 && m.row == 0)) [
    | inl home ↦ rw home (
        move_cursor-heard _ (type_char c (init_buffer m))
        ∙ ap heard (type_char_history c (init_buffer m) ∙ init_buffer_history m))
    | inr later ↦ rw later (move_cursor-heard _ (type_char c m) ∙ ap heard (type_char_history c m))
  ]

  put_bytes-heard :
      (str : List ℕ) (n : ℕ) (m : Machine) → heard (put_bytes str n m).1.history ≡ heard m.history
  unfolding put_bytes
  put_bytes-heard [] n m = refl
  put_bytes-heard (c ∷ str) n m = put_bytes-heard str (n + 1) (putchar c m) ∙ putchar-heard c m

spoken-elsewhere :
    (port q v : ℕ) (h : List Event) → q ≢ port → spoken port (port_byte q v ∷ h) ≡ spoken port h
unfolding spoken
spoken-elsewhere port q v h ne = ground arith

pub put_bytes-spoken :
    (port : ℕ)
    → IsElsewhere port
    → (str : List ℕ) (n : ℕ) (m : Machine)
    → spoken port (put_bytes str n m).1.history ≡ spoken port m.history
put_bytes-spoken port away =
    put_bytes-heard (spoken port) (λ v h. spoken-elsewhere port 0x3D4 v h away.0)
      (λ v h. spoken-elsewhere port 0x3D5 v h away.1)

-- How often the keyboard was read.
unfoldable pub asked : List Event → ℕ
asked [] = 0
asked (port_read q ∷ h) = if q == 0x60 then asked h + 1 else asked h
asked (_ ∷ h) = asked h

pub put_bytes-asked :
    (str : List ℕ) (n : ℕ) (m : Machine) → asked (put_bytes str n m).1.history ≡ asked m.history
unfolding asked
put_bytes-asked = put_bytes-heard asked (λ v h. refl) (λ v h. refl)

-- `serial_write` reads its line only.
pub asked-sent :
    (port : ℕ) (cs : List ℕ) (h : List Event)
    → u16 (line_status_port port) ≢ 0x60
    → asked (sent port cs h) ≡ asked h
unfolding asked sent
asked-sent port [] h ne = refl
asked-sent port (c ∷ cs) h ne = asked-sent port cs _ ne ∙ ground arith
