-- ===== src/Screen/Fields.antt =====
-- The console changes the screen, its cursor and the history of the ports only.
use yack.Common.{
  ℕ, zero, suc, ◌+◌, ◌-◌, ◌*◌, ◌≡◌, refl, ◌∙◌, ap, arith, ◌==◌, ◌&&◌, inl, inr, Bool-cases, List,
  [], ◌∷◌,
}
use yack.Memory.{memmove}
use yack.Machine.{Machine}
use yack.Machine.Kept.{Kept, Kept-refl, Kept-trans}
use yack.Screen.{
  buffer, to_vga, put_cell, blank_cells, init_buffer, scroll, new_line, advance, type_char,
  move_cursor, putchar, put_bytes,
}
use yack.Screen.Showing.{Shown, Showing, put_bytes-Shown, put_bytes-first}
use yack.Screen.Writes.{IsOnScreen, OffScreen, putchar_outside}

-- `m` with another screen, cursor and history.
abbrev onto : Machine → Machine → Machine
onto m n = record m { memory = n.memory; row = n.row; col = n.col; history = n.history }

blank_cells-onto : (n i : ℕ) (m : Machine) → blank_cells n i m ≡ onto m (blank_cells n i m)
unfolding blank_cells
blank_cells-onto zero i m = refl
blank_cells-onto (suc n) i m = blank_cells-onto n (i + 1) (put_cell i (to_vga 32) m)

init_buffer-onto : (m : Machine) → init_buffer m ≡ onto m (init_buffer m)
unfolding init_buffer
init_buffer-onto m = ap (λ (n : Machine). record n { col = 0; row = 0 }) (blank_cells-onto 2000 0 m)

scroll-onto : (m : Machine) → scroll m ≡ onto m (scroll m)
unfolding scroll
scroll-onto m =
    blank_cells-onto 80 ((m.row - 1) * 80)
      (record m { memory = (memmove buffer (buffer + 160) 3840 m.memory).1; row = m.row - 1 })

new_line-onto : (m : Machine) → new_line m ≡ onto m (new_line m)
unfolding new_line
new_line-onto m = elim (Bool-cases (m.row + 1 == 25)) [
  | inl full ↦ rw full (scroll-onto (record m { col = 0; row = m.row + 1 }))
  | inr room ↦ rw room
]

advance-onto : (m : Machine) → advance m ≡ onto m (advance m)
unfolding advance
advance-onto m = elim (Bool-cases (m.col + 1 == 80)) [
  | inl full ↦ rw full (new_line-onto (record m { col = m.col + 1 }))
  | inr room ↦ rw room
]

type_char-onto : (c : ℕ) (m : Machine) → type_char c m ≡ onto m (type_char c m)
unfolding type_char
type_char-onto c m = elim (Bool-cases (c == b'\n')) [
  | inl feeds ↦ rw feeds (new_line-onto m)
  | inr prints ↦ rw prints (advance-onto (put_cell (m.row * 80 + m.col) (to_vga c) m))
]

-- Two changes of the screen in a row are one.
onto-onto : (m n k : Machine) → n ≡ onto m n → k ≡ onto n k → k ≡ onto m k
onto-onto m n k p q = q ∙ ap (λ (x : Machine). onto x k) p

typed : (c : ℕ) (m : Machine) → move_cursor c m ≡ onto m (move_cursor c m)
unfolding move_cursor
typed c m = refl

putchar-onto : (c : ℕ) (m : Machine) → putchar c m ≡ onto m (putchar c m)
unfolding putchar
putchar-onto c m = elim (Bool-cases (m.col == 0 && m.row == 0)) [
  | inl home ↦ rw home (
      onto-onto m (type_char c (init_buffer m)) _
        (onto-onto m (init_buffer m) _ (init_buffer-onto m) (type_char-onto c (init_buffer m)))
        (typed _ (type_char c (init_buffer m))))
  | inr later ↦
      rw later (onto-onto m (type_char c m) _ (type_char-onto c m) (typed _ (type_char c m)))
]

-- What a run of `putchar` keeps.
pub record Typed (m m' : Machine) : Type 0 where
  pub on_screen : IsOnScreen m'
  pub kept : Kept m m'
  pub digits : m'.digits ≡ m.digits
  pub outside : (q : ℕ) → OffScreen q → m'.memory q ≡ m.memory q

onto-Kept :
    (m n : Machine)
    → n ≡ onto m n
    → (Shown m → Shown n)
    → (Showing m → Showing n)
    → Kept m n × (n.digits ≡ m.digits)
onto-Kept m n e shown showing = (
  record {
    serial_ports = ap (λ (x : Machine). x.serial_ports) e;
    serial_default_port = ap (λ (x : Machine). x.serial_default_port) e;
    trap_counter = ap (λ (x : Machine). x.trap_counter) e;
    last_trapno = ap (λ (x : Machine). x.last_trapno) e;
    trap_table = ap (λ (x : Machine). x.trap_table) e;
    trap_callback_table = ap (λ (x : Machine). x.trap_callback_table) e;
    gdt = ap (λ (x : Machine). x.gdt) e;
    device = ap (λ (x : Machine). x.device) e;
    patience = ap (λ (x : Machine). x.patience) e;
    shown = shown;
    showing = showing;
  },
  ap (λ (x : Machine). x.digits) e,
)

-- Whatever is written, the cursor stays on the screen, no byte outside the VGA buffer changes,
-- and the state of the other components stays as it was.
pub put_bytes-Typed :
    (str : List ℕ) (n : ℕ) (m : Machine) → IsOnScreen m → Typed m (put_bytes str n m).1
unfolding put_bytes
put_bytes-Typed [] n m v = record {
  on_screen = v;
  kept = Kept-refl m;
  digits = refl;
  outside = λ q o. refl;
}
put_bytes-Typed (c ∷ str) n m v =
    let once =
      onto-Kept m (putchar c m) (putchar-onto c m) (put_bytes-Shown (c ∷ []) 0 m)
        (λ s. inr (put_bytes-first c [] m s)) in
    let rest =
      put_bytes-Typed str (n + 1) (putchar c m) (putchar_outside c m 0 v (omega arith)).1 in
    record {
      on_screen = rest.on_screen;
      kept = Kept-trans once.0 rest.kept;
      digits = rest.digits ∙ once.1;
      outside = λ q o. rest.outside q o ∙ (putchar_outside c m q v o).0;
    }
