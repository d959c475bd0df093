-- ===== src/Screen/Writes.antt =====
-- What the console leaves alone: memory outside the screen, and every other component's state.
use yack.Common.{ℕ, zero, suc, ◌+◌, ◌-◌, ◌*◌, ◌≤◌, ◌<◌, ◌≡◌, ◌⊎◌, refl, ◌∙◌, arith}
use yack.Memory.{memmove}
use yack.Memory.Copy.{memmove-copied}
use yack.Memory.Laws.{store16_outside}
use yack.Machine.{Machine}
use yack.Screen.{
  buffer, to_vga, put_cell, blank_cells, init_buffer, scroll, new_line, advance, type_char,
  move_cursor, putchar,
}

-- The cursor lies on the screen.
pub record IsOnScreen (m : Machine) : Type 0 where
  pub row_lt : m.row < 25
  pub col_lt : m.col < 80

-- `q` is no address of the 4000 bytes of the VGA buffer.
abbrev pub OffScreen : ℕ → Type 0
OffScreen q = (q < buffer) ⊎ (buffer + 4000 ≤ q)

blank_cells_outside :
    (n i : ℕ) (m : Machine) (q : ℕ)
    → i + n ≤ 2000
    → OffScreen q
    → (blank_cells n i m).memory q ≡ m.memory q
unfolding blank_cells
blank_cells_outside zero i m q h o = refl
blank_cells_outside (suc n) i m q h o =
    blank_cells_outside n (i + 1) (put_cell i (to_vga 32) m) q (omega arith) o
    ∙ store16_outside m.memory (buffer + 2 * i) (to_vga 32) q (omega arith)

blank_cells-cursor :
    (n i : ℕ) (m : Machine) → ((blank_cells n i m).row ≡ m.row) × ((blank_cells n i m).col ≡ m.col)
unfolding blank_cells
blank_cells-cursor zero i m = (refl, refl)
blank_cells-cursor (suc n) i m = blank_cells-cursor n (i + 1) (put_cell i (to_vga 32) m)

scroll_outside :
    (m : Machine) (q : ℕ)
    → m.row ≡ 25
    → OffScreen q
    → ((scroll m).memory q ≡ m.memory q) × ((scroll m).row ≡ 24) × ((scroll m).col ≡ m.col)
unfolding scroll
scroll_outside m q e o =
    let moved = record m {
      memory = (memmove buffer (buffer + 160) 3840 m.memory).1;
      row = m.row - 1;
    } in
    ground (
      arith,
      blank_cells_outside 80 (moved.row * 80) moved q,
      blank_cells-cursor 80 (moved.row * 80) moved,
      (memmove-copied buffer (buffer + 160) 3840 m.memory).1 q,
    )

new_line_outside :
    (m : Machine) (q : ℕ)
    → m.row < 25
    → OffScreen q
    → ((new_line m).memory q ≡ m.memory q) × IsOnScreen (new_line m)
unfolding new_line
new_line_outside m q h o = ground (arith, scroll_outside (record m { col = 0; row = m.row + 1 }) q)

type_char_outside :
    (c : ℕ) (m : Machine) (q : ℕ)
    → IsOnScreen m
    → OffScreen q
    → ((type_char c m).memory q ≡ m.memory q) × IsOnScreen (type_char c m)
unfolding type_char advance
type_char_outside c m q v o = ground (
  arith,
  new_line_outside m q,
  new_line_outside (record (put_cell (m.row * 80 + m.col) (to_vga c) m) { col = m.col + 1 }) q,
  store16_outside m.memory (buffer + 2 * (m.row * 80 + m.col)) (to_vga c) q,
)

-- `putchar` keeps the cursor on the screen, if it was there, and writes to no byte outside the
-- VGA buffer.
pub putchar_outside :
    (c : ℕ) (m : Machine) (q : ℕ)
    → IsOnScreen m
    → OffScreen q
    → ((putchar c m).memory q ≡ m.memory q) × IsOnScreen (putchar c m)
unfolding putchar move_cursor init_buffer
putchar_outside c m q v o = ground (
  arith,
  type_char_outside c m q,
  type_char_outside c (init_buffer m) q,
  blank_cells_outside 2000 0 m q,
)
