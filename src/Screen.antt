-- ===== src/Screen.antt =====
-- The text console of kernel/io/write.c. A cell of the screen is a 16-bit word of `memory`.
pub mod Cells
pub mod Paper
pub mod Typing
pub mod Text
pub mod Showing
pub mod Writes
pub mod Fields
pub mod Spoken
mod Tests
use yack.Common.{
  ℕ, zero, suc, ◌+◌, ◌-◌, ◌*◌, ◌/◌, ◌%◌, ◌^◌, bit_and, bit_or, Bool, ◌&&◌, ◌==◌, ltb, u16, ◌<<<◌,
  ◌>>>◌, List, [], ◌∷◌, if◌then◌else◌,
}
use yack.Layout.{virt_addr}
use yack.Memory.{store16, memmove}
use yack.Machine.{Machine, outb}

abbrev pub max_rows : ℕ
max_rows = 25

abbrev pub max_cols : ℕ
max_cols = 80

-- `MM_VIRTADDR(VGA_MEMORY_ADDRESS)`
abbrev pub buffer : ℕ
buffer = 0x800B8000

-- `(u16)c` of a signed `char`, given by its byte.
abbrev pub char_to_u16 : ℕ → ℕ
char_to_u16 c = if ltb c 128 then c else c + 0xFF00

-- VGA_COLOR_LIGHT_GREY is 7 and VGA_COLOR_BLACK is 0.
unfoldable pub to_vga : ℕ → ℕ
to_vga c = u16 (bit_or (char_to_u16 c) (bit_or 7 (0 <<< 4) <<< 8))

abbrev pub put_cell : (i v : ℕ) → Machine → Machine
put_cell i v m = record m { memory = store16 m.memory (buffer + 2 * i) v }

unfoldable pub move_cursor : ℕ → Machine → Machine
unfolding outb
move_cursor pos m =
    outb 0x3D5 (bit_and pos 0x00FF)
      (outb 0x3D4 15 (outb 0x3D5 (bit_and (pos >>> 8) 0x00FF) (outb 0x3D4 14 m)))

-- `for (...) buffer[i] = TO_VGA(' ')`, with the rounds left and the index.
pub blank_cells : (rounds i : ℕ) → Machine → Machine
blank_cells zero i m = m
blank_cells (suc rounds) i m = blank_cells rounds (i + 1) (put_cell i (to_vga b' ') m)

unfoldable pub init_buffer : Machine → Machine
init_buffer m = record (blank_cells (max_cols * max_rows) 0 m) { col = 0; row = 0 }

unfoldable pub scroll : Machine → Machine
scroll m =
    let moved = record m {
      memory =
          (memmove buffer (buffer + 2 * max_cols) (2 * (max_cols * (max_rows - 1))) m.memory).1;
      row = m.row - 1;
    } in
    blank_cells max_cols (moved.row * max_cols) moved

unfoldable pub new_line : Machine → Machine
new_line m =
    let m' = record m { col = 0; row = m.row + 1 } in if m'.row == max_rows then scroll m' else m'

unfoldable pub advance : Machine → Machine
advance m = let m' = record m { col = m.col + 1 } in if m'.col == max_cols then new_line m' else m'

-- The body of `putchar` between the first initialisation and the move of the cursor.
unfoldable pub type_char : ℕ → Machine → Machine
type_char c m =
    if c == b'\n' then new_line m else advance (put_cell (m.row * max_cols + m.col) (to_vga c) m)

unfoldable pub putchar : ℕ → Machine → Machine
putchar c m =
    let ready = if m.col == 0 && m.row == 0 then init_buffer m else m in
    let typed = type_char c ready in move_cursor (u16 (typed.row * max_cols + typed.col)) typed

-- `for (; size-- != 0; str++, bytes++) putchar(*str)` over the bytes at `str`.
unfoldable pub put_bytes : List ℕ → (bytes : ℕ) → Machine → ℕ × Machine
put_bytes [] bytes m = (bytes, m)
put_bytes (c ∷ str) bytes m = put_bytes str (bytes + 1) (putchar c m)
