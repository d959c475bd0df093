-- ===== src/Screen/Cells.antt =====
-- Reads of the screen after its writes.
use yack.Common.{ℕ, zero, suc, ◌+◌, ◌*◌, ◌^◌, ◌<◌, ◌≡◌, ◌==◌, arith, if◌then◌else◌, ltb}
use yack.Memory.{Memory, memmove, load16}
use yack.Memory.Laws.{load16-store16_self, load16-store16_ne}
use yack.Memory.Copy.{within, memmove-copied}
use yack.Machine.{Machine}
use yack.Screen.{buffer, to_vga, put_cell, blank_cells, init_buffer, scroll}

abbrev pub cell : Machine → ℕ → ℕ
cell m i = load16 m.memory (buffer + 2 * i)

abbrev pub blank : ℕ
blank = to_vga b' '

pub to_vga-lt : (c : ℕ) → to_vga c < 2 ^ 16
unfolding to_vga
to_vga-lt c = omega arith

pub cell-put_cell :
    (i j v : ℕ) (m : Machine)
    → v < 2 ^ 16
    → cell (put_cell i v m) j ≡ (if i == j then v else cell m j)
cell-put_cell i j v m h = ground (
  arith,
  load16-store16_self m.memory (buffer + 2 * i) v,
  load16-store16_ne m.memory (buffer + 2 * i) (buffer + 2 * j) v,
)

cell-blank_cells :
    (n i : ℕ) (m : Machine) (j : ℕ)
    → cell (blank_cells n i m) j ≡ (if within i n j then blank else cell m j)
unfolding blank_cells
cell-blank_cells zero i m j = ground arith
cell-blank_cells (suc n) i m j = ground (
  arith,
  cell-blank_cells n (i + 1) (put_cell i blank m) j,
  cell-put_cell i j blank m (to_vga-lt b' '),
)

-- `init_buffer_` blanks the whole screen.
pub cell-init_buffer :
    (m : Machine) (j : ℕ) → cell (init_buffer m) j ≡ (if ltb j 2000 then blank else cell m j)
unfolding init_buffer
cell-init_buffer m j = ground (arith, cell-blank_cells 2000 0 m j)

-- A memory word of 16 bits moves with its two bytes.
cell-memmove :
    (m : Memory) (j : ℕ)
    → load16 (memmove buffer (buffer + 160) 3840 m).1 (buffer + 2 * j)
      ≡ (if ltb j 1920 then load16 m (buffer + 2 * (j + 80)) else load16 m (buffer + 2 * j))
unfolding load16
cell-memmove m j = ground (
  arith,
  (memmove-copied buffer (buffer + 160) 3840 m).1 (buffer + 2 * j),
  (memmove-copied buffer (buffer + 160) 3840 m).1 (buffer + 2 * j + 1),
)

-- Scrolling moves every row up by one and blanks the row that the cursor is left on.
pub cell-scroll :
    (m : Machine) (j : ℕ)
    → j < 2000
    → m.row ≡ 25
    → cell (scroll m) j ≡ (if ltb j 1920 then cell m (j + 80) else blank)
unfolding scroll
cell-scroll m j h e = ground (
  arith,
  cell-blank_cells 80 1920
      (record m { memory = (memmove buffer (buffer + 160) 3840 m.memory).1; row = 24 }) j,
  cell-memmove m.memory j,
)
