-- ===== src/Screen/Typing.antt =====
-- The screen against the paper: one character.
use yack.Common.{
  ℕ, zero, suc, ◌+◌, ◌-◌, ◌*◌, ◌<◌, ◌≡◌, refl, ap, arith, inl, inr, Bool-cases, ◌==◌, Bool-cases,
  inl, inr,
}
use Prim.Native.Nat.{min}
use yack.Memory.{memmove}
use yack.Machine.{Machine}
use yack.Screen.{
  buffer, to_vga, put_cell, blank_cells, init_buffer, scroll, new_line, advance, type_char,
}
use yack.Screen.Cells.{cell, blank, to_vga-lt, cell-put_cell, cell-init_buffer, cell-scroll}
use yack.Screen.Paper.{Paper, blank_paper, feed, strike, print_char}

-- The last 25 lines of `p` stand on the screen, and nothing is written below its last line.
pub record Lines (p : Paper) (m : Machine) : Type 0 where
  pub on_row : m.row ≡ min p.line 24
  pub cells : (r k : ℕ) → r < 25 → k < 80 → cell m (r * 80 + k) ≡ p.ink (p.line - m.row + r) k
  pub fresh : (l k : ℕ) → p.line < l → p.ink l k ≡ blank

pub record Shows (p : Paper) (m : Machine) : Type 0 where
  pub lines : Lines p m
  pub open lines use *
  pub on_col : m.col ≡ p.column
  pub in_cols : p.column < 80

pub blank_cells-memory :
    (n i : ℕ) (m : Machine) → blank_cells n i m ≡ record m { memory = (blank_cells n i m).memory }
unfolding blank_cells
blank_cells-memory zero i m = refl
blank_cells-memory (suc n) i m = blank_cells-memory n (i + 1) (put_cell i blank m)

pub init_buffer-Shows : (m : Machine) → Shows blank_paper (init_buffer m)
init_buffer-Shows m = record {
  lines = record {
    on_row = unfold init_buffer in refl;
    cells = λ r k hr hk. ground (arith, cell-init_buffer m (r * 80 + k));
    fresh = λ l k h. refl;
  };
  on_col = unfold init_buffer in refl;
  in_cols = omega arith;
}

scroll-row-col : (m : Machine) → ((scroll m).row ≡ m.row - 1) × ((scroll m).col ≡ m.col)
unfolding scroll
scroll-row-col m =
    let moved = record m {
      memory = (memmove buffer (buffer + 160) 3840 m.memory).1;
      row = m.row - 1;
    } in
    let e = blank_cells-memory 80 ((m.row - 1) * 80) moved in
    (ap (λ (x : Machine). x.row) e, ap (λ (x : Machine). x.col) e)

module _ {p : Paper} {m : Machine} (s : Lines p m) where
  abbrev fed : Machine
  fed = record m { col = 0; row = m.row + 1 }

  scroll-Lines : m.row ≡ 24 → Lines (feed p) (scroll fed)
  unfolding feed
  scroll-Lines e = record {
    on_row = omega (arith, (scroll-row-col fed).0, s.on_row);
    cells = λ r k hr hk. ground (
      arith,
      scroll-row-col fed,
      cell-scroll fed (r * 80 + k),
      s.cells (r + 1) k,
      s.fresh (p.line + 1) k,
      s.on_row,
      ap (λ i. p.ink i k) (shift r),
    );
    fresh = λ l k h. s.fresh l k (omega arith);
  }
    where
      shift : (r : ℕ) → p.line - 24 + (r + 1) ≡ p.line + 1 - 24 + r
      shift r = omega (arith, s.on_row)

  -- A line feed, with the cursor in any column.
  new_line-Shows : Shows (feed p) (new_line m)
  unfolding feed new_line
  new_line-Shows = elim (Bool-cases (m.row + 1 == 25)) [
    | inl full ↦ rw full (record {
      lines = scroll-Lines (ground arith);
      on_col = (scroll-row-col fed).1;
      in_cols = omega arith;
    })
    | inr room ↦ rw room (record {
      lines = record {
        on_row = ground (arith, s.on_row);
        cells = λ r k hr hk.
            let e : p.line + 1 - (m.row + 1) + r ≡ p.line - m.row + r = omega arith in
            rw e (s.cells r k hr hk);
        fresh = λ l k h. s.fresh l k (omega arith);
      };
      on_col = refl;
      in_cols = omega arith;
    })
  ]

-- A character on the last line.
strike-Lines :
    (c : ℕ) {p : Paper} {m : Machine}
    → Shows p m
    → (j k : ℕ)
    → Lines
        (record (strike c p) { column = j })
        (record (put_cell (m.row * 80 + m.col) (to_vga c) m) { col = k })
unfolding strike
strike-Lines c {p} {m} s j k = record {
  on_row = s.on_row;
  cells = λ r i hr hi. ground (
    arith,
    cell-put_cell (m.row * 80 + m.col) (r * 80 + i) (to_vga c) m (to_vga-lt c),
    s.cells r i,
    s.on_row,
    s.on_col,
    s.in_cols,
  );
  fresh = λ l i h. ground (arith, s.fresh l i);
}

-- The screen goes on showing the paper when both take a character.
pub type_char-Shows :
    (c : ℕ) {p : Paper} {m : Machine} → Shows p m → Shows (print_char c p) (type_char c m)
unfolding type_char print_char advance feed
type_char-Shows c {p} {m} s = elim (Bool-cases (c == b'\n')) [
  | inl feeds ↦ rw feeds (new_line-Shows s.lines)
  | inr prints ↦
      rw (prints, s.on_col)
        (elim (Bool-cases (p.column + 1 == 80)) [
          | inl full ↦ rw full (new_line-Shows (at_column (p.column + 1)))
          | inr room ↦ rw room (record {
            lines = at_column (p.column + 1);
            on_col = refl;
            in_cols = ground (arith, s.in_cols);
          })
        ])
]
  where
    at_column :
        (k : ℕ)
        → Lines
            (record (strike c p) { column = k })
            (record (put_cell (m.row * 80 + p.column) (to_vga c) m) { col = k })
    at_column k = rw s.on_col at (strike-Lines c s k k)
