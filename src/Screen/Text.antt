-- ===== src/Screen/Text.antt =====
-- The screen against the paper: a text, from the first character after boot on.
use yack.Common.{ℕ, ◌+◌, ◌<◌, ◌≡◌, arith, Bool, ◌==◌, true, false, ◌&&◌, List, [], ◌∷◌, length}
use yack.Machine.{Machine, Event}
use yack.Screen.{move_cursor, putchar, put_bytes}
use yack.Screen.Paper.{Paper, blank_paper, feed, strike, print_char, print_text}
use yack.Screen.Typing.{Shows, init_buffer-Shows, type_char-Shows}

abbrev pub at_home : Machine → Bool
at_home m = m.col == 0 && m.row == 0

-- The paper is past its first position, so that the screen is not cleared again.
abbrev pub IsStarted : Paper → Type 0
IsStarted p = 0 < p.line + p.column

pub print_char-IsStarted : (c : ℕ) (p : Paper) → IsStarted (print_char c p)
unfolding print_char feed strike
print_char-IsStarted c p = ground arith

pub print_text-IsStarted : (t : List ℕ) (p : Paper) → IsStarted p → IsStarted (print_text t p)
unfolding print_text
print_text-IsStarted [] p st = st
print_text-IsStarted (c ∷ t) p st =
    print_text-IsStarted t (print_char c p) (print_char-IsStarted c p)

pub Shows-elsewhere :
    {p : Paper} {m : Machine} (h : List Event) → Shows p m → Shows p (record m { history = h })
Shows-elsewhere h s = record {
  lines = record { on_row = s.on_row; cells = s.cells; fresh = s.fresh };
  on_col = s.on_col;
  in_cols = s.in_cols;
}

move_cursor-Shows : {p : Paper} {m : Machine} (pos : ℕ) → Shows p m → Shows p (move_cursor pos m)
unfolding move_cursor
move_cursor-Shows pos s = Shows-elsewhere _ s

away : {p : Paper} {m : Machine} → IsStarted p → Shows p m → at_home m ≡ false
away st s = ground (arith, s.on_row, s.on_col)

putchar_home :
    (c : ℕ) (m : Machine) → at_home m ≡ true → Shows (print_char c blank_paper) (putchar c m)
unfolding putchar
putchar_home c m h = rw h (move_cursor-Shows _ (type_char-Shows c (init_buffer-Shows m)))

putchar_away :
    (c : ℕ) {p : Paper} {m : Machine}
    → IsStarted p
    → Shows p m
    → Shows (print_char c p) (putchar c m)
unfolding putchar
putchar_away c st s = rw (away st s) (move_cursor-Shows _ (type_char-Shows c s))

-- Writing more bytes to a screen that shows a paper on which something was printed leaves it
-- showing the paper with those bytes printed, and counts them.
pub put_bytes-print_text :
    (str : List ℕ) (n : ℕ) {p : Paper} {m : Machine}
    → IsStarted p
    → Shows p m
    → Shows (print_text str p) (put_bytes str n m).1 × ((put_bytes str n m).0 ≡ n + length str)
unfolding put_bytes print_text
put_bytes-print_text [] n st s = (s, omega arith)
put_bytes-print_text (c ∷ str) n {p} st s =
    let rest = put_bytes-print_text str (n + 1) (print_char-IsStarted c p) (putchar_away c st s) in
    (rest.0, omega (arith, rest.1))

-- Written to the console with the cursor at home, whatever the VGA memory held, a text of at
-- least one character leaves the screen showing the last 25 lines of the text laid out on endless
-- paper of 80 columns.
pub put_bytes-home :
    (c : ℕ) (str : List ℕ) (m : Machine)
    → at_home m ≡ true
    → Shows (print_text (c ∷ str) blank_paper) (put_bytes (c ∷ str) 0 m).1
unfolding put_bytes print_text
put_bytes-home c str m h =
    (put_bytes-print_text str 1 (print_char-IsStarted c blank_paper) (putchar_home c m h)).0
