-- ===== src/Screen/Paper.antt =====
-- What the console promises: the text laid out on paper that never ends, 80 columns wide. The
-- screen shows the last 25 lines of it.
use yack.Common.{ℕ, ◌+◌, List, [], ◌∷◌, ◌&&◌, ◌==◌, if◌then◌else◌}
use yack.Screen.{to_vga, max_cols}
use yack.Screen.Cells.{blank}

pub record Paper : Type 0 where
  pub line : ℕ
  pub column : ℕ
  pub ink : ℕ → ℕ → ℕ

abbrev pub blank_paper : Paper
blank_paper = record { line = 0; column = 0; ink = λ _ _. blank }

unfoldable pub feed : Paper → Paper
feed p = record p { line = p.line + 1; column = 0 }

unfoldable pub strike : ℕ → Paper → Paper
strike c p = record p { ink = λ l k. if l == p.line && k == p.column then to_vga c else p.ink l k }

unfoldable pub print_char : ℕ → Paper → Paper
print_char c p =
    if c == b'\n'
    then feed p
    else (if p.column + 1 == max_cols
        then feed (strike c p)
        else record (strike c p) { column = p.column + 1 })

unfoldable pub print_text : List ℕ → Paper → Paper
print_text [] p = p
print_text (c ∷ cs) p = print_text cs (print_char c p)
