-- ===== src/Screen/Showing.antt =====
-- Whether the screen shows a paper, or the cursor is still at home, as it is after boot.
use yack.Common.{
  ℕ, ◌+◌, ◌-◌, ◌*◌, ◌≤◌, ◌<◌, ◌≡◌, ◌⊎◌, inl, inr, refl, sym, ◌∙◌, ap, arith, true, List, ◌∷◌,
}
use yack.Memory.{Memory, load16}
use yack.Machine.{Machine}
use yack.Screen.{buffer, put_bytes}
use yack.Screen.Paper.{Paper, blank_paper, print_text}
use yack.Screen.Typing.{Shows}
use yack.Screen.Text.{
  at_home, IsStarted, print_text-IsStarted, print_char-IsStarted, put_bytes-print_text,
  put_bytes-home,
}

-- The screen shows a paper on which something was printed.
abbrev pub Shown : Machine → Type 0
Shown m = (p : Paper) × IsStarted p × Shows p m

-- It does so, or nothing was printed yet.
abbrev pub Showing : Machine → Type 0
Showing m = (at_home m ≡ true) ⊎ Shown m

-- The bytes of the screen are the same.
abbrev pub SameScreen : (memory memory' : Memory) → Type 0
SameScreen memory memory' = (q : ℕ) → buffer ≤ q → q < buffer + 4000 → memory' q ≡ memory q

same_cell :
    (i : ℕ) (memory memory' : Memory)
    → i < 2000
    → SameScreen memory memory'
    → load16 memory' (buffer + 2 * i) ≡ load16 memory (buffer + 2 * i)
unfolding load16
same_cell i memory memory' h e =
    rw
      (
        e (buffer + 2 * i) (omega arith) (omega arith),
        e (buffer + 2 * i + 1) (omega arith) (omega arith),
      )
      refl

module _ (m n : Machine) (rows : n.row ≡ m.row) (cols : n.col ≡ m.col)
    (same : SameScreen m.memory n.memory) where
  Shows-same : (p : Paper) → Shows p m → Shows p n
  Shows-same p s = record {
    lines = record {
      on_row = rows ∙ s.on_row;
      cells = λ r k hr hk.
          same_cell (r * 80 + k) m.memory n.memory (omega arith) same
          ∙ s.cells r k hr hk
          ∙ ap (λ x. p.ink (p.line - x + r) k) (sym rows);
      fresh = s.fresh;
    };
    on_col = cols ∙ s.on_col;
    in_cols = s.in_cols;
  }

  pub Shown-same : Shown m → Shown n
  Shown-same (p, st, s) = (p, st, Shows-same p s)

  pub Showing-same : Showing m → Showing n
  Showing-same (inl h) = inl (rw (rows, cols) h)
  Showing-same (inr s) = inr (Shown-same s)

pub put_bytes-Shown : (str : List ℕ) (n : ℕ) (m : Machine) → Shown m → Shown (put_bytes str n m).1
put_bytes-Shown str n m (p, st, s) =
    (print_text str p, print_text-IsStarted str p st, (put_bytes-print_text str n st s).0)

-- A text that is not empty ends up on the screen, also the first one.
pub put_bytes-first :
    (c : ℕ) (str : List ℕ) (m : Machine) → Showing m → Shown (put_bytes (c ∷ str) 0 m).1
unfolding print_text
put_bytes-first c str m (inl h) = (
  print_text (c ∷ str) blank_paper,
  print_text-IsStarted str _ (print_char-IsStarted c blank_paper),
  put_bytes-home c str m h,
)
put_bytes-first c str m (inr s) = put_bytes-Shown (c ∷ str) 0 m s
