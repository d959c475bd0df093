-- ===== src/Screen/Tests.antt =====
-- The first texts on the screen of the sample machine.
use yack.Common.{◌≡◌, refl, [], ◌∷◌, inl, arith}
use yack.Machine.{Machine}
use yack.Screen.{putchar, put_bytes}
use yack.Screen.Paper.{Paper, blank_paper, print_text}
use yack.Screen.Typing.{Shows}
use yack.Screen.Text.{put_bytes-home}
use yack.Screen.Writes.{IsOnScreen, putchar_outside}
use yack.Samples.{sample}

put_bytes-home_example :
    Shows
      (print_text (b'h' ∷ b'i' ∷ b'\n' ∷ []) blank_paper)
      (put_bytes (b'h' ∷ b'i' ∷ b'\n' ∷ []) 0 sample).1
put_bytes-home_example = put_bytes-home b'h' (b'i' ∷ b'\n' ∷ []) sample refl

abbrev paper : Paper
paper = print_text (b'>' ∷ []) blank_paper

abbrev screen : Machine
screen = (put_bytes (b'>' ∷ []) 0 sample).1

putchar_outside_example :
    ((putchar b'\n' sample).memory 5 ≡ sample.memory 5) × IsOnScreen (putchar b'\n' sample)
putchar_outside_example =
    putchar_outside b'\n' sample 5 (record { row_lt = omega arith; col_lt = omega arith })
      (inl omega arith)
