-- ===== src/Trap/Texts.antt =====
-- What traps print, and that the formats of arch/i386/trap.c stand for it.
use yack.Common.{
  ℕ, ◌+◌, ◌-◌, ◌^◌, ◌<◌, ◌≤◌, ◌≡◌, refl, ap, arith, false, List, [], ◌∷◌, ◌++◌, ◌==◌, length,
  length-append, length-replicate, replicate, if◌then◌else◌, some, u8,
}
use yack.Machine.{Callback, null, keyboard_handler}
use yack.Format.{Arg, word, codes, plain}
use yack.Format.Rendered.{rendered, piece, before, digits_of, padded}
use yack.Format.Rendered.Pieces.{filled-zero, length-digits_of}
use yack.Io.Messages.{message}
use yack.Trap.{scan_code}

-- What is printed for each trap but the clock's, and for a character from the keyboard, 0 for none.
abbrev pub trap_text : (counter trapno : ℕ) → List ℕ
trap_text counter trapno =
    if trapno == 0x20
    then []
    else message (codes "TRAP") (
        codes "trapcounter: 0x"
        ++ (padded 8 (digits_of 16 counter)
            ++ (codes "    trapno: " ++ (digits_of 16 trapno ++ codes "\n"))))

abbrev pub letter_text : ℕ → List ℕ
letter_text c =
    if c == 0 then [] else message (codes "TRAP") (codes "Letter: " ++ (u8 c ∷ codes "\n"))

abbrev pub callback_text : Callback → (scan : ℕ) → List ℕ
callback_text null scan = []
callback_text keyboard_handler scan = letter_text (scan_code scan)

-- How often a callback reads the keyboard.
abbrev pub reads_of : Callback → ℕ
reads_of null = 0
reads_of keyboard_handler = 1

pub length-hex : (v : ℕ) → v < 2 ^ 32 → length (digits_of 16 v) ≤ 8
length-hex v h = length-digits_of 8 v 16 (omega arith) (omega arith) h

pub length-padded : (t : List ℕ) → length t ≤ 8 → length (padded 8 t) ≡ 8
length-padded t h = omega (
  arith,
  length-append (replicate (8 - length t) b'0') t,
  length-replicate {A = ℕ} (8 - length t) b'0',
)

pub length-five :
    (a b c d e : List ℕ)
    → length (a ++ (b ++ (c ++ (d ++ e)))) ≡ length a + length b + length c + length d + length e
length-five a b c d e = omega (
  arith,
  length-append a (b ++ (c ++ (d ++ e))),
  length-append b (c ++ (d ++ e)),
  length-append c (d ++ e),
  length-append d e,
)

pub trapno_rendered :
    (trapno : ℕ)
    → rendered plain (codes "    trapno: %x\n") (word trapno ∷ [])
      ≡ some (codes "    trapno: " ++ (digits_of 16 trapno ++ codes "\n"))
unfolding rendered piece before
trapno_rendered trapno =
    ap (λ x. some (codes "    trapno: " ++ (x ++ codes "\n")))
      (filled-zero false (digits_of 16 trapno))

pub counter_rendered :
    (counter : ℕ) (fmt : List ℕ) (args : List Arg) (r : List ℕ)
    → rendered plain fmt args ≡ some r
    → rendered plain (codes "trapcounter: 0x%0x" ++ fmt) (word counter ∷ args)
      ≡ some (codes "trapcounter: 0x" ++ (padded 8 (digits_of 16 counter) ++ r))
unfolding rendered piece before
counter_rendered counter fmt args r e = rw e refl

pub letter_rendered :
    (c : ℕ)
    → rendered plain (codes "Letter: %c\n") (word c ∷ [])
      ≡ some (codes "Letter: " ++ (u8 c ∷ codes "\n"))
unfolding rendered piece before
letter_rendered c = refl
