-- ===== src/Format/Rendered.antt =====
-- The text that a format and its arguments stand for, without a buffer, and that `kvsnprintf` puts
-- that text.
pub mod Pieces
pub mod Loop
use yack.Common.{
  ℕ, ◌-◌, ◌^◌, Bool, true, false, List, [], ◌∷◌, ◌++◌, ◌==◌, ltb, if◌then◌else◌, length, replicate,
  Option, none, some, u8,
}
use mathlib.Core.Option
use yack.Format.{Arg, word, text, arg_word, takes_arg, Mode, plain, percent}
use yack.Format.Numeral.{numeral}

-- The digits of a number, the first one first.
unfoldable pub digits_of : (base value : ℕ) → List ℕ
digits_of base value = if value == 0 then b'0' ∷ [] else numeral 32 base value []

-- A text with zeroes in front of it, up to a length.
abbrev pub padded : (fill : ℕ) → List ℕ → List ℕ
padded fill t = replicate (fill - length t) b'0' ++ t

abbrev pub filled : (zeroes : Bool) (fill : ℕ) → ℕ
filled zeroes fill = if zeroes then fill else 0

-- A number is no pointer to a text.
abbrev pub text_of : Arg → Option (List ℕ)
text_of (word w) = none
text_of (text address s) = some s

-- What the conversion `c` makes of an argument; a negative number has no text.
unfoldable pub piece : (zeroes : Bool) (c : ℕ) → Arg → Option (List ℕ)
piece zeroes c a =
    if c == b'd'
    then (if ltb (arg_word a) (2 ^ 31)
        then some (padded (filled zeroes 10) (digits_of 10 (arg_word a)))
        else none)
    else (if c == b'p'
        then some (b'0' ∷ b'x' ∷ padded 8 (digits_of 16 (arg_word a)))
        else (if c == b'x'
            then some (padded (filled zeroes 8) (digits_of 16 (arg_word a)))
            else (if c == b's'
                then text_of a
                else (if c == b'c'
                    then some (u8 (arg_word a) ∷ [])
                    else some (digits_of 10 (arg_word a))))))

-- A text in front of what may be there.
unfoldable pub before : List ℕ → Option (List ℕ) → Option (List ℕ)
before t rest = Option.map (λ r. t ++ r) rest

-- The text of a format, if its arguments fit it and none is a negative `%d`.
unfoldable pub rendered : Mode → (fmt : List ℕ) → List Arg → Option (List ℕ)
unfolding piece before
rendered plain [] args = some []
rendered plain (c ∷ fmt) args = elim (c == b'%') [
  | true ↦ rendered (percent false) fmt args
  | false ↦ before (c ∷ []) (rendered plain fmt args)
]
rendered (percent zeroes) [] args = none
rendered (percent zeroes) (c ∷ fmt) [] = elim (c == b'0') [
  | true ↦ rendered (percent true) fmt []
  | false ↦
      if takes_arg c
      then none
      else before (if c == b'%' then b'%' ∷ [] else []) (rendered plain fmt [])
]
rendered (percent zeroes) (c ∷ fmt) (a ∷ args) = elim (c == b'0') [
  | true ↦ rendered (percent true) fmt (a ∷ args)
  | false ↦ elim (takes_arg c) [
    | true ↦ elim (piece zeroes c a) [ none ↦ none | some t ↦ before t (rendered plain fmt args) ]
    | false ↦ before (if c == b'%' then b'%' ∷ [] else []) (rendered plain fmt (a ∷ args))
  ]
]
