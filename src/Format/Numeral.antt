-- ===== src/Format/Numeral.antt =====
-- Numerals: the digits that `utoa` writes, and the number that they stand for.
use yack.Common.{
  ℕ, zero, suc, ◌+◌, ◌-◌, ◌*◌, ◌/◌, ◌%◌, ◌^◌, ◌≤◌, ◌<◌, ◌≡◌, ◌≢◌, refl, ◌∙◌, ap, arith, true, false,
  List, [], ◌∷◌, ◌==◌, ltb, if◌then◌else◌, length, get_or,
}
use native.Mathlib.Nat.{pow-suc, pow-zero, div-lt_iff_lt-mul, div-add-mod'}

-- The character of a digit, and the value of a character.
abbrev pub digit_char : ℕ → ℕ
digit_char d = if ltb d 10 then b'0' + d else b'A' + d - 10

abbrev pub char_value : ℕ → ℕ
char_value c = if ltb c b'A' then c - b'0' else c - b'A' + 10

char_value-digit_char : (d : ℕ) → char_value (digit_char d) ≡ d
char_value-digit_char d = ground arith

-- The number that a numeral stands for, behind digits that stand for `acc`.
unfoldable pub read_number : (base acc : ℕ) → List ℕ → ℕ
read_number base acc [] = acc
read_number base acc (c ∷ cs) = read_number base (acc * base + char_value c) cs

-- The numeral of a number in front of a text: one digit for each division.
unfoldable pub numeral : (fuel base value : ℕ) → List ℕ → List ℕ
numeral zero base value rest = rest
numeral (suc fuel) base value rest = elim (value == 0) [
  | true ↦ rest
  | false ↦ numeral fuel base (value / base) (digit_char (value % base) ∷ rest)
]

pub numeral-zero : (fuel base : ℕ) (rest : List ℕ) → numeral fuel base 0 rest ≡ rest
unfolding numeral
numeral-zero zero base rest = refl
numeral-zero (suc fuel) base rest = refl

pub numeral-suc :
    (fuel base value : ℕ) (rest : List ℕ)
    → 0 < value
    → numeral (suc fuel) base value rest
      ≡ numeral fuel base (value / base) (digit_char (value % base) ∷ rest)
unfolding numeral
numeral-suc fuel base value rest h = ground arith

-- A numeral does not begin with a sign, unless what it stands in front of does.
pub numeral-unsigned :
    (fuel base value : ℕ) (rest : List ℕ)
    → get_or rest 0 0 ≢ b'-'
    → get_or (numeral fuel base value rest) 0 0 ≢ b'-'
unfolding numeral
numeral-unsigned zero base value rest h = h
numeral-unsigned (suc fuel) base value rest h =
    ground (arith, numeral-unsigned fuel base (value / base) (digit_char (value % base) ∷ rest))

module _ {base : ℕ} (ok : 0 < base) where
  pub small_div : (k value : ℕ) → value < base ^ suc k → value / base < base ^ k
  small_div k value h = (div-lt_iff_lt-mul ok).1 (rw pow-suc at h)

  pub zero_of_small : (value : ℕ) → value < base ^ 0 → value ≡ 0
  zero_of_small value h = omega (arith, pow-zero base)

  pub read_number-numeral :
      (k value : ℕ) (rest : List ℕ)
      → value < base ^ k
      → read_number base 0 (numeral k base value rest) ≡ read_number base value rest
  unfolding read_number
  read_number-numeral zero value rest h = rw (zero_of_small value h, numeral-zero)
  read_number-numeral (suc k) zero rest h = rw numeral-zero
  read_number-numeral (suc k) (suc v) rest h =
      let value = suc v in
      rw (numeral-suc k base value rest (omega arith)) (
        read_number-numeral k (value / base) (digit_char (value % base) ∷ rest)
          (small_div k value h)
        ∙ ap (λ n. read_number base n rest)
            (omega (arith, char_value-digit_char (value % base), div-add-mod' value base)))

  pub length-numeral :
      (k fuel value : ℕ) (rest : List ℕ)
      → value < base ^ k
      → length (numeral fuel base value rest) ≤ k + length rest
  length-numeral k zero value rest h = unfold numeral in omega arith
  length-numeral zero (suc fuel) value rest h =
      rw (zero_of_small value h, numeral-zero) (omega arith)
  length-numeral (suc k) (suc fuel) zero rest h = rw numeral-zero (omega arith)
  length-numeral (suc k) (suc fuel) (suc v) rest h =
      let value = suc v in
      rw (numeral-suc fuel base value rest (omega arith)) (
        omega (
          arith,
          length-numeral k fuel (value / base) (digit_char (value % base) ∷ rest)
              (small_div k value h),
        ))
