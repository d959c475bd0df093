-- ===== src/Format/Steps.antt =====
-- The steps of the loop of `kvsnprintf`, and what it has done at its end.
use yack.Common.{
  ℕ, ◌+◌, ◌≤◌, ◌≡◌, refl, arith, Bool, true, false, List, [], ◌∷◌, ◌++◌, ◌==◌, ltb, length, Option,
  none, some,
}
use mathlib.Core.Option
use yack.Format.{Arg, Conversion, emit, plain, percent, Printed, printed, format_loop, convert}
use yack.Format.Number.{IsDigits}

-- What the loop has printed at its end.
pub record Prints (n : ℕ) (out : List ℕ) (result : Option Printed) : Type 0 where
  pub at_end : Printed
  pub returns : result ≡ some at_end
  pub size : length at_end.out ≤ length out + n
  pub valid : IsDigits at_end.digits

pub Prints_more :
    {n k : ℕ} {out out' : List ℕ} {r : Option Printed}
    → Prints k out' r
    → length out' + k ≤ length out + n
    → Prints n out r
Prints_more p h = record {
  at_end = p.at_end;
  returns = p.returns;
  size = omega (arith, p.size);
  valid = p.valid;
}

pub map-some :
    (f : ℕ → ℕ) (o : Option ℕ) {n : ℕ}
    → Option.map f o ≡ some n
    → (k : ℕ) × (o ≡ some k) × (f k ≡ n)
map-some f none e = absurd (cc)
map-some f (some k) e = (k, refl, cc)

module _ (bufsz : ℕ) (fmt : List ℕ) where
  pub loop-full :
      (c : ℕ) (args : List Arg) (out digits : List ℕ)
      → ltb (length out) bufsz ≡ false
      → format_loop bufsz plain (c ∷ fmt) args out digits ≡ some (printed out digits)
  unfolding format_loop
  loop-full c args out digits h = ground arith

  pub loop-char :
      (c : ℕ) (args : List Arg) (out digits : List ℕ)
      → ltb (length out) bufsz ≡ true
      → (c == b'%') ≡ false
      → format_loop bufsz plain (c ∷ fmt) args out digits
        ≡ format_loop bufsz plain fmt args (out ++ c ∷ []) digits
  unfolding format_loop
  loop-char c args out digits h e = ground arith

  pub loop-percent :
      (c : ℕ) (args : List Arg) (out digits : List ℕ)
      → ltb (length out) bufsz ≡ true
      → (c == b'%') ≡ true
      → format_loop bufsz plain (c ∷ fmt) args out digits
        ≡ format_loop bufsz (percent false) fmt args out digits
  unfolding format_loop
  loop-percent c args out digits h e = ground arith

  pub loop-zero :
      (zeroes : Bool) (c : ℕ) (args : List Arg) (out digits : List ℕ)
      → (c == b'0') ≡ true
      → format_loop bufsz (percent zeroes) (c ∷ fmt) args out digits
        ≡ format_loop bufsz (percent true) fmt args out digits
  unfolding format_loop
  loop-zero zeroes c args out digits e = ground arith

  pub loop-convert :
      (zeroes : Bool) (c : ℕ) (args : List Arg) (out digits : List ℕ) (k : Conversion)
      → (c == b'0') ≡ false
      → convert zeroes c args digits ≡ some k
      → format_loop bufsz (percent zeroes) (c ∷ fmt) args out digits
        ≡ format_loop bufsz plain fmt k.rest (emit k out) k.digits
  unfolding format_loop
  loop-convert zeroes c args out digits k e f = ground arith
