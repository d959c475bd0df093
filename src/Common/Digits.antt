-- ===== src/Common/Digits.antt =====
-- The lowest binary digit of `bit_and` and `bit_or`, and what follows for a low and a high field.
use Prim.Native.Nat.{
  ℕ, zero, suc, ◌+◌, ◌*◌, ◌/◌, ◌%◌, ◌^◌, ◌≤◌, ◌<◌, min, max, bit_and, bit_or, digits, bitwise,
  bit_and-bitwise, bit_or-bitwise,
}
use mathlib.Core.Path.{◌≡◌, refl, ap}
use native.Mathlib.Nat.{pow-suc}
use native.Mathlib.Omega.{arith}

-- The fuel of the library's recursion does not matter once it covers the number.
module _ (z : ℕ → ℕ) (f : ℕ → ℕ → ℕ) where
  enough : (n m a b : ℕ) → a ≤ n → a ≤ m → digits z f n a b ≡ digits z f m a b
  enough zero zero a b p q = refl
  enough (suc n) (suc m) (suc a) b p q =
      rw (enough n m (suc a / 2) (b / 2) (omega arith) (omega arith))
  enough (suc n) (suc m) zero b p q = refl
  enough zero (suc m) zero b p q = refl
  enough (suc n) zero zero b p q = refl
  enough zero (suc m) (suc a) b p q = absurd (omega arith)
  enough (suc n) zero (suc a) b p q = absurd (omega arith)

  lowest :
      (a b : ℕ)
      → bitwise z f (suc a) b ≡ bitwise z f (suc a / 2) (b / 2) * 2 + f (suc a % 2) (b % 2)
  lowest a b = omega (arith, enough a (suc a / 2) (suc a / 2) (b / 2) (omega arith) (omega arith))

pub and_step : (a b : ℕ) → bit_and a b ≡ bit_and (a / 2) (b / 2) * 2 + min (a % 2) (b % 2)
and_step zero b = simp bit_and-bitwise (omega arith)
and_step (suc a) b = simp bit_and-bitwise (lowest (λ _. 0) min a b)

pub or_step : (a b : ℕ) → bit_or a b ≡ bit_or (a / 2) (b / 2) * 2 + max (a % 2) (b % 2)
or_step zero b = simp bit_or-bitwise (omega arith)
or_step (suc a) b = simp bit_or-bitwise (lowest (λ y. y) max a b)

double : (q k : ℕ) → q * 2 ^ suc k ≡ 2 * (q * 2 ^ k)
double q k = omega (arith, ap (λ (t : ℕ). q * t) (pow-suc 2 k))

-- An operation that works digit by digit works on a high and a low field apart.
module _ (op g : ℕ → ℕ → ℕ) (at_zero : op 0 0 ≡ 0)
    (step : (a b : ℕ) → op a b ≡ op (a / 2) (b / 2) * 2 + g (a % 2) (b % 2)) where
  same : (a a' b b' : ℕ) → a ≡ a' → b ≡ b' → op a b ≡ op a' b'
  same a a' b b' p q = cc

  cut : (a a' b b' : ℕ) → a ≡ a' → b ≡ b' → g a b ≡ g a' b'
  cut a a' b b' p q = cc

  bottom : (q r k : ℕ) → (q * 2 ^ suc k + r) % 2 ≡ r % 2
  bottom q r k = omega (arith, double q k)

  pub fields :
      (k q r s t : ℕ)
      → r < 2 ^ k
      → t < 2 ^ k
      → op (q * 2 ^ k + r) (s * 2 ^ k + t) ≡ op q s * 2 ^ k + op r t
  fields zero q zero s zero hr ht =
      omega (arith, at_zero, same (q * 2 ^ 0 + 0) q (s * 2 ^ 0 + 0) s (omega arith) (omega arith))
  fields zero q (suc r) s t hr ht = absurd (omega arith)
  fields zero q zero s (suc t) hr ht = absurd (omega arith)
  fields (suc k) q r s t hr ht = omega (
    arith,
    step (q * 2 ^ suc k + r) (s * 2 ^ suc k + t),
    same ((q * 2 ^ suc k + r) / 2) (q * 2 ^ k + r / 2) ((s * 2 ^ suc k + t) / 2) (s * 2 ^ k + t / 2)
        (omega (arith, double q k)) (omega (arith, double s k)),
    bottom q r k,
    bottom s t k,
    cut ((q * 2 ^ suc k + r) % 2) (r % 2) ((s * 2 ^ suc k + t) % 2) (t % 2) (bottom q r k)
        (bottom s t k),
    step r t,
    double (op q s) k,
    fields k q (r / 2) s (t / 2) (omega (arith, pow-suc 2 k)) (omega (arith, pow-suc 2 k)),
  )
