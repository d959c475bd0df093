-- ===== src/Common/Bits.antt =====
-- `&` with a mask and `|` of disjoint fields, as arithmetic.
use Prim.Native.Nat.{
  ℕ, zero, suc, ◌+◌, ◌-◌, ◌*◌, ◌/◌, ◌%◌, ◌^◌, ◌≤◌, ◌<◌, min, max, bit_and, bit_or, bit_and-bitwise,
  bit_or-bitwise,
}
use mathlib.Core.Path.{◌≡◌, refl, ap}
use native.Mathlib.Nat.{pow-suc, one-le-pow, mod-lt, div-lt_iff_lt-mul}
use native.Mathlib.Omega.{arith}
use yack.Common.Digits.{and_step, or_step, fields}

pub zero-and : (a : ℕ) → bit_and 0 a ≡ 0
zero-and a = bit_and-bitwise 0 a

pub zero-or : (a : ℕ) → bit_or 0 a ≡ a
zero-or a = bit_or-bitwise 0 a

-- Both go from `a / 2` to `a`, on fuel.
and-zero_upto : (n a : ℕ) → a ≤ n → bit_and a 0 ≡ 0
and-zero_upto n zero h = refl
and-zero_upto zero (suc a) h = absurd (omega arith)
and-zero_upto (suc n) (suc a) h =
    omega (arith, and_step (suc a) 0, and-zero_upto n (suc a / 2) (omega arith))

or-zero_upto : (n a : ℕ) → a ≤ n → bit_or a 0 ≡ a
or-zero_upto n zero h = refl
or-zero_upto zero (suc a) h = absurd (omega arith)
or-zero_upto (suc n) (suc a) h =
    omega (arith, or_step (suc a) 0, or-zero_upto n (suc a / 2) (omega arith))

pub and-zero : (a : ℕ) → bit_and a 0 ≡ 0
and-zero a = and-zero_upto a a (omega arith)

pub or-zero : (a : ℕ) → bit_or a 0 ≡ a
or-zero a = or-zero_upto a a (omega arith)

and_fields :
    (k q r s t : ℕ)
    → r < 2 ^ k
    → t < 2 ^ k
    → bit_and (q * 2 ^ k + r) (s * 2 ^ k + t) ≡ bit_and q s * 2 ^ k + bit_and r t
and_fields = fields bit_and min refl and_step

pub or_fields :
    (k q r s t : ℕ)
    → r < 2 ^ k
    → t < 2 ^ k
    → bit_or (q * 2 ^ k + r) (s * 2 ^ k + t) ≡ bit_or q s * 2 ^ k + bit_or r t
or_fields = fields bit_or max refl or_step

-- A mask of `k` ones keeps a number of `k` digits.
and_ones : (k r : ℕ) → r < 2 ^ k → bit_and r (2 ^ k - 1) ≡ r
and_ones zero r h = ground (arith, and-zero r)
and_ones (suc k) r h =
    ground (arith, and_step r (2 ^ suc k - 1), pow-suc 2 k, one-le-pow k 2, and_ones k (r / 2))

pub or_congr : (a a' b b' : ℕ) → a ≡ a' → b ≡ b' → bit_or a b ≡ bit_or a' b'
or_congr a a' b b' p q = cc

and_congr : (a a' b b' : ℕ) → a ≡ a' → b ≡ b' → bit_and a b ≡ bit_and a' b'
and_congr a a' b b' p q = cc

-- `a & ((1 << k) - 1)`
pub and_low : (k a : ℕ) → bit_and a (2 ^ k - 1) ≡ a % 2 ^ k
and_low k a = omega (
  arith,
  one-le-pow k 2,
  and_congr a (a / 2 ^ k * 2 ^ k + a % 2 ^ k) (2 ^ k - 1) (0 * 2 ^ k + (2 ^ k - 1)) (omega arith)
      (omega arith),
  and_fields k (a / 2 ^ k) (a % 2 ^ k) 0 (2 ^ k - 1) (mod-lt a (one-le-pow k 2 (omega arith)))
      (omega (arith, one-le-pow k 2)),
  ap (λ (t : ℕ). t * 2 ^ k) (and-zero (a / 2 ^ k)),
  and_ones k (a % 2 ^ k) (mod-lt a (one-le-pow k 2 (omega arith))),
)

-- `(q << k) | r` is a sum when `r` fits in `k` bits.
pub or_low : (k q r : ℕ) → r < 2 ^ k → bit_or (q * 2 ^ k) r ≡ q * 2 ^ k + r
or_low k q r h = ground (arith, one-le-pow k 2, or_fields k q 0 0 r, or-zero q, zero-or r)

-- A mask with its low `k` bits clear rounds down: `ones` is what the mask keeps of the rest.
pub and_high : (k n a : ℕ) → a < 2 ^ n * 2 ^ k → bit_and a ((2 ^ n - 1) * 2 ^ k) ≡ a / 2 ^ k * 2 ^ k
and_high k n a h = omega (
  arith,
  one-le-pow k 2,
  and_congr a (a / 2 ^ k * 2 ^ k + a % 2 ^ k) ((2 ^ n - 1) * 2 ^ k) ((2 ^ n - 1) * 2 ^ k + 0)
      (omega arith) (omega arith),
  and_fields k (a / 2 ^ k) (a % 2 ^ k) (2 ^ n - 1) 0 (mod-lt a (one-le-pow k 2 (omega arith)))
      (omega (arith, one-le-pow k 2)),
  and-zero (a % 2 ^ k),
  ap (λ (t : ℕ). t * 2 ^ k)
      (and_ones n (a / 2 ^ k) ((div-lt_iff_lt-mul (one-le-pow k 2 (omega arith))).1 h)),
)
