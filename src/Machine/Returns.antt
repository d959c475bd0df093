-- ===== src/Machine/Returns.antt =====
-- Runs that return, with what holds of their result and of the machine that they leave.
use yack.Common.{◌≡◌, refl, sym, ◌∙◌, ap}
use yack.Machine.{Machine, Outcome, done, Kernel, and_then}

pub data Returns {A : Type 0} (P : A → Machine → Type 0) : Outcome A → Type 0 where
  returns : {a : A} {m : Machine} → P a m → Returns P (done a m)

module _ {A : Type 0} {P : A → Machine → Type 0} where
  pub bind :
      {B : Type 0} {Q : B → Machine → Type 0} {o : Outcome A} (k : A → Kernel B)
      → Returns P o
      → ((a : A) (m : Machine) → P a m → Returns Q (k a m))
      → Returns Q (and_then o k)
  bind k (returns {a} {m} p) next = next a m p

  pub mono :
      {Q : A → Machine → Type 0} {o : Outcome A}
      → Returns P o
      → ((a : A) (m : Machine) → P a m → Q a m)
      → Returns Q o
  mono (returns {a} {m} p) weaken = returns (weaken a m p)

-- The result and the machine of a run that returns.
pub Returns-done :
    {A : Type 0} {P : A → Machine → Type 0} {o : Outcome A}
    → Returns P o
    → (a : A) × (m : Machine) × (o ≡ done a m) × P a m
Returns-done (returns {a} {m} p) = (a, m, refl, p)

-- The machine that a run leaves.
abbrev pub left_by : {A : Type 0} → Machine → Outcome A → Machine
left_by m (done a n) = n
left_by m _ = m

-- A run leaves one machine.
pub done-same :
    {A : Type 0} {a b : A} {n k : Machine} {o : Outcome A} → o ≡ done a n → o ≡ done b k → n ≡ k
done-same {n = n} e f = ap (left_by n) (sym e ∙ f)
