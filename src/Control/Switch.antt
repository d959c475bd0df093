-- ===== src/Control/Switch.antt =====
-- What `kmv_switch` leaves in CR3.
use Prim.Native.Nat.{min, max}
use yack.Common.{ℕ, suc, zero, ◌/◌, ◌%◌, ◌≤◌, ◌≡◌, ◌↔◌, sym, ap, ◌∙◌, arith, bit_and, bit_or}
use yack.Common.Bits.{zero-and, and-zero, or-zero}
use yack.Common.Digits.{and_step, or_step}
use yack.Layout.{phys_addr}
use yack.Control.{Registers, set_cr3, kmv_switch}

-- Both go from `a / 2` to `a`, on fuel.
and_or_upto : (n a b : ℕ) → a ≤ n → bit_and a (bit_or a b) ≡ a
and_or_upto n zero b h = zero-and (bit_or 0 b)
and_or_upto zero (suc a) b h = absurd (omega arith)
and_or_upto (suc n) (suc a) b h =
    let low = or_step (suc a) b in
    let half : bit_or (suc a) b / 2 ≡ bit_or (suc a / 2) (b / 2) = omega (arith, low) in
    let last : bit_or (suc a) b % 2 ≡ max (suc a % 2) (b % 2) = omega (arith, low) in
    let less : bit_and (suc a / 2) (bit_or (suc a) b / 2) ≡ suc a / 2 =
      ap (bit_and (suc a / 2)) half ∙ and_or_upto n (suc a / 2) (b / 2) (omega arith) in
    omega (arith, and_step (suc a) (bit_or (suc a) b), less, last)

or_and_upto : (n a b : ℕ) → b ≤ n → bit_or (bit_and a b) b ≡ b
or_and_upto n a zero h = or-zero (bit_and a 0) ∙ and-zero a
or_and_upto zero a (suc b) h = absurd (omega arith)
or_and_upto (suc n) a (suc b) h =
    let low = and_step a (suc b) in
    let half : bit_and a (suc b) / 2 ≡ bit_and (a / 2) (suc b / 2) = omega (arith, low) in
    let last : bit_and a (suc b) % 2 ≡ min (a % 2) (suc b % 2) = omega (arith, low) in
    let less : bit_or (bit_and a (suc b) / 2) (suc b / 2) ≡ suc b / 2 =
      ap (λ x. bit_or x (suc b / 2)) half ∙ or_and_upto n (a / 2) (suc b / 2) (omega arith) in
    omega (arith, or_step (bit_and a (suc b)) (suc b), less, last)

-- `kmv_switch` leaves the address of the new directory in CR3 just if each bit that CR3 has is a
-- bit of that address: the write of the register keeps the bits that are there.
pub kmv_switch-switches :
    (kpagedir : ℕ) (r : Registers)
    → ((kmv_switch kpagedir r).cr3 ≡ phys_addr kpagedir)
      ↔ (bit_and r.cr3 (phys_addr kpagedir) ≡ r.cr3)
unfolding kmv_switch set_cr3
kmv_switch-switches kpagedir r = (
  λ h. ap (bit_and r.cr3) (sym h) ∙ and_or_upto r.cr3 r.cr3 (phys_addr kpagedir) (omega arith),
  λ h.
      ap (λ x. bit_or x (phys_addr kpagedir)) (sym h)
      ∙ or_and_upto (phys_addr kpagedir) r.cr3 (phys_addr kpagedir) (omega arith),
)
