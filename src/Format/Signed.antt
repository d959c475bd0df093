-- ===== src/Format/Signed.antt =====
-- `itoa`. For a negative number the sign is put over the first digit.
use yack.Common.{
  ℕ, suc, ◌-◌, ◌^◌, ◌≤◌, ◌<◌, ◌≡◌, sym, ◌∙◌, ap, refl, subst, arith, List, [], ◌∷◌, ltb, leb, ◌==◌,
  inl, inr, Bool-cases, ltb→lt, ltb→le, true, length, length-set, set, drop, get_or, get_or-set_ne,
  sub_u32, some, if◌then◌else◌,
}
use yack.Format.{utoa, itoa, number}
use yack.Format.Number.{
  IsDigits, utoa_reads, set-IsDigits, text_at, text_at-set, text_at-step, drop-text_at,
  put_char_lem, utoa-suc, Written,
}
use yack.Format.Numeral.{read_number, numeral}

pub itoa_nonneg :
    (value base : ℕ) (buffer : List ℕ)
    → value < 2 ^ 31
    → itoa value base buffer ≡ utoa value base buffer
unfolding itoa
itoa_nonneg value base buffer h = ground arith

-- With the static buffer in order a number that is not negative is printed as `utoa` prints it:
-- in base 10 its text reads back as the number, and is at most 10 characters long.
itoa_reads :
    (value : ℕ) (buffer : List ℕ)
    → value < 2 ^ 31
    → IsDigits buffer
    → (t : ℕ × List ℕ) × (itoa value 10 buffer ≡ some t)
      × (read_number 10 0 (number t) ≡ value)
      × (length (number t) ≤ 10)
itoa_reads value buffer h w =
    let r =
      utoa_reads 10 value 10 buffer (omega arith) (omega arith) (omega arith) (omega arith)
        (omega arith) w in
    (r.0, itoa_nonneg value 10 buffer h ∙ r.1, r.2, r.3)

-- The digits of the amount of a negative number, given by its word.
abbrev pub amount_digits : ℕ → List ℕ
amount_digits value = numeral 32 10 (2 ^ 32 - value) []

-- What `utoa` leaves, with the sign put at the place where its text begins.
module _ (value : ℕ) (buffer : List ℕ) (neg : 2 ^ 31 ≤ value) (small : value < 2 ^ 32)
    (w : IsDigits buffer) where
  amount : Written 10 (2 ^ 32 - value) buffer (amount_digits value)
  amount =
      utoa-suc 10 (2 ^ 32 - value) 10 buffer (omega arith) (omega arith) (omega arith) (omega arith)
        (omega arith) w

  abbrev signed : ℕ × List ℕ
  signed = (amount.at_end.0 - 1, set amount.at_end.1 amount.at_end.0 b'-')

  itoa_neg : itoa value 10 buffer ≡ some signed
  unfolding itoa
  itoa_neg =
      let a = amount in
      let is_neg : leb (2 ^ 31) value ≡ true = ground arith in
      let e : sub_u32 0 value ≡ 2 ^ 32 - value = omega arith in
      rw (is_neg, e, a.returns)
        (put_char_lem b'-' a.at_end.0 a.at_end.1 a.positive (omega (arith, a.low, a.valid.size))
          (omega arith))

  signed-IsDigits : IsDigits signed.1
  signed-IsDigits = set-IsDigits amount.at_end.0 b'-' (omega (arith, amount.low)) amount.valid

  -- The text that begins one place in front of the sign.
  signed-text : number signed ≡ (
      if get_or buffer (amount.at_end.0 - 1) 0 == 0
      then []
      else get_or buffer (amount.at_end.0 - 1) 0 ∷ b'-' ∷ drop 1 (amount_digits value))
  signed-text =
      let a = amount in
      let i = a.at_end.0 in
      let inside : i < length a.at_end.1 = omega (arith, a.low, a.valid.size) in
      let e : suc (i - 1) ≡ i = omega (arith, a.positive) in
      let byte : get_or signed.1 (i - 1) 0 ≡ get_or buffer (i - 1) 0 =
        get_or-set_ne a.at_end.1 i (i - 1) b'-' 0 (omega (arith, a.positive))
        ∙ a.below (i - 1) (omega (arith, a.positive)) in
      let tail : text_at (suc (i - 1)) signed.1 ≡ b'-' ∷ drop 1 (amount_digits value) = rw e (
        text_at-set a.at_end.1 i b'-' inside (omega arith)
        ∙ ap (λ l. b'-' ∷ l)
            (sym (drop-text_at a.at_end.1 i inside (rw a.text (omega (arith, a.place, a.low))))
              ∙ ap (drop 1) a.text)) in
      text_at-step signed.1 (i - 1) (omega (arith, inside, length-set a.at_end.1 i b'-'))
      ∙ rw (byte, tail) refl

-- `itoa` keeps the static buffer in order, whatever the sign.
pub itoa-IsDigits :
    (value : ℕ) (buffer : List ℕ)
    → value < 2 ^ 32
    → IsDigits buffer
    → (t : ℕ × List ℕ) × (itoa value 10 buffer ≡ some t) × IsDigits t.1
itoa-IsDigits value buffer h w = elim (Bool-cases (ltb value (2 ^ 31))) [
  | inl pos ↦
      let r =
        utoa_reads 10 value 10 buffer (omega arith) (omega arith) (omega arith) (omega arith)
          (omega arith) w in
      (r.0, itoa_nonneg value 10 buffer (ltb→lt _ _ pos) ∙ r.1, r.5)
  | inr neg ↦
      let n = ltb→le _ _ neg in
      (signed value buffer n h w, itoa_neg value buffer n h w, signed-IsDigits value buffer n h w)
]

-- With the static buffer in order `itoa` in base 10 loses a negative number: its text begins one
-- place in front of the digits, at the byte left there from an earlier call. If that byte is 0
-- the text is empty, and otherwise it is that byte, the sign in place of the first digit, and the
-- other digits.
pub itoa_loses :
    (value : ℕ) (buffer : List ℕ)
    → 2 ^ 31 ≤ value
    → value < 2 ^ 32
    → IsDigits buffer
    → (t : ℕ × List ℕ) × (itoa value 10 buffer ≡ some t)
      × (number t ≡ (
          let stale = get_or buffer (14 - length (amount_digits value)) 0 in
          if stale == 0 then [] else stale ∷ b'-' ∷ drop 1 (amount_digits value)))
itoa_loses value buffer neg h w =
    let a = amount value buffer neg h w in
    let e : a.at_end.0 - 1 ≡ 14 - length (amount_digits value) = omega (arith, a.place) in
    (
      signed value buffer neg h w,
      itoa_neg value buffer neg h w,
      subst
          (λ i. number (signed value buffer neg h w) ≡ (
            if get_or buffer i 0 == 0
            then []
            else get_or buffer i 0 ∷ b'-' ∷ drop 1 (amount_digits value)))
          e (signed-text value buffer neg h w),
    )
