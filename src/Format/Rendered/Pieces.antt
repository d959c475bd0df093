-- ===== src/Format/Rendered/Pieces.antt =====
-- What a conversion puts is the piece of text that it stands for.
use yack.Common.{
  ℕ, zero, suc, ◌-◌, ◌^◌, ◌≤◌, ◌<◌, ◌≡◌, refl, sym, ◌∙◌, ap, arith, Bool, true, false, List, [],
  ◌∷◌, ◌++◌, ◌==◌, ltb, ltb→lt, ltb→le, if◌then◌else◌, length, replicate, some, Option, u8,
  append-nil, append_assoc, Bool-cases, inl, inr,
}
use yack.Format.{
  Arg, word, text, arg_word, takes_arg, utoa, itoa, number, Conversion, of_number, with_number,
  of_text, convert, pad, emit,
}
use yack.Format.Number.{IsDigits, utoa-zero, utoa-suc}
use yack.Format.Numeral.{length-numeral}
use yack.Format.Signed.{itoa_nonneg}
use yack.Format.Rendered.{digits_of, padded, filled, text_of, piece}

pad-replicate :
    (fill len : ℕ) (out : List ℕ) → pad fill len out ≡ out ++ replicate (fill - len) b'0'
unfolding pad
pad-replicate zero len out = let e : 0 - len ≡ 0 = omega arith in rw e (sym (append-nil out))
pad-replicate (suc fill) len out = elim (Bool-cases (ltb len (suc fill))) [
  | inl more ↦
      let e : suc fill - len ≡ suc (fill - len) = omega (arith, ltb→lt len (suc fill) more) in
      rw (more, e) (pad-replicate fill len (out ++ b'0' ∷ []) ∙ append_assoc out (b'0' ∷ []) _)
  | inr enough ↦
      let e : suc fill - len ≡ 0 = omega (arith, ltb→le len (suc fill) enough) in
      rw (enough, e) (sym (append-nil out))
]

-- A call of `utoa` that gives the text `n` and leaves the static buffer in order.
abbrev pub Ran : Option (ℕ × List ℕ) → List ℕ → Type 0
Ran o n = (i : ℕ × List ℕ) × (o ≡ some i) × (number i ≡ n) × IsDigits i.1

-- `utoa` puts the digits.
pub number-utoa :
    (k value base : ℕ) (buffer : List ℕ)
    → 0 < base
    → base ≤ 36
    → value < base ^ k
    → k ≤ 14
    → IsDigits buffer
    → Ran (utoa value base buffer) (digits_of base value)
unfolding digits_of
number-utoa k zero base buffer ok few small room w =
    let z = utoa-zero base buffer w in (z.at_end, z.returns, z.text, z.valid)
number-utoa k (suc v) base buffer ok few small room w =
    let e : (suc v == 0) ≡ false = ground arith in
    let z = utoa-suc k (suc v) base buffer ok few (omega arith) small room w in
    (z.at_end, z.returns, rw e z.text, z.valid)

-- The digits of a number below a power of the base.
pub length-digits_of :
    (k value base : ℕ) → 0 < base → 0 < k → value < base ^ k → length (digits_of base value) ≤ k
unfolding digits_of
length-digits_of k zero base ok pos small = omega arith
length-digits_of k (suc v) base ok pos small =
    let e : (suc v == 0) ≡ false = ground arith in
    rw e (omega (arith, length-numeral {base = base} ok k 32 (suc v) [] small))

emit-number :
    (prefix : List ℕ) (t : ℕ × List ℕ) (zeroes : Bool) (fill : ℕ) (rest : List Arg) (out : List ℕ)
    → emit (of_number prefix t zeroes fill rest) out
      ≡ out ++ (prefix ++ padded (filled zeroes fill) (number t))
unfolding emit
emit-number prefix t true fill rest out =
    ap (λ x. x ++ number t) (pad-replicate fill (length (number t)) (out ++ prefix))
    ∙ append_assoc (out ++ prefix) (replicate (fill - length (number t)) b'0') (number t)
    ∙ append_assoc out prefix (padded fill (number t))
emit-number prefix t false fill rest out =
    let e : 0 - length (number t) ≡ 0 = omega arith in rw e (append_assoc out prefix (number t))

emit_text :
    (prefix body : List ℕ) (zeroes : Bool) (digits : List ℕ) (rest : List Arg) (out : List ℕ)
    → emit (of_text prefix body zeroes digits rest) out ≡ out ++ (prefix ++ body)
unfolding emit pad
emit_text prefix body true digits rest out = append_assoc out prefix body
emit_text prefix body false digits rest out = append_assoc out prefix body

pub filled-zero : (zeroes : Bool) (t : List ℕ) → padded (filled zeroes 0) t ≡ t
filled-zero true t = let e : 0 - length t ≡ 0 = omega arith in rw e refl
filled-zero false t = let e : 0 - length t ≡ 0 = omega arith in rw e refl

-- A conversion that puts `t` and leaves the arguments `rest`.
pub record Puts (zeroes : Bool) (c : ℕ) (args : List Arg) (digits t : List ℕ) (rest : List Arg)
    : Type 0 where
  pub conversion : Conversion
  pub found : convert zeroes c args digits ≡ some conversion
  pub left : conversion.rest ≡ rest
  pub text : (out : List ℕ) → emit conversion out ≡ out ++ t
  pub valid : IsDigits conversion.digits

module _ (zeroes : Bool) (c : ℕ) (digits : List ℕ) (w : IsDigits digits) where
  number-Puts :
      (args rest : List Arg) (prefix n t : List ℕ) (o : Option (ℕ × List ℕ)) (z : Bool) (fill : ℕ)
      → Ran o n
      → prefix ++ padded (filled z fill) n ≡ t
      → convert zeroes c args digits ≡ with_number prefix o z fill rest
      → Puts zeroes c args digits t rest
  number-Puts args rest prefix n t o z fill (i, ran, e, valid) f found = record {
    conversion = of_number prefix i z fill rest;
    found = found ∙ ap (λ k. with_number prefix k z fill rest) ran;
    left = refl;
    text = λ out.
        emit-number prefix i z fill rest out
        ∙ ap (λ x. out ++ (prefix ++ padded (filled z fill) x)) e
        ∙ ap (λ x. out ++ x) f;
    valid = valid;
  }

  text-Puts :
      (args rest : List Arg) (prefix body t : List ℕ)
      → prefix ++ body ≡ t
      → convert zeroes c args digits ≡ some (of_text prefix body zeroes digits rest)
      → Puts zeroes c args digits t rest
  text-Puts args rest prefix body t e found = record {
    conversion = of_text prefix body zeroes digits rest;
    found = found;
    left = refl;
    text = λ out. emit_text prefix body zeroes digits rest out ∙ ap (λ x. out ++ x) e;
    valid = w;
  }

  string-Puts :
      (a : Arg) (rest : List Arg) (t : List ℕ)
      → (c == b's') ≡ true
      → text_of a ≡ some t
      → Puts zeroes c (a ∷ rest) digits t rest
  unfolding convert
  string-Puts (word v) rest t s e = absurd (ground arith)
  string-Puts (text address str) rest t s e =
      text-Puts (text address str ∷ rest) rest [] str t (ground arith) (ground arith)

  decimal-Puts :
      (a : Arg) (rest : List Arg) (t : List ℕ)
      → arg_word a < 2 ^ 32
      → (c == b'd') ≡ true
      → piece zeroes c a ≡ some t
      → Puts zeroes c (a ∷ rest) digits t rest
  unfolding convert piece
  decimal-Puts a rest t small d e = elim (Bool-cases (ltb (arg_word a) (2 ^ 31))) [
    | inl pos ↦
        let e2 : itoa (arg_word a) 10 digits ≡ utoa (arg_word a) 10 digits =
          itoa_nonneg (arg_word a) 10 digits (ltb→lt _ _ pos) in
        number-Puts (a ∷ rest) rest [] (digits_of 10 (arg_word a)) t (itoa (arg_word a) 10 digits)
          zeroes 10
          (rw e2 (
            number-utoa 10 (arg_word a) 10 digits (omega arith) (omega arith) (omega arith)
              (omega arith) w))
          (ground (arith, e, pos, d)) (ground arith)
    | inr neg ↦ absurd (ground (arith, e, neg, d))
  ]

  pub arg-Puts :
      (a : Arg) (rest : List Arg) (t : List ℕ)
      → arg_word a < 2 ^ 32
      → takes_arg c ≡ true
      → piece zeroes c a ≡ some t
      → Puts zeroes c (a ∷ rest) digits t rest
  unfolding convert piece
  arg-Puts a rest t small takes e = elim (Bool-cases (c == b's')) [
    | inl s ↦ string-Puts a rest t s (ground arith)
    | inr ns ↦ elim (Bool-cases (c == b'd')) [
      | inl d ↦ decimal-Puts a rest t small d e
      | inr nd ↦ elim (Bool-cases (c == b'p')) [
        | inl p ↦
            number-Puts (a ∷ rest) rest (b'0' ∷ b'x' ∷ []) (digits_of 16 (arg_word a)) t
              (utoa (arg_word a) 16 digits) true 8
              (number-utoa 8 (arg_word a) 16 digits (omega arith) (omega arith) small (omega arith)
                w)
              (ground arith) (ground arith)
        | inr np ↦ elim (Bool-cases (c == b'x')) [
          | inl x ↦
              number-Puts (a ∷ rest) rest [] (digits_of 16 (arg_word a)) t
                (utoa (arg_word a) 16 digits) zeroes 8
                (number-utoa 8 (arg_word a) 16 digits (omega arith) (omega arith) small
                  (omega arith) w)
                (ground arith) (ground arith)
          | inr nx ↦ elim (Bool-cases (c == b'c')) [
            | inl ch ↦
                text-Puts (a ∷ rest) rest (u8 (arg_word a) ∷ []) [] t (ground arith) (ground arith)
            | inr nc ↦
                number-Puts (a ∷ rest) rest [] (digits_of 10 (arg_word a)) t
                  (utoa (arg_word a) 10 digits) zeroes 0
                  (number-utoa 10 (arg_word a) 10 digits (omega arith) (omega arith) (omega arith)
                    (omega arith) w)
                  (filled-zero zeroes (digits_of 10 (arg_word a)) ∙ ground arith) (ground arith)
          ]
        ]
      ]
    ]
  ]

  -- The other conversions.
  pub other-Puts :
      (args : List Arg)
      → takes_arg c ≡ false
      → Puts zeroes c args digits (if c == b'%' then b'%' ∷ [] else []) args
  unfolding convert
  other-Puts args takes = elim (Bool-cases (c == b'%')) [
    | inl p ↦ text-Puts args args [] (b'%' ∷ []) _ (ground arith) (ground arith)
    | inr np ↦ text-Puts args args [] [] _ (ground arith) (ground arith)
  ]
