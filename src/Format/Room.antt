-- ===== src/Format/Room.antt =====
-- How much a format may put, and that a format that fits its arguments is printed to its end.
use yack.Common.{
  ℕ, zero, suc, ◌+◌, ◌-◌, ◌^◌, ◌≤◌, ◌<◌, ◌≡◌, refl, ◌∙◌, ap, arith, Bool, true, false, List, [],
  ◌∷◌, ◌++◌, ◌==◌, if◌then◌else◌, length, drop, get_or, length-append, Bool-cases, inl, inr, Option,
  none, some, u8,
}
use mathlib.Core.Option
use yack.Format.{
  c_string, utoa, itoa, Arg, word, text, arg_word, Conversion, of_number, with_number, of_text,
  takes_arg, convert, pad, emit, Mode, plain, percent,
}
use yack.Format.Number.{IsDigits, utoa_reads}
use yack.Format.Signed.{itoa-IsDigits}

-- A text that lies in the static buffer has at most 15 characters.
length-c_string :
    (buffer : List ℕ) (n : ℕ)
    → length buffer ≤ suc n
    → get_or buffer n 0 ≡ 0
    → length (c_string buffer) ≤ n
unfolding c_string
length-c_string [] n h z = omega arith
length-c_string (x ∷ []) zero h z = rw z (omega arith)
length-c_string (x ∷ y ∷ xs) zero h z = absurd (omega arith)
length-c_string (x ∷ xs) (suc n) h z = ground (arith, length-c_string xs n)

nil_of_length : (xs : List ℕ) → length xs ≤ 0 → xs ≡ []
nil_of_length [] h = refl
nil_of_length (x ∷ xs) h = absurd (omega arith)

drop-nil : (i : ℕ) → drop {A = ℕ} i [] ≡ []
drop-nil zero = refl
drop-nil (suc i) = refl

length-text_at :
    (buffer : List ℕ) (i n : ℕ)
    → length buffer ≤ suc n
    → get_or buffer n 0 ≡ 0
    → length (c_string (drop i buffer)) ≤ n
length-text_at buffer zero n h z = length-c_string buffer n h z
length-text_at [] (suc i) n h z = unfold c_string in omega arith
length-text_at (x ∷ xs) (suc i) zero h z =
    let e = nil_of_length xs (omega arith) in rw (e, drop-nil i) (unfold c_string in omega arith)
length-text_at (x ∷ xs) (suc i) (suc n) h z = omega (arith, length-text_at xs i n (omega arith) z)

length-pad : (fill len : ℕ) (out : List ℕ) → length (pad fill len out) ≡ length out + (fill - len)
unfolding pad
length-pad zero len out = omega arith
length-pad (suc fill) len out =
    ground (arith, length-pad fill len (out ++ b'0' ∷ []), length-append out (b'0' ∷ []))

-- Each argument is 32 bits wide.
abbrev pub AreWords : List Arg → Type 0
AreWords [] = Unit {0}
AreWords (a ∷ args) = (arg_word a < 2 ^ 32) × AreWords args

-- The most bytes that the conversion `c` puts with the next argument `a`.
abbrev pub arg_room : ℕ → Arg → Option ℕ
arg_room c (word w) = if c == b's' then none else some 17
arg_room c (text address s) = if c == b's' then some (length s) else some 17

-- The most bytes that a format puts, if it fits its arguments.
unfoldable pub room : Mode → (fmt : List ℕ) → List Arg → Option ℕ
room plain [] args = some 0
room plain (c ∷ fmt) args = elim (c == b'%') [
  | true ↦ room (percent false) fmt args
  | false ↦ Option.map suc (room plain fmt args)
]
room (percent zeroes) [] args = none
room (percent zeroes) (c ∷ fmt) [] = elim (c == b'0') [
  | true ↦ room (percent true) fmt []
  | false ↦ if takes_arg c then none else Option.map suc (room plain fmt [])
]
room (percent zeroes) (c ∷ fmt) (a ∷ args) = elim (c == b'0') [
  | true ↦ room (percent true) fmt (a ∷ args)
  | false ↦ elim (takes_arg c) [
    | true ↦ elim (arg_room c a) [
      | none ↦ none
      | some n ↦ Option.map (λ k. n + k) (room plain fmt args)
    ]
    | false ↦ Option.map suc (room plain fmt (a ∷ args))
  ]
]

pub length-emit :
    (k : Conversion) (out : List ℕ)
    → length (emit k out)
      ≤ length out + length k.prefix + (k.fill_length - length k.body) + length k.body
unfolding emit
length-emit k out = ground (
  arith,
  length-append out k.prefix,
  length-append (out ++ k.prefix) k.body,
  length-append (pad k.fill_length (length k.body) (out ++ k.prefix)) k.body,
  length-pad k.fill_length (length k.body) (out ++ k.prefix),
)

-- A conversion that leaves `rest` and puts at most `n` bytes.
pub record Fits (zeroes : Bool) (c : ℕ) (args : List Arg) (digits : List ℕ) (n : ℕ)
    (rest : List Arg) : Type 0 where
  pub conversion : Conversion
  pub found : convert zeroes c args digits ≡ some conversion
  pub left : conversion.rest ≡ rest
  pub size :
      length conversion.prefix
        + (conversion.fill_length - length conversion.body)
        + length conversion.body
      ≤ n
  pub valid : IsDigits conversion.digits

module _ (zeroes : Bool) (c : ℕ) (digits : List ℕ) (w : IsDigits digits) where
  number-Fits :
      (args rest : List Arg) (n : ℕ) (prefix : List ℕ) (o : Option (ℕ × List ℕ)) (z : Bool)
      (fill : ℕ)
      → length prefix ≤ 2
      → fill ≤ 10
      → n ≡ 17
      → (t : ℕ × List ℕ) × (o ≡ some t) × IsDigits t.1
      → convert zeroes c args digits ≡ with_number prefix o z fill rest
      → Fits zeroes c args digits n rest
  number-Fits args rest n prefix o z fill short low e (t, ran, valid) found = record {
    conversion = of_number prefix t z fill rest;
    found = found ∙ ap (λ i. with_number prefix i z fill rest) ran;
    left = refl;
    size = omega (arith, length-text_at t.1 t.0 15 (omega (arith, valid.size)) valid.end);
    valid = valid;
  }

  text-Fits :
      (args rest : List Arg) (n : ℕ) (prefix body : List ℕ)
      → length prefix + length body ≤ n
      → convert zeroes c args digits ≡ some (of_text prefix body zeroes digits rest)
      → Fits zeroes c args digits n rest
  text-Fits args rest n prefix body short found = record {
    conversion = of_text prefix body zeroes digits rest;
    found = found;
    left = refl;
    size = omega arith;
    valid = w;
  }

  string-Fits :
      (a : Arg) (rest : List Arg) (n : ℕ)
      → (c == b's') ≡ true
      → arg_room c a ≡ some n
      → Fits zeroes c (a ∷ rest) digits n rest
  unfolding convert
  string-Fits (word v) rest n s e = absurd (ground arith)
  string-Fits (text address str) rest n s e =
      text-Fits (text address str ∷ rest) rest n [] str (ground arith) (ground arith)

  arg_room-other : (a : Arg) (n : ℕ) → (c == b's') ≡ false → arg_room c a ≡ some n → n ≡ 17
  arg_room-other (word v) n ne e = ground arith
  arg_room-other (text address str) n ne e = ground arith

  hex-IsDigits :
      (v : ℕ) → v < 2 ^ 32 → (t : ℕ × List ℕ) × (utoa v 16 digits ≡ some t) × IsDigits t.1
  hex-IsDigits v h =
      let r =
        utoa_reads 8 v 16 digits (omega arith) (omega arith) (omega arith) (omega arith)
          (omega arith) w in
      (r.0, r.1, r.5)

  decimal-IsDigits :
      (v : ℕ) → v < 2 ^ 32 → (t : ℕ × List ℕ) × (utoa v 10 digits ≡ some t) × IsDigits t.1
  decimal-IsDigits v h =
      let r =
        utoa_reads 10 v 10 digits (omega arith) (omega arith) (omega arith) (omega arith)
          (omega arith) w in
      (r.0, r.1, r.5)

  pub arg-Fits :
      (a : Arg) (rest : List Arg) (n : ℕ)
      → arg_word a < 2 ^ 32
      → takes_arg c ≡ true
      → arg_room c a ≡ some n
      → Fits zeroes c (a ∷ rest) digits n rest
  unfolding convert
  arg-Fits a rest n small takes e = elim (Bool-cases (c == b's')) [
    | inl s ↦ string-Fits a rest n s e
    | inr ns ↦ elim (Bool-cases (c == b'd')) [
      | inl d ↦
          number-Fits (a ∷ rest) rest n [] (itoa (arg_word a) 10 digits) zeroes 10 (omega arith)
            (omega arith) (arg_room-other a n ns e) (itoa-IsDigits (arg_word a) digits small w)
            (ground arith)
      | inr nd ↦ elim (Bool-cases (c == b'p')) [
        | inl p ↦
            number-Fits (a ∷ rest) rest n (b'0' ∷ b'x' ∷ []) (utoa (arg_word a) 16 digits) true 8
              (omega arith) (omega arith) (arg_room-other a n ns e)
              (hex-IsDigits (arg_word a) small) (ground arith)
        | inr np ↦ elim (Bool-cases (c == b'x')) [
          | inl x ↦
              number-Fits (a ∷ rest) rest n [] (utoa (arg_word a) 16 digits) zeroes 8 (omega arith)
                (omega arith) (arg_room-other a n ns e) (hex-IsDigits (arg_word a) small)
                (ground arith)
          | inr nx ↦ elim (Bool-cases (c == b'c')) [
            | inl ch ↦
                text-Fits (a ∷ rest) rest n (u8 (arg_word a) ∷ []) []
                  (omega (arith, arg_room-other a n ns e)) (ground arith)
            | inr nc ↦
                number-Fits (a ∷ rest) rest n [] (utoa (arg_word a) 10 digits) zeroes 0
                  (omega arith) (omega arith) (arg_room-other a n ns e)
                  (decimal-IsDigits (arg_word a) small) (ground arith)
          ]
        ]
      ]
    ]
  ]

  pub other-Fits : (args : List Arg) → takes_arg c ≡ false → Fits zeroes c args digits 1 args
  unfolding convert
  other-Fits args takes = elim (Bool-cases (c == b'%')) [
    | inl p ↦ text-Fits args args 1 [] (b'%' ∷ []) (omega arith) (ground arith)
    | inr np ↦ text-Fits args args 1 [] [] (omega arith) (ground arith)
  ]
