-- ===== src/Format/Number.antt =====
-- `utoa` writes the digits of its number, which read back as the number.
use yack.Common.{
  Bool-cases, inl, inr, some, ltb, ltb→lt, lt→ltb, ℕ, zero, suc, ◌+◌, ◌-◌, ◌/◌, ◌%◌, ◌^◌, ◌≤◌, ◌<◌,
  ◌≡◌, refl, sym, ◌∙◌, ap, arith, false, List, [], ◌∷◌, ◌==◌, if◌then◌else◌, length, set, drop,
  get_or, length-set, get_or-set_ne,
}
use native.Mathlib.Nat.{mod-lt, pow-le-pow_right, le_trans}
use mathlib.Core.Option
use yack.Format.{c_string, put_char, put_digit, utoa_loop, utoa, number, behind}
use yack.Format.Numeral.{
  digit_char, read_number, numeral, numeral-zero, numeral-suc, small_div, zero_of_small,
  read_number-numeral, length-numeral,
}

-- The static buffer of `utoa`: its last byte, which is never written, ends every text.
pub record IsDigits (buffer : List ℕ) : Type 0 where
  pub size : length buffer ≡ 16
  pub end : get_or buffer 15 0 ≡ 0

pub set-IsDigits :
    {buffer : List ℕ} (i v : ℕ) → i < 15 → IsDigits buffer → IsDigits (set buffer i v)
set-IsDigits {buffer} i v h w = record {
  size = length-set buffer i v ∙ w.size;
  end = get_or-set_ne buffer i 15 v 0 (omega arith) ∙ w.end;
}

abbrev pub text_at : ℕ → List ℕ → List ℕ
text_at i buffer = c_string (drop i buffer)

pub text_at-set :
    (buffer : List ℕ) (i v : ℕ)
    → i < length buffer
    → 0 < v
    → text_at i (set buffer i v) ≡ v ∷ text_at (suc i) buffer
unfolding c_string
text_at-set [] i v h p = elim h [ ]
text_at-set (x ∷ xs) zero v h p = ground arith
text_at-set (x ∷ xs) (suc i) v h p = text_at-set xs i v (omega arith) p

text_at-end :
    (buffer : List ℕ) (i : ℕ)
    → length buffer ≡ suc i
    → get_or buffer i 0 ≡ 0
    → text_at i buffer ≡ []
unfolding c_string
text_at-end [] i e z = absurd (omega arith)
text_at-end (x ∷ []) zero e z = rw z
text_at-end (x ∷ y ∷ xs) zero e z = absurd (omega arith)
text_at-end (x ∷ xs) (suc i) e z = text_at-end xs i (omega arith) z

-- A byte at a place of the text.
pub text_at-step :
    (buffer : List ℕ) (i : ℕ)
    → i < length buffer
    → text_at i buffer
      ≡ (if get_or buffer i 0 == 0 then [] else get_or buffer i 0 ∷ text_at (suc i) buffer)
unfolding c_string
text_at-step [] i h = elim h [ ]
text_at-step (x ∷ xs) zero h = refl
text_at-step (x ∷ xs) (suc i) h = text_at-step xs i (omega arith)

-- The text behind the first byte of a text.
pub drop-text_at :
    (buffer : List ℕ) (i : ℕ)
    → i < length buffer
    → 0 < length (text_at i buffer)
    → drop 1 (text_at i buffer) ≡ text_at (suc i) buffer
unfolding c_string
drop-text_at [] i h p = elim h [ ]
drop-text_at (zero ∷ xs) zero h p = absurd (omega arith)
drop-text_at (suc x ∷ xs) zero h p = ground arith
drop-text_at (x ∷ xs) (suc i) h p = drop-text_at xs i (omega arith) p

pub put_char_lem :
    (c ptr : ℕ) (buffer : List ℕ)
    → 0 < ptr
    → ptr < length buffer
    → c < 256
    → put_char c ptr buffer ≡ some (ptr - 1, set buffer ptr c)
unfolding put_char
put_char_lem c ptr buffer p h small = ground arith

pub utoa_loop-zero :
    (fuel base ptr : ℕ) (buffer : List ℕ) → utoa_loop fuel 0 base ptr buffer ≡ some (ptr, buffer)
unfolding utoa_loop
utoa_loop-zero zero base ptr buffer = refl
utoa_loop-zero (suc fuel) base ptr buffer = refl

-- What the loop has done: the numeral stands in front of what stood above `ptr`, and nothing has
-- changed in front of it.
record Looped (fuel base value ptr : ℕ) (buffer : List ℕ) : Type 0 where
  at_end : ℕ × List ℕ
  returns : utoa_loop fuel value base ptr buffer ≡ some at_end
  valid : IsDigits at_end.1
  text : text_at (suc at_end.0) at_end.1 ≡ numeral fuel base value (text_at (suc ptr) buffer)
  moved : at_end.0 + (if value == 0 then 0 else 1) ≤ ptr
  place : (rest : List ℕ) → at_end.0 + length (numeral fuel base value rest) ≡ ptr + length rest
  below : (j : ℕ) → j ≤ at_end.0 → get_or at_end.1 j 0 ≡ get_or buffer j 0

module _ {base : ℕ} (ok : 0 < base) (few : base ≤ 36) where
  put_digit_lem :
      (value ptr : ℕ) (buffer : List ℕ)
      → 0 < ptr
      → ptr < length buffer
      → put_digit (value % base) base ptr buffer
        ≡ some (ptr - 1, set buffer ptr (digit_char (value % base)))
  unfolding put_digit
  put_digit_lem value ptr buffer p h =
      let rem = mod-lt value ok in
      elim (Bool-cases (ltb (value % base) 10)) [
        | inl d ↦
            rw d (put_char_lem (b'0' + value % base) ptr buffer p h (omega (arith, ltb→lt _ _ d)))
        | inr l ↦
            rw (l, lt→ltb (value % base) base rem)
              (put_char_lem (b'A' + value % base - 10) ptr buffer p h (omega (arith, rem)))
      ]

  utoa_loop-suc :
      (fuel value ptr : ℕ) (buffer : List ℕ)
      → 0 < value
      → 0 < ptr
      → ptr < length buffer
      → utoa_loop (suc fuel) value base ptr buffer
        ≡ utoa_loop fuel (value / base) base (ptr - 1) (set buffer ptr (digit_char (value % base)))
  unfolding utoa_loop
  utoa_loop-suc fuel value ptr buffer pos p h =
      let ne : (value == 0) ≡ false = ground arith in
      rw (ne, utoa_loop) (rw (put_digit_lem value ptr buffer p h) refl)

  Looped-zero : (fuel ptr : ℕ) (buffer : List ℕ) → IsDigits buffer → Looped fuel base 0 ptr buffer
  Looped-zero fuel ptr buffer w = record {
    at_end = (ptr, buffer);
    returns = utoa_loop-zero fuel base ptr buffer;
    valid = w;
    text = rw numeral-zero;
    moved = omega arith;
    place = λ rest. rw numeral-zero refl;
    below = λ j h. refl;
  }

  Looped-suc :
      (fuel value ptr : ℕ) (buffer : List ℕ)
      → 0 < value
      → 0 < ptr
      → ptr ≤ 14
      → IsDigits buffer
      → Looped fuel base (value / base) (ptr - 1) (set buffer ptr (digit_char (value % base)))
      → Looped (suc fuel) base value ptr buffer
  Looped-suc fuel value ptr buffer pos p low w rest =
      let c = digit_char (value % base) in
      let e : suc (ptr - 1) ≡ ptr = omega arith in
      let put : text_at (suc (ptr - 1)) (set buffer ptr c) ≡ c ∷ text_at (suc ptr) buffer =
        rw e (text_at-set buffer ptr c (omega (arith, w.size)) (ground arith)) in
      record {
        at_end = rest.at_end;
        returns = utoa_loop-suc fuel value ptr buffer pos p (omega (arith, w.size)) ∙ rest.returns;
        valid = rest.valid;
        text =
            rest.text
            ∙ ap (numeral fuel base (value / base)) put
            ∙ sym (numeral-suc fuel base value (text_at (suc ptr) buffer) pos);
        moved = ground (arith, rest.moved);
        place = λ r. rw (numeral-suc fuel base value r pos) (omega (arith, rest.place (c ∷ r)));
        below =
            λ j h. rest.below j h ∙ get_or-set_ne buffer ptr j c 0 (omega (arith, h, rest.moved));
      }

  -- The loop, with room for `k` digits at and below `ptr`.
  utoa_loop-Looped :
      (k fuel value ptr : ℕ) (buffer : List ℕ)
      → value < base ^ k
      → k ≤ ptr
      → k ≤ fuel
      → ptr ≤ 14
      → IsDigits buffer
      → Looped fuel base value ptr buffer
  utoa_loop-Looped zero fuel value ptr buffer h room enough low w =
      rw (zero_of_small ok value h) (Looped-zero fuel ptr buffer w)
  utoa_loop-Looped (suc k) zero value ptr buffer h room enough low w = absurd (omega arith)
  utoa_loop-Looped (suc k) (suc fuel) zero ptr buffer h room enough low w =
      Looped-zero (suc fuel) ptr buffer w
  utoa_loop-Looped (suc k) (suc fuel) (suc v) ptr buffer h room enough low w =
      let c = digit_char (suc v % base) in
      Looped-suc fuel (suc v) ptr buffer (omega arith) (omega arith) low w (
        utoa_loop-Looped k fuel (suc v / base) (ptr - 1) (set buffer ptr c)
          (small_div ok k (suc v) h) (omega arith) (omega arith) (omega arith)
          (set-IsDigits ptr c (omega arith) w))

-- The text of a number, and where it stands.
pub record Written (base value : ℕ) (buffer digits : List ℕ) : Type 0 where
  pub at_end : ℕ × List ℕ
  pub returns : utoa value base buffer ≡ some at_end
  pub text : number at_end ≡ digits
  pub place : at_end.0 + length digits ≡ 15
  pub positive : 0 < at_end.0
  pub low : at_end.0 ≤ 14
  pub valid : IsDigits at_end.1
  pub below : (j : ℕ) → j < at_end.0 → get_or at_end.1 j 0 ≡ get_or buffer j 0

-- The text of 0.
pub utoa-zero : (base : ℕ) (buffer : List ℕ) → IsDigits buffer → Written base 0 buffer (b'0' ∷ [])
unfolding utoa
utoa-zero base buffer w = record {
  at_end = (14, set buffer 14 b'0');
  returns =
      ap (Option.map behind)
        (put_char_lem b'0' 14 buffer (omega arith) (omega (arith, w.size)) (omega arith));
  text =
      text_at-set buffer 14 b'0' (omega (arith, w.size)) (omega arith)
      ∙ ap (λ r. b'0' ∷ r) (text_at-end buffer 15 w.size w.end);
  place = refl;
  positive = omega arith;
  low = omega arith;
  valid = set-IsDigits 14 b'0' (omega arith) w;
  below = λ j h. get_or-set_ne buffer 14 j b'0' 0 (omega (arith, h));
}

module _ (k value base : ℕ) (buffer : List ℕ) (ok : 0 < base) (few : base ≤ 36) (pos : 0 < value)
    (small : value < base ^ k) (room : k ≤ 14) (w : IsDigits buffer) where
  looped : Looped 32 base value 14 buffer
  looped = utoa_loop-Looped ok few k 32 value 14 buffer small room (omega arith) (omega arith) w

  -- The text of any other number.
  pub utoa-suc : Written base value buffer (numeral 32 base value [])
  unfolding utoa
  utoa-suc =
      let l = looped in
      let e : (value == 0) ≡ false = ground arith in
      let f : l.at_end.0 + 1 ≡ suc l.at_end.0 = omega arith in
      record {
        at_end = behind l.at_end;
        returns = rw e (ap (Option.map behind) l.returns);
        text =
            ap (λ i. text_at i l.at_end.1) f
            ∙ l.text
            ∙ ap (numeral 32 base value) (text_at-end buffer 15 w.size w.end);
        place = omega (arith, l.place []);
        positive = omega arith;
        low = ground (arith, l.moved);
        valid = l.valid;
        below = λ j h. l.below j (omega arith);
      }

-- With a static buffer of 16 bytes that ends in 0, for each base from 2 to 36 and each `k` from 1
-- to 14, `utoa` writes a number below `base ^ k` inside the buffer only: the text that it returns
-- reads back as the number, has at most `k` digits and begins inside the buffer, which stays in
-- order.
pub utoa_reads :
    (k value base : ℕ) (buffer : List ℕ)
    → 1 < base
    → base ≤ 36
    → value < base ^ k
    → 0 < k
    → k ≤ 14
    → IsDigits buffer
    → (t : ℕ × List ℕ) × (utoa value base buffer ≡ some t)
      × (read_number base 0 (number t) ≡ value)
      × (length (number t) ≤ k)
      × (t.0 ≤ 14)
      × IsDigits t.1
utoa_reads k zero base buffer ok few small pos room w =
    let z = utoa-zero base buffer w in
    (
      z.at_end,
      z.returns,
      rw z.text (unfold read_number in omega arith),
      rw z.text (omega arith),
      z.low,
      z.valid,
    )
utoa_reads k (suc v) base buffer ok few small pos room w =
    let value = suc v in
    let z = utoa-suc k value base buffer (omega arith) few (omega arith) small room w in
    let larger : value < base ^ 32 =
      le_trans small (pow-le-pow_right {n = base} (omega arith) {i = k} {j = 32} (omega arith)) in
    (
      z.at_end,
      z.returns,
      rw z.text (read_number-numeral (omega arith) 32 value [] larger ∙ unfold read_number in refl),
      rw z.text (omega (arith, length-numeral {base = base} (omega arith) k 32 value [] small)),
      z.low,
      z.valid,
    )
