-- ===== src/Format/Ends.antt =====
-- The loop of `utoa` in kernel/io/kvsnprintf.c, as it runs without a bound on its rounds.
use yack.Common.{
  ℕ, zero, suc, ◌+◌, ◌-◌, ◌/◌, ◌%◌, ◌^◌, ◌≤◌, ◌<◌, ◌≡◌, refl, ◌∙◌, arith, List, ◌==◌, false, some,
  length, length-set, set, u8, Bool-cases, inl, inr, ltb, lt→ltb,
}
use native.Mathlib.Nat.{mod-lt}
use yack.Format.Number.{utoa_loop-zero}
use yack.Format.Numeral.{small_div, zero_of_small}
use yack.Format.{put_char, put_digit, utoa_loop}

-- `while (value > 0)` ends with a pointer and a buffer, after writes inside the buffer only.
pub data Ends (base : ℕ) : (value ptr : ℕ) (buffer : List ℕ) → ℕ × List ℕ → Type 0 where
  stop : {ptr : ℕ} {buffer : List ℕ} → Ends base 0 ptr buffer (ptr, buffer)
  round :
      {value ptr : ℕ} {buffer : List ℕ} {next result : ℕ × List ℕ}
      → 0 < value
      → put_digit (value % base) base ptr buffer ≡ some next
      → Ends base (value / base) next.0 next.1 result
      → Ends base value ptr buffer result

put_char-moves :
    (c ptr : ℕ) (buffer : List ℕ)
    → 0 < ptr
    → ptr < length buffer
    → put_char c ptr buffer ≡ some (ptr - 1, set buffer ptr (u8 c))
unfolding put_char
put_char-moves c ptr buffer p h = ground arith

module _ {base : ℕ} (ok : 0 < base) where
  -- A digit is put, and the pointer moves down.
  put_digit-moves :
      (value ptr : ℕ) (buffer : List ℕ)
      → 0 < ptr
      → ptr < length buffer
      → (c : ℕ) × (put_digit (value % base) base ptr buffer ≡ some (ptr - 1, set buffer ptr c))
  unfolding put_digit
  put_digit-moves value ptr buffer p h = elim (Bool-cases (ltb (value % base) 10)) [
    | inl d ↦ let c = b'0' + value % base in (u8 c, rw d (put_char-moves c ptr buffer p h))
    | inr l ↦
        let c = b'A' + value % base - 10 in
        (
          u8 c,
          rw (l, lt→ltb (value % base) base (mod-lt value ok)) (put_char-moves c ptr buffer p h),
        )
  ]

  utoa_loop-next :
      (fuel value ptr : ℕ) (buffer : List ℕ) (next : ℕ × List ℕ)
      → 0 < value
      → put_digit (value % base) base ptr buffer ≡ some next
      → utoa_loop (suc fuel) value base ptr buffer
        ≡ utoa_loop fuel (value / base) base next.0 next.1
  unfolding utoa_loop
  utoa_loop-next fuel value ptr buffer next pos e =
      let ne : (value == 0) ≡ false = ground arith in rw (ne, utoa_loop) (rw e refl)

  enough-Ends :
      (k fuel value ptr : ℕ) (buffer : List ℕ)
      → value < base ^ k
      → k ≤ fuel
      → k ≤ ptr
      → ptr < length buffer
      → (result : ℕ × List ℕ) × (utoa_loop fuel value base ptr buffer ≡ some result)
        × Ends base value ptr buffer result
  enough-Ends k fuel zero ptr buffer h f r l =
      ((ptr, buffer), utoa_loop-zero fuel base ptr buffer, stop)
  enough-Ends zero fuel (suc v) ptr buffer h f r l =
      absurd (omega (arith, zero_of_small ok (suc v) h))
  enough-Ends (suc k) zero (suc v) ptr buffer h f r l = absurd (omega arith)
  enough-Ends (suc k) (suc fuel) (suc v) ptr buffer h f r l =
      let put = put_digit-moves (suc v) ptr buffer (omega arith) l in
      let rest =
        enough-Ends k fuel (suc v / base) (ptr - 1) (set buffer ptr put.0)
          (small_div ok k (suc v) h) (omega arith) (omega arith)
          (omega (arith, length-set buffer ptr put.0)) in
      (
        rest.0,
        utoa_loop-next fuel (suc v) ptr buffer (ptr - 1, set buffer ptr put.0) (omega arith) put.1
            ∙ rest.1,
        round (omega arith) put.1 rest.2,
      )

-- For each base above 0 and each value below `base ^ k`, with `k` at most 32 and a pointer into a
-- buffer with `k` places in front of it, the loop of `utoa`, which runs as long as its value is
-- positive, comes to an end, with writes inside the buffer only, and with the pointer and the
-- buffer that the model computes in at most 32 rounds.
pub utoa_loop-Ends :
    (k base value ptr : ℕ) (buffer : List ℕ)
    → 0 < base
    → value < base ^ k
    → k ≤ 32
    → k ≤ ptr
    → ptr < length buffer
    → (result : ℕ × List ℕ) × (utoa_loop 32 value base ptr buffer ≡ some result)
      × Ends base value ptr buffer result
utoa_loop-Ends k base value ptr buffer ok h few room inside =
    enough-Ends ok k 32 value ptr buffer h few room inside
