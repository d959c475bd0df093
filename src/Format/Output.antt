-- ===== src/Format/Output.antt =====
-- A format that fits its arguments is printed to its end within its room; ordinary text is copied.
use yack.Common.{
  ℕ, suc, ◌+◌, ◌-◌, ◌≤◌, ◌<◌, ◌≡◌, refl, sym, ◌∙◌, ap, subst, arith, Bool, true, false, List, [],
  ◌∷◌, ◌++◌, ◌==◌, ltb, length, length-append, Bool-cases, inl, inr, some, Option-cases, take,
  append-nil, append_assoc, take-nil, ltb→le, ltb→lt, lt→ltb,
}
use mathlib.Core.Option
use yack.Format.{
  Arg, takes_arg, emit, Mode, plain, percent, Printed, printed, format_loop, kvsnprintf, convert,
  text,
}
use yack.Format.Number.{IsDigits}
use yack.Format.Room.{AreWords, arg_room, room, Fits, arg-Fits, other-Fits, length-emit}
use yack.Format.Steps.{
  Prints, Prints_more, map-some, loop-full, loop-char, loop-percent, loop-zero, loop-convert,
}

module _ (bufsz : ℕ) where
  -- The statement at one format, for the induction.
  abbrev Goal : Mode → List ℕ → List Arg → Type 0
  Goal mode fmt args =
      (out digits : List ℕ) (n : ℕ)
      → AreWords args
      → IsDigits digits
      → room mode fmt args ≡ some n
      → Prints n out (format_loop bufsz mode fmt args out digits)

  after :
      (fmt : List ℕ) (args rest : List Arg) {zeroes : Bool} {c a k n : ℕ} {out digits : List ℕ}
      → (c == b'0') ≡ false
      → Fits zeroes c args digits a rest
      → a + k ≡ n
      → AreWords rest
      → room plain fmt rest ≡ some k
      → Goal plain fmt rest
      → Prints n out (format_loop bufsz (percent zeroes) (c ∷ fmt) args out digits)
  after fmt args rest {n} {out} nz f e ws r next =
      let k = f.conversion in
      rw (loop-convert bufsz fmt _ _ args out _ k nz f.found) (
        subst (λ l. Prints n out (format_loop bufsz plain fmt l (emit k out) k.digits)) (sym f.left)
          (Prints_more (next (emit k out) k.digits _ ws f.valid r)
            (omega (arith, length-emit k out, f.size))))

  format_loop-Prints : (mode : Mode) (fmt : List ℕ) (args : List Arg) → Goal mode fmt args
  unfolding room
  format_loop-Prints plain [] args out digits n ws w e =
      unfold format_loop in
      record { at_end = printed out digits; returns = refl; size = omega arith; valid = w }
  format_loop-Prints plain (c ∷ fmt) args out digits n ws w e =
      elim (Bool-cases (ltb (length out) bufsz)) [
        | inr full ↦
            rw (loop-full bufsz fmt c args out digits full) (record {
              at_end = printed out digits;
              returns = refl;
              size = omega arith;
              valid = w;
            })
        | inl more ↦ elim (Bool-cases (c == b'%')) [
          | inl p ↦
              rw (loop-percent bufsz fmt c args out digits more p)
                (format_loop-Prints (percent false) fmt args out digits n ws w (ground arith))
          | inr np ↦
              let inner : Option.map suc (room plain fmt args) ≡ some n = ground arith in
              let k = map-some suc (room plain fmt args) inner in
              rw (loop-char bufsz fmt c args out digits more np) (
                Prints_more (format_loop-Prints plain fmt args (out ++ c ∷ []) digits k.0 ws w k.1)
                  (omega (arith, length-append out (c ∷ []), k.2)))
        ]
      ]
  format_loop-Prints (percent zeroes) [] args out digits n ws w e = cc
  format_loop-Prints (percent zeroes) (c ∷ fmt) [] out digits n ws w e =
      elim (Bool-cases (c == b'0')) [
        | inl z ↦
            rw (loop-zero bufsz fmt zeroes c [] out digits z)
              (format_loop-Prints (percent true) fmt [] out digits n ws w (ground arith))
        | inr nz ↦ elim (Bool-cases (takes_arg c)) [
          | inl takes ↦ absurd (ground arith)
          | inr none_taken ↦
              let inner : Option.map suc (room plain fmt []) ≡ some n = ground arith in
              let k = map-some suc (room plain fmt []) inner in
              after fmt [] [] nz (other-Fits zeroes c digits w [] none_taken) (omega (arith, k.2))
                ws k.1 (format_loop-Prints plain fmt [])
        ]
      ]
  format_loop-Prints (percent zeroes) (c ∷ fmt) (a ∷ args) out digits n ws w e =
      elim (Bool-cases (c == b'0')) [
        | inl z ↦
            rw (loop-zero bufsz fmt zeroes c (a ∷ args) out digits z)
              (format_loop-Prints (percent true) fmt (a ∷ args) out digits n ws w (ground arith))
        | inr nz ↦ elim (Bool-cases (takes_arg c)) [
          | inl takes ↦ elim (Option-cases (arg_room c a)) [
            | inl e0 ↦ absurd (ground arith)
            | inr (m, e0) ↦
                let inner : Option.map (λ k. m + k) (room plain fmt args) ≡ some n = ground arith in
                let k = map-some (λ k. m + k) (room plain fmt args) inner in
                after fmt (a ∷ args) args nz (arg-Fits zeroes c digits w a args m ws.0 takes e0)
                  (omega (arith, k.2)) ws.1 k.1 (format_loop-Prints plain fmt args)
          ]
          | inr none_taken ↦
              let inner : Option.map suc (room plain fmt (a ∷ args)) ≡ some n = ground arith in
              let k = map-some suc (room plain fmt (a ∷ args)) inner in
              after fmt (a ∷ args) (a ∷ args) nz
                (other-Fits zeroes c digits w (a ∷ args) none_taken) (omega (arith, k.2)) ws k.1
                (format_loop-Prints plain fmt (a ∷ args))
        ]
      ]

-- What has been put and the NUL behind it have stayed inside a buffer of this size.
abbrev pub IsInside : (bufsz : ℕ) → Printed → Type 0
IsInside bufsz p = length p.out < bufsz

-- A format that fits its 32-bit arguments and whose room is less than the size of the buffer is
-- printed, with a static buffer in order: no argument is missing or of the wrong kind, no digit
-- is written outside the static buffer, which stays in order, and the bytes put are no more than
-- the room and, with the NUL behind them, inside the buffer. The room is one for each ordinary
-- character and each conversion without argument, the length of each text, and 17 for any other
-- argument.
pub kvsnprintf-room :
    (bufsz : ℕ) (fmt : List ℕ) (args : List Arg) (digits : List ℕ) (n : ℕ)
    → AreWords args
    → IsDigits digits
    → room plain fmt args ≡ some n
    → n < bufsz
    → (p : Printed) × (kvsnprintf bufsz fmt args digits ≡ some p)
      × IsInside bufsz p
      × (length p.out ≤ n)
      × IsDigits p.digits
unfolding kvsnprintf
kvsnprintf-room bufsz fmt args digits n ws w e h =
    let r = format_loop-Prints bufsz plain fmt args [] digits n ws w e in
    (r.at_end, r.returns, omega (arith, r.size), omega (arith, r.size), r.valid)

-- A format with no `%` in it.
abbrev pub IsPlain : List ℕ → Type 0
IsPlain [] = Unit {0}
IsPlain (c ∷ cs) = ((c == b'%') ≡ false) × IsPlain cs

format_loop-plain :
    (bufsz : ℕ) (fmt : List ℕ) (args : List Arg) (out digits : List ℕ)
    → IsPlain fmt
    → format_loop bufsz plain fmt args out digits
      ≡ some (printed (out ++ take (bufsz - length out) fmt) digits)
format_loop-plain bufsz [] args out digits h = unfold format_loop in rw (take-nil, append-nil)
format_loop-plain bufsz (c ∷ fmt) args out digits h = elim (Bool-cases (ltb (length out) bufsz)) [
  | inr full ↦
      let e : bufsz - length out ≡ 0 = omega (arith, ltb→le _ _ full) in
      rw (loop-full bufsz fmt c args out digits full, e, append-nil)
  | inl more ↦
      let e : bufsz - length out ≡ suc (bufsz - length (out ++ c ∷ [])) =
        omega (arith, ltb→lt _ _ more, length-append out (c ∷ [])) in
      rw (loop-char bufsz fmt c args out digits more h.0, e)
        (format_loop-plain bufsz fmt args (out ++ c ∷ []) digits h.1 ∙ rw append_assoc)
]

-- A text with no `%` is copied into the buffer up to its size, and the static buffer stays as it
-- is.
kvsnprintf-plain :
    (bufsz : ℕ) (fmt : List ℕ) (args : List Arg) (digits : List ℕ)
    → IsPlain fmt
    → kvsnprintf bufsz fmt args digits ≡ some (printed (take bufsz fmt) digits)
unfolding kvsnprintf
kvsnprintf-plain bufsz fmt args digits h =
    format_loop-plain bufsz fmt args [] digits h
    ∙ ap (λ n. some (printed (take n fmt) digits)) (omega arith)

-- The size of the buffer does not bound a conversion: in any buffer that is not empty `%s` puts
-- its whole text, so that a text as long as the buffer leaves no room for the NUL at the end, and
-- a longer one runs over it.
pub kvsnprintf_overruns :
    (bufsz address : ℕ) (s digits : List ℕ)
    → 0 < bufsz
    → kvsnprintf bufsz (b'%' ∷ b's' ∷ []) (text address s ∷ []) digits ≡ some (printed s digits)
unfolding kvsnprintf
kvsnprintf_overruns bufsz address s digits h =
    unfold format_loop convert emit in
    rw (loop-percent bufsz (b's' ∷ []) b'%' (text address s ∷ []) [] digits (lt→ltb _ _ h) refl)
