-- ===== src/Format/Rendered/Loop.antt =====
-- The loop of `kvsnprintf` puts the text that its format and its arguments stand for.
use yack.Common.{
  ℕ, ◌+◌, ◌<◌, ◌≡◌, refl, sym, ◌∙◌, ap, subst, arith, Bool, true, false, List, [], ◌∷◌, ◌++◌, ◌==◌,
  ltb, lt→ltb, length, length-append, Option, none, some, Option-cases, if◌then◌else◌, append-nil,
  append_assoc, Bool-cases, inl, inr,
}
use yack.Format.{
  Arg, takes_arg, emit, Mode, plain, percent, Printed, printed, format_loop, kvsnprintf,
}
use yack.Format.Number.{IsDigits}
use yack.Format.Room.{AreWords}
use yack.Format.Steps.{loop-char, loop-percent, loop-zero, loop-convert}
use yack.Format.Rendered.{piece, before, rendered}
use yack.Format.Rendered.Pieces.{Puts, arg-Puts, other-Puts}

-- What the loop has put at its end: `t` behind `out`.
record Put (out t : List ℕ) (result : Option Printed) : Type 0 where
  digits : List ℕ
  returns : result ≡ some (printed (out ++ t) digits)
  valid : IsDigits digits

Put-more :
    (piece rest : List ℕ) {out t : List ℕ} {r : Option Printed}
    → piece ++ rest ≡ t
    → Put (out ++ piece) rest r
    → Put out t r
Put-more piece rest {out} e p = record {
  digits = p.digits;
  returns =
      p.returns
      ∙ ap (λ x. some (printed x p.digits)) (append_assoc out piece rest ∙ ap (λ x. out ++ x) e);
  valid = p.valid;
}

before-some :
    (t : List ℕ) (o : Option (List ℕ)) {r : List ℕ}
    → before t o ≡ some r
    → (k : List ℕ) × (o ≡ some k) × (t ++ k ≡ r)
unfolding before
before-some t none e = absurd (cc)
before-some t (some k) e = (k, refl, cc)

nothing : (t : List ℕ) → some [] ≡ some t → t ≡ []
nothing t e = cc

plain_rest :
    (fmt : List ℕ) (c : ℕ) (args : List Arg) (t : List ℕ)
    → (c == b'%') ≡ false
    → rendered plain (c ∷ fmt) args ≡ some t
    → before (c ∷ []) (rendered plain fmt args) ≡ some t
unfolding rendered
plain_rest fmt c args t np e = ground arith

module _ (bufsz : ℕ) where
  -- The statement at one format, for the induction.
  abbrev Goal : Mode → List ℕ → List Arg → Type 0
  Goal mode fmt args =
      (out digits t : List ℕ)
      → AreWords args
      → IsDigits digits
      → rendered mode fmt args ≡ some t
      → length out + length t < bufsz
      → Put out t (format_loop bufsz mode fmt args out digits)

  after :
      (fmt : List ℕ) (args rest : List Arg) {zeroes : Bool} {c : ℕ} {out digits t k r : List ℕ}
      → (c == b'0') ≡ false
      → Puts zeroes c args digits k rest
      → k ++ r ≡ t
      → AreWords rest
      → rendered plain fmt rest ≡ some r
      → length out + length t < bufsz
      → Goal plain fmt rest
      → Put out t (format_loop bufsz (percent zeroes) (c ∷ fmt) args out digits)
  after fmt args rest {out} {t} {k} {r} nz f e ws rest_text small next =
      let c = f.conversion in
      rw (loop-convert bufsz fmt _ _ args out _ c nz f.found) (
        subst (λ l. Put out t (format_loop bufsz plain fmt l (emit c out) c.digits)) (sym f.left)
          (subst (λ x. Put out t (format_loop bufsz plain fmt rest x c.digits)) (sym (f.text out))
            (Put-more k r e (
              next (out ++ k) c.digits r ws f.valid rest_text
                (omega (arith, length-append out k, length-append k r, ap length e, small))))))

  format_loop-Put : (mode : Mode) (fmt : List ℕ) (args : List Arg) → Goal mode fmt args
  unfolding rendered
  format_loop-Put plain [] args out digits t ws w e small =
      unfold format_loop in
      record {
        digits = digits;
        returns =
            ap (λ x. some (printed x digits))
              (sym (ap (λ x. out ++ x) (nothing t e) ∙ append-nil out));
        valid = w;
      }
  format_loop-Put plain (c ∷ fmt) args out digits t ws w e small =
      let more : ltb (length out) bufsz ≡ true = lt→ltb _ _ (omega arith) in
      elim (Bool-cases (c == b'%')) [
        | inl p ↦
            rw (loop-percent bufsz fmt c args out digits more p)
              (format_loop-Put (percent false) fmt args out digits t ws w (ground arith) small)
        | inr np ↦
            let k = before-some (c ∷ []) (rendered plain fmt args) (plain_rest fmt c args t np e) in
            rw (loop-char bufsz fmt c args out digits more np) (
              Put-more (c ∷ []) k.0 k.2 (
                format_loop-Put plain fmt args (out ++ c ∷ []) digits k.0 ws w k.1
                  (omega (arith, length-append out (c ∷ []), ap length k.2, small))))
      ]
  format_loop-Put (percent zeroes) [] args out digits t ws w e small = cc
  format_loop-Put (percent zeroes) (c ∷ fmt) [] out digits t ws w e small =
      elim (Bool-cases (c == b'0')) [
        | inl z ↦
            rw (loop-zero bufsz fmt zeroes c [] out digits z)
              (format_loop-Put (percent true) fmt [] out digits t ws w (ground arith) small)
        | inr nz ↦ elim (Bool-cases (takes_arg c)) [
          | inl takes ↦ absurd (ground arith)
          | inr none_taken ↦
              let k =
                before-some (if c == b'%' then b'%' ∷ [] else []) (rendered plain fmt [])
                  (ground arith) in
              after fmt [] [] nz (other-Puts zeroes c digits w [] none_taken) k.2 ws k.1 small
                (format_loop-Put plain fmt [])
        ]
      ]
  format_loop-Put (percent zeroes) (c ∷ fmt) (a ∷ args) out digits t ws w e small =
      elim (Bool-cases (c == b'0')) [
        | inl z ↦
            rw (loop-zero bufsz fmt zeroes c (a ∷ args) out digits z)
              (format_loop-Put (percent true) fmt (a ∷ args) out digits t ws w (ground arith) small)
        | inr nz ↦ elim (Bool-cases (takes_arg c)) [
          | inl takes ↦ elim (Option-cases (piece zeroes c a)) [
            | inl e0 ↦ absurd (ground arith)
            | inr (s, e0) ↦
                let k = before-some s (rendered plain fmt args) (ground arith) in
                after fmt (a ∷ args) args nz (arg-Puts zeroes c digits w a args s ws.0 takes e0) k.2
                  ws.1 k.1 small (format_loop-Put plain fmt args)
          ]
          | inr none_taken ↦
              let k =
                before-some (if c == b'%' then b'%' ∷ [] else []) (rendered plain fmt (a ∷ args))
                  (ground arith) in
              after fmt (a ∷ args) (a ∷ args) nz
                (other-Puts zeroes c digits w (a ∷ args) none_taken) k.2 ws k.1 small
                (format_loop-Put plain fmt (a ∷ args))
        ]
      ]

-- If a format and its 32-bit arguments stand for a text by the reference formatter, which knows
-- of no buffer and has no text for a negative `%d`, and the text is shorter than the buffer,
-- `kvsnprintf` puts just that text, whatever the static buffer holds as long as it is in order,
-- and leaves it in order.
pub kvsnprintf-rendered :
    (bufsz : ℕ) (fmt : List ℕ) (args : List Arg) (digits t : List ℕ)
    → AreWords args
    → IsDigits digits
    → rendered plain fmt args ≡ some t
    → length t < bufsz
    → (digits' : List ℕ) × (kvsnprintf bufsz fmt args digits ≡ some (printed t digits'))
      × IsDigits digits'
unfolding kvsnprintf
kvsnprintf-rendered bufsz fmt args digits t ws w e small =
    let p = format_loop-Put bufsz plain fmt args [] digits t ws w e (omega arith) in
    (p.digits, p.returns, p.valid)
