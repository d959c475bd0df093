-- ===== src/Io/Written/Joined.antt =====
-- One text printed behind another.
use yack.Common.{ℕ, ◌≡◌, refl, sym, subst, ◌∙◌, ap, List, [], ◌∷◌, ◌++◌, map, u8, u16, append_assoc}
use yack.Machine.{Machine, Outcome, Kernel, and_then}
use yack.Machine.Kept.{Kept-trans}
use yack.Screen.Paper.{Paper, print_text}
use yack.Screen.Typing.{Shows}
use yack.Screen.Text.{print_text-IsStarted, IsStarted}
use yack.Screen.Spoken.{spoken}
use yack.Io.Written.{IsOnLine, Written, Writes}

pub print_text-append :
    (t t' : List ℕ) (p : Paper) → print_text (t ++ t') p ≡ print_text t' (print_text t p)
unfolding print_text
print_text-append [] t' p = refl
print_text-append (c ∷ t) t' p = print_text-append t t' _

pub map-append : (t t' : List ℕ) → map u8 (t ++ t') ≡ map u8 t ++ map u8 t'
map-append [] t' = refl
map-append (c ∷ t) t' = ap (λ r. u8 c ∷ r) (map-append t t')

-- One text behind another.
pub Written-append :
    (t t' : List ℕ) (p : Paper) (m n k : Machine)
    → Written t p m n
    → Written t' (print_text t p) n k
    → Written (t ++ t') p m k
Written-append t t' p m n k a b = record {
  on_line = b.on_line;
  kept = Kept-trans a.kept b.kept;
  shows = rw (print_text-append t t' p) b.shows;
  said =
      subst (λ d. spoken (u16 d) k.history ≡ spoken (u16 d) n.history ++ map u8 t')
        a.kept.serial_default_port b.said
      ∙ ap (λ x. x ++ map u8 t') a.said
      ∙ append_assoc (spoken (u16 m.serial_default_port) m.history) (map u8 t) (map u8 t')
      ∙ ap (λ x. spoken (u16 m.serial_default_port) m.history ++ x) (sym (map-append t t'));
  outside = λ q o. b.outside q o ∙ a.outside q o;
}

-- A run that prints, and then one that goes on from there.
pub then-Writes :
    {A B : Type 0} {a : A} {b : B} (t t' : List ℕ) {p : Paper} {m : Machine} {o : Outcome A}
    (k : A → Kernel B)
    → IsStarted p
    → Writes a t p m o
    → ((n : Machine)
        → IsOnLine n
        → IsStarted (print_text t p)
        → Shows (print_text t p) n
        → Writes b t' (print_text t p) n (k a n))
    → Writes b (t ++ t') p m (and_then o k)
then-Writes t t' {p} {m} k st (n, e, w, u) next =
    let rest = next n w.on_line (print_text-IsStarted t p st) w.shows in
    (rest.0, rw e rest.1, Written-append t t' p m n rest.0 w rest.2, rest.3 ∙ u)
