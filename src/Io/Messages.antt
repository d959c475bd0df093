-- ===== src/Io/Messages.antt =====
-- What `klog`, `panic` and `kassert` print.
use yack.Common.{
  lt→ltb, ltb, ℕ, ◌+◌, ◌<◌, ◌≡◌, refl, ◌∙◌, ap, arith, true, false, List, [], ◌∷◌, ◌++◌, length,
  length-append, some, ◌^◌,
}
use yack.Machine.{Machine, Outcome, hung, Kernel, ◌>>=◌, and_then, pure}
use yack.Screen.Paper.{Paper, print_text}
use yack.Screen.Typing.{Shows}
use yack.Screen.Text.{print_text-IsStarted, IsStarted}
use yack.Format.{Arg, word, text, codes, plain}
use yack.Format.Room.{AreWords}
use yack.Format.Rendered.{rendered, piece, before, digits_of}
use yack.Io.{kprintf, klog, kassert, panic}
use yack.Format.Rendered.Pieces.{filled-zero, length-digits_of}
use yack.Io.Written.{IsOnLine, Written, Writes, kprintf-Written}
use yack.Io.Written.Joined.{Written-append, then-Writes}

-- The text of a message of the log.
abbrev pub message : (level t : List ℕ) → List ℕ
message level t = (b'[' ∷ level ++ codes "] ") ++ t

level_text :
    (level : List ℕ)
    → rendered plain (codes "[%s] ") (text 0 level ∷ []) ≡ some (b'[' ∷ level ++ codes "] ")
unfolding rendered piece before
level_text level = refl

-- On a machine that is ready for output, with a default port in use that is none of the cursor's
-- and has its status elsewhere than at the keyboard's, a line that answers, and a screen that
-- shows a paper past its first position: a log message with a level of less than 100 characters,
-- whose format and 32-bit arguments stand for a text of less than 4096 bytes, is printed. `klog`
-- returns, the screen shows the paper with the level in brackets, a space and the text printed on
-- it, and the same bytes have gone to the serial line, in order, behind those sent before; the
-- conditions hold again, and the other components' state and all memory outside the screen are as
-- before.
pub klog-Written :
    (level fmt : List ℕ) (args : List Arg) (t : List ℕ) (p : Paper) (m : Machine)
    → AreWords args
    → rendered plain fmt args ≡ some t
    → length level < 100
    → length t < 4096
    → IsOnLine m
    → IsStarted p
    → Shows p m
    → Writes tt (message level t) p m (klog level fmt args m)
unfolding klog
klog-Written level fmt args t p m ws e short small l st s =
    let first =
      kprintf-Written (codes "[%s] ") (text 0 level ∷ []) (b'[' ∷ level ++ codes "] ") p m
        (omega arith, tt) (level_text level) (omega (arith, length-append level (codes "] "))) l st
        s in
    then-Writes (b'[' ∷ level ++ codes "] ") t (λ _. kprintf fmt args >>= λ _. pure tt) st first
      (λ n ln sn shown.
        let k = kprintf-Written fmt args t _ n ws e small ln sn shown in
        (k.0, rw k.1 refl, k.2, k.3))

-- The text of a panic, and that of a failed assertion.
abbrev pub panic_text : List ℕ → List ℕ
panic_text t = codes "PANIC! " ++ (t ++ codes "\n")

abbrev pub assert_text : (file : List ℕ) (line : ℕ) (expr : List ℕ) → List ℕ
assert_text file line expr =
    codes "ERROR ["
    ++ (file
        ++ (b':' ∷ digits_of 10 line ++ (codes "] Failed assertion: " ++ (expr ++ codes "\n"))))

-- A run that prints and then never returns.
abbrev pub Hangs : {A : Type 0} → List ℕ → Paper → Machine → Outcome A → Type 0
Hangs t p m o = (n : Machine) × (o ≡ hung n) × Written t p m n

then-Hangs :
    {A B : Type 0} {a : A} (t t' : List ℕ) {p : Paper} {m : Machine} {o : Outcome A}
    (k : A → Kernel B)
    → IsStarted p
    → Writes a t p m o
    → ((n : Machine)
        → IsOnLine n
        → IsStarted (print_text t p)
        → Shows (print_text t p) n
        → Hangs t' (print_text t p) n (k a n))
    → Hangs (t ++ t') p m (and_then o k)
then-Hangs t t' {p} {m} k st (n, e, w, u) next =
    let rest = next n w.on_line (print_text-IsStarted t p st) w.shows in
    (rest.0, rw e rest.1, Written-append t t' p m n rest.0 w rest.2)

-- On a machine that is ready for output, with a default port in use that is none of the cursor's
-- and has its status elsewhere than at the keyboard's, a line that answers, and a screen that
-- shows a paper past its first position: a panic whose format and 32-bit arguments stand for a
-- text of less than 4096 bytes prints `PANIC! `, the text and a line feed, on the screen and on
-- the serial line, and then never returns, with the other components' state and all memory
-- outside the screen as before.
pub panic-Hangs :
    (fmt : List ℕ) (args : List Arg) (t : List ℕ) (p : Paper) (m : Machine)
    → AreWords args
    → rendered plain fmt args ≡ some t
    → length t < 4096
    → IsOnLine m
    → IsStarted p
    → Shows p m
    → Hangs (panic_text t) p m (panic fmt args m)
unfolding panic
panic-Hangs fmt args t p m ws e small l st s =
    then-Hangs (codes "PANIC! ") (t ++ codes "\n") _ st
      (kprintf-Written (codes "PANIC! ") [] (codes "PANIC! ") p m tt
        (unfold rendered piece before in refl) (omega arith) l st s)
      (λ n ln sn shown.
        then-Hangs t (codes "\n") _ sn (kprintf-Written fmt args t _ n ws e small ln sn shown)
          (λ k lk sk shown'.
            let last =
              kprintf-Written (codes "\n") [] (codes "\n") _ k tt
                (unfold rendered piece before in refl) (omega arith) lk sk shown' in
            (last.0, rw last.1 refl, last.2)))

-- The parts of the message of an assertion, from its end on.
rendered-expr :
    (expr : List ℕ)
    → rendered plain (codes "] Failed assertion: %s\n") (text 0 expr ∷ [])
      ≡ some (codes "] Failed assertion: " ++ (expr ++ codes "\n"))
unfolding rendered piece before
rendered-expr expr = refl

rendered-line :
    (v : ℕ) (fmt : List ℕ) (args : List Arg) (r : List ℕ)
    → ltb v (2 ^ 31) ≡ true
    → rendered plain fmt args ≡ some r
    → rendered plain (b'%' ∷ b'd' ∷ fmt) (word v ∷ args) ≡ some (digits_of 10 v ++ r)
unfolding rendered before piece
rendered-line v fmt args r e f =
    rw (e, f, rendered) (ap (λ x. some (x ++ r)) (filled-zero false (digits_of 10 v)))

rendered-file :
    (file fmt : List ℕ) (args : List Arg) (r : List ℕ)
    → rendered plain fmt args ≡ some r
    → rendered plain (codes "ERROR [%s:" ++ fmt) (text 0 file ∷ args)
      ≡ some (codes "ERROR [" ++ (file ++ b':' ∷ r))
unfolding rendered before piece
rendered-file file fmt args r e = rw e refl

assert_rendered :
    (file : List ℕ) (line : ℕ) (expr : List ℕ)
    → line < 2 ^ 31
    → rendered plain
        (codes "ERROR [%s:%d] Failed assertion: %s\n")
        (text 0 file ∷ word line ∷ text 0 expr ∷ [])
      ≡ some (assert_text file line expr)
assert_rendered file line expr h =
    rendered-file file (codes "%d] Failed assertion: %s\n") (word line ∷ text 0 expr ∷ [])
      (digits_of 10 line ++ (codes "] Failed assertion: " ++ (expr ++ codes "\n")))
      (rendered-line line (codes "] Failed assertion: %s\n") (text 0 expr ∷ [])
        (codes "] Failed assertion: " ++ (expr ++ codes "\n")) (lt→ltb line (2 ^ 31) h)
        (rendered-expr expr))

length-six :
    (a b c d e f : List ℕ)
    → length (a ++ (b ++ (c ++ (d ++ (e ++ f)))))
      ≡ length a + length b + length c + length d + length e + length f
length-six a b c d e f = omega (
  arith,
  length-append a (b ++ (c ++ (d ++ (e ++ f)))),
  length-append b (c ++ (d ++ (e ++ f))),
  length-append c (d ++ (e ++ f)),
  length-append d (e ++ f),
  length-append e f,
)

length-assert_text :
    (file : List ℕ) (line : ℕ) (expr : List ℕ)
    → length (assert_text file line expr)
      ≡ length file + length (digits_of 10 line) + length expr + 29
length-assert_text file line expr =
    length-six (codes "ERROR [") file (b':' ∷ digits_of 10 line) (codes "] Failed assertion: ") expr
      (codes "\n")
    ∙ omega arith

-- On a machine that is ready for output, with a default port in use that is none of the cursor's
-- and has its status elsewhere than at the keyboard's, a line that answers, and a screen that
-- shows a paper past its first position: a failed assertion with a file name and an expression of
-- together less than 1000 characters and a line number below 2 ^ 31 prints its message, with the
-- file, the line in decimal and the expression, on the screen and on the serial line, and then
-- never returns, with the other components' state and all memory outside the screen as before.
pub kassert-Hangs :
    (file : List ℕ) (line : ℕ) (expr : List ℕ) (p : Paper) (m : Machine)
    → length file + length expr < 1000
    → line < 2 ^ 31
    → IsOnLine m
    → IsStarted p
    → Shows p m
    → Hangs (assert_text file line expr) p m (kassert false file line expr m)
unfolding kassert
kassert-Hangs file line expr p m short small l st s =
    let k =
      kprintf-Written (codes "ERROR [%s:%d] Failed assertion: %s\n")
        (text 0 file ∷ word line ∷ text 0 expr ∷ []) (assert_text file line expr) p m
        (omega arith, (omega arith, (omega arith, tt))) (assert_rendered file line expr small)
        (omega (
          arith,
          length-assert_text file line expr,
          length-digits_of 10 line 10 (omega arith) (omega arith) (omega arith),
          short,
        ))
        l st s in
    (k.0, rw (k.1, kassert), k.2)
