-- ===== src/Io/Shown.antt =====
-- Behind a message of the log the screen shows a paper, also if it is the first message.
use yack.Common.{
  ℕ, suc, ◌+◌, ◌<◌, ◌≡◌, refl, subst, arith, true, false, List, [], ◌∷◌, ◌++◌, leb, length,
  length-append, some,
}
use yack.Machine.{Machine, done}
use yack.Machine.Returns.{done-same}
use yack.Screen.Showing.{Shown, Showing, Showing-same}
use yack.Format.{Arg, text, printed, codes, plain}
use yack.Format.Number.{IsDigits}
use yack.Format.Room.{AreWords, room}
use yack.Format.Rendered.{rendered, piece, before}
use yack.Format.Rendered.Loop.{kvsnprintf-rendered}
use yack.Io.{flush, kprintf, klog}
use yack.Io.Logged.{IsReady, kprintf-Logged, write-Shown}

flush-Shown :
    (c : ℕ) (cs d : List ℕ) (m : Machine)
    → length (c ∷ cs) < 4096
    → IsDigits d
    → IsReady m
    → Showing m
    → (k : ℕ) × (n : Machine) × (flush (printed (c ∷ cs) d) m ≡ done k n) × Shown n
unfolding flush
flush-Shown c cs d m short w r s =
    let q = record m { digits = d } in
    let ready : IsReady q = record {
      on_screen = record { row_lt = r.on_screen.row_lt; col_lt = r.on_screen.col_lt };
      digits = w;
      patient = r.patient;
      line = r.line;
    } in
    let e = write-Shown c cs q ready (Showing-same m q refl refl (λ _ _ _. refl) s) in
    let fits : leb 4096 (length (c ∷ cs)) ≡ false = ground arith in
    let some_text : leb 1 (length (c ∷ cs)) ≡ true = ground arith in
    (length (c ∷ cs), e.1, rw fits (rw some_text (rw e.2 refl)), e.3)

-- A format that stands for a text that is not empty.
kprintf-Shown :
    (fmt : List ℕ) (args : List Arg) (c : ℕ) (cs : List ℕ) (m : Machine)
    → AreWords args
    → rendered plain fmt args ≡ some (c ∷ cs)
    → length (c ∷ cs) < 4096
    → IsReady m
    → Showing m
    → (k : ℕ) × (n : Machine) × (kprintf fmt args m ≡ done k n) × Shown n
unfolding kprintf
kprintf-Shown fmt args c cs m ws e short r s =
    let k = kvsnprintf-rendered 4096 fmt args m.digits (c ∷ cs) ws r.digits e short in
    let f = flush-Shown c cs k.0 m short k.2 r s in (f.0, f.1, rw (k.1, kprintf) f.2, f.3)

-- The level in its brackets is such a text.
level_rendered :
    (level : List ℕ)
    → rendered plain (codes "[%s] ") (text 0 level ∷ []) ≡ some (b'[' ∷ level ++ codes "] ")
unfolding rendered piece before
level_rendered level = refl

pub klog-Shown :
    (level fmt : List ℕ) (args : List Arg) (n : ℕ) (m : Machine)
    → length level < 100
    → room plain fmt args ≡ some n
    → n < 4096
    → AreWords args
    → IsReady m
    → Showing m
    → (k : Machine) × (klog level fmt args m ≡ done tt k) × Shown k
unfolding klog
klog-Shown level fmt args n m short e small ws r s =
    let first =
      kprintf-Shown (codes "[%s] ") (text 0 level ∷ []) b'[' (level ++ codes "] ") m
        (omega arith, tt) (level_rendered level) (omega (arith, length-append level (codes "] "))) r
        s in
    let l =
      kprintf-Logged (codes "[%s] ") (text 0 level ∷ []) (suc (length level + 2)) m
        (unfold room in refl) (omega arith) (omega arith, tt) r in
    let rest = kprintf-Logged fmt args n l.after e small ws l.ready in
    (
      rest.after,
      rw l.returns (rw rest.returns refl),
      rest.kept.shown (subst Shown (done-same first.2 l.returns) first.3),
    )
