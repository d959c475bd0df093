-- ===== src/Pages/Linked/Del.antt =====
-- `list_del` of the first entry.
use yack.Common.{ℕ, ◌+◌, ◌≡◌, refl, arith, List, [], ◌∷◌}
use yack.Memory.{Memory, load32}
use yack.Memory.Four.{four, four_ne, four_a, four_b, four_outside}
use yack.Pages.Lists.{Clear, AreNodes, SameNodes, OffNodes}
use yack.Pages.Linked.{linked_del, Seg, Seg-same}

-- The memory without the node `e` between `head` and `next`.
abbrev pub without : (head e next : ℕ) → Memory → Memory
without head e next m = four (next + 4) head head next e 0 (e + 4) 0 m

-- Nodes clear of the three keep their links.
SameNodes-without :
    (head e next : ℕ) (es : List ℕ) (m : Memory)
    → Clear head es
    → Clear e es
    → Clear next es
    → SameNodes m (without head e next m) es
SameNodes-without head e next [] m h c n = tt
SameNodes-without head e next (f ∷ fs) m h c n = (
  four_ne (next + 4) head head next e 0 (e + 4) 0 f m (omega arith) (omega arith) (omega arith)
      (omega arith),
  four_ne (next + 4) head head next e 0 (e + 4) 0 (f + 4) m (omega arith) (omega arith)
      (omega arith) (omega arith),
  SameNodes-without head e next fs m h.1 c.1 n.1,
)

pub without-Seg :
    (head e : ℕ) (es : List ℕ) (m : Memory)
    → AreNodes (head ∷ e ∷ es)
    → Seg m head (e ∷ es) head
    → (next : ℕ) × (load32 m e ≡ next)
      × (load32 m (e + 4) ≡ head)
      × Seg (without head e next m) head es head
without-Seg head e [] m (hn, hc, (en, ec, t)) ((l, r), (l', r')) = (
  head,
  l',
  r,
  (
    four_b (head + 4) head head head e 0 (e + 4) 0 m (omega arith) (omega arith) (omega arith),
    four_a (head + 4) head head head e 0 (e + 4) 0 m (omega arith) (omega arith) (omega arith)
        (omega arith),
  ),
)
without-Seg head e (f ∷ fs) m (hn, hc, (en, ec, (fn, fc, t))) ((l, r), ((l', r'), rest)) = (
  f,
  l',
  r,
  (
    (
      four_b (f + 4) head head f e 0 (e + 4) 0 m (omega arith) (omega arith) (omega arith),
      four_a (f + 4) head head f e 0 (e + 4) 0 m (omega arith) (omega arith) (omega arith)
          (omega arith),
    ),
    Seg-same m (without head e f m) f fs head
        (four_ne (f + 4) head head f e 0 (e + 4) 0 f m (omega arith) (omega arith) (omega arith)
          (omega arith))
        (four_ne (f + 4) head head f e 0 (e + 4) 0 (head + 4) m (omega arith) (omega arith)
          (omega arith) (omega arith))
        (SameNodes-without head e f fs m hc.1.1 ec.1 fc) rest,
  ),
)

pub linked_del-without :
    (head e next : ℕ) (m : Memory)
    → load32 m e ≡ next
    → load32 m (e + 4) ≡ head
    → linked_del e m ≡ without head e next m
unfolding linked_del
linked_del-without head e next m l r = rw (l, r) refl

-- The node behind the first one lies in the list or is the head.
pub without_outside :
    (head e : ℕ) (es : List ℕ) (m : Memory) (q : ℕ)
    → Seg m head (e ∷ es) head
    → OffNodes (head ∷ e ∷ es) q
    → linked_del e m q ≡ m q
without_outside head e [] m q ((l, r), (l', r')) (oh, (oe, t)) =
    rw (linked_del-without head e head m l' r) (
      four_outside (head + 4) head head head e 0 (e + 4) 0 q m (omega arith) (omega arith)
        (omega arith) (omega arith))
without_outside head e (f ∷ fs) m q ((l, r), ((l', r'), rest)) (oh, (oe, (of, t))) =
    rw (linked_del-without head e f m l' r) (
      four_outside (f + 4) head head f e 0 (e + 4) 0 q m (omega arith) (omega arith) (omega arith)
        (omega arith))
