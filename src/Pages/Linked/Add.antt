-- ===== src/Pages/Linked/Add.antt =====
-- `list_add_tail` of a new entry.
use yack.Common.{ℕ, ◌+◌, ◌≤◌, ◌<◌, ◌≡◌, ◌⊎◌, inl, inr, refl, ◌∙◌, arith, List, [], ◌∷◌, ◌++◌}
use yack.Memory.{Memory}
use yack.Memory.Region.{Apart}
use yack.Memory.Four.{four, four_ne, four_a, four_b, four_c, four_d, four_outside}
use yack.Pages.Lists.{IsNode, Clear, AreNodes, OffNodes}
use yack.Pages.Linked.{
  linked_add_tail, Seg, last_from, Clear-last_from, OffNodes-last_from, Seg-prev,
}

-- The memory with the node `e` between `prev` and `head`.
abbrev pub with_last : (e head prev : ℕ) → Memory → Memory
with_last e head prev m = four (head + 4) e e head (e + 4) prev prev e m

-- The `prev` of the first node is no word of the last one's `next`.
prev_spared : (x : ℕ) (xs : List ℕ) → Clear x xs → Apart (last_from x xs) 4 (x + 4) 4
prev_spared x [] c = omega arith
prev_spared x (y ∷ ys) c =
    let far : Apart x 8 (last_from y ys) 8 = Clear-last_from x y ys c in omega arith

-- `a` is the head or a node clear of it and of `e`; the nodes `es` are clear of all of them.
with_last-Seg :
    (e head a : ℕ) (es : List ℕ) (m : Memory)
    → IsNode e
    → IsNode head
    → Apart e 8 head 8
    → Apart e 8 a 8
    → Clear e es
    → Clear head es
    → (a ≡ head) ⊎ Apart head 8 a 8
    → AreNodes (a ∷ es)
    → Seg m a es head
    → Seg (with_last e head (last_from a es) m) a (es ++ e ∷ []) head
with_last-Seg e head a [] m en hn eh ea ce ch ah an (l, r) = (
  (
    four_d (head + 4) e e head (e + 4) a a e m (omega arith),
    four_c (head + 4) e e head (e + 4) a a e m (omega arith) (omega arith),
  ),
  (
    four_b (head + 4) e e head (e + 4) a a e m (omega arith) (omega arith) (omega arith),
    four_a (head + 4) e e head (e + 4) a a e m (omega arith) (omega arith) (omega arith)
        (omega arith),
  ),
)
with_last-Seg e head a (x ∷ xs) m en hn eh ea ce ch ah (an, ac, (xn, xc, t)) ((l, r), rest) =
    let p = last_from x xs in
    let ap = Clear-last_from a x xs ac in
    (
      (
        four_ne (head + 4) e e head (e + 4) p p e a m (omega arith) (omega arith) (omega arith)
              (omega arith)
            ∙ l,
        four_ne (head + 4) e e head (e + 4) p p e (x + 4) m (omega arith) (omega arith)
              (omega arith) (prev_spared x xs xc)
            ∙ r,
      ),
      with_last-Seg e head x xs m en hn eh ce.0 ce.1 ch.1 (inr ch.0) (xn, xc, t) rest,
    )

pub linked_add_tail-Seg :
    (head e : ℕ) (es : List ℕ) (m : Memory)
    → AreNodes (head ∷ e ∷ es)
    → Seg m head es head
    → Seg (linked_add_tail e head m) head (es ++ e ∷ []) head
unfolding linked_add_tail
linked_add_tail-Seg head e es m (hn, (eh, hc), (en, ec, t)) s = rw (Seg-prev m head es head s) (
    with_last-Seg e head head es m en hn (omega arith) (omega arith) ec hc (inl refl) (hn, hc, t) s)

pub linked_add_tail_outside :
    (head e : ℕ) (es : List ℕ) (m : Memory) (q : ℕ)
    → Seg m head es head
    → OffNodes (head ∷ e ∷ es) q
    → linked_add_tail e head m q ≡ m q
unfolding linked_add_tail
linked_add_tail_outside head e es m q s (oh, (oe, t)) =
    let p = last_from head es in
    let far : (q < p) ⊎ (p + 8 ≤ q) = OffNodes-last_from head q es (oh, t) in
    rw (Seg-prev m head es head s) (
      four_outside (head + 4) e e head (e + 4) p p e q m (omega arith) (omega arith) (omega arith)
        (omega arith))
