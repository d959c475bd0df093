-- ===== src/Pages/Linked/Laws.antt =====
-- The functions on doubly linked lists have the laws of lists.
use yack.Common.{ℕ, ◌≡◌, arith, List, [], ◌∷◌}
use yack.Memory.{Memory}
use yack.Pages.Lists.{AreNodes, SameNodes, ListLaws}
use yack.Pages.Linked.{linked, linked_first, linked_del, Seg, Seg-same}
use yack.Pages.Linked.Del.{without-Seg, linked_del-without, without_outside}
use yack.Pages.Linked.Add.{linked_add_tail-Seg, linked_add_tail_outside}

Seg-same_head :
    (head : ℕ) (es : List ℕ) (m m' : Memory)
    → SameNodes m m' (head ∷ es)
    → Seg m head es head
    → Seg m' head es head
Seg-same_head head es m m' (n, p, s) g = Seg-same m m' head es head n p s g

linked_first-nil : (head : ℕ) (m : Memory) → Seg m head [] head → linked_first head m ≡ 0
unfolding linked_first
linked_first-nil head m (l, r) = ground arith

linked_first-cons :
    (head e : ℕ) (es : List ℕ) (m : Memory)
    → AreNodes (head ∷ e ∷ es)
    → Seg m head (e ∷ es) head
    → linked_first head m ≡ e
unfolding linked_first
linked_first-cons head e es m (hn, (he, hc), t) ((l, r), rest) = ground arith

linked_del-Seg :
    (head e : ℕ) (es : List ℕ) (m : Memory)
    → AreNodes (head ∷ e ∷ es)
    → Seg m head (e ∷ es) head
    → Seg (linked_del e m) head es head
linked_del-Seg head e es m n s =
    let w = without-Seg head e es m n s in rw (linked_del-without head e w.0 m w.1 w.2) w.3

pub linked-laws : ListLaws linked
linked-laws = record {
  Holds = λ head es m. Seg m head es head;
  Holds-same = Seg-same_head;
  first-nil = linked_first-nil;
  first-cons = linked_first-cons;
  del-Holds = linked_del-Seg;
  del_outside = λ head e es m q n s o. without_outside head e es m q s o;
  add_tail-Holds = linked_add_tail-Seg;
  add_tail_outside = λ head e es m q n s o. linked_add_tail_outside head e es m q s o;
}

pub Seg-Holds :
    (head : ℕ) (es : List ℕ) (m : Memory) → Seg m head es head → linked-laws.Holds head es m
unfolding linked-laws
Seg-Holds head es m s = s
