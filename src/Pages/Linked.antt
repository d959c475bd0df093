-- ===== src/Pages/Linked.antt =====
-- Doubly linked lists in memory: the functions of utils/include/list.h, written out, have the laws
-- that the page allocator relies on.
mod Del
mod Add
pub mod Laws
use yack.Common.{ℕ, ◌+◌, ◌-◌, ◌≤◌, ◌<◌, ◌≡◌, ◌⊎◌, ◌∙◌, List, [], ◌∷◌, ◌==◌, if◌then◌else◌}
use yack.Memory.{Memory, load32, store32}
use yack.Memory.Region.{Apart}
use yack.Pages.{ListOps}
use yack.Pages.Lists.{IsNode, Clear, AreNodes, SameNodes, OffNodes}

unfoldable pub linked_first : (head : ℕ) → Memory → ℕ
linked_first head m = if load32 m head == head then 0 else load32 m head

-- `next->prev = prev; prev->next = next; entry->next = NULL; entry->prev = NULL`
unfoldable pub linked_del : (entry : ℕ) → Memory → Memory
linked_del entry m =
    let next = load32 m entry in
    let prev = load32 m (entry + 4) in
    store32 (store32 (store32 (store32 m (next + 4) prev) prev next) entry 0) (entry + 4) 0

-- `next->prev = new; new->next = next; new->prev = prev; prev->next = new`
unfoldable pub linked_add_tail : (entry head : ℕ) → Memory → Memory
linked_add_tail entry head m =
    let prev = load32 m (head + 4) in
    store32 (store32 (store32 (store32 m (head + 4) entry) entry head) (entry + 4) prev) prev entry

abbrev pub linked : ListOps
linked = record { first = linked_first; del = linked_del; add_tail = linked_add_tail }

-- `b` follows `a`.
abbrev pub Links : Memory → (a b : ℕ) → Type 0
Links m a b = (load32 m a ≡ b) × (load32 m (b + 4) ≡ a)

-- From `a` the links lead through `es` to `b`, and back.
abbrev pub Seg : Memory → (a : ℕ) → List ℕ → (b : ℕ) → Type 0
Seg m a [] b = Links m a b
Seg m a (e ∷ es) b = Links m a e × Seg m e es b

-- A segment is kept if the words that it reads are: `next` of its start, `prev` of its end, and
-- both links of each node between.
pub Seg-same :
    (m m' : Memory) (a : ℕ) (es : List ℕ) (b : ℕ)
    → load32 m' a ≡ load32 m a
    → load32 m' (b + 4) ≡ load32 m (b + 4)
    → SameNodes m m' es
    → Seg m a es b
    → Seg m' a es b
Seg-same m m' a [] b na pb s (l, r) = (na ∙ l, pb ∙ r)
Seg-same m m' a (e ∷ es) b na pb s ((l, r), rest) =
    ((na ∙ l, s.1 ∙ r), Seg-same m m' e es b s.0 pb s.2 rest)

-- The last node of a list, or the node that it begins at.
abbrev pub last_from : ℕ → List ℕ → ℕ
last_from a [] = a
last_from a (e ∷ es) = last_from e es

-- The end of a segment has its last node as `prev`.
pub Seg-prev :
    (m : Memory) (a : ℕ) (es : List ℕ) (b : ℕ) → Seg m a es b → load32 m (b + 4) ≡ last_from a es
Seg-prev m a [] b (l, r) = r
Seg-prev m a (e ∷ es) b (l, rest) = Seg-prev m e es b rest

pub Clear-last_from : (x a : ℕ) (es : List ℕ) → Clear x (a ∷ es) → Apart x 8 (last_from a es) 8
Clear-last_from x a [] c = c.0
Clear-last_from x a (e ∷ es) c = Clear-last_from x e es c.1

last_from-IsNode : (a : ℕ) (es : List ℕ) → AreNodes (a ∷ es) → IsNode (last_from a es)
last_from-IsNode a [] n = n.0
last_from-IsNode a (e ∷ es) n = last_from-IsNode e es n.2

pub OffNodes-last_from :
    (a q : ℕ) (es : List ℕ) → OffNodes (a ∷ es) q → (q < last_from a es) ⊎ (last_from a es + 8 ≤ q)
OffNodes-last_from a q [] o = o.0
OffNodes-last_from a q (e ∷ es) o = OffNodes-last_from e q es o.1
