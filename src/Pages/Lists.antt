-- ===== src/Pages/Lists.antt =====
-- What the page allocator relies on of utils/include/list.h: a list of nodes of 8 bytes that are
-- linked in memory, `next` and behind it `prev`, with a node for its head.
use yack.Common.{ℕ, ◌+◌, ◌^◌, ◌≤◌, ◌<◌, ◌≡◌, ◌⊎◌, List, [], ◌∷◌, ◌++◌}
use yack.Memory.{Memory, load32}
use yack.Memory.Region.{Apart}
use yack.Pages.{ListOps}

-- A node is at an address that is not null, inside the address space.
abbrev pub IsNode : ℕ → Type 0
IsNode e = (0 < e) × (e + 8 ≤ 2 ^ 32)

-- The node `e` shares no byte with those of the list.
abbrev pub Clear : ℕ → List ℕ → Type 0
Clear e [] = Unit {0}
Clear e (f ∷ fs) = Apart e 8 f 8 × Clear e fs

abbrev pub AreNodes : List ℕ → Type 0
AreNodes [] = Unit {0}
AreNodes (e ∷ es) = IsNode e × Clear e es × AreNodes es

-- The links of the nodes are the same in both memories.
abbrev pub SameNodes : Memory → Memory → List ℕ → Type 0
SameNodes m m' [] = Unit {0}
SameNodes m m' (e ∷ es) =
    (load32 m' e ≡ load32 m e) × (load32 m' (e + 4) ≡ load32 m (e + 4)) × SameNodes m m' es

-- `q` is no byte of the nodes.
abbrev pub OffNodes : List ℕ → ℕ → Type 0
OffNodes [] q = Unit {0}
OffNodes (e ∷ es) q = ((q < e) ⊎ (e + 8 ≤ q)) × OffNodes es q

-- The functions as the comments of list.h describe them: `Holds head es m` says that `m` has the
-- list of the entries `es` at `head`.
pub record ListLaws (lists : ListOps) : Type 1 where
  pub Holds : (head : ℕ) → List ℕ → Memory → Type 0
  pub Holds-same :
      (head : ℕ) (es : List ℕ) (m m' : Memory)
      → SameNodes m m' (head ∷ es)
      → Holds head es m
      → Holds head es m'
  pub first-nil : (head : ℕ) (m : Memory) → Holds head [] m → lists.first head m ≡ 0
  pub first-cons :
      (head e : ℕ) (es : List ℕ) (m : Memory)
      → AreNodes (head ∷ e ∷ es)
      → Holds head (e ∷ es) m
      → lists.first head m ≡ e
  pub del-Holds :
      (head e : ℕ) (es : List ℕ) (m : Memory)
      → AreNodes (head ∷ e ∷ es)
      → Holds head (e ∷ es) m
      → Holds head es (lists.del e m)
  pub del_outside :
      (head e : ℕ) (es : List ℕ) (m : Memory) (q : ℕ)
      → AreNodes (head ∷ e ∷ es)
      → Holds head (e ∷ es) m
      → OffNodes (head ∷ e ∷ es) q
      → lists.del e m q ≡ m q
  pub add_tail-Holds :
      (head e : ℕ) (es : List ℕ) (m : Memory)
      → AreNodes (head ∷ e ∷ es)
      → Holds head es m
      → Holds head (es ++ e ∷ []) (lists.add_tail e head m)
  pub add_tail_outside :
      (head e : ℕ) (es : List ℕ) (m : Memory) (q : ℕ)
      → AreNodes (head ∷ e ∷ es)
      → Holds head es m
      → OffNodes (head ∷ e ∷ es) q
      → lists.add_tail e head m q ≡ m q
