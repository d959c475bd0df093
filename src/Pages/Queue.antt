-- ===== src/Pages/Queue.antt =====
-- What the page allocator keeps: the pages of its list, as a queue.
use yack.Common.{ℕ, ◌+◌, ◌%◌, ◌^◌, ◌≤◌, ◌<◌, ◌≡◌, ◌≢◌, refl, ap, ◌∙◌, arith, List, [], ◌∷◌, ◌++◌}
use yack.Memory.{Memory, load32}
use yack.Memory.Region.{Outside, Apart, load32-Outside}
use yack.Screen.{buffer}
use yack.Screen.Writes.{OffScreen}
use yack.Pages.{ListOps, magic}
use yack.Pages.Lists.{IsNode, Clear, AreNodes, SameNodes, ListLaws}

-- Memory that the allocator may own: a page of 4096 bytes that is not the first one, inside the
-- address space, and no part of the screen.
abbrev pub IsPage : ℕ → Type 0
IsPage p = (p % 4096 ≡ 0) × (0 < p) × (p + 4096 ≤ 2 ^ 32) × Apart buffer 4000 p 4096

abbrev pub NotIn : ℕ → List ℕ → Type 0
NotIn p [] = Unit {0}
NotIn p (x ∷ xs) = (p ≢ x) × NotIn p xs

-- The pages are distinct, and none holds the registry.
abbrev pub ArePages : (registry : ℕ) → List ℕ → Type 0
ArePages registry [] = Unit {0}
ArePages registry (p ∷ ps) = IsPage p × Apart registry 8 p 4096 × NotIn p ps × ArePages registry ps

-- Where the links of the pages stand.
abbrev pub nodes : List ℕ → List ℕ
nodes [] = []
nodes (p ∷ ps) = (p + 4) ∷ nodes ps

abbrev pub Magics : Memory → List ℕ → Type 0
Magics m [] = Unit {0}
Magics m (p ∷ ps) = (load32 m p ≡ magic) × Magics m ps

-- The region shares no byte with the pages.
abbrev pub OffPages : (start size : ℕ) → List ℕ → Type 0
OffPages start size [] = Unit {0}
OffPages start size (p ∷ ps) = Apart start size p 4096 × OffPages start size ps

Clear-nodes :
    (registry p : ℕ) (ps : List ℕ)
    → IsPage p
    → NotIn p ps
    → ArePages registry ps
    → Clear (p + 4) (nodes ps)
Clear-nodes registry p [] ip n a = tt
Clear-nodes registry p (x ∷ xs) ip (ne, n) (ix, rx, nx, a) =
    (page_apart ip.0 ix.0 ne, Clear-nodes registry p xs ip n a)
  where
    page_apart : {a b : ℕ} → a % 4096 ≡ 0 → b % 4096 ≡ 0 → a ≢ b → Apart (a + 4) 8 (b + 4) 8
    page_apart x y ne = ground arith

Clear-registry : (registry : ℕ) (ps : List ℕ) → ArePages registry ps → Clear registry (nodes ps)
Clear-registry registry [] a = tt
Clear-registry registry (p ∷ ps) (ip, rp, n, a) = (omega arith, Clear-registry registry ps a)

AreNodes-nodes : (registry : ℕ) (ps : List ℕ) → ArePages registry ps → AreNodes (nodes ps)
AreNodes-nodes registry [] a = tt
AreNodes-nodes registry (p ∷ ps) (ip, rp, n, a) =
    ((omega arith, omega arith), Clear-nodes registry p ps ip n a, AreNodes-nodes registry ps a)

-- The head of the list and the links of the pages are nodes.
pub all-AreNodes :
    (registry : ℕ) (ps : List ℕ)
    → IsNode registry
    → ArePages registry ps
    → AreNodes (registry ∷ nodes ps)
all-AreNodes registry ps n a = (n, Clear-registry registry ps a, AreNodes-nodes registry ps a)

pub nodes-append : (ps : List ℕ) (p : ℕ) → nodes (ps ++ p ∷ []) ≡ nodes ps ++ (p + 4) ∷ []
nodes-append [] p = refl
nodes-append (x ∷ xs) p = ap (λ l. (x + 4) ∷ l) (nodes-append xs p)

-- The pages `ps`, in the order in which they are given out.
pub record Free {lists : ListOps} (laws : ListLaws lists) (registry : ℕ) (ps : List ℕ) (m : Memory)
    : Type 0 where
  pub head : IsNode registry
  pub head_off : Apart buffer 4000 registry 8
  pub pages : ArePages registry ps
  pub holds : laws.Holds registry (nodes ps) m
  pub magics : Magics m ps

SameNodes-Outside :
    (start size : ℕ) (ps : List ℕ) (m m' : Memory)
    → Outside start size m m'
    → OffPages start size ps
    → SameNodes m m' (nodes ps)
SameNodes-Outside start size [] m m' out off = tt
SameNodes-Outside start size (p ∷ ps) m m' out (o, off) = (
  load32-Outside start size (p + 4) out (omega arith),
  load32-Outside start size (p + 4 + 4) out (omega arith),
  SameNodes-Outside start size ps m m' out off,
)

Magics-Outside :
    (start size : ℕ) (ps : List ℕ) (m m' : Memory)
    → Outside start size m m'
    → OffPages start size ps
    → Magics m ps
    → Magics m' ps
Magics-Outside start size [] m m' out off g = tt
Magics-Outside start size (p ∷ ps) m m' out (o, off) (g, gs) = (
  load32-Outside start size p out (omega arith) ∙ g,
  Magics-Outside start size ps m m' out off gs,
)

-- The allocator does not notice a change of memory that is not its own.
pub Free-Outside :
    {lists : ListOps} {laws : ListLaws lists} (registry : ℕ) (ps : List ℕ) (start size : ℕ)
    (m m' : Memory)
    → Outside start size m m'
    → OffPages start size ps
    → Apart start size registry 8
    → Free laws registry ps m
    → Free laws registry ps m'
Free-Outside {laws} registry ps start size m m' out off r f = record {
  head = f.head;
  head_off = f.head_off;
  pages = f.pages;
  holds =
      laws.Holds-same registry (nodes ps) m m'
        (
          load32-Outside start size registry out (omega arith),
          load32-Outside start size (registry + 4) out (omega arith),
          SameNodes-Outside start size ps m m' out off,
        )
        f.holds;
  magics = Magics-Outside start size ps m m' out off f.magics;
}

pub OffPages-screen : (registry : ℕ) (ps : List ℕ) → ArePages registry ps → OffPages buffer 4000 ps
OffPages-screen registry [] a = tt
OffPages-screen registry (p ∷ ps) (ip, rp, n, a) = (ip.3, OffPages-screen registry ps a)

-- Output on the screen is such a change.
pub Free-Screen :
    {lists : ListOps} {laws : ListLaws lists} (registry : ℕ) (ps : List ℕ) (m m' : Memory)
    → ((q : ℕ) → OffScreen q → m' q ≡ m q)
    → Free laws registry ps m
    → Free laws registry ps m'
Free-Screen registry ps m m' out f =
    Free-Outside registry ps buffer 4000 m m' out (OffPages-screen registry ps f.pages) f.head_off f
