-- ===== src/Pages/Calls.antt =====
-- Any sequence of calls of the page allocator against a queue of pages.
use yack.Common.{ℕ, ◌≡◌, refl, List, [], ◌∷◌, ◌++◌}
use yack.Memory.{Memory}
use yack.Memory.Region.{Apart}
use yack.Machine.{Machine, done, Kernel, ◌>>=◌, ◌>>◌, pure}
use yack.Pages.{ListOps, kpalloc, kpfree}
use yack.Pages.Lists.{ListLaws}
use yack.Pages.Queue.{IsPage, NotIn, Free}
use yack.Pages.Alloc.{kpalloc-Free, kpfree-Free}

pub data Call : Type 0 where
  alloc : Call
  free : (page : ℕ) → Call

-- The pages that the calls return, and what they leave of the queue.
unfoldable pub given : List Call → (queue : List ℕ) → List ℕ
given [] queue = []
given (alloc ∷ calls) [] = []
given (alloc ∷ calls) (p ∷ queue) = p ∷ given calls queue
given (free page ∷ calls) queue = given calls (queue ++ page ∷ [])

unfoldable pub left : List Call → (queue : List ℕ) → List ℕ
left [] queue = queue
left (alloc ∷ calls) [] = []
left (alloc ∷ calls) (p ∷ queue) = left calls queue
left (free page ∷ calls) queue = left calls (queue ++ page ∷ [])

-- No call allocates from an empty queue, and what is freed are pages of ordinary memory that are
-- not free.
abbrev pub Legal : (registry : ℕ) → List Call → (queue : List ℕ) → Type 0
Legal registry [] queue = Unit {0}
Legal registry (alloc ∷ calls) [] = ⊥
Legal registry (alloc ∷ calls) (p ∷ queue) = Legal registry calls queue
Legal registry (free page ∷ calls) queue =
    IsPage page
    × Apart registry 8 page 4096
    × NotIn page queue
    × Legal registry calls (queue ++ page ∷ [])

module _ {lists : ListOps} (laws : ListLaws lists) (registry : ℕ) where
  unfoldable pub run : List Call → Kernel (List ℕ)
  run [] = pure []
  run (alloc ∷ calls) = kpalloc lists registry >>= λ p. run calls >>= λ rest. pure (p ∷ rest)
  run (free page ∷ calls) = kpfree lists registry page >> run calls

  -- With the laws of lists, any sequence of calls of `kpalloc` and `kpfree`, none allocating when
  -- no page is left, and each freed address that of a page that is not free, at a page boundary,
  -- not null, inside the address space, off the screen and off the registry of the allocator,
  -- returns the pages that a first-in first-out queue gives, and leaves the pages that the queue
  -- has left as the free ones, in its order.
  pub run-given :
      (calls : List Call) (queue : List ℕ) (m : Machine)
      → Legal registry calls queue
      → Free laws registry queue m.memory
      → (memory : Memory) × (run calls m ≡ done (given calls queue) (record m { memory = memory }))
        × Free laws registry (left calls queue) memory
  unfolding run given left
  run-given [] queue m l f = (m.memory, refl, f)
  run-given (alloc ∷ calls) [] m l f = absurd l
  run-given (alloc ∷ calls) (p ∷ queue) m l f =
      let one = kpalloc-Free laws registry p queue m f in
      let rest = run-given calls queue (record m { memory = one.0 }) l one.2 in
      (rest.0, rw one.1 (rw rest.1 refl), rest.2)
  run-given (free page ∷ calls) queue m (ip, rp, n, l) f =
      let one = kpfree-Free laws registry page queue m ip rp n f in
      let rest = run-given calls (queue ++ page ∷ []) (record m { memory = one.0 }) l one.2 in
      (rest.0, rw one.1 rest.1, rest.2)
