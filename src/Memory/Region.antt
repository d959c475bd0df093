-- ===== src/Memory/Region.antt =====
-- Reads that a change elsewhere does not reach.
use yack.Common.{ℕ, ◌+◌, ◌≤◌, ◌<◌, ◌≡◌, ◌⊎◌, inl, inr, arith}
use yack.Memory.{Memory, load32, load16}

-- `m'` is `m` but for the bytes of a region.
abbrev pub Outside : (start size : ℕ) → Memory → Memory → Type 0
Outside start size m m' = (q : ℕ) → (q < start) ⊎ (start + size ≤ q) → m' q ≡ m q

-- The regions of `size` bytes at `start` and of `room` bytes at `a` have no byte in common.
abbrev pub Apart : (start size a room : ℕ) → Type 0
Apart start size a room = (start + size ≤ a) ⊎ (a + room ≤ start)

-- A word depends on its four bytes.
pub load32-same :
    (a : ℕ) (m m' : Memory) → ((q : ℕ) → a ≤ q → q < a + 4 → m' q ≡ m q) → load32 m' a ≡ load32 m a
unfolding load32 load16
load32-same a m m' same = rw (
  same a (omega arith) (omega arith),
  same (a + 1) (omega arith) (omega arith),
  same (a + 2) (omega arith) (omega arith),
  same (a + 2 + 1) (omega arith) (omega arith),
)

pub load32-Outside :
    (start size a : ℕ) {m m' : Memory}
    → Outside start size m m'
    → Apart start size a 4
    → load32 m' a ≡ load32 m a
load32-Outside start size a {m} {m'} out (inl h) =
    load32-same a m m' (λ q l u. out q (inr omega arith))
load32-Outside start size a {m} {m'} out (inr h) =
    load32-same a m m' (λ q l u. out q (inl omega arith))
