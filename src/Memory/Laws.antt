-- ===== src/Memory/Laws.antt =====
-- Reads after writes of 16 and 32 bits.
use yack.Common.{ℕ, ◌+◌, ◌%◌, ◌^◌, ◌≤◌, ◌<◌, ◌≡◌, ◌⊎◌, arith}
use yack.Memory.{Memory, store16, load16, store32, load32}

abbrev pub IsBytes : Memory → Type 0
IsBytes m = (q : ℕ) → m q < 256

pub load16-store16_self : (m : Memory) (a v : ℕ) → load16 (store16 m a v) a ≡ v % 2 ^ 16
unfolding load16 store16
load16-store16_self m a v = ground arith

pub load16-store16_ne :
    (m : Memory) (a b v : ℕ) → (a + 2 ≤ b) ⊎ (b + 2 ≤ a) → load16 (store16 m a v) b ≡ load16 m b
unfolding load16 store16
load16-store16_ne m a b v h = ground arith

pub store16_outside : (m : Memory) (a v q : ℕ) → (q < a) ⊎ (a + 2 ≤ q) → store16 m a v q ≡ m q
unfolding store16
store16_outside m a v q h = ground arith

pub load32-store32_self : (m : Memory) (a v : ℕ) → v < 2 ^ 32 → load32 (store32 m a v) a ≡ v
unfolding load32 store32
load32-store32_self m a v h = ground arith

pub store32_outside : (m : Memory) (a v q : ℕ) → (q < a) ⊎ (a + 4 ≤ q) → store32 m a v q ≡ m q
unfolding store32
store32_outside m a v q h = ground arith

pub load32-store32_ne :
    (m : Memory) (a b v : ℕ) → (a + 4 ≤ b) ⊎ (b + 4 ≤ a) → load32 (store32 m a v) b ≡ load32 m b
unfolding load32
load32-store32_ne m a b v h = ground (
  arith,
  store32_outside m a v b,
  store32_outside m a v (b + 1),
  store32_outside m a v (b + 2),
  store32_outside m a v (b + 2 + 1),
)
