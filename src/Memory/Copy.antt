-- ===== src/Memory/Copy.antt =====
-- What `memset`, `memcpy` and `memmove` leave at every address.
use yack.Common.{
  ℕ, zero, suc, ◌+◌, ◌-◌, ◌%◌, ◌≤◌, ◌≡◌, ◌⊎◌, inl, inr, refl, ◌∙◌, ◌==◌, if◌then◌else◌, Bool, ◌&&◌,
  leb, ltb, if◌then◌else◌, arith, ap, u8, Bool-cases, ltb→lt, ltb→le,
}
use yack.Memory.{Memory, write, memset_loop, memcpy_loop, memmove_loop, memset, memcpy, memmove}

abbrev pub within : (start size q : ℕ) → Bool
within start size q = leb start q && ltb q (start + size)

-- The memory after `size` bytes from `src` on have been put at `dst`, all read beforehand.
abbrev pub copied : (dst src size : ℕ) → Memory → Memory
copied dst src size m q = if within dst size q then m (src + (q - dst)) else m q

memset_loop_lem :
    (size ptr val : ℕ) (m : Memory) (q : ℕ)
    → memset_loop size ptr val m q ≡ (if within ptr size q then val else m q)
unfolding memset_loop
memset_loop_lem zero ptr val m q = ground arith
memset_loop_lem (suc size) ptr val m q =
    ground (arith, memset_loop_lem size (ptr + 1) val (write m ptr val) q)

inside :
    (src q dst : ℕ) → src + 1 + (q - (dst + 1)) ≡ (if leb q dst then src + 1 else src + (q - dst))
inside src q dst = ground arith

last :
    (q dst size : ℕ)
    → (if q == dst + size then q - dst else 0) ≡ (if q == dst + size then size else 0)
last q dst size = ground arith

-- Forward, a byte is read after the writes below it, which reach no source byte still to come.
memcpy_loop-copied :
    (size dst src : ℕ) (m : Memory) (q : ℕ)
    → (dst ≤ src) ⊎ (src + size ≤ dst)
    → memcpy_loop size dst src m q ≡ copied dst src size m q
unfolding memcpy_loop
memcpy_loop-copied zero dst src m q apart = ground arith
memcpy_loop-copied (suc size) dst src m q apart = ground (
  arith,
  memcpy_loop-copied size (dst + 1) (src + 1) (write m dst (m src)) q,
  ap m (inside src q dst),
)

memmove_loop-suc :
    (size dst src : ℕ) (m : Memory)
    → memmove_loop (suc size) (dst + suc size) (src + suc size) m
      ≡ memmove_loop size (dst + size) (src + size) (write m (dst + size) (m (src + size)))
unfolding memmove_loop
memmove_loop-suc size dst src m =
    let e : dst + suc size - 1 ≡ dst + size = omega arith in
    let f : src + suc size - 1 ≡ src + size = omega arith in rw (e, f)

-- The last byte put first, then the bytes before it.
copied-suc :
    (size dst src : ℕ) (m : Memory) (q : ℕ)
    → src ≤ dst
    → copied dst src size (write m (dst + size) (m (src + size))) q ≡ copied dst src (suc size) m q
unfolding write
copied-suc size dst src m q below = ground (arith, ap (λ k. m (src + k)) (last q dst size))

memmove_loop-copied :
    (size dst src : ℕ) (m : Memory) (q : ℕ)
    → src ≤ dst
    → memmove_loop size (dst + size) (src + size) m q ≡ copied dst src size m q
memmove_loop-copied zero dst src m q below = unfold memmove_loop in ground arith
memmove_loop-copied (suc size) dst src m q below = rw (memmove_loop-suc size dst src m) (
    memmove_loop-copied size dst src (write m (dst + size) (m (src + size))) q below
    ∙ copied-suc size dst src m q below)

-- `memset` puts the byte `val` at each of the `size` addresses from `ptr` on, leaves every other
-- address alone and returns `ptr`.
pub memset_lem :
    (ptr val size : ℕ) (m : Memory)
    → ((memset ptr val size m).0 ≡ ptr)
      × ((q : ℕ) → (memset ptr val size m).1 q ≡ (if within ptr size q then val % 256 else m q))
unfolding memset
memset_lem ptr val size m = (refl, memset_loop_lem size ptr (u8 val) m)

-- `memcpy` copies the `size` bytes at `src` to `dst`, changes nothing else and returns `dst`, if
-- the destination starts no later than the source or behind its end.
memcpy-copied :
    (dst src size : ℕ) (m : Memory)
    → (dst ≤ src) ⊎ (src + size ≤ dst)
    → ((memcpy dst src size m).0 ≡ dst)
      × ((q : ℕ) → (memcpy dst src size m).1 q ≡ copied dst src size m q)
unfolding memcpy
memcpy-copied dst src size m apart = (refl, λ q. memcpy_loop-copied size dst src m q apart)

-- `memmove` copies the `size` bytes that stood at `src` to `dst`, however the regions overlap,
-- changes nothing else and returns `dst`.
pub memmove-copied :
    (dst src size : ℕ) (m : Memory)
    → ((memmove dst src size m).0 ≡ dst)
      × ((q : ℕ) → (memmove dst src size m).1 q ≡ copied dst src size m q)
unfolding memmove
memmove-copied dst src size m = elim (Bool-cases (ltb dst src)) [
  | inl lt ↦ rw lt (memcpy-copied dst src size m (inl omega (arith, ltb→lt dst src lt)))
  | inr ge ↦ rw ge (refl, λ q. memmove_loop-copied size dst src m q (ltb→le dst src ge))
]
