-- ===== src/Memory.antt =====
-- kernel/memop.c over a byte-addressed memory. No object reaches past the last address, so a
-- pointer that steps through one does not wrap.
pub mod Laws
pub mod Region
pub mod Four
pub mod Copy
mod Tests
use yack.Common.{
  ℕ, zero, suc, ◌+◌, ◌-◌, ◌*◌, ◌/◌, ◌%◌, ◌^◌, Bool, u8, ◌==◌, ltb, leb, ◌&&◌, if◌then◌else◌,
}

abbrev pub Memory : Type 0
Memory = ℕ → ℕ

unfoldable pub write : Memory → ℕ → ℕ → Memory
write m p v q = if q == p then v else m q

unfoldable pub store16 : Memory → ℕ → ℕ → Memory
unfolding write
store16 m a v = write (write m a (v % 256)) (a + 1) (v / 256 % 256)

unfoldable pub load16 : Memory → ℕ → ℕ
load16 m a = m a + 256 * m (a + 1)

unfoldable pub store32 : Memory → ℕ → ℕ → Memory
unfolding store16
store32 m a v = store16 (store16 m a (v % 65536)) (a + 2) (v / 65536 % 65536)

unfoldable pub load32 : Memory → ℕ → ℕ
unfolding load16
load32 m a = load16 m a + 65536 * load16 m (a + 2)

-- The loops of the three functions; the count is `size`.
unfoldable pub memset_loop : ℕ → (ptr val : ℕ) → Memory → Memory
unfolding write
memset_loop zero ptr val m = m
memset_loop (suc size) ptr val m = memset_loop size (ptr + 1) val (write m ptr val)

memcpy_loop : ℕ → (dst src : ℕ) → Memory → Memory
unfolding write
memcpy_loop zero dst src m = m
memcpy_loop (suc size) dst src m = memcpy_loop size (dst + 1) (src + 1) (write m dst (m src))

memmove_loop : ℕ → (dst src : ℕ) → Memory → Memory
unfolding write
memmove_loop zero dst src m = m
memmove_loop (suc size) dst src m =
    memmove_loop size (dst - 1) (src - 1) (write m (dst - 1) (m (src - 1)))

-- Each function returns its first argument; here, beside the new memory.
unfoldable pub memset : (ptr val size : ℕ) → Memory → ℕ × Memory
unfolding memset_loop
memset ptr val size m = (ptr, memset_loop size ptr (u8 val) m)

unfoldable pub memcpy : (dst src size : ℕ) → Memory → ℕ × Memory
unfolding memcpy_loop
memcpy dst src size m = (dst, memcpy_loop size dst src m)

unfoldable pub memmove : (dst src size : ℕ) → Memory → ℕ × Memory
unfolding memcpy memmove_loop
memmove dst src size m =
    if ltb dst src
    then memcpy dst src size m
    else (dst, memmove_loop size (dst + size) (src + size) m)
