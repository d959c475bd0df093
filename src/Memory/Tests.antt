-- ===== src/Memory/Tests.antt =====
-- Regions that overlap, in a memory that holds at each address the address itself.
use yack.Common.{ℕ, ◌≡◌}
use yack.Memory.{Memory, memmove}
use yack.Memory.Copy.{copied, memmove-copied}

abbrev ascending : Memory
ascending q = q

memmove-copied_example :
    ((memmove 12 10 5 ascending).0 ≡ 12)
    × ((q : ℕ) → (memmove 12 10 5 ascending).1 q ≡ copied 12 10 5 ascending q)
memmove-copied_example = memmove-copied 12 10 5 ascending
