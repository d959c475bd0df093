-- ===== src/Paging/Exhausted.antt =====
-- `vm_map_page_` when there is no page for the table that it needs.
use yack.Common.{ℕ, ◌≡◌}
use yack.Machine.{Machine, Outcome, hung}
use yack.Machine.Kept.{Kept}
use yack.Screen.Writes.{OffScreen}
use yack.Pages.{ListOps}

-- After a log message, up to `l`, the links at address 4 are taken out of a list, and what follows
-- is an endless loop, entered at `n`.
abbrev pub Exhausted : {A : Type 0} → ListOps → Machine → Outcome A → Type 0
Exhausted lists m o =
    (l n : Machine) × (o ≡ hung n)
    × Kept m l
    × ((q : ℕ) → OffScreen q → l.memory q ≡ m.memory q)
    × Kept (record l { memory = lists.del 4 l.memory }) n
