-- ===== src/Paging/Flags.antt =====
-- The entry of a directory for a new table, and what the processor reads from it.
use yack.Common.{
  ℕ, ◌+◌, ◌*◌, ◌/◌, ◌%◌, ◌^◌, ◌≤◌, ◌<◌, ◌≡◌, refl, ap, ◌∙◌, arith, false, ◌==◌, bit_and, bit_or,
}
use yack.Common.Bits.{and_low, or_low, or_fields, or-zero, or_congr}
use yack.Layout.{phys_addr, pte_addr}
use yack.Layout.Laws.{page_mask_lem, phys_addr-virt_addr}
use yack.Pages.Queue.{IsPage}
use yack.Paging.{present, table_of}

-- The entry of the directory for the table at `p`: present, writable, and open to users.
abbrev pub dir_flags : ℕ → ℕ
dir_flags p = bit_or (bit_or (bit_or (phys_addr p) 1) 2) 4

flags_sum : (q : ℕ) → bit_or (bit_or (bit_or (q * 4096) 1) 2) 4 ≡ q * 4096 + 7
flags_sum q = omega (
  arith,
  or_congr (bit_or (bit_or (q * 4096) 1) 2) (q * 2 ^ 12 + 3) 4 (0 * 2 ^ 12 + 4)
      (or_congr (bit_or (q * 4096) 1) (q * 2 ^ 12 + 1) 2 (0 * 2 ^ 12 + 2)
          (or_low 12 q 1 (omega arith)) (omega arith)
        ∙ or_fields 12 q 1 0 2 (omega arith) (omega arith)
        ∙ ap (λ (t : ℕ). t * 4096 + 3) (or-zero q))
      (omega arith),
  or_fields 12 q 3 0 4 (omega arith) (omega arith),
  or-zero q,
)

-- A page and its physical address are aligned alike.
phys_addr-aligned :
    (p : ℕ) → p % 4096 ≡ 0 → (phys_addr p % 4096 ≡ 0) × (phys_addr p + 4096 ≤ 2 ^ 32)
unfolding phys_addr
phys_addr-aligned p h = omega arith

dir_flags_sum : (p : ℕ) → p % 4096 ≡ 0 → dir_flags p ≡ phys_addr p + 7
dir_flags_sum p h =
    let a = phys_addr-aligned p h in
    let e : phys_addr p ≡ phys_addr p / 4096 * 4096 = omega (arith, a.0) in
    or_congr (bit_or (bit_or (phys_addr p) 1) 2) (bit_or (bit_or (phys_addr p / 4096 * 4096) 1) 2) 4
      4 (ap (λ (t : ℕ). bit_or (bit_or t 1) 2) e) refl
    ∙ flags_sum (phys_addr p / 4096)
    ∙ omega (arith, e)

pub dir_flags-table :
    (p : ℕ)
    → IsPage p
    → (dir_flags p < 2 ^ 32)
      × (table_of (dir_flags p) ≡ p)
      × ((bit_and (dir_flags p) present == 0) ≡ false)
unfolding pte_addr
dir_flags-table p ip =
    let a = phys_addr-aligned p ip.0 in
    let e : (phys_addr p + 7) / 4096 * 4096 ≡ phys_addr p = omega (arith, a.0) in
    let odd : (phys_addr p + 7) % 2 ≡ 1 = omega (arith, a.0) in
    rw (dir_flags_sum p ip.0) (
      omega (arith, a.1),
      rw (page_mask_lem (phys_addr p + 7) (omega (arith, a.1)), e)
          (phys_addr-virt_addr p (omega (arith, ip.2))).1,
      rw (and_low 1 (phys_addr p + 7), odd) refl,
    )
