-- ===== src/BootDirectory/Walk.antt =====
-- Where the processor finds an address by the directory of the loader, before and after `kvm_init`
-- has cleared its first entry.
use yack.Common.{
  ℕ, ◌+◌, ◌-◌, ◌*◌, ◌≢◌, ◌/◌, ◌%◌, ◌^◌, ◌<◌, ◌≡◌, refl, ap, ◌∙◌, inl, inr, arith, bit_and,
  Bool-cases, ==_iff, Option, some, none, ltb, leb, ◌==◌, ◌&&◌, if◌then◌else◌,
}
use yack.Memory.{Memory, load32, store32}
use yack.Memory.Laws.{load32-store32_self, load32-store32_ne}
use yack.Layout.{pd_index}
use yack.BootDirectory.{pde_present, pde_ps, x86_page_directory}

-- The directory stands in memory.
abbrev pub HasDirectory : Memory → (directory : ℕ) → Type 0
HasDirectory m directory = (i : ℕ) → i < 1024 → load32 m (directory + 4 * i) ≡ x86_page_directory i

-- The processor's walk with pages of 4 MB: an entry that is present and has the size bit leads to
-- its frame.
unfoldable pub large_frame : (entry offset : ℕ) → Option ℕ
large_frame entry offset =
    if bit_and entry pde_present == 0
    then none
    else if bit_and entry pde_ps == 0
    then none
    else some (entry / 4194304 * 4194304 + offset)

abbrev pub large_walk : Memory → (directory va : ℕ) → Option ℕ
large_walk m directory va = large_frame (load32 m (directory + 4 * (va / 4194304))) (va % 4194304)

-- Whether the first 4 MB of memory and the kernel's copy of them hold an address.
abbrev pub low : ℕ → Option ℕ → Option ℕ
low va rest = if ltb va 4194304 then some va else rest

abbrev pub high : ℕ → Option ℕ
high va = if leb 0x80000000 va && ltb va 0x80400000 then some (va - 0x80000000) else none

entry_low : x86_page_directory 0 ≡ 131
unfolding x86_page_directory
entry_low = refl

pub entry_high : x86_page_directory 512 ≡ 131
unfolding x86_page_directory pd_index
entry_high = refl

pub entry_none : (i : ℕ) → i ≢ 0 → i ≢ 512 → x86_page_directory i ≡ 0
unfolding x86_page_directory pd_index
entry_none i z h = ground arith

frame_low : (offset : ℕ) → large_frame 131 offset ≡ some offset
unfolding large_frame
frame_low offset = ap some (omega arith)

frame_none : (offset : ℕ) → large_frame 0 offset ≡ none
unfolding large_frame
frame_none offset = refl

-- An address that is not in the first 4 MB.
high_entry :
    (va : ℕ)
    → va / 4194304 ≢ 0
    → large_frame (x86_page_directory (va / 4194304)) (va % 4194304) ≡ high va
high_entry va ne = elim (Bool-cases (va / 4194304 == 512)) [
  | inl e ↦
      let e' : va / 4194304 ≡ 512 = (==_iff (va / 4194304) 512).0 e in
      rw e' (rw entry_high (frame_low (va % 4194304) ∙ ground arith))
  | inr n ↦
      rw (entry_none (va / 4194304) ne (ground (arith, n)))
        (frame_none (va % 4194304) ∙ ground (arith, n))
]

boot_entry :
    (va : ℕ) → large_frame (x86_page_directory (va / 4194304)) (va % 4194304) ≡ low va (high va)
boot_entry va = elim (Bool-cases (va / 4194304 == 0)) [
  | inl e ↦
      let e' : va / 4194304 ≡ 0 = (==_iff (va / 4194304) 0).0 e in
      rw e' (rw entry_low (frame_low (va % 4194304) ∙ ground arith))
  | inr n ↦ high_entry va (ground (arith, n)) ∙ ground (arith, n)
]

cleared_entry :
    (m : Memory) (directory va : ℕ)
    → va < 2 ^ 32
    → HasDirectory m directory
    → large_walk (store32 m directory 0) directory va ≡ high va
cleared_entry m directory va small h = elim (Bool-cases (va / 4194304 == 0)) [
  | inl e ↦
      let at : directory + 4 * (va / 4194304) ≡ directory = ground (arith, e) in
      rw at (
        rw (load32-store32_self m directory 0 (omega arith))
          (frame_none (va % 4194304) ∙ ground (arith, e)))
  | inr n ↦
      rw
        (load32-store32_ne m directory (directory + 4 * (va / 4194304)) 0 (inl (ground (arith, n))))
        (rw (h (va / 4194304) (omega arith)) (high_entry va (ground (arith, n))))
]

-- With the directory of the loader in memory the processor finds each address of 32 bits in the
-- first 4 MB at itself, each in the 4 MB from 0x80000000 on at the same distance from 0, and no
-- other; with its first entry cleared, as `kvm_init` clears it, it finds those from 0x80000000 on
-- as before and no other.
pub large_walk-kvm_init :
    (m : Memory) (directory va : ℕ)
    → va < 2 ^ 32
    → HasDirectory m directory
    → (large_walk m directory va ≡ low va (high va))
      × (large_walk (store32 m directory 0) directory va ≡ high va)
large_walk-kvm_init m directory va small h =
    (rw (h (va / 4194304) (omega arith)) (boot_entry va), cleared_entry m directory va small h)
