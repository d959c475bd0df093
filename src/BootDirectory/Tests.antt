-- ===== src/BootDirectory/Tests.antt =====
-- The directory of the loader at 0x80103000.
use yack.Common.{
  ℕ, ◌+◌, ◌*◌, ◌≡◌, ◌≢◌, ◌∙◌, refl, sym, arith, inl, inr, some, none, Bool-cases, ==_iff, ◌==◌,
}
use yack.Memory.{Memory, load32, load16, store32, store16, write}
use yack.Memory.Laws.{load32-store32_self, load32-store32_ne}
use yack.BootDirectory.{x86_page_directory}
use yack.BootDirectory.Walk.{HasDirectory, large_walk, entry_high, entry_none, large_walk-kvm_init}

abbrev boot : Memory
boot = store32 (store32 (λ _. 0) 0x80103000 131) 0x80103800 131

other_entry : (i : ℕ) → i ≢ 0 → i ≢ 512 → load32 boot (0x80103000 + 4 * i) ≡ 0
other_entry i z h =
    load32-store32_ne (store32 (λ _. 0) 0x80103000 131) 0x80103800 (0x80103000 + 4 * i) 131
      (ground arith)
    ∙ load32-store32_ne (λ _. 0) 0x80103000 (0x80103000 + 4 * i) 131 (ground arith)
    ∙ unfold load32 load16 in refl

boot-HasDirectory : HasDirectory boot 0x80103000
boot-HasDirectory i small = elim (Bool-cases (i == 0)) [
  | inl e ↦
      let e' : i ≡ 0 = (==_iff i 0).0 e in
      rw e' (unfold x86_page_directory load32 load16 store32 store16 write in refl)
  | inr n ↦ elim (Bool-cases (i == 512)) [
    | inl e ↦
        let e' : i ≡ 512 = (==_iff i 512).0 e in
        rw e' (
          load32-store32_self (store32 (λ _. 0) 0x80103000 131) 0x80103800 131 (omega arith)
          ∙ sym entry_high)
    | inr k ↦
        other_entry i (ground (arith, n)) (ground (arith, k))
        ∙ sym (entry_none i (ground (arith, n)) (ground (arith, k)))
  ]
]

large_walk-kvm_init_example :
    (large_walk boot 0x80103000 0x100000 ≡ some 0x100000)
    × (large_walk (store32 boot 0x80103000 0) 0x80103000 0x100000 ≡ none)
large_walk-kvm_init_example =
    large_walk-kvm_init boot 0x80103000 0x100000 (omega arith) boot-HasDirectory
