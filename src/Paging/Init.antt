-- ===== src/Paging/Init.antt =====
-- `kvm_init`: the memory behind the kernel becomes the free pages, and a directory is made of them.
use yack.Common.{
  ℕ, zero, suc, ◌+◌, ◌-◌, ◌*◌, ◌/◌, ◌%◌, ◌≤◌, ◌<◌, ◌≡◌, refl, ap, subst, arith, true, List, [], ◌∷◌,
  length,
}
use yack.Layout.{page_up, virt_addr, kernel_link}
use yack.Layout.Laws.{page_up_lem}
use yack.Memory.{store32}
use yack.Memory.Laws.{store32_outside}
use yack.Memory.Region.{Apart, load32-same}
use yack.Machine.{Machine}
use yack.Machine.Kept.{Kept, Kept-trans}
use yack.Machine.Returns.{Returns, returns, bind, mono}
use yack.Screen.{buffer}
use yack.Io.Logged.{IsReady}
use yack.Io.Stores.{stored-IsReady, stored-Kept}
use yack.Pages.{ListOps}
use yack.Pages.Lists.{ListLaws}
use yack.Pages.Queue.{Free, Free-Outside}
use yack.Pages.Range.{pages_from, IsRange, Freed, kpfree_range-Freed}
use yack.Paging.{kvm_create, kvm_init}
use yack.Paging.Tables.{absent}
use yack.Paging.Create.{Created, kvm_create-Created}

length-pages_from : (rounds curr : ℕ) → length (pages_from rounds curr) ≡ rounds
length-pages_from zero curr = refl
length-pages_from (suc rounds) curr = ap suc (length-pages_from rounds (curr + 4096))

-- The end of the memory that the boot loader has mapped.
mapped_end : virt_addr 0x400000 ≡ 0x80400000
unfolding virt_addr
mapped_end = refl

mapped_end_up : page_up 0x80400000 ≡ 0x80400000
unfolding page_up
mapped_end_up = refl

-- The pages from `end` to there.
abbrev pub rounds_from : (end : ℕ) → ℕ
rounds_from end = (page_up 0x80400000 - page_up end) / 4096

pub up_bounds :
    (end : ℕ)
    → end ≤ 0x80400000
    → (end ≤ page_up end) × (page_up end ≤ end + 4095) × (page_up end % 4096 ≡ 0)
up_bounds end h =
    let e : page_up end ≡ (end + 4095) / 4096 * 4096 =
      ground (arith, page_up_lem end (omega arith)) in
    (omega (arith, e), omega (arith, e), omega (arith, e))

-- Behind the end of the kernel is neither the screen nor the registry.
freed-IsRange :
    (registry end : ℕ)
    → kernel_link ≤ end
    → end ≤ 0x80400000
    → registry + 8 ≤ end
    → IsRange registry [] (rounds_from end) (page_up end)
freed-IsRange registry end low top ru =
    let b = up_bounds end top in
    record {
      aligned = b.2;
      positive = omega (arith, b);
      inside = omega (arith, b, mapped_end_up);
      off_screen = omega (arith, b);
      off_registry = omega (arith, b);
      off_pages = tt;
    }

module _ {lists : ListOps} (laws : ListLaws lists) (registry : ℕ) where
  -- The directory is made of the pages that were freed.
  kvm_create-Freed :
      (data_start end : ℕ) (m n : Machine)
      → data_start % 4096 ≡ 0
      → kernel_link ≤ data_start
      → data_start ≤ end
      → end + 4 * 4096 ≤ 0x80400000
      → buffer + 4000 ≤ registry
      → registry + 8 ≤ end
      → ((i : ℕ) → 512 ≤ i → i < 1024 → absent m.memory (page_up end) i ≡ true)
      → Freed laws registry [] (pages_from (rounds_from end) (page_up end)) m n
      → Returns
          (λ p o.
            (p ≡ page_up end)
            × IsReady o
            × Kept m o
            × (ps : List ℕ) × Created laws registry data_start end (page_up end) ps o)
          (kvm_create lists registry data_start end n)
  kvm_create-Freed data_start end m n ad low le top rl ru new h =
      let b = up_bounds end (omega arith) in
      let first = page_up end in
      let k = rounds_from end - 1 in
      let some_pages : rounds_from end ≡ suc k = omega (arith, b, mapped_end_up) in
      let free : Free laws registry (first ∷ pages_from k (first + 4096)) n.memory =
        subst (λ x. Free laws registry (pages_from x first) n.memory) some_pages h.free in
      let l =
        kvm_create-Created laws registry data_start end first (pages_from k (first + 4096)) n ad low
          le (omega arith) (omega (arith, length-pages_from k (first + 4096), b, mapped_end_up))
          (λ i lo hi.
            rw
              (load32-same (first + 4 * i) m.memory n.memory
                (λ q lq uq. h.inner q (omega (arith, b)) (omega (arith, b)) (omega (arith, b))))
              (new i lo hi))
          free h.ready in
      rw l.2 (returns (refl, l.3, Kept-trans h.kept l.4, l.0, l.5))

module _ {lists : ListOps} (laws : ListLaws lists) (registry boot_directory : ℕ) where
  -- On a machine that is ready for output, with the laws of lists, no free page yet, the kernel
  -- linked from 0x80100000 on, its data at a page boundary, its registry and the loader's
  -- directory inside the kernel behind the screen and apart, at least four pages between its end
  -- and 0x80400000, and no entry present in the upper half of the first page behind it:
  -- `kvm_init` returns that page as the directory. Its tables are in order, it maps each page
  -- from 0x80000000 to 0x80100000 and of the data writable and each page of the text read-only to
  -- the same address less 0x80000000, and it maps nothing behind the last page of the kernel; the
  -- machine is ready for more output, and the other components' state is as before.
  pub kvm_init-Created :
      (data_start end : ℕ) (m : Machine)
      → data_start % 4096 ≡ 0
      → kernel_link ≤ data_start
      → data_start ≤ end
      → end + 4 * 4096 ≤ 0x80400000
      → buffer + 4000 ≤ registry
      → registry + 8 ≤ end
      → buffer + 4000 ≤ boot_directory
      → boot_directory + 4 ≤ end
      → Apart boot_directory 4 registry 8
      → ((i : ℕ) → 512 ≤ i → i < 1024 → absent m.memory (page_up end) i ≡ true)
      → Free laws registry [] m.memory
      → IsReady m
      → Returns
          (λ p n.
            (p ≡ page_up end)
            × IsReady n
            × Kept m n
            × (ps : List ℕ) × Created laws registry data_start end (page_up end) ps n)
          (kvm_init lists registry boot_directory data_start end m)
  unfolding kvm_init
  kvm_init-Created data_start end m ad low le top rl ru bl bu apart new f r =
      let b = up_bounds end (omega arith) in
      let unmapped = store32 m.memory boot_directory 0 in
      let m0 = record m { memory = unmapped } in
      let f0 =
        Free-Outside registry [] boot_directory 4 m.memory unmapped
          (λ q o. store32_outside m.memory boot_directory 0 q o) tt apart f in
      let freed =
        kpfree_range-Freed laws registry end 0x80400000 [] m0 (omega arith) (omega arith)
          (freed-IsRange registry end (omega arith) (omega arith) ru) (stored-IsReady unmapped m r)
          f0 in
      let same : (i : ℕ) → 512 ≤ i → i < 1024 → absent unmapped (page_up end) i ≡ true = λ i lo hi.
        rw
          (load32-same (page_up end + 4 * i) m.memory unmapped
            (λ q lq uq. store32_outside m.memory boot_directory 0 q (omega (arith, b))))
          (new i lo hi) in
      rw mapped_end (
        bind (λ _. kvm_create lists registry data_start end) freed
          (λ u n h.
            mono (kvm_create-Freed laws registry data_start end m0 n ad low le top rl ru same h)
              (λ p o (e, ro, k, ps, c). (
                e,
                ro,
                Kept-trans
                    (stored-Kept unmapped m
                      (λ q lo hi. store32_outside m.memory boot_directory 0 q (omega arith)))
                    k,
                ps,
                c,
              ))))
