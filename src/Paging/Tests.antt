-- ===== src/Paging/Tests.antt =====
-- Page directories at concrete addresses, with a registry at 0x80105000.
use yack.Common.{some, ℕ, ◌≡◌, ◌≤◌, ◌+◌, List, [], ◌∷◌, refl, arith, true, length}
use yack.Layout.{is_page_aligned, pd_index, page_up}
use yack.Machine.{Machine, done, hung}
use yack.Machine.Kept.{Kept}
use yack.Machine.Returns.{Returns}
use yack.Io.Logged.{IsReady}
use yack.Io.Stores.{stored-IsReady}
use yack.Pages.Linked.{linked}
use yack.Pages.Linked.Laws.{linked-laws}
use yack.Paging.{vm_map_page, vm_map_pages, kvm_init}
use yack.Paging.Tables.{absent}
use yack.Paging.Slot.{entry_for}
use yack.Paging.Page.{remaining, PageMapped, vm_map_page-PageMapped}
use yack.Paging.Range.{need, RangeMapped}
use yack.Paging.Whole.{vm_map_pages-RangeMapped, vm_map_pages_unaligned}
use yack.Paging.Calls.{need-le}
use yack.Paging.Translate.{translate, kvm_init-translate}
use yack.Paging.Create.{Created}
use yack.Paging.Exhausted.{Exhausted}
use yack.Paging.Init.{kvm_init-Created}
use yack.Samples.{sample, sample-IsReady}
use yack.Samples.Paged.{
  no_pages, no_pages-Free, no_pages-absent, three_pages, three_pages-absent, three_pages-Tables,
}

abbrev pages : List ℕ
pages = 0x80108000 ∷ 0x80109000 ∷ 0x8010A000 ∷ []

three_pages-IsReady : IsReady three_pages
three_pages-IsReady = stored-IsReady three_pages.memory sample sample-IsReady

low_index : pd_index 0x80104000 ≡ 512
unfolding pd_index
low_index = refl

no_table : absent three_pages.memory 0x80107000 (pd_index 0x80104000) ≡ true
no_table =
    three_pages-absent 0x80107000 (pd_index 0x80104000) refl (omega (arith, low_index))
      (omega (arith, low_index))

vm_map_page-PageMapped_example :
    (n : Machine) × (vm_map_page linked 0x80105000 0x80107000 0x80104000 0x104000 2 three_pages
      ≡ done 0 n)
    × PageMapped linked-laws 0x80105000 0x80107000 512 1024
        (remaining (absent three_pages.memory 0x80107000 (pd_index 0x80104000)) pages)
        0x80104000
        (entry_for 0x104000 2)
        three_pages
        n
vm_map_page-PageMapped_example =
    vm_map_page-PageMapped linked-laws 0x80105000 0x80107000 512 1024 0x80104000 0x104000 2 pages
      three_pages (unfold is_page_aligned in refl) (unfold is_page_aligned in refl) (omega arith)
      (omega arith) (omega (arith, low_index)) (omega (arith, low_index)) (rw no_table tt)
      three_pages-Tables three_pages-IsReady

-- 0x2000 bytes that touch three pages.
vm_map_pages-RangeMapped_example :
    (ps : List ℕ) × (n : Machine) × (vm_map_pages linked 0x80105000 0x80107000 0x80104010 0x104000
        0x2000 2 three_pages
      ≡ done 3 n)
    × RangeMapped linked-laws 0x80105000 0x80107000 512 1024 ps 3 0x80104000 0x104000 2 three_pages
        n
    × (3
        ≤ length ps
          + need 3 (absent three_pages.memory 0x80107000 (pd_index 0x80104000)) 0x80104000)
vm_map_pages-RangeMapped_example =
    vm_map_pages-RangeMapped linked-laws 0x80105000 0x80107000 512 1024 0x80104010 0x104000 0x2000 2
      pages three_pages (omega arith) refl (omega arith) (omega arith) (omega arith) (omega arith)
      (omega
        (arith, need-le 3 0x80104000 (absent three_pages.memory 0x80107000 (pd_index 0x80104000))))
      three_pages-Tables three_pages-IsReady

vm_map_pages_unaligned_example :
    (n : Machine) × (vm_map_pages linked 0x80105000 0x80107000 0x80104000 0x104800 0x2000 2
        three_pages
      ≡ hung n)
    × Kept three_pages n
vm_map_pages_unaligned_example =
    vm_map_pages_unaligned linked 0x80105000 0x80107000 0x80104000 0x104800 0x2000 2 three_pages
      (omega arith) (omega arith) (unfold is_page_aligned in refl) three_pages-IsReady

kvm_init-Created_example :
    Returns
      (λ p n.
        (p ≡ 0x80107000)
        × IsReady n
        × Kept no_pages n
        × (ps : List ℕ) × Created linked-laws 0x80105000 0x80104000 0x80107000 0x80107000 ps n)
      (kvm_init linked 0x80105000 0x80106000 0x80104000 0x80107000 no_pages)
unfolding page_up
kvm_init-Created_example =
    kvm_init-Created linked-laws 0x80105000 0x80106000 0x80104000 0x80107000 no_pages refl
      (omega arith) (omega arith) (omega arith) (omega arith) (omega arith) (omega arith)
      (omega arith) (omega arith) (λ i. no_pages-absent 0x80107000 i refl) no_pages-Free
      (stored-IsReady no_pages.memory sample sample-IsReady)

-- An address inside the data of the kernel.
kvm_init-translate_example :
    Returns
      (λ p n. translate n.memory p 0x80104ABC ≡ some 0x104ABC)
      (kvm_init linked 0x80105000 0x80106000 0x80104000 0x80107000 no_pages)
unfolding page_up
kvm_init-translate_example =
    kvm_init-translate linked-laws 0x80105000 0x80106000 0x80104000 0x80107000 0x80104ABC no_pages
      refl (omega arith) (omega arith) (omega arith) (omega arith) (omega arith) (omega arith)
      (omega arith) (omega arith) (λ i. no_pages-absent 0x80107000 i refl) no_pages-Free
      (stored-IsReady no_pages.memory sample sample-IsReady) (omega arith) (omega arith)
