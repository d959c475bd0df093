-- ===== src/Pages/Tests.antt =====
-- Pages freed and allocated again, with a registry at 0x80105000.
use yack.Common.{◌≡◌, List, [], ◌∷◌, refl, arith}
use yack.Memory.{Memory, load32, store32, load16, store16, write}
use yack.Machine.{Outcome, done, hung, fault, waiting, ◌>>=◌, ◌>>◌}
use yack.Machine.Returns.{Returns}
use yack.Layout.{is_page_aligned}
use yack.Io.{kassert}
use yack.Pages.{kpalloc, kpfree}
use yack.Pages.Linked.{linked, linked_first, linked_del, linked_add_tail}
use yack.Pages.Linked.Laws.{linked-laws}
use yack.Pages.Queue.{Free}
use yack.Pages.Calls.{Call, alloc, free, given, left, run, run-given}
use yack.Samples.Paged.{no_pages, three_pages, three_pages-Free}

abbrev value : {A : Type 0} → A → Outcome A → A
value d (done a m) = a
value d (hung m) = d
value d fault = d
value d waiting = d

-- Pages come back in the order in which they were freed.
in_order :
    value 0 (
      (kpfree linked 0x80105000 0x80108000
          >> kpfree linked 0x80105000 0x80109000
          >> kpalloc linked 0x80105000)
        no_pages)
    ≡ 0x80108000
unfolding kpfree kpalloc kassert is_page_aligned load32 store32 load16 store16 write linked_first
    linked_del linked_add_tail
in_order = refl

second :
    value 0 (
      (kpfree linked 0x80105000 0x80108000
          >> kpfree linked 0x80105000 0x80109000
          >> (kpalloc linked 0x80105000 >>= λ _. kpalloc linked 0x80105000))
        no_pages)
    ≡ 0x80109000
unfolding kpfree kpalloc kassert is_page_aligned load32 store32 load16 store16 write linked_first
    linked_del linked_add_tail
second = refl

-- The page that is given out first is freed again, and comes behind the others.
abbrev calls : List Call
calls = alloc ∷ free 0x80108000 ∷ alloc ∷ alloc ∷ alloc ∷ []

run-given_example :
    (memory : Memory) × (run linked-laws 0x80105000 calls three_pages
      ≡ done
          (0x80108000 ∷ 0x80109000 ∷ 0x8010A000 ∷ 0x80108000 ∷ [])
          (record three_pages { memory = memory }))
    × Free linked-laws 0x80105000 [] memory
unfolding given left
run-given_example =
    run-given linked-laws 0x80105000 calls (0x80108000 ∷ 0x80109000 ∷ 0x8010A000 ∷ []) three_pages
      (
        (refl, omega arith, omega arith, omega arith),
        omega arith,
        (omega arith, (omega arith, tt)),
        tt,
      )
      three_pages-Free
