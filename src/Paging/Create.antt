-- ===== src/Paging/Create.antt =====
-- `kvm_create`: the directory that it makes maps the memory of the kernel.
use yack.Common.{
  ℕ, ◌+◌, ◌-◌, ◌*◌, ◌/◌, ◌%◌, ◌^◌, ◌≤◌, ◌<◌, ◌≡◌, refl, sym, ◌∙◌, arith, true, false, List, ◌∷◌,
  ◌==◌, length,
}
use mathlib.Core.Bool.{true≢false}
use yack.Layout.{pd_index, pt_index, extended_memory, kernel_base, kernel_link}
use yack.Machine.{Machine, done}
use yack.Machine.Kept.{Kept, Kept-trans}
use yack.Io.{kassert}
use yack.Io.Logged.{IsReady}
use yack.Io.Stores.{stored-IsReady, stored-Kept}
use yack.Pages.{ListOps}
use yack.Pages.Lists.{ListLaws}
use yack.Pages.Queue.{Free}
use yack.Pages.Alloc.{kpalloc-Free, screen-OffOwn, OffOwn-OffNodes}
use yack.Paging.{kvm_create, read_only, read_write}
use yack.Paging.Tables.{absent, IsBlank, Tables}
use yack.Paging.Range.{pd_index_lem, RangeMapped, HasPage}
use yack.Paging.Whole.{touched, page_of}
use yack.Paging.Calls.{
  fresh-absent, IsBlank-beyond, fresh-Tables, page_in_range, HasPage-before, text_size, data_frame,
  data_size, io_mapped, text_mapped, data_mapped,
}

-- What is left once `kvm_create` has made the directory `p`.
pub record Created {lists : ListOps} (laws : ListLaws lists) (registry data_start end p : ℕ)
    (ps : List ℕ) (n : Machine) : Type 0 where
  pub tables : Tables laws registry p 512 1024 ps n.memory
  pub io :
      (va : ℕ)
      → va % 4096 ≡ 0
      → kernel_base ≤ va
      → va < kernel_link
      → HasPage laws registry p 512 1024 n read_write va (va - kernel_base)
  pub text :
      (va : ℕ)
      → va % 4096 ≡ 0
      → kernel_link ≤ va
      → va < data_start
      → HasPage laws registry p 512 1024 n read_only va (va - kernel_base)
  pub data_pages :
      (va : ℕ)
      → va % 4096 ≡ 0
      → data_start ≤ va
      → va < end
      → HasPage laws registry p 512 1024 n read_write va (va - kernel_base)
  pub rest :
      (va : ℕ)
      → (end + 4095) / 4096 * 4096 ≤ va
      → va < 2 ^ 32
      → IsBlank n.memory p (pd_index va) (pt_index va)

module _ {lists : ListOps} (laws : ListLaws lists) (registry p : ℕ) where
  -- What the three calls have mapped, one after another.
  all_mapped :
      (d e : ℕ) (ps0 ps1 ps2 : List ℕ) (m0 m1 m2 n : Machine)
      → d % 4096 ≡ 0
      → kernel_link ≤ d
      → d ≤ e
      → e + 4096 ≤ 2 ^ 32
      → RangeMapped laws registry p 512 1024 ps0 256 kernel_base 0 read_write m0 m1
      → RangeMapped laws registry p 512 1024 ps1
          (touched kernel_link (d - kernel_link))
          kernel_link
          extended_memory
          read_only
          m1
          m2
      → RangeMapped laws registry p 512 1024 ps2
          (touched d (e - d))
          (page_of d)
          (d - kernel_base)
          read_write
          m2
          n
      → ((i : ℕ) → 512 ≤ i → i < 1024 → absent m0.memory p i ≡ true)
      → Created laws registry d e p ps2 n
  all_mapped d e ps0 ps1 ps2 m0 m1 m2 n ad low le top io text rest new = record {
    tables = rest.tables;
    io = λ va av l u.
        HasPage-before ps2 (touched d (e - d)) (page_of d) (d - kernel_base) read_write read_write
          va (va - kernel_base) m2 n rest (omega arith) (omega arith) (omega arith) (omega arith)
          (HasPage-before ps1 (touched kernel_link (d - kernel_link)) kernel_link extended_memory
            read_only read_write va (va - kernel_base) m1 m2 text (omega arith) (omega arith)
            (omega arith) (omega arith)
            (page_in_range ps0 256 kernel_base 0 read_write va (va - kernel_base) m0 m1 io
              (omega arith) av l (omega arith) (omega arith)));
    text = λ va av l u.
        HasPage-before ps2 (touched d (e - d)) (page_of d) (d - kernel_base) read_write read_only va
          (va - kernel_base) m2 n rest (omega arith) (omega arith) (omega arith) (omega arith)
          (page_in_range ps1 (touched kernel_link (d - kernel_link)) kernel_link extended_memory
            read_only va (va - kernel_base) m1 m2 text (omega arith) av l (omega arith)
            (omega arith));
    data_pages = λ va av l u.
        page_in_range ps2 (touched d (e - d)) (page_of d) (d - kernel_base) read_write va
          (va - kernel_base) m2 n rest (omega arith) av (omega arith) (omega arith) (omega arith);
    rest = λ va l u.
        IsBlank-beyond ps2 (touched d (e - d)) (page_of d) (d - kernel_base) read_write va m2 n rest
          u (omega arith) (omega arith)
          (IsBlank-beyond ps1 (touched kernel_link (d - kernel_link)) kernel_link extended_memory
            read_only va m1 m2 text u (omega arith) (omega arith)
            (IsBlank-beyond ps0 256 kernel_base 0 read_write va m0 m1 io u (omega arith)
              (omega arith)
              (λ q.
                let i = pd_index_lem va u in
                absurd (
                  true≢false
                    (sym (new (pd_index va) (omega (arith, i)) (omega (arith, i))) ∙ q)))));
  }

same_table : pd_index kernel_link ≡ pd_index (kernel_base + 0 * 4096)
unfolding pd_index
same_table = refl

module _ {lists : ListOps} (laws : ListLaws lists) (registry : ℕ) where
  -- On a machine that is ready for output, with the laws of lists, pages enough for the tables
  -- behind a first free page that has no entry present in its upper half, and the kernel's data
  -- at a page boundary behind 0x80100000: `kvm_create` returns that page as the directory, with
  -- the devices and the data of the kernel mapped writable, its text read-only, each to its
  -- address less 0x80000000, nothing mapped behind the kernel's last page, and the tables in
  -- order; the machine is ready for more output, and the other components' state is as before.
  pub kvm_create-Created :
      (data_start end p : ℕ) (ps : List ℕ) (m : Machine)
      → data_start % 4096 ≡ 0
      → kernel_link ≤ data_start
      → data_start ≤ end
      → end + 4096 ≤ 2 ^ 32
      → (end + 4095) / 4194304 ≤ 510 + length ps
      → ((i : ℕ) → 512 ≤ i → i < 1024 → absent m.memory p i ≡ true)
      → Free laws registry (p ∷ ps) m.memory
      → IsReady m
      → (ps' : List ℕ) × (n : Machine) × (kvm_create lists registry data_start end m ≡ done p n)
        × IsReady n
        × Kept m n
        × Created laws registry data_start end p ps' n
  unfolding kvm_create kassert
  kvm_create-Created data_start end p ps m ad low le top supply new f r =
      let taken = kpalloc-Free laws registry p ps m f in
      let m0 = record m { memory = taken.0 } in
      let t0 = fresh-Tables laws registry p ps m.memory taken.0 f taken.2 taken.3 new in
      let io = io_mapped laws registry p ps m0 (omega arith) t0 (stored-IsReady taken.0 m r) in
      let there : absent io.1.memory p (pd_index kernel_link) ≡ false =
        rw same_table (io.3.pages 0 (omega arith)).0 in
      let text =
        text_mapped laws registry p data_start io.0 io.1 ad low (omega arith) (omega (arith, io.4))
          there io.3.tables io.3.ready in
      let rest =
        data_mapped laws registry p data_start end text.0 text.1 ad low le top
          (omega (arith, io.4, text.4)) text.3.tables text.3.ready in
      let ne : (p == 0) ≡ false = ground (arith, f.pages.0.1) in
      let sized = text_size data_start low (omega arith) in
      let framed = data_frame data_start (omega arith) (omega arith) in
      let long = data_size data_start end le (omega arith) in
      (
        rest.0,
        rest.1,
        rw (taken.1, ne, io.2, sized, text.2, framed, long, rest.2) refl,
        rest.3.ready,
        Kept-trans
            (stored-Kept taken.0 m (λ q lo hi. taken.3 q (
              OffOwn-OffNodes registry q (p ∷ ps)
                (screen-OffOwn registry q (p ∷ ps) f.head_off f.pages lo hi))))
            (Kept-trans io.3.kept (Kept-trans text.3.kept rest.3.kept)),
        all_mapped laws registry p data_start end io.0 text.0 rest.0 m0 io.1 text.1 rest.1 ad low le
            top io.3 text.3 rest.3
            (fresh-absent registry p ps m.memory taken.0 f.pages taken.3 new),
      )
