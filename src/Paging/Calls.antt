-- ===== src/Paging/Calls.antt =====
-- The three calls of `vm_map_pages` in `kvm_create`.
use yack.Common.{
  ℕ, zero, suc, ◌+◌, ◌-◌, ◌*◌, ◌/◌, ◌%◌, ◌^◌, ◌≤◌, ◌<◌, ◌≡◌, inl, inr, sym, ◌∙◌, arith, Bool, true,
  false, List, ◌∷◌, length, sub_u32,
}
use mathlib.Core.Bool.{true≢false}
use yack.Layout.{pd_index, pt_index, phys_addr, extended_memory, kernel_base, kernel_link}
use yack.Memory.{Memory}
use yack.Memory.Region.{load32-same}
use yack.Machine.{Machine, done}
use yack.Io.Logged.{IsReady}
use yack.Pages.{ListOps}
use yack.Pages.Lists.{ListLaws, OffNodes}
use yack.Pages.Queue.{ArePages, Free, nodes}
use yack.Pages.Alloc.{NotIn-OffPages, region-OffOwn, OffOwn-OffNodes}
use yack.Paging.{vm_map_pages, read_only, read_write}
use yack.Paging.Tables.{absent, IsBlank, Tables}
use yack.Paging.Slot.{pt_index-lt}
use yack.Paging.Range.{pd_index_lem, pt_index_lem, need, RangeMapped, HasPage}
use yack.Paging.Whole.{touched, page_of, vm_map_pages-RangeMapped}

-- Bounds on the pages that a range takes, and that it takes if its first table is there.
pub need-le :
    (rounds curr : ℕ) (b : Bool)
    → need rounds b curr ≤ (curr + rounds * 4096) / 4194304 - curr / 4194304 + 1
need-le zero curr b = omega arith
need-le (suc rounds) curr true = omega arith
need-le (suc rounds) curr false = omega arith

need-le_there :
    (rounds curr : ℕ) (b : Bool)
    → b ≡ false
    → need rounds b curr ≤ (curr + rounds * 4096) / 4194304 - curr / 4194304
need-le_there zero curr b e = omega arith
need-le_there (suc rounds) curr b e = rw e (omega arith)

-- The upper half of a free page is no part of the links of the free pages.
upper_off :
    (registry p q : ℕ) (ps : List ℕ)
    → ArePages registry (p ∷ ps)
    → p + 2048 ≤ q
    → q < p + 4096
    → OffNodes (registry ∷ nodes (p ∷ ps)) q
upper_off registry p q ps (ip, rp, n, a) l u =
    let off = OffOwn-OffNodes registry q ps (
      region-OffOwn registry p 4096 q ps (omega arith) (NotIn-OffPages registry p ps ip.0 n a)
        (omega arith) u) in
    (off.0, (omega arith, off.1))

-- The allocator leaves the upper half of the page that it gives out.
pub fresh-absent :
    (registry p : ℕ) (ps : List ℕ) (m taken : Memory)
    → ArePages registry (p ∷ ps)
    → ((q : ℕ) → OffNodes (registry ∷ nodes (p ∷ ps)) q → taken q ≡ m q)
    → ((i : ℕ) → 512 ≤ i → i < 1024 → absent m p i ≡ true)
    → (i : ℕ) → 512 ≤ i
    → i < 1024
    → absent taken p i ≡ true
fresh-absent registry p ps m taken a spared new i l u =
    rw
      (load32-same (p + 4 * i) m taken
        (λ q lq uq. spared q (upper_off registry p q ps a (omega arith) (omega arith))))
      (new i l u)

module _ {lists : ListOps} (laws : ListLaws lists) (registry : ℕ) where
  -- A directory that maps nothing in the upper half.
  pub fresh-Tables :
      (p : ℕ) (ps : List ℕ) (m taken : Memory)
      → Free laws registry (p ∷ ps) m
      → Free laws registry ps taken
      → ((q : ℕ) → OffNodes (registry ∷ nodes (p ∷ ps)) q → taken q ≡ m q)
      → ((i : ℕ) → 512 ≤ i → i < 1024 → absent m p i ≡ true)
      → Tables laws registry p 512 1024 ps taken
  fresh-Tables p ps m taken f g spared new =
      let gone = fresh-absent registry p ps m taken f.pages spared new in
      record {
        free = g;
        top = omega arith;
        own = (f.pages.0, f.pages.1, f.pages.2);
        owned = λ i l u q. absurd (true≢false (sym (gone i l u) ∙ q));
        distinct = λ i j l u l' u' q r ne. absurd (true≢false (sym (gone i l u) ∙ q));
      }

module _ {lists : ListOps} {laws : ListLaws lists} {registry directory lo hi : ℕ} where
  -- A page of a range, by its address.
  pub page_in_range :
      (ps : List ℕ) (rounds curr paddr permissions va pa : ℕ) (m n : Machine)
      → RangeMapped laws registry directory lo hi ps rounds curr paddr permissions m n
      → curr % 4096 ≡ 0
      → va % 4096 ≡ 0
      → curr ≤ va
      → va < curr + rounds * 4096
      → pa ≡ paddr + (va - curr)
      → HasPage laws registry directory lo hi n permissions va pa
  page_in_range ps rounds curr paddr permissions va pa m n r ac av l u e =
      let v : curr + (va - curr) / 4096 * 4096 ≡ va = omega arith in
      let p : paddr + (va - curr) / 4096 * 4096 ≡ pa = omega arith in
      let h = r.pages ((va - curr) / 4096) (omega arith) in rw (sym v, sym p) h

  -- A page that was mapped before a range behind it is mapped after.
  pub HasPage-before :
      (ps : List ℕ) (rounds curr paddr permissions other va pa : ℕ) (m n : Machine)
      → RangeMapped laws registry directory lo hi ps rounds curr paddr permissions m n
      → va < 2 ^ 32
      → lo * 4194304 ≤ va
      → va < hi * 4194304
      → va / 4096 < curr / 4096
      → HasPage laws registry directory lo hi m other va pa
      → HasPage laws registry directory lo hi n other va pa
  HasPage-before ps rounds curr paddr permissions other va pa m n r small low high b (there, at) =
      let d = pd_index_lem va small in
      let t = pt_index_lem va in
      let l : lo ≤ pd_index va = omega (arith, d) in
      let u : pd_index va < hi = omega (arith, d) in
      (
        r.still (pd_index va) l u there,
        r.others (pd_index va) (pt_index va) l u (pt_index-lt va) there (inl (omega (arith, d, t)))
            ∙ at,
      )

  -- An address behind a range maps nothing after if it mapped nothing before.
  pub IsBlank-beyond :
      (ps : List ℕ) (rounds curr paddr permissions va : ℕ) (m n : Machine)
      → RangeMapped laws registry directory lo hi ps rounds curr paddr permissions m n
      → va < 2 ^ 32
      → (lo * 4194304 ≤ va) × (va < hi * 4194304)
      → curr / 4096 + rounds ≤ va / 4096
      → IsBlank m.memory directory (pd_index va) (pt_index va)
      → IsBlank n.memory directory (pd_index va) (pt_index va)
  IsBlank-beyond ps rounds curr paddr permissions va m n r small bounds b =
      let d = pd_index_lem va small in
      let t = pt_index_lem va in
      r.blank (pd_index va) (pt_index va) (omega (arith, d)) (omega (arith, d)) (pt_index-lt va)
        (inr (omega (arith, d, t)))

-- The arguments of the calls, for `data` and `end` where the linker puts them.
pub text_size :
    (d : ℕ) → kernel_link ≤ d → d < 2 ^ 32 → sub_u32 (phys_addr d) extended_memory ≡ d - kernel_link
unfolding phys_addr
text_size d l u = omega arith

pub data_frame : (d : ℕ) → kernel_base ≤ d → d < 2 ^ 32 → phys_addr d ≡ d - kernel_base
unfolding phys_addr
data_frame d l u = omega arith

pub data_size : (d e : ℕ) → d ≤ e → e < 2 ^ 32 → sub_u32 e d ≡ e - d
data_size d e l u = omega arith

-- The three calls of `vm_map_pages`, one after another.
module _ {lists : ListOps} (laws : ListLaws lists) (registry p : ℕ) where
  -- The memory of the devices takes one table.
  pub io_mapped :
      (ps : List ℕ) (m : Machine)
      → 1 ≤ length ps
      → Tables laws registry p 512 1024 ps m.memory
      → IsReady m
      → (ps' : List ℕ) × (n : Machine) × (vm_map_pages lists registry p kernel_base 0
            extended_memory read_write m
          ≡ done 256 n)
        × RangeMapped laws registry p 512 1024 ps' 256 kernel_base 0 read_write m n
        × (length ps ≤ length ps' + 1)
  io_mapped ps m some t r =
      let b = absent m.memory p (pd_index (page_of kernel_base)) in
      let l =
        vm_map_pages-RangeMapped laws registry p 512 1024 kernel_base 0 extended_memory read_write
          ps m (omega arith) (omega arith) (omega arith) (omega arith) (omega arith) (omega arith)
          (omega (arith, need-le 256 kernel_base b, some)) t r in
      (l.0, l.1, l.2, l.3, omega (arith, need-le 256 kernel_base b, l.4))

  -- The text begins on that table.
  pub text_mapped :
      (d : ℕ) (ps : List ℕ) (m : Machine)
      → d % 4096 ≡ 0
      → kernel_link ≤ d
      → d + 4096 ≤ 2 ^ 32
      → d / 4194304 ≤ 512 + length ps
      → absent m.memory p (pd_index kernel_link) ≡ false
      → Tables laws registry p 512 1024 ps m.memory
      → IsReady m
      → (ps' : List ℕ) × (n : Machine) × (vm_map_pages lists registry p kernel_link extended_memory
            (d - kernel_link)
            read_only
            m
          ≡ done (touched kernel_link (d - kernel_link)) n)
        × RangeMapped laws registry p 512 1024 ps'
            (touched kernel_link (d - kernel_link))
            kernel_link
            extended_memory
            read_only
            m
            n
        × (length ps + 512 ≤ length ps' + d / 4194304)
  text_mapped d ps m ad low top supply there t r =
      let few =
        need-le_there (touched kernel_link (d - kernel_link)) kernel_link
          (absent m.memory p (pd_index kernel_link)) there in
      let l =
        vm_map_pages-RangeMapped laws registry p 512 1024 kernel_link extended_memory
          (d - kernel_link) read_only ps m (omega arith) (omega arith) (omega arith) (omega arith)
          (omega arith) (omega arith) (omega (arith, few, supply)) t r in
      (l.0, l.1, l.2, l.3, omega (arith, few, l.4))

  -- The data behind it.
  pub data_mapped :
      (d e : ℕ) (ps : List ℕ) (m : Machine)
      → d % 4096 ≡ 0
      → kernel_link ≤ d
      → d ≤ e
      → e + 4096 ≤ 2 ^ 32
      → (e + 4095) / 4194304 < d / 4194304 + length ps
      → Tables laws registry p 512 1024 ps m.memory
      → IsReady m
      → (ps' : List ℕ) × (n : Machine) × (vm_map_pages lists registry p d
            (d - kernel_base)
            (e - d)
            read_write
            m
          ≡ done (touched d (e - d)) n)
        × RangeMapped laws registry p 512 1024 ps'
            (touched d (e - d))
            (page_of d)
            (d - kernel_base)
            read_write
            m
            n
  data_mapped d e ps m ad low le top supply t r =
      let few =
        need-le (touched d (e - d)) (page_of d) (absent m.memory p (pd_index (page_of d))) in
      let l =
        vm_map_pages-RangeMapped laws registry p 512 1024 d (d - kernel_base) (e - d) read_write ps
          m (omega arith) (omega arith) (omega arith) (omega arith) (omega arith) (omega arith)
          (omega (arith, few, supply)) t r in
      (l.0, l.1, l.2, l.3)
