-- ===== src/Paging/Translate.antt =====
-- The directory that `kvm_init` makes, as the processor walks it with pages of 4 KB.
use yack.Common.{
  ℕ, ◌+◌, ◌-◌, ◌*◌, ◌/◌, ◌%◌, ◌^◌, ◌≤◌, ◌<◌, ◌≡◌, inl, inr, refl, sym, subst, ap, ◌∙◌, arith, true,
  false, List, [], ◌==◌, bit_and, Option, some, none, if◌then◌else◌, Bool-cases, ltb, ltb→lt,
  ltb→le,
}
use yack.Common.Bits.{and_low}
use yack.Layout.{page_up, pd_index, pt_index, pte_addr, kernel_base, kernel_link}
use yack.Layout.Laws.{page_mask_lem, page_up_lem}
use yack.Memory.{Memory, load32}
use yack.Memory.Region.{Apart}
use yack.Screen.{buffer}
use yack.Machine.{Machine}
use yack.Machine.Returns.{Returns, mono}
use yack.Io.Logged.{IsReady}
use yack.Pages.{ListOps}
use yack.Pages.Lists.{ListLaws}
use yack.Pages.Queue.{Free}
use yack.Paging.{present, table_of, read_only, read_write, kvm_init}
use yack.Paging.Tables.{absent, mapped, IsBlank}
use yack.Paging.Slot.{entry_for}
use yack.Paging.Range.{pd_index_lem, pt_index_lem, HasPage}
use yack.Paging.Create.{Created}
use yack.Paging.Init.{kvm_init-Created}

-- The physical address of a virtual one, through an entry of the directory and one of its table;
-- physical memory stands from 0x80000000 on.
unfoldable pub frame_of : (entry offset : ℕ) → Option ℕ
frame_of entry offset = if bit_and entry present == 0 then none else some (pte_addr entry + offset)

unfoldable pub translate : Memory → (directory va : ℕ) → Option ℕ
unfolding frame_of
translate m directory va =
    let entry = load32 m (directory + 4 * (va / 4194304)) in
    if bit_and entry present == 0
    then none
    else frame_of (load32 m (table_of entry + 4 * (va / 4096 % 1024))) (va % 4096)

-- A present entry leads to its frame.
frame_of-entry :
    (pa flags offset : ℕ)
    → pa % 4096 ≡ 0
    → pa + 4096 ≤ 2 ^ 32
    → flags < 4096
    → flags % 2 ≡ 1
    → frame_of (pa + flags) offset ≡ some (pa + offset)
unfolding frame_of pte_addr
frame_of-entry pa flags offset a small low odd =
    let e : (pa + flags) % 2 ≡ 1 = omega arith in
    let f : (pa + flags) / 4096 * 4096 ≡ pa = omega arith in
    rw (and_low 1 (pa + flags), e) (rw (page_mask_lem (pa + flags) (omega arith), f) refl)

module _ {lists : ListOps} (laws : ListLaws lists) (registry p : ℕ) where
  -- An address in a page that is mapped.
  HasPage-translate :
      (permissions va : ℕ) (n : Machine)
      → permissions < 4096
      → kernel_base ≤ va
      → va < 2 ^ 32
      → HasPage laws registry p 512 1024 n permissions
          (va / 4096 * 4096)
          (va / 4096 * 4096 - kernel_base)
      → translate n.memory p va ≡ some (va - kernel_base)
  unfolding translate
  HasPage-translate permissions va n small low top (there, at) =
      let page = va / 4096 * 4096 in
      let d : pd_index page ≡ va / 4194304 = omega (arith, pd_index_lem page (omega arith)) in
      let k : pt_index page ≡ va / 4096 % 1024 = omega (arith, pt_index_lem page) in
      let there' : absent n.memory p (va / 4194304) ≡ false =
        subst (λ i. absent n.memory p i ≡ false) d there in
      let at' : mapped n.memory p (va / 4194304) (va / 4096 % 1024)
          ≡ entry_for (page - kernel_base) permissions =
        subst (λ i. mapped n.memory p (va / 4194304) i ≡ entry_for (page - kernel_base) permissions)
          k
          (subst
            (λ i. mapped n.memory p i (pt_index page) ≡ entry_for (page - kernel_base) permissions)
            d at) in
      rw there' (
        rw at' (
          frame_of-entry (page - kernel_base) (permissions / 2 * 2 + 1) (va % 4096) (omega arith)
            (omega arith) (omega arith) (omega arith)
          ∙ ap some (omega arith)))

  -- An address in a page that is not mapped.
  IsBlank-translate :
      (va : ℕ) (n : Machine)
      → va < 2 ^ 32
      → IsBlank n.memory p (pd_index va) (pt_index va)
      → translate n.memory p va ≡ none
  unfolding translate frame_of
  IsBlank-translate va n top blank =
      let b : IsBlank n.memory p (va / 4194304) (va / 4096 % 1024) =
        subst (λ i. IsBlank n.memory p i (va / 4096 % 1024)) (pd_index_lem va top)
          (subst (λ k. IsBlank n.memory p (pd_index va) k) (pt_index_lem va) blank) in
      elim (Bool-cases (absent n.memory p (va / 4194304))) [
        | inl gone ↦ rw gone refl
        | inr there ↦ rw there (rw (b there) refl)
      ]

  -- Each byte of the kernel, its devices included.
  Created-translate :
      (data_start end : ℕ) (ps : List ℕ) (n : Machine) (va : ℕ)
      → data_start % 4096 ≡ 0
      → kernel_link ≤ data_start
      → end < 2 ^ 32
      → Created laws registry data_start end p ps n
      → kernel_base ≤ va
      → va < (end + 4095) / 4096 * 4096
      → translate n.memory p va ≡ some (va - kernel_base)
  Created-translate data_start end ps n va ad low top c l u =
      elim (Bool-cases (ltb va kernel_link)) [
        | inl io ↦ HasPage-translate read_write va n (omega arith) l (omega arith) (
            c.io (va / 4096 * 4096) (omega arith) (omega arith)
              (omega (arith, ltb→lt va kernel_link io)))
        | inr ni ↦ elim (Bool-cases (ltb va data_start)) [
          | inl text ↦ HasPage-translate read_only va n (omega arith) l (omega arith) (
              c.text (va / 4096 * 4096) (omega arith) (omega (arith, ltb→le va kernel_link ni))
                (omega (arith, ltb→lt va data_start text)))
          | inr nt ↦ HasPage-translate read_write va n (omega arith) l (omega arith) (
              c.data_pages (va / 4096 * 4096) (omega arith) (omega (arith, ltb→le va data_start nt))
                (omega arith))
        ]
      ]

  -- Each address of the upper half.
  Created-walk :
      (data_start end : ℕ) (ps : List ℕ) (n : Machine) (va : ℕ)
      → data_start % 4096 ≡ 0
      → kernel_link ≤ data_start
      → end + 4096 < 2 ^ 32
      → Created laws registry data_start end p ps n
      → kernel_base ≤ va
      → va < 2 ^ 32
      → translate n.memory p va ≡ (if ltb va (page_up end) then some (va - kernel_base) else none)
  Created-walk data_start end ps n va ad low top c l u =
      let up : page_up end ≡ (end + 4095) / 4096 * 4096 =
        ground (arith, page_up_lem end (omega arith)) in
      rw up (elim (Bool-cases (ltb va ((end + 4095) / 4096 * 4096))) [
        | inl inside ↦ rw inside (
            Created-translate data_start end ps n va ad low (omega arith) c l
              (ltb→lt va ((end + 4095) / 4096 * 4096) inside))
        | inr beyond ↦
            rw beyond (
              IsBlank-translate va n u
                (c.rest va (ltb→le va ((end + 4095) / 4096 * 4096) beyond) u))
      ])

module _ {lists : ListOps} (laws : ListLaws lists) (registry boot_directory : ℕ) where
  -- On a machine that is ready for output, with the laws of lists, no free page yet, the kernel
  -- linked from 0x80100000 on, its data at a page boundary, its registry and the loader's
  -- directory inside the kernel behind the screen and apart, at least four pages between its end
  -- and 0x80400000, and no entry present in the upper half of the first page behind it:
  -- `kvm_init` returns a directory by which the processor, with its walk through two tables,
  -- finds each address from 0x80000000 to the end of the kernel's last page at that address less
  -- 0x80000000 in physical memory, if that stands from 0x80000000 on, and nothing at any address
  -- behind that page.
  pub kvm_init-translate :
      (data_start end va : ℕ) (m : Machine)
      → data_start % 4096 ≡ 0
      → kernel_link ≤ data_start
      → data_start ≤ end
      → end + 4 * 4096 ≤ 0x80400000
      → buffer + 4000 ≤ registry
      → registry + 8 ≤ end
      → buffer + 4000 ≤ boot_directory
      → boot_directory + 4 ≤ end
      → Apart boot_directory 4 registry 8
      → ((i : ℕ) → 512 ≤ i → i < 1024 → absent m.memory (page_up end) i ≡ true)
      → Free laws registry [] m.memory
      → IsReady m
      → kernel_base ≤ va
      → va < 2 ^ 32
      → Returns
          (λ p n.
            translate n.memory p va
            ≡ (if ltb va (page_up end) then some (va - kernel_base) else none))
          (kvm_init lists registry boot_directory data_start end m)
  kvm_init-translate data_start end va m ad low le top rl ru bl bu apart new f r l u =
      mono
        (kvm_init-Created laws registry boot_directory data_start end m ad low le top rl ru bl bu
          apart new f r)
        (λ p n (e, _, _, ps, c).
          subst
            (λ d.
              translate n.memory d va
              ≡ (if ltb va (page_up end) then some (va - kernel_base) else none))
            (sym e)
            (Created-walk laws registry (page_up end) data_start end ps n va ad low (omega arith) c
              l u))
