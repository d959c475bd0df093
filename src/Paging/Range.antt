-- ===== src/Paging/Range.antt =====
-- `vm_map_pages`: a range of addresses, page by page.
use yack.Common.{
  ℕ, zero, suc, ◌+◌, ◌-◌, ◌*◌, ◌/◌, ◌%◌, ◌^◌, ◌≤◌, ◌<◌, ◌≡◌, ◌≢◌, ◌⊎◌, inl, inr, refl, sym, ap, ◌∙◌,
  arith, Bool, true, false, List, [], ◌∷◌, ◌==◌, ==_iff, Bool-cases, length, if◌then◌else◌, u32,
}
use mathlib.Core.Bool.{true≢false}
use yack.Layout.{is_page_aligned, pd_index, pt_index}
use yack.Layout.Laws.{index_mask}
use yack.Machine.{Machine, done}
use yack.Machine.Kept.{Kept, Kept-trans, Kept-refl}
use yack.Io.Logged.{IsReady}
use yack.Pages.{ListOps}
use yack.Pages.Lists.{ListLaws}
use yack.Paging.{map_loop}
use yack.Paging.Tables.{absent, mapped, IsBlank, Tables}
use yack.Paging.Slot.{entry_for}
use yack.Paging.Page.{Supplied, remaining, PageMapped, vm_map_page-PageMapped}

pub pd_index_lem : (v : ℕ) → v < 2 ^ 32 → pd_index v ≡ v / 4194304
unfolding pd_index
pd_index_lem v h = omega (arith, index_mask (v / 4194304))

pub pt_index_lem : (v : ℕ) → pt_index v ≡ v / 4096 % 1024
unfolding pt_index
pt_index_lem v = index_mask (v / 4096)

is_aligned : (a : ℕ) → a % 4096 ≡ 0 → is_page_aligned a ≡ true
unfolding is_page_aligned
is_aligned a h = (==_iff (a % 4096) 0).1 h

-- The free pages that a range takes at most: one for each table from that of its first page to
-- that of its last, but for the first table if it is there.
abbrev pub need : (rounds : ℕ) (absent : Bool) (curr : ℕ) → ℕ
need zero b curr = 0
need (suc rounds) b curr = (curr + rounds * 4096) / 4194304 - curr / 4194304 + (if b then 1 else 0)

need-Supplied :
    (rounds curr : ℕ) (b : Bool) (ps : List ℕ)
    → need (suc rounds) b curr ≤ length ps
    → Supplied b ps
need-Supplied rounds curr false ps h = tt
need-Supplied rounds curr true [] h = absurd (omega arith)
need-Supplied rounds curr true (p ∷ ps) h = tt

length-remaining :
    (b : Bool) (ps : List ℕ) → length ps ≤ length (remaining b ps) + (if b then 1 else 0)
length-remaining true [] = omega arith
length-remaining true (p ∷ ps) = omega arith
length-remaining false ps = omega arith

-- What the first page takes and what the others need.
need-suc :
    (rounds curr : ℕ) (b b' : Bool)
    → (((curr + 4096) / 4194304 == curr / 4194304) ≡ true → b' ≡ false)
    → need rounds b' (curr + 4096) + (if b then 1 else 0) ≤ need (suc rounds) b curr
need-suc zero curr b b' same = omega arith
need-suc (suc rounds) curr b b' same =
    elim (Bool-cases ((curr + 4096) / 4194304 == curr / 4194304)) [
      | inl e ↦ rw (same e) (ground (arith, e))
      | inr ne ↦ ground (arith, ne)
    ]

-- An entry that is no page of the range is not that of its first page.
other_page :
    (j l rounds curr : ℕ)
    → curr < 2 ^ 32
    → l < 1024
    → (j * 1024 + l < curr / 4096) ⊎ (curr / 4096 + suc rounds ≤ j * 1024 + l)
    → (j ≢ pd_index curr) ⊎ (l ≢ pt_index curr)
other_page j l rounds curr small h a = elim (Bool-cases (j == pd_index curr)) [
  | inl e ↦
      let e' : j ≡ pd_index curr = (==_iff j (pd_index curr)).0 e in
      inr (λ f. absurd (omega (arith, e', f, pd_index_lem curr small, pt_index_lem curr)))
  | inr ne ↦ inl (λ e. true≢false (sym ((==_iff j (pd_index curr)).1 e) ∙ ne))
]

-- Two pages on one table.
same_table :
    (curr : ℕ)
    → curr < 2 ^ 32
    → ((curr + 4096) / 4194304 == curr / 4194304) ≡ true
    → pd_index (curr + 4096) ≡ pd_index curr
same_table curr h e =
    let e' : (curr + 4096) / 4194304 ≡ curr / 4194304 = (==_iff _ _).0 e in
    pd_index_lem (curr + 4096) (omega (arith, e')) ∙ e' ∙ sym (pd_index_lem curr h)

module _ {lists : ListOps} (laws : ListLaws lists) (registry directory lo hi : ℕ) where
  -- What is left once the pages of a range are mapped, one after another.
  pub record RangeMapped (ps : List ℕ) (rounds curr paddr permissions : ℕ) (m n : Machine)
      : Type 0 where
    pub ready : IsReady n
    pub kept : Kept m n
    pub tables : Tables laws registry directory lo hi ps n.memory
    pub pages :
        (i : ℕ)
        → i < rounds
        → (absent n.memory directory (pd_index (curr + i * 4096)) ≡ false)
          × (mapped n.memory directory (pd_index (curr + i * 4096)) (pt_index (curr + i * 4096))
              ≡ entry_for (paddr + i * 4096) permissions)
    pub still :
        (j : ℕ)
        → lo ≤ j
        → j < hi
        → absent m.memory directory j ≡ false
        → absent n.memory directory j ≡ false
    pub others :
        (j l : ℕ)
        → lo ≤ j
        → j < hi
        → l < 1024
        → absent m.memory directory j ≡ false
        → (j * 1024 + l < curr / 4096) ⊎ (curr / 4096 + rounds ≤ j * 1024 + l)
        → mapped n.memory directory j l ≡ mapped m.memory directory j l
    pub blank :
        (j l : ℕ)
        → lo ≤ j
        → j < hi
        → l < 1024
        → (j * 1024 + l < curr / 4096) ⊎ (curr / 4096 + rounds ≤ j * 1024 + l)
        → IsBlank m.memory directory j l
        → IsBlank n.memory directory j l

  RangeMapped-zero :
      (ps : List ℕ) (curr paddr permissions : ℕ) (m : Machine)
      → Tables laws registry directory lo hi ps m.memory
      → IsReady m
      → RangeMapped ps 0 curr paddr permissions m m
  RangeMapped-zero ps curr paddr permissions m t r = record {
    ready = r;
    kept = Kept-refl m;
    tables = t;
    pages = λ i h. absurd (omega arith);
    still = λ j l u q. q;
    others = λ j l lj hj hl q o. refl;
    blank = λ j l lj hj hl o z. z;
  }

  -- The entry of one page.
  abbrev pub HasPage : Machine → (permissions va pa : ℕ) → Type 0
  HasPage n permissions va pa =
      (absent n.memory directory (pd_index va) ≡ false)
      × (mapped n.memory directory (pd_index va) (pt_index va) ≡ entry_for pa permissions)

  first_page :
      (ps ps' : List ℕ) (rounds curr paddr permissions : ℕ) (m n o : Machine)
      → curr % 4096 ≡ 0
      → curr < 2 ^ 32
      → lo ≤ pd_index curr
      → pd_index curr < hi
      → PageMapped laws registry directory lo hi ps curr (entry_for paddr permissions) m n
      → RangeMapped ps' rounds (curr + 4096) (u32 (paddr + 4096)) permissions n o
      → HasPage o permissions curr paddr
  first_page ps ps' rounds curr paddr permissions m n o ac uc low high p r = (
    r.still (pd_index curr) low high p.there,
    r.others (pd_index curr) (pt_index curr) low high (omega (arith, pt_index_lem curr)) p.there
          (omega (arith, pd_index_lem curr uc, pt_index_lem curr))
        ∙ p.at,
  )

  each_page :
      (ps ps' : List ℕ) (rounds curr paddr permissions : ℕ) (m n o : Machine) (i : ℕ)
      → curr % 4096 ≡ 0
      → curr < 2 ^ 32
      → paddr + suc rounds * 4096 ≤ 2 ^ 32
      → lo ≤ pd_index curr
      → pd_index curr < hi
      → PageMapped laws registry directory lo hi ps curr (entry_for paddr permissions) m n
      → RangeMapped ps' rounds (curr + 4096) (u32 (paddr + 4096)) permissions n o
      → i < suc rounds
      → HasPage o permissions (curr + i * 4096) (paddr + i * 4096)
  each_page ps ps' rounds curr paddr permissions m n o zero ac uc up low high p r h =
      let e : curr + 0 * 4096 ≡ curr = omega arith in
      let f : paddr + 0 * 4096 ≡ paddr = omega arith in
      rw (e, f) (first_page ps ps' rounds curr paddr permissions m n o ac uc low high p r)
  each_page ps ps' rounds curr paddr permissions m n o (suc i) ac uc up low high p r h =
      let e : curr + suc i * 4096 ≡ curr + 4096 + i * 4096 = omega arith in
      let f : paddr + suc i * 4096 ≡ u32 (paddr + 4096) + i * 4096 = omega arith in
      rw (e, f) (r.pages i (omega arith))

  RangeMapped-suc :
      (ps ps' : List ℕ) (rounds curr paddr permissions : ℕ) (m n o : Machine)
      → curr % 4096 ≡ 0
      → curr + suc rounds * 4096 ≤ 2 ^ 32
      → paddr + suc rounds * 4096 ≤ 2 ^ 32
      → lo ≤ pd_index curr
      → pd_index curr < hi
      → PageMapped laws registry directory lo hi ps curr (entry_for paddr permissions) m n
      → RangeMapped ps' rounds (curr + 4096) (u32 (paddr + 4096)) permissions n o
      → RangeMapped ps' (suc rounds) curr paddr permissions m o
  RangeMapped-suc ps ps' rounds curr paddr permissions m n o ac uc up low high p r = record {
    ready = r.ready;
    kept = Kept-trans p.kept r.kept;
    tables = r.tables;
    pages = λ i h.
        each_page ps ps' rounds curr paddr permissions m n o i ac (omega arith) up low high p r h;
    still = λ j l u q. r.still j l u (p.others.still j l u q);
    others = λ j l lj hj hl q a.
        r.others j l lj hj hl (p.others.still j lj hj q) (omega (arith, a))
        ∙ p.others.same j l lj hj hl q (other_page j l rounds curr (omega arith) hl a);
    blank = λ j l lj hj hl a z.
        r.blank j l lj hj hl (omega (arith, a))
          (p.others.blank j l lj hj hl (other_page j l rounds curr (omega arith) hl a) z);
  }

  -- The loop of `vm_map_pages` from `curr` on.
  pub map_loop-RangeMapped :
      (rounds curr paddr permissions total : ℕ) (ps : List ℕ) (m : Machine)
      → curr % 4096 ≡ 0
      → paddr % 4096 ≡ 0
      → curr + rounds * 4096 ≤ 2 ^ 32
      → paddr + rounds * 4096 ≤ 2 ^ 32
      → permissions < 4096
      → lo * 4194304 ≤ curr
      → curr + rounds * 4096 ≤ hi * 4194304
      → need rounds (absent m.memory directory (pd_index curr)) curr ≤ length ps
      → Tables laws registry directory lo hi ps m.memory
      → IsReady m
      → (ps' : List ℕ) × (n : Machine) × (map_loop lists registry rounds directory curr paddr
            permissions total m
          ≡ done (total + rounds) n)
        × RangeMapped ps' rounds curr paddr permissions m n
        × (length ps ≤ length ps' + need rounds (absent m.memory directory (pd_index curr)) curr)
  unfolding map_loop
  map_loop-RangeMapped zero curr paddr permissions total ps m ac ap' uc up perm low high s t r = (
    ps,
    m,
    ap (λ k. done k m) (omega arith),
    RangeMapped-zero ps curr paddr permissions m t r,
    omega arith,
  )
  map_loop-RangeMapped (suc rounds) curr paddr permissions total ps m ac ap' uc up perm low high s t
        r =
      let small : curr < 2 ^ 32 = omega arith in
      let d = pd_index_lem curr small in
      let b = absent m.memory directory (pd_index curr) in
      let l : lo ≤ pd_index curr = omega (arith, d) in
      let u : pd_index curr < hi = omega (arith, d) in
      let one =
        vm_map_page-PageMapped laws registry directory lo hi curr paddr permissions ps m
          (is_aligned curr ac) (is_aligned paddr ap') (omega arith) perm l u
          (need-Supplied rounds curr b ps s) t r in
      let n = one.0 in
      let step =
        need-suc rounds curr b (absent n.memory directory (pd_index (curr + 4096)))
          (λ e. rw (same_table curr small e) one.2.there) in
      let rest =
        map_loop-RangeMapped rounds (curr + 4096) (u32 (paddr + 4096)) permissions (total + 1)
          (remaining b ps) n (omega arith) (omega arith) (omega arith) (omega arith) perm
          (omega arith) (omega arith) (omega (arith, step, length-remaining b ps, s)) one.2.tables
          one.2.ready in
      (
        rest.0,
        rest.1,
        rw one.1 (rest.2 ∙ ap (λ k. done k rest.1) (omega arith)),
        RangeMapped-suc (remaining b ps) rest.0 rounds curr paddr permissions m n rest.1 ac uc up l
            u one.2 rest.3,
        omega (arith, step, length-remaining b ps, rest.4),
      )
