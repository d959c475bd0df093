-- ===== src/Pages/Alloc.antt =====
-- `kpalloc` takes the page that was freed first, and `kpfree` puts a page behind the others.
use yack.Common.{
  ℕ, ◌+◌, ◌-◌, ◌%◌, ◌≤◌, ◌<◌, ◌≡◌, ◌≢◌, ◌⊎◌, refl, sym, ◌∙◌, arith, List, [], ◌∷◌, ◌++◌, ◌==◌,
  ==_iff, true, false,
}
use yack.Memory.{Memory, load32, store32}
use yack.Memory.Laws.{load32-store32_self, store32_outside}
use yack.Memory.Region.{Apart, load32-same}
use yack.Layout.{is_page_aligned}
use yack.Screen.{buffer}
use yack.Machine.{Machine, done}
use yack.Io.{kassert}
use yack.Pages.{ListOps, magic, kpalloc, kpfree}
use yack.Pages.Lists.{OffNodes, ListLaws}
use yack.Pages.Queue.{
  IsPage, NotIn, ArePages, nodes, Magics, OffPages, all-AreNodes, nodes-append, Free, Free-Outside,
  OffPages-screen,
}

-- `q` is no byte of the registry or of the pages.
abbrev pub OffOwn : (registry : ℕ) → List ℕ → ℕ → Type 0
OffOwn registry [] q = (q < registry) ⊎ (registry + 8 ≤ q)
OffOwn registry (p ∷ ps) q = ((q < p) ⊎ (p + 4096 ≤ q)) × OffOwn registry ps q

pub region-OffOwn :
    (registry a room q : ℕ) (ps : List ℕ)
    → Apart a room registry 8
    → OffPages a room ps
    → a ≤ q
    → q < a + room
    → OffOwn registry ps q
region-OffOwn registry a room q [] r o l u = omega arith
region-OffOwn registry a room q (p ∷ ps) r (o, os) l u =
    (omega arith, region-OffOwn registry a room q ps r os l u)

-- The screen is no part of them.
pub screen-OffOwn :
    (registry q : ℕ) (ps : List ℕ)
    → Apart buffer 4000 registry 8
    → ArePages registry ps
    → buffer ≤ q
    → q < buffer + 4000
    → OffOwn registry ps q
screen-OffOwn registry q ps h a l u =
    region-OffOwn registry buffer 4000 q ps h (OffPages-screen registry ps a) l u

pub OffOwn-OffNodes :
    (registry q : ℕ) (ps : List ℕ) → OffOwn registry ps q → OffNodes (registry ∷ nodes ps) q
OffOwn-OffNodes registry q [] o = (o, tt)
OffOwn-OffNodes registry q (p ∷ ps) (o, os) =
    let rest = OffOwn-OffNodes registry q ps os in (rest.0, (omega arith, rest.1))

-- The magic number of a page is no part of the links of the pages.
magic_off :
    (registry x q : ℕ) (ps : List ℕ)
    → x % 4096 ≡ 0
    → ArePages registry ps
    → x ≤ q
    → q < x + 4
    → OffNodes (nodes ps) q
magic_off registry x q [] h a l u = tt
magic_off registry x q (y ∷ ys) h (iy, ry, ny, a) l u =
    (apart x y q h iy.0 l u, magic_off registry x q ys h a l u)
  where
    apart :
        (x y q : ℕ)
        → x % 4096 ≡ 0
        → y % 4096 ≡ 0
        → x ≤ q
        → q < x + 4
        → (q < y + 4) ⊎ (y + 4 + 8 ≤ q)
    apart x y q hx hy l u = ground arith

-- A change of the registry and of the links of `all` leaves the magic numbers.
Magics-links :
    (registry : ℕ) (all ps : List ℕ) (m m' : Memory)
    → ArePages registry all
    → ((q : ℕ) → OffNodes (registry ∷ nodes all) q → m' q ≡ m q)
    → ArePages registry ps
    → Magics m ps
    → Magics m' ps
Magics-links registry all [] m m' aa same a g = tt
Magics-links registry all (p ∷ ps) m m' aa same (ip, rp, n, a) (g, gs) = (
  load32-same p m m' (λ q l u. same q (omega arith, magic_off registry p q all ip.0 aa l u)) ∙ g,
  Magics-links registry all ps m m' aa same a gs,
)

NotIn-append : (x p : ℕ) (ps : List ℕ) → NotIn x ps → x ≢ p → NotIn x (ps ++ p ∷ [])
NotIn-append x p [] n ne = (ne, tt)
NotIn-append x p (y ∷ ys) (n, ns) ne = (n, NotIn-append x p ys ns ne)

ArePages-append :
    (registry p : ℕ) (ps : List ℕ)
    → IsPage p
    → Apart registry 8 p 4096
    → NotIn p ps
    → ArePages registry ps
    → ArePages registry (ps ++ p ∷ [])
ArePages-append registry p [] ip rp n a = (ip, rp, tt, tt)
ArePages-append registry p (x ∷ xs) ip rp (ne, n) (ix, rx, nx, a) =
    (ix, rx, NotIn-append x p xs nx (λ e. ne (sym e)), ArePages-append registry p xs ip rp n a)

Magics-append :
    (m : Memory) (p : ℕ) (ps : List ℕ) → load32 m p ≡ magic → Magics m ps → Magics m (ps ++ p ∷ [])
Magics-append m p [] g gs = (g, tt)
Magics-append m p (x ∷ xs) g (h, gs) = (h, Magics-append m p xs g gs)

-- Another page shares no byte with the pages of the list.
pub NotIn-OffPages :
    (registry p : ℕ) (ps : List ℕ)
    → p % 4096 ≡ 0
    → NotIn p ps
    → ArePages registry ps
    → OffPages p 4096 ps
NotIn-OffPages registry p [] h n a = tt
NotIn-OffPages registry p (x ∷ xs) h (ne, n) (ix, rx, nx, a) =
    (apart p x h ix.0 ne, NotIn-OffPages registry p xs h n a)
  where
    apart : (a b : ℕ) → a % 4096 ≡ 0 → b % 4096 ≡ 0 → a ≢ b → Apart a 4096 b 4096
    apart a b x y ne = ground arith

-- The bytes of the pages behind their links.
inner_off :
    (registry q : ℕ) (ps : List ℕ) → ArePages registry ps → 12 ≤ q % 4096 → OffNodes (nodes ps) q
inner_off registry q [] a h = tt
inner_off registry q (p ∷ ps) (ip, rp, n, a) h = (apart p ip.0 h, inner_off registry q ps a h)
  where
    apart : (p : ℕ) → p % 4096 ≡ 0 → 12 ≤ q % 4096 → (q < p + 4) ⊎ (p + 4 + 8 ≤ q)
    apart p hp h = ground arith

-- A smaller region, inside.
pub OffPages-inside :
    (start size a room : ℕ) (ps : List ℕ)
    → start ≤ a
    → a + room ≤ start + size
    → OffPages start size ps
    → OffPages a room ps
OffPages-inside start size a room [] l u o = tt
OffPages-inside start size a room (p ∷ ps) l u (o, os) =
    (omega arith, OffPages-inside start size a room ps l u os)

module _ {lists : ListOps} (laws : ListLaws lists) (registry : ℕ) where
  -- With the page `p` in front the allocation returns it, and leaves the others; it changes no
  -- byte but the links.
  pub kpalloc-Free :
      (p : ℕ) (ps : List ℕ) (m : Machine)
      → Free laws registry (p ∷ ps) m.memory
      → (memory : Memory) × (kpalloc lists registry m ≡ done p (record m { memory = memory }))
        × Free laws registry ps memory
        × ((q : ℕ) → OffNodes (registry ∷ nodes (p ∷ ps)) q → memory q ≡ m.memory q)
  unfolding kpalloc kassert
  kpalloc-Free p ps m f =
      let all = all-AreNodes registry (p ∷ ps) f.head f.pages in
      let taken = lists.del (p + 4) m.memory in
      let same : (q : ℕ) → OffNodes (registry ∷ nodes (p ∷ ps)) q → taken q ≡ m.memory q =
        λ q o. laws.del_outside registry (p + 4) (nodes ps) m.memory q all f.holds o in
      let ms =
        Magics-links registry (p ∷ ps) (p ∷ ps) m.memory taken f.pages same f.pages f.magics in
      let first = laws.first-cons registry (p + 4) (nodes ps) m.memory all f.holds in
      let entry : (p + 4 == 0) ≡ false = ground arith in
      let page : p + 4 - 4 ≡ p = omega arith in
      let not_null : (p == 0) ≡ false = ground (arith, f.pages.0.1) in
      let good : (load32 taken p == magic) ≡ true = (==_iff (load32 taken p) magic).1 ms.0 in
      (
        taken,
        rw (first, entry, page) (rw not_null (rw good refl)),
        record {
          head = f.head;
          head_off = f.head_off;
          pages = f.pages.3;
          holds = laws.del-Holds registry (p + 4) (nodes ps) m.memory all f.holds;
          magics = ms.1;
        },
        same,
      )

  -- Without a free page the allocation works on the links at address 4, and returns 0.
  pub kpalloc_none :
      (m : Machine)
      → Free laws registry [] m.memory
      → kpalloc lists registry m ≡ done 0 (record m { memory = lists.del 4 m.memory })
  unfolding kpalloc kassert
  kpalloc_none m f = rw (laws.first-nil registry m.memory f.holds) refl

  -- Freeing another page puts it behind the pages of the list, and changes no byte outside the
  -- registry and the pages, the new one included, and none of the pages behind their links.
  pub kpfree-Free :
      (p : ℕ) (ps : List ℕ) (m : Machine)
      → IsPage p
      → Apart registry 8 p 4096
      → NotIn p ps
      → Free laws registry ps m.memory
      → (memory : Memory) × (kpfree lists registry p m ≡ done tt (record m { memory = memory }))
        × Free laws registry (ps ++ p ∷ []) memory
        × ((q : ℕ) → OffOwn registry (p ∷ ps) q → memory q ≡ m.memory q)
        × ((q : ℕ) → (q < registry) ⊎ (registry + 8 ≤ q) → 12 ≤ q % 4096 → memory q ≡ m.memory q)
  unfolding kpfree kassert is_page_aligned
  kpfree-Free p ps m ip rp n f =
      let marked = store32 m.memory p magic in
      let linked = lists.add_tail (p + 4) registry marked in
      let small =
        OffPages-inside p 4096 p 4 ps (omega arith) (omega arith)
          (NotIn-OffPages registry p ps ip.0 n f.pages) in
      let before =
        Free-Outside registry ps p 4 m.memory marked (λ q o. store32_outside m.memory p magic q o)
          small (omega arith) f in
      let whole : ArePages registry (p ∷ ps) = (ip, rp, n, f.pages) in
      let all = all-AreNodes registry (p ∷ ps) f.head whole in
      let same : (q : ℕ) → OffNodes (registry ∷ nodes (p ∷ ps)) q → linked q ≡ marked q =
        λ q o. laws.add_tail_outside registry (p + 4) (nodes ps) marked q all before.holds o in
      let ms =
        Magics-links registry (p ∷ ps) (p ∷ ps) marked linked whole same whole
          (load32-store32_self m.memory p magic (omega arith), before.magics) in
      let ne : (p == 0) ≡ false = ground arith in
      let aligned : (p % 4096 == 0) ≡ true = (==_iff (p % 4096) 0).1 ip.0 in
      (
        linked,
        rw (ne, aligned) refl,
        record {
          head = f.head;
          head_off = f.head_off;
          pages = ArePages-append registry p ps ip rp n f.pages;
          holds =
              rw (nodes-append ps p)
                (laws.add_tail-Holds registry (p + 4) (nodes ps) marked all before.holds);
          magics = Magics-append linked p ps ms.0 ms.1;
        },
        λ q o.
            same q (OffOwn-OffNodes registry q (p ∷ ps) o)
            ∙ store32_outside m.memory p magic q (omega arith),
        λ q o h.
            same q (o, inner_off registry q (p ∷ ps) whole h)
            ∙ store32_outside m.memory p magic q (inner p q ip.0 h),
      )
    where
      inner : (p q : ℕ) → p % 4096 ≡ 0 → 12 ≤ q % 4096 → (q < p) ⊎ (p + 4 ≤ q)
      inner p q hp h = ground arith
