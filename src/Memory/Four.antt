-- ===== src/Memory/Four.antt =====
-- Memory after four words have been written one after another, as the functions on lists do.
use yack.Common.{ℕ, ◌+◌, ◌^◌, ◌≤◌, ◌<◌, ◌≡◌, ◌⊎◌, ◌∙◌}
use yack.Memory.{Memory, load32, store32}
use yack.Memory.Laws.{load32-store32_self, load32-store32_ne, store32_outside}
use yack.Memory.Region.{Apart}

-- Four words are written, and others are read as before.
abbrev pub four : (a x b y c z d w : ℕ) → Memory → Memory
four a x b y c z d w m = store32 (store32 (store32 (store32 m a x) b y) c z) d w

pub four_ne :
    (a x b y c z d w r : ℕ) (m : Memory)
    → Apart a 4 r 4
    → Apart b 4 r 4
    → Apart c 4 r 4
    → Apart d 4 r 4
    → load32 (four a x b y c z d w m) r ≡ load32 m r
four_ne a x b y c z d w r m ha hb hc hd =
    load32-store32_ne (store32 (store32 (store32 m a x) b y) c z) d r w hd
    ∙ load32-store32_ne (store32 (store32 m a x) b y) c r z hc
    ∙ load32-store32_ne (store32 m a x) b r y hb
    ∙ load32-store32_ne m a r x ha

pub four_outside :
    (a x b y c z d w q : ℕ) (m : Memory)
    → (q < a) ⊎ (a + 4 ≤ q)
    → (q < b) ⊎ (b + 4 ≤ q)
    → (q < c) ⊎ (c + 4 ≤ q)
    → (q < d) ⊎ (d + 4 ≤ q)
    → four a x b y c z d w m q ≡ m q
four_outside a x b y c z d w q m ha hb hc hd =
    store32_outside (store32 (store32 (store32 m a x) b y) c z) d w q hd
    ∙ store32_outside (store32 (store32 m a x) b y) c z q hc
    ∙ store32_outside (store32 m a x) b y q hb
    ∙ store32_outside m a x q ha

-- What the four words read as, if no later write covers them.
pub four_a :
    (a x b y c z d w : ℕ) (m : Memory)
    → x < 2 ^ 32
    → Apart b 4 a 4
    → Apart c 4 a 4
    → Apart d 4 a 4
    → load32 (four a x b y c z d w m) a ≡ x
four_a a x b y c z d w m small hb hc hd =
    load32-store32_ne (store32 (store32 (store32 m a x) b y) c z) d a w hd
    ∙ load32-store32_ne (store32 (store32 m a x) b y) c a z hc
    ∙ load32-store32_ne (store32 m a x) b a y hb
    ∙ load32-store32_self m a x small

pub four_b :
    (a x b y c z d w : ℕ) (m : Memory)
    → y < 2 ^ 32
    → Apart c 4 b 4
    → Apart d 4 b 4
    → load32 (four a x b y c z d w m) b ≡ y
four_b a x b y c z d w m small hc hd =
    load32-store32_ne (store32 (store32 (store32 m a x) b y) c z) d b w hd
    ∙ load32-store32_ne (store32 (store32 m a x) b y) c b z hc
    ∙ load32-store32_self (store32 m a x) b y small

pub four_c :
    (a x b y c z d w : ℕ) (m : Memory)
    → z < 2 ^ 32
    → Apart d 4 c 4
    → load32 (four a x b y c z d w m) c ≡ z
four_c a x b y c z d w m small hd =
    load32-store32_ne (store32 (store32 (store32 m a x) b y) c z) d c w hd
    ∙ load32-store32_self (store32 (store32 m a x) b y) c z small

pub four_d : (a x b y c z d w : ℕ) (m : Memory) → w < 2 ^ 32 → load32 (four a x b y c z d w m) d ≡ w
four_d a x b y c z d w m small =
    load32-store32_self (store32 (store32 (store32 m a x) b y) c z) d w small
