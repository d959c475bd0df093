-- ===== src/Ports/Known.antt =====
-- The registry of `serial_init_port` as a set of ports, whatever their places.
use yack.Common.{
  ℕ, ◌^◌, ◌≤◌, ◌<◌, ◌≡◌, ◌≢◌, refl, sym, ap, ◌∙◌, arith, true, List, ◌∷◌, ◌==◌, ==_iff, inl, inr,
  Bool-cases,
}
use mathlib.Core.Quot
use mathlib.Core.Quot.{Quot, Quot-set}
use yack.Machine.{Machine, done, ◌>>◌}
use yack.Io.Logged.{IsReady}
use yack.Ports.{serial_init_port, has_port}
use yack.Ports.Places.{free_places, free_places-has_port}
use yack.Ports.Registry.{HasRoom, IsPresent, Inited, serial_init_port-Ends}

-- Two lists have the same ports; 0 is a free place.
abbrev pub SamePorts : List ℕ → List ℕ → Type 0
SamePorts xs ys = (q : ℕ) → q ≢ 0 → has_port q xs ≡ has_port q ys

abbrev pub Known : Type 0
Known = Quot SamePorts

-- The ports that a machine knows.
abbrev pub known : Machine → Known
known m = Quot.mk m.serial_ports

SamePorts-cons : (p : ℕ) (xs ys : List ℕ) → SamePorts xs ys → SamePorts (p ∷ xs) (p ∷ ys)
unfolding has_port
SamePorts-cons p xs ys h q nz = elim (Bool-cases (p == q)) [
  | inl e ↦ rw e refl
  | inr ne ↦ rw ne (h q nz)
]

pub add : ℕ → Known → Known
add p =
    Quot.lift Quot-set (λ xs. Quot.mk (p ∷ xs)) (λ xs ys h. Quot.sound (SamePorts-cons p xs ys h))

add_comm : (a b : ℕ) (k : Known) → add a (add b k) ≡ add b (add a k)
unfolding add has_port
add_comm a b = Quot.ind (λ k. Quot-set _ _) (λ xs. Quot.sound (λ q nz. ground arith))

-- What a list of ports has that is to be another one with one port more.
added :
    (p q : ℕ) (xs ys : List ℕ)
    → has_port p ys ≡ true
    → (q ≢ p → has_port q ys ≡ has_port q xs)
    → has_port q ys ≡ has_port q (p ∷ xs)
unfolding has_port
added p q xs ys h others = elim (Bool-cases (p == q)) [
  | inl e ↦ let same : p ≡ q = (==_iff p q).0 e in rw e (ap (λ x. has_port x ys) (sym same) ∙ h)
  | inr ne ↦ rw ne (others (λ e. absurd (ground arith)))
]

-- On a machine that is ready for output, for a port of 16 bits behind which there is a chip, and
-- that is registered or has a free place in the registry: `serial_init_port` returns and adds the
-- port to the set of ports that the machine knows, the registry up to the places of its ports; it
-- is ready for more output, keeps the default port, the size of the registry, the tables of the
-- traps and all memory outside the screen, takes one free place at most and forgets no port.
pub serial_init_port-add :
    (port : ℕ) (m : Machine)
    → port < 2 ^ 16
    → HasRoom port m.serial_ports
    → IsPresent port m
    → IsReady m
    → (n : Machine) × (serial_init_port port m ≡ done tt n)
      × Inited m n
      × (known n ≡ add port (known m))
unfolding add
serial_init_port-add port m small space present r =
    let e = serial_init_port-Ends port m small r in
    (
      e.0,
      e.1,
      e.2,
      Quot.sound
          (λ q nz. added port q m.serial_ports e.0.serial_ports (e.3 space present) (e.4 q nz)),
    )

-- One port after the other.
both-add :
    (a b : ℕ) (m : Machine)
    → a < 2 ^ 16
    → b < 2 ^ 16
    → 2 ≤ free_places m.serial_ports
    → IsPresent a m
    → IsPresent b m
    → IsReady m
    → (n : Machine) × ((serial_init_port a >> serial_init_port b) m ≡ done tt n)
      × (known n ≡ add b (add a (known m)))
both-add a b m sa sb two pa pb r =
    let first =
      serial_init_port-add a m sa (inr (free_places-has_port m.serial_ports (omega arith))) pa r in
    let n = first.0 in
    let second =
      serial_init_port-add b n sb
        (inr (free_places-has_port n.serial_ports (omega (arith, first.2.places))))
        (λ h. rw first.2.spared.device (pb h)) first.2.ready in
    (second.0, rw first.1 second.1, second.3 ∙ ap (add b) first.3)

-- On a machine that is ready for output and has two free places in its registry, for two ports of
-- 16 bits, each with a chip behind it: `serial_init_port` for one and then for the other returns
-- in either order, and the machine knows the same set of ports after both.
pub serial_init_port_comm :
    (a b : ℕ) (m : Machine)
    → a < 2 ^ 16
    → b < 2 ^ 16
    → 2 ≤ free_places m.serial_ports
    → IsPresent a m
    → IsPresent b m
    → IsReady m
    → (n k : Machine) × ((serial_init_port a >> serial_init_port b) m ≡ done tt n)
      × ((serial_init_port b >> serial_init_port a) m ≡ done tt k)
      × (known n ≡ known k)
serial_init_port_comm a b m sa sb two pa pb r =
    let ab = both-add a b m sa sb two pa pb r in
    let ba = both-add b a m sb sa two pb pa r in
    (ab.0, ba.0, ab.1, ba.1, ab.2 ∙ add_comm b a (known m) ∙ sym ba.2)
