-- ===== src/Ports/Places.antt =====
-- The search of kernel/drivers/serial.c through `serial_ports_`.
use yack.Common.{
  ℕ, zero, suc, ◌+◌, ◌≤◌, ◌<◌, ◌≡◌, ◌≢◌, refl, sym, ◌∙◌, arith, true, false, List, [], ◌∷◌, ◌==◌,
  if◌then◌else◌, length, set, get_or, inl, inr, Bool-cases, ==_iff,
}
use yack.Ports.{Search, found, free, full, search_port, has_port}

-- What a search from the place `i` on says of the ports that it goes through.
unfoldable pub SearchLaw : (ports : List ℕ) (port i : ℕ) → Search → Type 0
SearchLaw ports port i (found j) = has_port port ports ≡ true
SearchLaw ports port i (free j) =
    (k : ℕ) × (j ≡ i + k) × (k < length ports) × (get_or ports k 1 ≡ 0)
SearchLaw ports port i full = has_port 0 ports ≡ false

search_port-lift :
    (p : ℕ) (ports : List ℕ) (port i : ℕ) (s : Search)
    → (p == 0) ≡ false
    → SearchLaw ports port (i + 1) s
    → SearchLaw (p ∷ ports) port i s
unfolding SearchLaw has_port
search_port-lift p ports port i (found j) z law = elim (Bool-cases (p == port)) [
  | inl e ↦ rw e refl
  | inr ne ↦ rw ne law
]
search_port-lift p ports port i (free j) z (k, e, l, g) = (suc k, omega arith, omega arith, g)
search_port-lift p ports port i full z law = rw z law

search_port-cons :
    (p : ℕ) (ports : List ℕ) (port i : ℕ)
    → search_port port i (p ∷ ports)
      ≡ (if p == 0 then free i else if p == port then found i else search_port port (i + 1) ports)
unfolding search_port
search_port-cons p ports port i = elim (Bool-cases (p == 0)) [
  | inl e ↦ rw (e, search_port) refl
  | inr ne ↦ elim (Bool-cases (p == port)) [
    | inl e ↦ rw (ne, e, search_port) refl
    | inr ne' ↦ rw (ne, ne', search_port) refl
  ]
]

pub search_port-law :
    (ports : List ℕ) (port i : ℕ) → SearchLaw ports port i (search_port port i ports)
unfolding SearchLaw
search_port-law [] port i = unfold search_port has_port in refl
search_port-law (p ∷ ports) port i =
    rw (search_port-cons p ports port i) (elim (Bool-cases (p == 0)) [
      | inl e ↦ rw e (0, omega arith, omega arith, (==_iff p 0).0 e)
      | inr ne ↦ elim (Bool-cases (p == port)) [
        | inl e ↦ rw (ne, e) (unfold has_port in rw e refl)
        | inr ne' ↦
            rw (ne, ne')
              (search_port-lift p ports port i (search_port port (i + 1) ports) ne
                (search_port-law ports port (i + 1)))
      ]
    ])

has_port-tail :
    (p q : ℕ) (ports : List ℕ) → (p == q) ≡ false → has_port q (p ∷ ports) ≡ has_port q ports
unfolding has_port
has_port-tail p q ports ne = rw ne refl

-- Another port put in a free place hides no port.
pub has_port-set :
    (ports : List ℕ) (k v q : ℕ)
    → q ≢ 0
    → get_or ports k 1 ≡ 0
    → has_port q ports ≡ true
    → has_port q (set ports k v) ≡ true
unfolding has_port
has_port-set [] k v q nz z h = h
has_port-set (p ∷ ports) zero v q nz z h = elim (Bool-cases (p == q)) [
  | inl e ↦ absurd (nz (sym ((==_iff p q).0 e) ∙ z))
  | inr ne ↦ elim (Bool-cases (v == q)) [
    | inl e ↦ rw e refl
    | inr ne' ↦ rw ne' (sym (has_port-tail p q ports ne) ∙ h)
  ]
]
has_port-set (p ∷ ports) (suc k) v q nz z h = elim (Bool-cases (p == q)) [
  | inl e ↦ rw e refl
  | inr ne ↦ rw ne (has_port-set ports k v q nz z (sym (has_port-tail p q ports ne) ∙ h))
]

pub has_port-set_self :
    (ports : List ℕ) (k v : ℕ) → k < length ports → has_port v (set ports k v) ≡ true
unfolding has_port
has_port-set_self [] k v h = absurd (omega arith)
has_port-set_self (p ∷ ports) zero v h = rw ((==_iff v v).1 refl) refl
has_port-set_self (p ∷ ports) (suc k) v h = elim (Bool-cases (p == v)) [
  | inl e ↦ rw e refl
  | inr ne ↦ rw ne (has_port-set_self ports k v (omega arith))
]

-- And shows no other port.
pub has_port-set_other :
    (ports : List ℕ) (k v q : ℕ)
    → q ≢ 0
    → q ≢ v
    → get_or ports k 1 ≡ 0
    → has_port q (set ports k v) ≡ has_port q ports
unfolding has_port
has_port-set_other [] k v q nz nv z = refl
has_port-set_other (p ∷ ports) zero v q nz nv z =
    let hidden : (v == q) ≡ false = ground arith in
    let blank : (p == q) ≡ false = ground arith in rw (hidden, blank) refl
has_port-set_other (p ∷ ports) (suc k) v q nz nv z = elim (Bool-cases (p == q)) [
  | inl e ↦ rw e refl
  | inr ne ↦ rw ne (has_port-set_other ports k v q nz nv z)
]

-- How many places are free; a port takes one at most.
unfoldable pub free_places : List ℕ → ℕ
free_places [] = 0
free_places (p ∷ ports) = (if p == 0 then 1 else 0) + free_places ports

pub free_places-set :
    (ports : List ℕ) (k v : ℕ) → free_places ports ≤ free_places (set ports k v) + 1
unfolding free_places
free_places-set [] k v = omega arith
free_places-set (p ∷ ports) zero v = ground arith
free_places-set (p ∷ ports) (suc k) v = omega (arith, free_places-set ports k v)

pub free_places-has_port : (ports : List ℕ) → 0 < free_places ports → has_port 0 ports ≡ true
unfolding free_places has_port
free_places-has_port [] h = absurd (omega arith)
free_places-has_port (p ∷ ports) h = elim (Bool-cases (p == 0)) [
  | inl e ↦ rw e refl
  | inr ne ↦ rw ne (free_places-has_port ports (ground (arith, h, ne)))
]
