-- ===== src/Ports/Registry.antt =====
-- What `serial_init_port` leaves in `serial_ports_`.
use yack.Common.{
  ◌+◌, ◌≤◌, ℕ, ◌^◌, ◌<◌, ◌≡◌, ◌≢◌, refl, ap, sym, ◌∙◌, arith, true, List, [], ◌∷◌, ◌==◌,
  if◌then◌else◌, length, set, get_or, length-set, u8, u16, some, inl, inr, ◌⊎◌, Bool-cases, ==_iff,
}
use mathlib.Core.Bool.{true≢false}
use yack.Machine.{Machine, Event, Outcome, done, Kernel, change, inb, outb, port_read}
use yack.Serial.{serial_config_baud_rate, serial_config_line, line_status_port}
use yack.Format.{Arg, word, codes, plain}
use yack.Format.Room.{room, AreWords}
use yack.Io.{klog}
use yack.Io.Logged.{IsReady, klog-Logged}
use yack.Io.Stores.{retable-IsReady}
use yack.Ports.{
  Search, found, free, full, search_port, try_port, init_at, serial_init_port, has_port,
}
use yack.Io.Spared.{Spared, Spared-trans, Logged-Spared, retable-Spared}
use yack.Ports.Places.{
  SearchLaw, search_port-law, has_port-set, has_port-set_self, has_port-set_other, free_places,
  free_places-set,
}

-- The search finds the port, or a free place.
abbrev pub HasRoom : ℕ → List ℕ → Type 0
HasRoom port ports = (has_port port ports ≡ true) ⊎ (has_port 0 ports ≡ true)

-- What `serial_init_port` leaves: output can go on, the default port is as before, and no port is
-- forgotten.
pub record Inited (m n : Machine) : Type 0 where
  pub ready : IsReady n
  pub default_port : n.serial_default_port ≡ m.serial_default_port
  pub size : length n.serial_ports ≡ length m.serial_ports
  pub places : free_places m.serial_ports ≤ free_places n.serial_ports + 1
  pub remembers :
      (q : ℕ) → q ≢ 0 → has_port q m.serial_ports ≡ true → has_port q n.serial_ports ≡ true
  pub spared : Spared m n

-- A message leaves the ports.
klog-Inited :
    (level fmt : List ℕ) (args : List Arg) (n : ℕ) (m : Machine)
    → length level < 100
    → room plain fmt args ≡ some n
    → n < 4096
    → AreWords args
    → IsReady m
    → (k : Machine) × (klog level fmt args m ≡ done tt k)
      × Inited m k
      × (k.serial_ports ≡ m.serial_ports)
klog-Inited level fmt args n m short e small ws r =
    let l = klog-Logged level fmt args n m short e small ws r in
    (
      l.after,
      l.returns,
      record {
        ready = l.ready;
        default_port = l.kept.serial_default_port;
        size = ap length l.kept.serial_ports;
        places = omega (arith, ap free_places l.kept.serial_ports);
        remembers = λ q nz h. ap (has_port q) l.kept.serial_ports ∙ h;
        spared = Logged-Spared l;
      },
      l.kept.serial_ports,
    )

-- The end of `serial_init_port` at a free place.
abbrev configured : (port : ℕ) → Machine → Machine
configured port m = serial_config_line port (serial_config_baud_rate port 12 m)

configured-history :
    (port : ℕ) (m : Machine) → (h : List Event) × (configured port m ≡ record m { history = h })
unfolding serial_config_line serial_config_baud_rate outb
configured-history port m = (_, refl)

same-IsReady : (h : List Event) (m : Machine) → IsReady m → IsReady (record m { history = h })
same-IsReady h m r =
    retable-IsReady m.serial_ports m.trap_counter m.last_trapno m.trap_table m.trap_callback_table
      m.gdt h m r

abbrev last_step : (port i status : ℕ) → Kernel (Unit {0})
last_step port i status =
    if status == 0xFF
    then klog (codes "DEBUG") (codes "Port %p not available\n") (word port ∷ [])
    else change (λ m. record m { serial_ports = set m.serial_ports i port })

try_port_lem :
    (port i : ℕ) (m : Machine)
    → (h : List Event) × (try_port port i m
        ≡ last_step port i
            (u8 (m.device h (u16 (line_status_port port))))
            (record m { history = port_read (u16 (line_status_port port)) ∷ h }))
unfolding try_port serial_config_line serial_config_baud_rate outb inb
try_port_lem port i m = (_, refl)

last_step-Inited :
    (port i status : ℕ) (m : Machine)
    → port < 2 ^ 32
    → get_or m.serial_ports i 1 ≡ 0
    → IsReady m
    → (n : Machine) × (last_step port i status m ≡ done tt n)
      × Inited m n
      × (((status ≡ 0xFF) × (n.serial_ports ≡ m.serial_ports))
          ⊎ (n.serial_ports ≡ set m.serial_ports i port))
last_step-Inited port i status m small free_at r = elim (Bool-cases (status == 0xFF)) [
  | inl e ↦
      let k =
        klog-Inited (codes "DEBUG") (codes "Port %p not available\n") (word port ∷ []) 37 m
          (omega arith) (unfold room in refl) (omega arith) (small, tt) r in
      rw e (k.0, k.1, k.2, inl ((==_iff status 0xFF).0 e, k.3))
  | inr ne ↦ rw ne (
    record m { serial_ports = set m.serial_ports i port },
    refl,
    record {
      ready =
          retable-IsReady (set m.serial_ports i port) m.trap_counter m.last_trapno m.trap_table
            m.trap_callback_table m.gdt m.history m r;
      default_port = refl;
      size = length-set m.serial_ports i port;
      places = free_places-set m.serial_ports i port;
      remembers = λ q nz h. has_port-set m.serial_ports i port q nz free_at h;
      spared = retable-Spared (set m.serial_ports i port) m.gdt m.history m;
    },
    inr refl,
  )
]

-- The line status register of the port never reads as 0xFF: there is a chip behind it.
abbrev pub IsPresent : ℕ → Machine → Type 0
IsPresent port m = (h : List Event) → u8 (m.device h (u16 (line_status_port port))) ≢ 0xFF

abbrev Ends : (port : ℕ) (m : Machine) → Outcome (Unit {0}) → Type 0
Ends port m o =
    (n : Machine) × (o ≡ done tt n)
    × Inited m n
    × (HasRoom port m.serial_ports → IsPresent port m → has_port port n.serial_ports ≡ true)
    × ((q : ℕ) → q ≢ 0 → q ≢ port → has_port q n.serial_ports ≡ has_port q m.serial_ports)

init_at-Ends :
    (port : ℕ) (m : Machine) (s : Search)
    → port < 2 ^ 16
    → SearchLaw m.serial_ports port 0 s
    → IsReady m
    → Ends port m (init_at port s m)
unfolding SearchLaw init_at
init_at-Ends port m (found i) small law r =
    let k =
      klog-Inited (codes "DEBUG") (codes "Port %p was already initialized\n") (word port ∷ []) 47 m
        (omega arith) (unfold room in refl) (omega arith) (omega arith, tt) r in
    (k.0, k.1, k.2, (λ _ _. ap (has_port port) k.3 ∙ law), λ q nz ne. ap (has_port q) k.3)
init_at-Ends port m (free i) small (k, same, inside, blank) r =
    let t = try_port_lem port i m in
    let past = port_read (u16 (line_status_port port)) ∷ t.0 in
    let status = u8 (m.device t.0 (u16 (line_status_port port))) in
    let same' : i ≡ k = omega arith in
    let l =
      last_step-Inited port i status (record m { history = past }) (omega arith) (rw same' blank)
        (same-IsReady past m r) in
    (
      l.0,
      t.1 ∙ l.1,
      record {
        ready = l.2.ready;
        default_port = l.2.default_port;
        size = l.2.size;
        places = l.2.places;
        remembers = l.2.remembers;
        spared = Spared-trans (retable-Spared m.serial_ports m.gdt past m) l.2.spared;
      },
      (λ _ present. elim l.3 [
        | inl e ↦ absurd (present t.0 e.0)
        | inr e ↦ ap (has_port port) e ∙ has_port-set_self m.serial_ports i port (rw same' inside)
      ]),
      λ q nz ne. elim l.3 [
        | inl e ↦ ap (has_port q) e.1
        | inr e ↦
            ap (has_port q) e ∙ has_port-set_other m.serial_ports i port q nz ne (rw same' blank)
      ],
    )
init_at-Ends port m full small law r =
    let k =
      klog-Inited (codes "KWARN") (codes "No available space to init another COM port.\n") [] 45 m
        (omega arith) (unfold room in refl) (omega arith) tt r in
    (
      k.0,
      k.1,
      k.2,
      (λ room_for _. elim room_for [
        | inl e ↦ ap (has_port port) k.3 ∙ e
        | inr e ↦ absurd (true≢false (sym e ∙ law))
      ]),
      λ q nz ne. ap (has_port q) k.3,
    )

pub serial_init_port-Ends :
    (port : ℕ) (m : Machine) → port < 2 ^ 16 → IsReady m → Ends port m (serial_init_port port m)
unfolding serial_init_port
serial_init_port-Ends port m small r =
    init_at-Ends port m (search_port port 0 m.serial_ports) small
      (search_port-law m.serial_ports port 0) r

-- On a machine that is ready for output `serial_init_port` returns for each port of 16 bits,
-- ready for more output, keeps the default port, the size of the registry, the tables of the
-- traps and all memory outside the screen, and forgets no port.
pub serial_init_port-Inited :
    (port : ℕ) (m : Machine)
    → port < 2 ^ 16
    → IsReady m
    → (n : Machine) × (serial_init_port port m ≡ done tt n) × Inited m n
serial_init_port-Inited port m small r =
    let e = serial_init_port-Ends port m small r in (e.0, e.1, e.2)

-- A port of 16 bits behind which there is a chip, that is registered or has a free place in the
-- registry, is registered once `serial_init_port` returns, on a machine that is ready for output.
serial_init_port-has_port :
    (port : ℕ) (m : Machine)
    → port < 2 ^ 16
    → HasRoom port m.serial_ports
    → IsPresent port m
    → IsReady m
    → (n : Machine) × (serial_init_port port m ≡ done tt n) × (has_port port n.serial_ports ≡ true)
serial_init_port-has_port port m small space present r =
    let e = serial_init_port-Ends port m small r in (e.0, e.1, e.3 space present)
