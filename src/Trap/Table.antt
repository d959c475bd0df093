-- ===== src/Trap/Table.antt =====
-- The gates of arch/i386/trap.c and their callbacks, filled by the loop of `trap_init`.
use yack.Common.{
  ℕ, zero, suc, ◌+◌, ◌/◌, ◌%◌, ◌≤◌, ◌<◌, ◌≡◌, ◌≢◌, inl, inr, refl, sym, ap, ◌∙◌, arith, List, ◌==◌,
  length, get_or, set, length-set, get_or-set_self, get_or-set_ne, bit_and, bit_or, lt→ltb,
  Bool-cases, ==_iff,
}
use yack.Common.Bits.{and_low}
use yack.Machine.{Machine, Event, Gate, Callback, null, done, Kernel, ◌>>◌, outb, inb, io_wait}
use yack.Trap.{no_gate, set_idt_gate, idt_enable, init_gates, pic_remap}

-- The gate of a present 32-bit interrupt gate of ring 0 in the kernel's code segment.
abbrev pub gate_for : ℕ → Gate
gate_for base = record {
  base_low = base % 65536;
  segment = 8;
  reserved = 0;
  flags = 0x8E;
  base_high = base / 65536 % 65536;
}

abbrev pub gate : Machine → ℕ → Gate
gate m i = get_or m.trap_table i no_gate

abbrev pub callback : Machine → ℕ → Callback
callback m i = get_or m.trap_callback_table i null

-- Both tables have their 256 entries.
pub record HasTables (m : Machine) : Type 0 where
  pub gates : length m.trap_table ≡ 256
  pub callbacks : length m.trap_callback_table ≡ 256

low_half : (base : ℕ) → bit_and base 0xFFFF ≡ base % 65536
low_half base = and_low 16 base

-- One round of the loop of `trap_init`.
record Installs (i base : ℕ) (m m' : Machine) : Type 0 where
  tables : HasTables m'
  at : gate m' i ≡ gate_for base
  other : (j : ℕ) → j ≢ i → gate m' j ≡ gate m j
  free : callback m' i ≡ null
  others : (j : ℕ) → j ≢ i → callback m' j ≡ callback m j

-- The gate as `x86_set_idt_gate` writes it, and as `x86_idt_enable` leaves it.
abbrev raw_gate : ℕ → Gate
raw_gate base = record {
  base_low = bit_and base 0xFFFF;
  segment = 8;
  reserved = 0;
  flags = 14;
  base_high = bit_and (base / 65536) 0xFFFF;
}

abbrev pub enabled : Gate → Gate
enabled g = record g { flags = bit_or g.flags 0x80 % 256 }

enabled-raw_gate : (base : ℕ) → enabled (raw_gate base) ≡ gate_for base
enabled-raw_gate base = rw (low_half base, low_half (base / 65536))

abbrev install : (i base : ℕ) → Kernel (Unit {0})
install i base = set_idt_gate i base 0x8 (bit_or 0 0xE) >> idt_enable i null

abbrev new_table : (i base : ℕ) → Machine → List Gate
new_table i base m =
    let written = set m.trap_table i (raw_gate base) in
    set written i (enabled (get_or written i no_gate))

abbrev installed : (i base : ℕ) → Machine → Machine
installed i base m = record m {
  trap_table = new_table i base m;
  trap_callback_table = set m.trap_callback_table i null;
}

install_lem : (i base : ℕ) (m : Machine) → i < 256 → install i base m ≡ done tt (installed i base m)
unfolding set_idt_gate idt_enable
install_lem i base m h = rw (lt→ltb i 256 h) (rw (lt→ltb i 256 h))

installed-Installs :
    (i base : ℕ) (m : Machine) → i < 256 → HasTables m → Installs i base m (installed i base m)
installed-Installs i base m h t =
    let written = set m.trap_table i (raw_gate base) in
    let size : length written ≡ 256 = length-set m.trap_table i (raw_gate base) ∙ t.gates in
    record {
      tables = record {
        gates = length-set written i (enabled (get_or written i no_gate)) ∙ size;
        callbacks = length-set m.trap_callback_table i null ∙ t.callbacks;
      };
      at =
          get_or-set_self written i (enabled (get_or written i no_gate)) no_gate (rw size h)
          ∙ ap enabled (get_or-set_self m.trap_table i (raw_gate base) no_gate (rw t.gates h))
          ∙ enabled-raw_gate base;
      other = λ j ne.
          get_or-set_ne written i j (enabled (get_or written i no_gate)) no_gate (λ e. ne (sym e))
          ∙ get_or-set_ne m.trap_table i j (raw_gate base) no_gate (λ e. ne (sym e));
      free = get_or-set_self m.trap_callback_table i null null (rw t.callbacks h);
      others = λ j ne. get_or-set_ne m.trap_callback_table i j null null (λ e. ne (sym e));
    }

module _ (vectors : ℕ → ℕ) (table_address : ℕ) where
  -- The loop of `trap_init` from `i` on.
  pub record Filled (i rounds : ℕ) (m : Machine) : Type 0 where
    pub table : List Gate
    pub callbacks : List Callback
    pub returns :
        init_gates vectors table_address rounds i m
        ≡ done tt (record m { trap_table = table; trap_callback_table = callbacks })
    pub tables : HasTables (record m { trap_table = table; trap_callback_table = callbacks })
    pub below : (j : ℕ) → j < i → get_or table j no_gate ≡ gate m j
    pub from : (j : ℕ) → i ≤ j → j < i + rounds → get_or table j no_gate ≡ gate_for (vectors j)
    pub below_free : (j : ℕ) → j < i → get_or callbacks j null ≡ callback m j
    pub free : (j : ℕ) → i ≤ j → j < i + rounds → get_or callbacks j null ≡ null

  init_gates-suc :
      (rounds i : ℕ) (m : Machine)
      → i < 256
      → init_gates vectors table_address (suc rounds) i m
        ≡ init_gates vectors table_address rounds (i + 1) (installed i (vectors i) m)
  unfolding init_gates
  init_gates-suc rounds i m h = rw (install_lem i (vectors i) m h)

  pub init_gates-Filled :
      (rounds i : ℕ) (m : Machine) → i + rounds ≤ 256 → HasTables m → Filled i rounds m
  init_gates-Filled zero i m h t = record {
    table = m.trap_table;
    callbacks = m.trap_callback_table;
    returns = unfold init_gates in refl;
    tables = record { gates = t.gates; callbacks = t.callbacks };
    below = λ j l. refl;
    from = λ j l u. absurd (omega arith);
    below_free = λ j l. refl;
    free = λ j l u. absurd (omega arith);
  }
  init_gates-Filled (suc rounds) i m h t =
      let one = installed-Installs i (vectors i) m (omega arith) t in
      let rest =
        init_gates-Filled rounds (i + 1) (installed i (vectors i) m) (omega arith) one.tables in
      record {
        table = rest.table;
        callbacks = rest.callbacks;
        returns = init_gates-suc rounds i m (omega arith) ∙ rest.returns;
        tables = record { gates = rest.tables.gates; callbacks = rest.tables.callbacks };
        below = λ j l. rest.below j (omega arith) ∙ one.other j (omega arith);
        from = λ j l u. elim (Bool-cases (j == i)) [
          | inl e ↦ let e' : j ≡ i = (==_iff j i).0 e in rw e' (rest.below i (omega arith) ∙ one.at)
          | inr ne ↦ rest.from j (ground arith) (omega arith)
        ];
        below_free = λ j l. rest.below_free j (omega arith) ∙ one.others j (omega arith);
        free = λ j l u. elim (Bool-cases (j == i)) [
          | inl e ↦
              let e' : j ≡ i = (==_iff j i).0 e in
              rw e' (rest.below_free i (omega arith) ∙ one.free)
          | inr ne ↦ rest.free j (ground arith) (omega arith)
        ];
      }

-- `x86_pic_remap` talks to the controllers only.
pub pic_remap-history :
    (a b : ℕ) (m : Machine)
    → (h : List Event) × (pic_remap a b m ≡ done tt (record m { history = h }))
unfolding pic_remap outb inb io_wait
pic_remap-history a b m = (_, refl)
