-- ===== src/Segments/Init.antt =====
-- The table that `segments_init` of kernel/mm/kvm.c leaves.
use yack.Common.{
  ℕ, ◌^◌, ◌<◌, ◌≡◌, refl, ap, ◌∙◌, arith, List, [], ◌∷◌, set, replicate, some, u16, ◌>>>◌,
}
use yack.Machine.{
  ◌>>◌, Machine, Descriptor, Outcome, done, Kernel, and_then, change, event, gdt_loaded,
}
use yack.Format.{Arg, word, codes}
use yack.Format.Room.{room, AreWords}
use yack.Format.{plain}
use yack.Io.{klog}
use yack.Io.Logged.{IsReady, klog-Logged}
use yack.Io.Stores.{retable-IsReady}
use yack.Io.Spared.{Spared, Spared-trans, Logged-Spared, retable-Spared}
use yack.Segments.{
  encode, low_word, high_word, gdt_set, no_descriptor, Processor, get_segment, log_segment,
  segments_init,
}
use yack.Segments.Encode.{encode-words}

-- A run from `m` on that returns, ready for more output, with the given table of descriptors, and
-- leaves the other components.
pub record Leaves (m : Machine) (table : List Descriptor) (o : Outcome (Unit {0})) : Type 0 where
  pub after : Machine
  pub returns : o ≡ done tt after
  pub ready : IsReady after
  pub gdt : after.gdt ≡ table
  pub spared : Spared m after

then-Leaves :
    {m : Machine} {table table' : List Descriptor} {o : Outcome (Unit {0})} (k : Kernel (Unit {0}))
    → Leaves m table o
    → ((n : Machine) → IsReady n → n.gdt ≡ table → Leaves n table' (k n))
    → Leaves m table' (and_then o (λ _. k))
then-Leaves k l next =
    let more = next l.after l.ready l.gdt in
    record {
      after = more.after;
      returns = rw l.returns more.returns;
      ready = more.ready;
      gdt = more.gdt;
      spared = Spared-trans l.spared more.spared;
    }

klog-Leaves :
    (fmt : List ℕ) (args : List Arg) (n : ℕ) (table : List Descriptor) (m : Machine)
    → room plain fmt args ≡ some n
    → n < 4096
    → AreWords args
    → IsReady m
    → m.gdt ≡ table
    → Leaves m table (klog (codes "DEBUG") fmt args m)
klog-Leaves fmt args n table m e small ws r g =
    let l = klog-Logged (codes "DEBUG") fmt args n m (omega arith) e small ws r in
    record {
      after = l.after;
      returns = l.returns;
      ready = l.ready;
      gdt = l.kept.gdt ∙ g;
      spared = Logged-Spared l;
    }

-- What is spared does not depend on the table before the run.
regdt-Leaves :
    {o : Outcome (Unit {0})} (gdt table : List Descriptor) (m : Machine)
    → Leaves (record m { gdt = gdt }) table o
    → Leaves m table o
regdt-Leaves gdt table m l = record {
  after = l.after;
  returns = l.returns;
  ready = l.ready;
  gdt = l.gdt;
  spared = Spared-trans (retable-Spared m.serial_ports gdt m.history m) l.spared;
}

gdt_set-Leaves :
    (index base limit access flags : ℕ) (table : List Descriptor) (m : Machine)
    → access < 256
    → flags < 256
    → IsReady m
    → m.gdt ≡ table
    → Leaves m
        (set table index (encode base limit access flags))
        (gdt_set index base limit access flags m)
unfolding gdt_set
gdt_set-Leaves index base limit access flags table m a f r g =
    let d = encode base limit access flags in
    let words = encode-words base limit access flags a f in
    regdt-Leaves (set m.gdt index d) (set table index d) m (
      klog-Leaves (codes "GDT Entry: %0x %0x\n") (word (high_word d) ∷ word (low_word d) ∷ []) 47
        (set table index d) (record m { gdt = set m.gdt index d }) (unfold room in refl)
        (omega arith) (words.0, (words.1, tt))
        (retable-IsReady m.serial_ports m.trap_counter m.last_trapno m.trap_table
          m.trap_callback_table (set m.gdt index d) m.history m r)
        (ap (λ t. set t index d) g))

-- The descriptors that `segments_init` makes: flat code and data segments of the kernel and of the
-- user, and the segment of the task state.
abbrev pub segments : (tss : ℕ) → List Descriptor
segments tss =
    no_descriptor
    ∷ encode 0 0xFFFFFFFF 0x9A 0xCF
    ∷ encode 0 0xFFFFFFFF 0x92 0xCF
    ∷ encode 0 0xFFFFFFFF 0xFA 0xCF
    ∷ encode 0 0xFFFFFFFF 0xF2 0xCF
    ∷ encode tss 108 0xF2 0xCF
    ∷ []

abbrev zeroed : Machine → Machine
zeroed m = record m { gdt = replicate 6 no_descriptor }

loaded-Leaves :
    (address : ℕ) (table : List Descriptor) (m : Machine)
    → IsReady m
    → m.gdt ≡ table
    → Leaves m table
        (done tt (event (gdt_loaded 47 (u16 address) (u16 (address >>> 16)) 0x10 0x08) m))
loaded-Leaves address table m r g = record {
  after = _;
  returns = refl;
  ready =
      retable-IsReady m.serial_ports m.trap_counter m.last_trapno m.trap_table m.trap_callback_table
        m.gdt (gdt_loaded 47 (u16 address) (u16 (address >>> 16)) 0x10 0x08 ∷ m.history) m r;
  gdt = g;
  spared =
      retable-Spared m.serial_ports m.gdt
        (gdt_loaded 47 (u16 address) (u16 (address >>> 16)) 0x10 0x08 ∷ m.history) m;
}

-- One more descriptor after a run.
gdt_set-then :
    {m : Machine} {table : List Descriptor} {o : Outcome (Unit {0})} (index base limit access : ℕ)
    → access < 256
    → Leaves m table o
    → Leaves m
        (set table index (encode base limit access 0xCF))
        (and_then o (λ _. gdt_set index base limit access 0xCF))
gdt_set-then {m} {table} index base limit access small l =
    then-Leaves (gdt_set index base limit access 0xCF) l
      (λ n rn g. gdt_set-Leaves index base limit access 0xCF table n small (omega arith) rn g)

-- One more message after a run.
klog-then :
    {m : Machine} {table : List Descriptor} {o : Outcome (Unit {0})} (fmt : List ℕ)
    (args : List Arg) (k : ℕ)
    → room plain fmt args ≡ some k
    → k < 4096
    → AreWords args
    → Leaves m table o
    → Leaves m table (and_then o (λ _. klog (codes "DEBUG") fmt args))
klog-then {m} {table} fmt args k e small ws l =
    then-Leaves (klog (codes "DEBUG") fmt args) l
      (λ n rn g. klog-Leaves fmt args k table n e small ws rn g)

module _ (gdt_address tss : ℕ) (cpu : Processor) where
  -- The first half of `segments_init`, up to the load of the table.
  abbrev fill_table : Kernel (Unit {0})
  fill_table =
      change zeroed
      >> klog (codes "DEBUG") (codes "GDT address: %p\n") (word gdt_address ∷ [])
      >> gdt_set 1 0 0xFFFFFFFF 0x9A 0xCF
      >> gdt_set 2 0 0xFFFFFFFF 0x92 0xCF
      >> gdt_set 3 0 0xFFFFFFFF 0xFA 0xCF
      >> gdt_set 4 0 0xFFFFFFFF 0xF2 0xCF
      >> gdt_set 5 tss 108 0xF2 0xCF
      >> change (event (gdt_loaded 47 (u16 gdt_address) (u16 (gdt_address >>> 16)) 0x10 0x08))

  fill_table-Leaves :
      (m : Machine) → gdt_address < 2 ^ 32 → IsReady m → Leaves m (segments tss) (fill_table m)
  fill_table-Leaves m ga r =
      let blank = replicate 6 no_descriptor in
      let start = regdt-Leaves blank blank m (
        klog-Leaves (codes "GDT address: %p\n") (word gdt_address ∷ []) 31 blank (zeroed m)
          (unfold room in refl) (omega arith) (ga, tt)
          (retable-IsReady m.serial_ports m.trap_counter m.last_trapno m.trap_table
            m.trap_callback_table blank m.history m r)
          refl) in
      let kernel_code = gdt_set-then 1 0 0xFFFFFFFF 0x9A (omega arith) start in
      let kernel_data = gdt_set-then 2 0 0xFFFFFFFF 0x92 (omega arith) kernel_code in
      let user_code = gdt_set-then 3 0 0xFFFFFFFF 0xFA (omega arith) kernel_data in
      let user_data = gdt_set-then 4 0 0xFFFFFFFF 0xF2 (omega arith) user_code in
      let task : Leaves m (segments tss) _ = gdt_set-then 5 tss 108 0xF2 (omega arith) user_data in
      then-Leaves
        (change (event (gdt_loaded 47 (u16 gdt_address) (u16 (gdt_address >>> 16)) 0x10 0x08))) task
        (λ n rn g. loaded-Leaves gdt_address (segments tss) n rn g)

  -- On a machine that is ready for output, with addresses and registers of their width,
  -- `segments_init` returns, ready for more output, and leaves the five descriptors that
  -- `segments` lists behind the empty one, and the default port, the tables of the traps and all
  -- memory outside the screen as before.
  pub segments_init-Leaves :
      (m : Machine)
      → gdt_address < 2 ^ 32
      → ((segment : ℕ) → get_segment cpu segment < 2 ^ 32)
      → cpu.gdt_size < 2 ^ 16
      → cpu.gdt_low < 2 ^ 16
      → cpu.gdt_high < 2 ^ 16
      → IsReady m
      → Leaves m (segments tss) (segments_init gdt_address tss cpu m)
  unfolding segments_init log_segment
  segments_init-Leaves m ga regs size low high r =
      let table = fill_table-Leaves m ga r in
      let loaded =
        klog-then (codes "Segments loaded\n") [] 16 (unfold room in refl) (omega arith) tt table in
      let cs =
        klog-then (codes "CS: %x\n") (word (get_segment cpu b'c') ∷ []) 22 (unfold room in refl)
          (omega arith) (regs b'c', tt) loaded in
      let es =
        klog-then (codes "ES: %x\n") (word (get_segment cpu b'e') ∷ []) 22 (unfold room in refl)
          (omega arith) (regs b'e', tt) cs in
      let ss =
        klog-then (codes "SS: %x\n") (word (get_segment cpu b's') ∷ []) 22 (unfold room in refl)
          (omega arith) (regs b's', tt) es in
      let ds =
        klog-then (codes "DS: %x\n") (word (get_segment cpu b'd') ∷ []) 22 (unfold room in refl)
          (omega arith) (regs b'd', tt) ss in
      let fs =
        klog-then (codes "FS: %x\n") (word (get_segment cpu b'f') ∷ []) 22 (unfold room in refl)
          (omega arith) (regs b'f', tt) ds in
      let gs =
        klog-then (codes "GS: %x\n") (word (get_segment cpu b'g') ∷ []) 22 (unfold room in refl)
          (omega arith) (regs b'g', tt) fs in
      klog-then (codes "SGDT: %x %x %x\n")
        (word cpu.gdt_size ∷ word cpu.gdt_low ∷ word cpu.gdt_high ∷ []) 60 (unfold room in refl)
        (omega arith) (omega arith, (omega arith, (omega arith, tt))) gs
