-- ===== src/Trap/Init.antt =====
-- What `trap_init` of arch/i386/trap.c leaves.
use yack.Common.{
  ℕ, ◌^◌, ◌<◌, ◌≡◌, ◌≢◌, inl, inr, refl, ap, ◌∙◌, arith, [], ◌∷◌, u16, ◌>>>◌, ◌==◌, length, get_or,
  Bool-cases, ==_iff,
}
use yack.Machine.{Machine, null, keyboard_handler, done, Kernel, ◌>>◌, change, event, idt_loaded}
use yack.Format.{word, codes}
use yack.Format.Room.{room}
use yack.Io.{klog}
use yack.Io.Logged.{IsReady, Logged, and_then-Logged, klog-Logged}
use yack.Io.Spared.{Undisturbed, Undisturbed-trans, retable-Undisturbed, Logged-Undisturbed}
use yack.Io.Stores.{history-Logged, retable-IsReady}
use yack.Trap.{no_gate, load_idt, pic_remap, trap_init}
use yack.Trap.Table.{
  gate, callback, gate_for, HasTables, init_gates-Filled, enabled, pic_remap-history,
}
use yack.Trap.Switch.{enabled_at, enabled_at-Enabled, idt_enable_lem}

abbrev controllers : (table_address : ℕ) → Kernel (Unit {0})
controllers table_address =
    klog (codes "DEBUG") (codes "sizeof struct trap_handler: %u\n") (word 8 ∷ [])
    >> load_idt table_address 2048
    >> klog (codes "DEBUG") (codes "using idt trap_table at %p\n") (word table_address ∷ [])
    >> pic_remap 0x20 0x28

pic_remap-Logged : (a b : ℕ) (m : Machine) → IsReady m → Logged m (pic_remap a b m)
pic_remap-Logged a b m r = let e = pic_remap-history a b m in rw e.1 (history-Logged tt e.0 m r)

load_idt-Logged :
    (address : ℕ) (m : Machine) → address < 2 ^ 32 → IsReady m → Logged m (load_idt address 2048 m)
unfolding load_idt
load_idt-Logged address m small r =
    and_then-Logged (λ _. change (event (idt_loaded 2047 (u16 address) (u16 (address >>> 16)))))
      (klog-Logged (codes "DEBUG") (codes "lidt: addr: %p, ptr: %x %x %x\n")
        (word address ∷ word 2047 ∷ word (u16 address) ∷ word (u16 (address >>> 16)) ∷ []) 90 m
        (omega arith) (unfold room in refl) (omega arith)
        (small, (omega arith, (ground arith, (ground arith, tt)))) r)
      (λ _ n rn _. history-Logged tt _ n rn)

controllers-Logged :
    (address : ℕ) (m : Machine) → address < 2 ^ 32 → IsReady m → Logged m (controllers address m)
controllers-Logged address m small r =
    and_then-Logged (λ _. pic_remap 0x20 0x28)
      (and_then-Logged
        (λ _. klog (codes "DEBUG") (codes "using idt trap_table at %p\n") (word address ∷ []))
        (and_then-Logged (λ _. load_idt address 2048)
          (klog-Logged (codes "DEBUG") (codes "sizeof struct trap_handler: %u\n") (word 8 ∷ []) 46 m
            (omega arith) (unfold room in refl) (omega arith) (omega arith, tt) r)
          (λ _ n rn _. load_idt-Logged address n small rn))
        (λ _ n rn _.
          klog-Logged (codes "DEBUG") (codes "using idt trap_table at %p\n") (word address ∷ []) 42
            n (omega arith) (unfold room in refl) (omega arith) (small, tt) rn))
      (λ _ n rn _. pic_remap-Logged 0x20 0x28 n rn)

-- The machine once the traps are set up: each of the 256 gates is present and leads to its vector,
-- and only interrupt 0x21 has a callback, the keyboard's.
pub record TrapsSet (vectors : ℕ → ℕ) (m : Machine) : Type 0 where
  pub ready : IsReady m
  pub tables : HasTables m
  pub gates : (i : ℕ) → i < 256 → gate m i ≡ gate_for (vectors i)
  pub keyboard : callback m 0x21 ≡ keyboard_handler
  pub free : (i : ℕ) → i < 256 → i ≢ 0x21 → callback m i ≡ null

module _ (vectors : ℕ → ℕ) (table_address : ℕ) where
  -- On a machine that is ready for output, with two tables of 256 entries and a table address of
  -- 32 bits, `trap_init` returns, and leaves every gate present and leading to its vector, the
  -- keyboard's callback on interrupt 0x21 and none elsewhere; the machine is ready for output,
  -- the default port, the hardware, the counter of the traps and all memory outside the screen
  -- are as before, and a screen that shows a paper goes on showing one.
  pub trap_init-TrapsSet :
      (m : Machine)
      → table_address < 2 ^ 32
      → HasTables m
      → IsReady m
      → (n : Machine) × (trap_init vectors table_address m ≡ done tt n)
        × TrapsSet vectors n
        × Undisturbed m n
  unfolding trap_init
  trap_init-TrapsSet m small t r =
      let filled = init_gates-Filled vectors table_address 256 0 m (omega arith) t in
      let start : Machine = record m {
        trap_table = filled.table;
        trap_callback_table = filled.callbacks;
      } in
      let l = controllers-Logged table_address start small (
        retable-IsReady m.serial_ports m.trap_counter m.last_trapno filled.table filled.callbacks
          m.gdt m.history m r) in
      let n = l.after in
      let tables : HasTables n = record {
        gates = ap length l.kept.trap_table ∙ filled.tables.gates;
        callbacks = ap length l.kept.trap_callback_table ∙ filled.tables.callbacks;
      } in
      let e = enabled_at-Enabled 0x21 keyboard_handler n (omega arith) tables in
      let leads : (i : ℕ) → i < 256 → gate n i ≡ gate_for (vectors i) = λ i h.
        ap (λ table. get_or table i no_gate) l.kept.trap_table ∙ filled.from i (omega arith) h in
      let none_yet : (i : ℕ) → i < 256 → callback n i ≡ null = λ i h.
        ap (λ table. get_or table i null) l.kept.trap_callback_table
        ∙ filled.free i (omega arith) h in
      (
        enabled_at 0x21 keyboard_handler n,
        rw (filled.returns, l.returns) (idt_enable_lem 0x21 keyboard_handler n (omega arith)),
        record {
          ready =
              retable-IsReady n.serial_ports n.trap_counter n.last_trapno
                (enabled_at 0x21 keyboard_handler n).trap_table
                (enabled_at 0x21 keyboard_handler n).trap_callback_table n.gdt n.history n l.ready;
          tables = e.gates;
          gates = λ i h. elim (Bool-cases (i == 0x21)) [
            | inl same ↦
                let same' : i ≡ 0x21 = (==_iff i 0x21).0 same in
                rw same' (e.present ∙ ap enabled (leads 0x21 (omega arith)))
            | inr ne ↦ e.other i (ground arith) ∙ leads i h
          ];
          keyboard = e.callback_at;
          free = λ i h ne. e.other_callback i ne ∙ none_yet i h;
        },
        Undisturbed-trans
            (Undisturbed-trans
              (retable-Undisturbed m.serial_ports filled.table filled.callbacks m.gdt m.history m)
              (Logged-Undisturbed l))
            (retable-Undisturbed n.serial_ports (enabled_at 0x21 keyboard_handler n).trap_table
              (enabled_at 0x21 keyboard_handler n).trap_callback_table n.gdt n.history n),
      )
