-- ===== src/Trap.antt =====
-- arch/i386/trap.c: the interrupt descriptor table, the interrupt controllers, the keyboard and
-- the common handler of all traps; with `x86_lidt`, `x86_pic_eoi` and `struct trapframe` of
-- arch/i386/include/x86.h.
pub mod Table
pub mod Switch
pub mod Init
pub mod Handler
pub mod Texts
pub mod Letters
mod Tests
use yack.Common.{
  ℕ, zero, suc, ◌+◌, ◌-◌, ◌*◌, ◌/◌, ◌%◌, ◌^◌, bit_and, bit_or, Bool, true, false, not, List, [],
  ◌∷◌, ◌==◌, ltb, leb, get_or, set, length, u8, u16, u32, ◌>>>◌, if◌then◌else◌,
}
use yack.Machine.{
  Machine, Gate, Callback, null, keyboard_handler, Outcome, done, fault, Kernel, ◌>>=◌, ◌>>◌, pure,
  change, when, event, idt_loaded, outb, inb, io_wait, and_then,
}
use yack.Format.{Arg, word, codes}
use yack.Io.{klog}

-- `struct trapframe`, less its padding.
pub record Trapframe : Type 0 where
  pub edi : ℕ
  pub esi : ℕ
  pub ebp : ℕ
  pub oesp : ℕ
  pub ebx : ℕ
  pub edx : ℕ
  pub ecx : ℕ
  pub eax : ℕ
  pub gs : ℕ
  pub fs : ℕ
  pub es : ℕ
  pub ds : ℕ
  pub trapno : ℕ
  pub err : ℕ
  pub eip : ℕ
  pub cs : ℕ
  pub eflags : ℕ
  pub esp : ℕ
  pub ss : ℕ

-- The first entries of the table; a key with no character, and each entry that the table of the
-- source leaves out, is 0.
abbrev pub keyboard_scan_codes : List ℕ
keyboard_scan_codes =
    0 ∷ 0 ∷ 49 ∷ 50 ∷ 51 ∷ 52 ∷ 53 ∷ 54 ∷ 55 ∷ 56 ∷ 57 ∷ 48 ∷ 45 ∷ 61 ∷ 8 ∷ 9 ∷ 81 ∷ 87 ∷ 69 ∷ 82
    ∷ 84 ∷ 89 ∷ 85 ∷ 73 ∷ 79 ∷ 80 ∷ 91 ∷ 93 ∷ 10 ∷ 0 ∷ 65 ∷ 83 ∷ 68 ∷ 70 ∷ 71 ∷ 72 ∷ 74 ∷ 75 ∷ 76
    ∷ 59 ∷ 39 ∷ 96 ∷ 0 ∷ 92 ∷ 90 ∷ 88 ∷ 67 ∷ 86 ∷ 66 ∷ 78 ∷ 77 ∷ 44 ∷ 46 ∷ 47 ∷ 0 ∷ 0 ∷ 0 ∷ 32 ∷ 0
    ∷ 0 ∷ 0 ∷ 0 ∷ 0 ∷ 0 ∷ 0 ∷ 0 ∷ 0 ∷ 0 ∷ 0 ∷ 0 ∷ 0 ∷ 0 ∷ 0 ∷ 0 ∷ 45 ∷ 0 ∷ 0 ∷ 0 ∷ 43 ∷ 0 ∷ 0 ∷ 0
    ∷ 0 ∷ 0 ∷ []

-- `keyboard_scan_codes[byte]`
abbrev pub scan_code : ℕ → ℕ
scan_code byte = get_or keyboard_scan_codes byte 0

unfoldable pub handle_keyboard : Kernel (Unit {0})
handle_keyboard = inb 0x60 >>= λ byte.
    when (not (scan_code byte == 0))
      (klog (codes "TRAP") (codes "Letter: %c\n") (word (scan_code byte) ∷ []))

-- `outb` and the wait behind it.
abbrev pub out_wait : (port data_byte : ℕ) → Kernel (Unit {0})
out_wait port data_byte m = done tt (io_wait (outb port data_byte m))

unfoldable pub pic_remap : (offset1 offset2 : ℕ) → Kernel (Unit {0})
unfolding outb inb io_wait
pic_remap offset1 offset2 = inb 0x21 >>= λ a1. inb 0xA1 >>= λ a2.
    out_wait 0x20 (bit_or 0x10 0x01)
    >> out_wait 0xA0 (bit_or 0x10 0x01)
    >> out_wait 0x21 offset1
    >> out_wait 0xA1 offset2
    >> out_wait 0x21 4
    >> out_wait 0xA1 2
    >> out_wait 0x21 0x01
    >> out_wait 0xA1 0x01
    >> change (outb 0x21 a1)
    >> change (outb 0xA1 a2)

abbrev pub no_gate : Gate
no_gate = record { base_low = 0; segment = 0; reserved = 0; flags = 0; base_high = 0 }

-- The tables have 256 entries; any other index is out of bounds.
abbrev pub in_bounds : ℕ → (Machine → Machine) → Kernel (Unit {0})
in_bounds interrupt f m = if ltb interrupt 256 then done tt (f m) else fault

unfoldable pub set_idt_gate : (interrupt base seg_desc flags : ℕ) → Kernel (Unit {0})
set_idt_gate interrupt base seg_desc flags = in_bounds interrupt λ m. record m {
  trap_table = set m.trap_table interrupt (record {
    base_low = bit_and base 0xFFFF;
    segment = u16 seg_desc;
    reserved = 0;
    flags = u8 flags;
    base_high = bit_and (base >>> 16) 0xFFFF;
  });
}

-- The gate `interrupt` with other flags.
abbrev pub reflag : (ℕ → ℕ) → ℕ → List Gate → List Gate
reflag f interrupt table =
    let g = get_or table interrupt no_gate in set table interrupt (record g { flags = f g.flags })

unfoldable pub idt_enable : ℕ → Callback → Kernel (Unit {0})
idt_enable interrupt callback = in_bounds interrupt λ m. record m {
  trap_callback_table = set m.trap_callback_table interrupt callback;
  trap_table = reflag (λ flags. u8 (bit_or flags 0x80)) interrupt m.trap_table;
}

-- `~IDT_FLAG_PRESENT` is 0x7F in the 8 bits of the flags.
unfoldable pub idt_disable : ℕ → Kernel (Unit {0})
idt_disable interrupt = in_bounds interrupt λ m. record m {
  trap_callback_table = set m.trap_callback_table interrupt null;
  trap_table = reflag (λ flags. bit_and flags 0x7F) interrupt m.trap_table;
}

-- The processor keeps the size less one and the two halves of the address.
unfoldable pub load_idt : (desc size : ℕ) → Kernel (Unit {0})
load_idt desc size =
    klog (codes "DEBUG") (codes "lidt: addr: %p, ptr: %x %x %x\n")
      (word desc ∷ word (u16 (size + 65535)) ∷ word (u16 desc) ∷ word (u16 (desc >>> 16)) ∷ [])
    >> change (event (idt_loaded (u16 (size + 65535)) (u16 desc) (u16 (desc >>> 16))))

-- `vectors` is `trap_handler_array` of arch/i386/asm/traps.S, `table_address` is where the linker
-- puts `trap_table`.
module _ (vectors : ℕ → ℕ) (table_address : ℕ) where
  -- The loop of `trap_init`, with the rounds left.
  unfoldable pub init_gates : (rounds i : ℕ) → Kernel (Unit {0})
  init_gates zero i = pure tt
  init_gates (suc rounds) i =
      set_idt_gate i (vectors i) 0x8 (bit_or 0 0xE)
      >> idt_enable i null
      >> init_gates rounds (i + 1)

  unfoldable pub trap_init : Kernel (Unit {0})
  trap_init =
      init_gates 256 0
      >> klog (codes "DEBUG") (codes "sizeof struct trap_handler: %u\n") (word 8 ∷ [])
      >> load_idt table_address 2048
      >> klog (codes "DEBUG") (codes "using idt trap_table at %p\n") (word table_address ∷ [])
      >> pic_remap 0x20 0x28
      >> idt_enable 0x21 keyboard_handler

-- One line of `log_trapframe` for each register: its label and its value.
abbrev pub frame_lines : Trapframe → List (List ℕ × ℕ)
frame_lines tf =
    (codes "tf->TRAPNO: 0x%0x\n", tf.trapno)
    ∷ (codes "tf->ERR:    0x%0x\n", tf.err)
    ∷ (codes "tf->EAX:    0x%0x\n", tf.eax)
    ∷ (codes "tf->EBX:    0x%0x\n", tf.ebx)
    ∷ (codes "tf->EDX:    0x%0x\n", tf.edx)
    ∷ (codes "tf->ECX:    0x%0x\n", tf.ecx)
    ∷ (codes "tf->EDI:    0x%0x\n", tf.edi)
    ∷ (codes "tf->CS:     0x%0x\n", tf.cs)
    ∷ (codes "tf->DS:     0x%0x\n", tf.ds)
    ∷ (codes "tf->GS:     0x%0x\n", tf.gs)
    ∷ (codes "tf->FS:     0x%0x\n", tf.fs)
    ∷ (codes "tf->ES:     0x%0x\n", tf.es)
    ∷ (codes "tf->SS:     0x%0x\n", tf.ss)
    ∷ (codes "tf->ESI:    0x%0x\n", tf.esi)
    ∷ (codes "tf->EBP:    0x%0x\n", tf.ebp)
    ∷ (codes "tf->ESP:    0x%0x\n", tf.esp)
    ∷ (codes "tf->EIP:    0x%0x\n", tf.eip)
    ∷ (codes "tf->EFLAGS: 0x%0x\n", tf.eflags)
    ∷ []

unfoldable pub log_lines : List (List ℕ × ℕ) → Kernel (Unit {0})
log_lines [] = pure tt
log_lines ((fmt, value) ∷ rest) = klog (codes "DEBUG") fmt (word value ∷ []) >> log_lines rest

unfoldable pub log_trapframe : Trapframe → Kernel (Unit {0})
log_trapframe tf = log_lines (frame_lines tf)

-- `x86_pic_eoi` takes an `unsigned char`.
unfoldable pub pic_eoi : ℕ → Machine → Machine
unfolding outb
pic_eoi irq m =
    let m1 = if leb 0x20 (u8 irq) then outb 0x20 0x20 m else m in
    if leb 0x28 (u8 irq) then outb 0xA0 0x20 m1 else m1

unfoldable pub run_callback : Callback → Kernel (Unit {0})
run_callback null = pure tt
run_callback keyboard_handler = handle_keyboard

-- The call through the table; an entry outside it is no pointer.
unfoldable pub dispatch : (trapno : ℕ) → Kernel (Unit {0})
dispatch trapno m =
    if ltb trapno 256 then run_callback (get_or m.trap_callback_table trapno null) m else fault

unfoldable pub trap_handler : Trapframe → Kernel (Unit {0})
trap_handler tf =
    change (λ m. record m { trap_counter = u32 (m.trap_counter + 1); last_trapno = tf.trapno })
    >> (λ m.
        when (not (m.last_trapno == 0x20))
          (klog (codes "TRAP") (codes "trapcounter: 0x%0x    trapno: %x\n")
            (word m.trap_counter ∷ word tf.trapno ∷ []))
          m)
    >> dispatch tf.trapno
    >> change (pic_eoi tf.trapno)
