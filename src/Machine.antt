-- ===== src/Machine.antt =====
-- The state that the kernel's functions share, and a monad over it.
-- `memory` holds what is reached by pointers, the VGA buffer included; the static variables of
-- kernel/io/write.c, kernel/io/kvsnprintf.c, kernel/drivers/serial.c, arch/i386/trap.c and
-- kernel/hardware/cpu.c are fields.
pub mod Kept
pub mod Returns
use yack.Common.{ℕ, ◌%◌, ◌^◌, List, [], ◌∷◌, u8, u16, Bool, true, false}
use yack.Memory.{Memory}

-- What the processor does to its ports and descriptor registers, in order.
pub data Event : Type 0 where
  port_byte : (port value : ℕ) → Event
  port_word : (port value : ℕ) → Event
  port_read : (port : ℕ) → Event
  interrupts_off interrupts_on : Event
  idt_loaded : (limit low high : ℕ) → Event
  gdt_loaded : (limit low high data_selector code_selector : ℕ) → Event

-- `struct trap_handler`: a gate of the interrupt descriptor table.
pub record Gate : Type 0 where
  pub base_low : ℕ
  pub segment : ℕ
  pub reserved : ℕ
  pub flags : ℕ
  pub base_high : ℕ

-- `struct gdt_entry`.
pub record Descriptor : Type 0 where
  pub limit_low : ℕ
  pub base_low : ℕ
  pub base_mid : ℕ
  pub access : ℕ
  pub flags : ℕ
  pub base_high : ℕ

-- The values of a `trap_handler_func_t` in the kernel.
pub data Callback : Type 0 where
  null keyboard_handler : Callback

pub record Machine : Type 0 where
  pub memory : Memory
  pub row : ℕ
  pub col : ℕ
  pub digits : List ℕ
  pub serial_ports : List ℕ
  pub serial_default_port : ℕ
  pub trap_counter : ℕ
  pub last_trapno : ℕ
  pub trap_table : List Gate
  pub trap_callback_table : List Callback
  pub gdt : List Descriptor
  -- The newest event first.
  pub history : List Event
  -- What the hardware answers to a read of a port, given all that happened before.
  pub device : List Event → ℕ → ℕ
  -- How often a loop that waits for the hardware may read.
  pub patience : ℕ

-- `hung` is the endless loop behind a failed `kassert`, `fault` undefined behaviour, and
-- `waiting` a wait that outlasts `patience`.
pub data Outcome (A : Type 0) : Type 0 where
  done : A → Machine → Outcome A
  hung : Machine → Outcome A
  fault waiting : Outcome A

abbrev pub Kernel : Type 0 → Type 0
Kernel A = Machine → Outcome A

abbrev pub and_then : {A B : Type 0} → Outcome A → (A → Kernel B) → Outcome B
and_then (done a m) k = k a m
and_then (hung m) k = hung m
and_then fault k = fault
and_then waiting k = waiting

infixl 5 ◌>>=◌ ◌>>◌
abbrev pub ◌>>=◌ : {A B : Type 0} → Kernel A → (A → Kernel B) → Kernel B
◌>>=◌ f k m = and_then (f m) k

abbrev pub ◌>>◌ : {B : Type 0} → Kernel (Unit {0}) → Kernel B → Kernel B
◌>>◌ f k m = and_then (f m) (λ _. k)

abbrev pub pure : {A : Type 0} → A → Kernel A
pure a m = done a m

-- A step that always succeeds.
abbrev pub change : (Machine → Machine) → Kernel (Unit {0})
change f m = done tt (f m)

abbrev pub when : Bool → Kernel (Unit {0}) → Kernel (Unit {0})
when true f = f
when false f = pure tt

abbrev pub event : Event → Machine → Machine
event e m = record m { history = e ∷ m.history }

unfoldable pub outb : (port data_byte : ℕ) → Machine → Machine
outb port data_byte = event (port_byte (u16 port) (u8 data_byte))

unfoldable pub outw : (port data_word : ℕ) → Machine → Machine
outw port data_word = event (port_word (u16 port) (u16 data_word))

unfoldable pub io_wait : Machine → Machine
unfolding outb
io_wait = outb 0x80 0

unfoldable pub inb : ℕ → Kernel ℕ
inb port m = done (u8 (m.device m.history (u16 port))) (event (port_read (u16 port)) m)

unfoldable pub cli : Machine → Machine
cli = event interrupts_off

unfoldable pub sti : Machine → Machine
sti = event interrupts_on
