-- ===== src/Boot/Tests.antt =====
-- The start of the kernel on a machine with no free pages.
use yack.Common.{
  u8, if◌then◌else◌, ◌==◌, ℕ, List, [], ◌∷◌, ◌≡◌, inl, inr, refl, ◌+◌, ◌*◌, ◌%◌, ◌^◌, ◌≤◌, ◌<◌,
  true, arith,
}
use yack.Machine.{Machine, sti, hung}
use yack.Layout.{page_up}
use yack.Io.Stores.{stored-IsReady}
use yack.Pages.Linked.{linked}
use yack.Pages.Linked.Laws.{linked-laws}
use yack.Segments.{Processor, get_segment}
use yack.Ports.{has_port}
use yack.Boot.{Image, kmain}
use yack.Trap.{Trapframe}
use yack.Boot.Running.{Traps, Started-same, serve, Traps-Started}
use yack.Trap.Table.{HasTables}
use yack.Io.Logged.{IsReady}
use yack.Paging.Tables.{absent}
use yack.Screen.Writes.{OffScreen}
use yack.Boot.Start.{IsImage, IsProcessor, Started, kmain-Started}
use yack.Samples.{sample, sample-IsReady}
use yack.Samples.Prompt.{
  paper, paper-IsStarted, prompted, prompted-Shows, prompted-Typed, prompted-IsReady,
}
use yack.Boot.Keys.{texts, ShownAndSent, Traps-Shows, kmain-Shows}
use yack.Screen.Paper.{Paper}
use yack.Screen.Typing.{Shows}
use yack.Screen.Spoken.{asked}
use yack.Format.{codes}
use yack.Format.Numeral.{numeral}
use yack.Format.Rendered.{digits_of}
use yack.Samples.Paged.{no_pages, no_pages-Free, no_pages-absent}

abbrev image : Image
image = record {
  kmain_address = 0x80101000;
  vectors = λ i. 0x80101000 + 10 * i;
  trap_table = 0x80104000;
  boot_directory = 0x80106000;
  data_start = 0x80104000;
  end = 0x80107000;
  registry = 0x80105000;
  gdt_address = 0x80104A00;
  tss = 0x80104A80;
}

image-IsImage : IsImage image
image-IsImage = record {
  high = omega arith;
  table = omega arith;
  data_aligned = refl;
  data_high = omega arith;
  data_end = omega arith;
  spare = omega arith;
  registry_low = omega arith;
  registry_end = omega arith;
  directory_low = omega arith;
  directory_end = omega arith;
  apart = omega arith;
  gdt = omega arith;
}

abbrev processor : Processor
processor = record {
  es = 16;
  cs = 8;
  ss = 16;
  ds = 16;
  fs = 16;
  gs = 16;
  gdt_size = 47;
  gdt_low = 0x4A00;
  gdt_high = 0x8010;
}

processor-IsProcessor : IsProcessor processor
processor-IsProcessor = record {
  segment = λ s. unfold get_segment in ground arith;
  size = omega arith;
  low = omega arith;
  high = omega arith;
}

image_up : page_up 0x80107000 ≡ 0x80107000
unfolding page_up
image_up = refl

no_pages-HasTables : HasTables no_pages
no_pages-HasTables = record { gates = refl; callbacks = refl }

no_pages-new : (i : ℕ) → 512 ≤ i → i < 1024 → absent no_pages.memory (page_up image.end) i ≡ true
no_pages-new i l u = no_pages-absent (page_up 0x80107000) i (rw image_up refl) l u

no_pages-IsReady : IsReady no_pages
no_pages-IsReady = stored-IsReady no_pages.memory sample sample-IsReady

kmain-Started_example :
    (n : Machine) × (kmain linked image processor no_pages ≡ hung (sti n))
    × Started linked-laws image (sti n)
unfolding has_port
kmain-Started_example =
    kmain-Started linked-laws image processor no_pages image-IsImage processor-IsProcessor
      no_pages-HasTables (inl refl) (λ _. omega arith) (λ _. omega arith) no_pages-new no_pages-Free
      no_pages-IsReady

-- The clock, and then the keyboard.
abbrev trap_of : (trapno : ℕ) → Trapframe
trap_of trapno = record {
  edi = 0;
  esi = 0;
  ebp = 0;
  oesp = 0;
  ebx = 0;
  edx = 0;
  ecx = 0;
  eax = 0;
  gs = 0;
  fs = 0;
  es = 0;
  ds = 0x10;
  trapno = trapno;
  err = 0;
  eip = 0x80100000;
  cs = 8;
  eflags = 0x202;
  esp = 0;
  ss = 0x10;
}

abbrev interrupts : List Trapframe
interrupts = trap_of 0x20 ∷ trap_of 0x21 ∷ []

-- The machine in the endless loop, and the machine after the two interrupts.
started : (m : Machine) × Started linked-laws image m
unfolding has_port
started =
    let start =
      kmain-Started linked-laws image processor no_pages image-IsImage processor-IsProcessor
        no_pages-HasTables (inl refl) (λ _. omega arith) (λ _. omega arith) no_pages-new
        no_pages-Free no_pages-IsReady in
    (sti start.0, start.2)

interrupted : (n : Machine) × Traps started.0 interrupts n × Started linked-laws image n
interrupted =
    serve linked-laws image image-IsImage interrupts started.0 (omega arith, (omega arith, tt))
      started.1

Traps-Started_example :
    Started linked-laws image interrupted.0
    × (interrupted.0.trap_counter % 2 ^ 32 ≡ (started.0.trap_counter + 2) % 2 ^ 32)
    × ((q : ℕ) → OffScreen q → interrupted.0.memory q ≡ started.0.memory q)
Traps-Started_example =
    Traps-Started linked-laws image image-IsImage interrupts started.0 interrupted.0
      (omega arith, (omega arith, tt)) interrupted.1 started.1

-- The started kernel with a prompt on its screen and the key A held down.
abbrev key_held : Machine
key_held = record started.0 { device = λ _ _. 0x1E }

key_held-Started : Started linked-laws image key_held
key_held-Started =
    let r = started.1.traps.ready in
    Started-same linked-laws image image-IsImage started.0 key_held refl refl refl refl
      (λ q o. refl)
      (record {
        on_screen = record { row_lt = r.on_screen.row_lt; col_lt = r.on_screen.col_lt };
        digits = r.digits;
        patient = r.patient;
        line = inr (λ _. omega arith);
      })
      started.1

prompted-Started : Started linked-laws image (prompted key_held)
prompted-Started =
    let t = prompted-Typed key_held in
    Started-same linked-laws image image-IsImage key_held (prompted key_held)
      t.kept.serial_default_port t.kept.trap_table t.kept.trap_callback_table t.kept.gdt t.outside
      (prompted-IsReady key_held key_held-Started.traps.ready) key_held-Started

pressed : (n : Machine) × Traps (prompted key_held) interrupts n × Started linked-laws image n
pressed =
    serve linked-laws image image-IsImage interrupts (prompted key_held)
      (omega arith, (omega arith, tt)) prompted-Started

Traps-Shows_example :
    ShownAndSent
      (texts
        (λ _. 0x1E)
        (asked (prompted key_held).history)
        (prompted key_held).trap_counter
        interrupts)
      paper
      (prompted key_held)
      pressed.0
Traps-Shows_example =
    Traps-Shows linked-laws image image-IsImage interrupts (λ _. 0x1E) paper (prompted key_held)
      pressed.0 (omega arith, (omega arith, tt)) pressed.1
      (λ h. rw (prompted-Typed key_held).kept.device refl) prompted-Started paper-IsStarted
      (prompted-Shows key_held)

-- Somebody types H and I, and the line still answers 0x60.
abbrev typed : ℕ → ℕ
typed reads = if reads == 0 then 0x23 else 0x17

abbrev typing : Machine
typing = record no_pages { device = λ h port. if port == 0x60 then typed (asked h) else 0x60 }

typing-IsReady : IsReady typing
typing-IsReady = record {
  on_screen = record { row_lt = omega arith; col_lt = omega arith };
  digits = sample-IsReady.digits;
  patient = omega arith;
  line = inr (λ _. omega arith);
}

typed-byte : (reads : ℕ) → u8 (typed reads) ≡ typed reads
typed-byte reads = ground arith

abbrev key_clock_key : List Trapframe
key_clock_key = trap_of 0x21 ∷ trap_of 0x20 ∷ trap_of 0x21 ∷ []

kmain-Shows_example :
    (n k : Machine) × (p : Paper) × (kmain linked image processor typing ≡ hung (sti n))
    × Traps (sti n) key_clock_key k
    × Started linked-laws image k
    × Shows p (sti n)
    × ShownAndSent (texts typed (asked (sti n).history) 0 key_clock_key) p (sti n) k
unfolding has_port
kmain-Shows_example =
    kmain-Shows linked-laws image processor typing key_clock_key typed image-IsImage
      processor-IsProcessor (record { gates = refl; callbacks = refl }) (inl refl)
      (λ _. omega arith) (λ _. omega arith) no_pages-new no_pages-Free typing-IsReady (inl refl)
      (λ h. typed-byte (asked h)) (omega arith, (omega arith, (omega arith, tt)))

-- What they see.
typed-texts :
    texts typed 0 0 key_clock_key
    ≡ codes
        "[TRAP] trapcounter: 0x00000001    trapno: 21\n[TRAP] Letter: H\n[TRAP] trapcounter: 0x00000003    trapno: 21\n[TRAP] Letter: I\n"
unfolding texts digits_of numeral
typed-texts = refl
