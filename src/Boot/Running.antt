-- ===== src/Boot/Running.antt =====
-- The kernel once `kmain` stands in its endless loop: interrupts come, and `common_trap_handler`
-- of arch/i386/trap.c runs for each.
use yack.Common.{
  ℕ, ◌+◌, ◌%◌, ◌^◌, ◌≤◌, ◌<◌, ◌≡◌, refl, ◌∙◌, arith, List, [], ◌∷◌, true, length, subst,
}
use yack.Layout.{page_up}
use yack.Machine.{Machine, done, hung, sti}
use yack.Machine.Returns.{done-same}
use yack.Screen.Writes.{OffScreen}
use yack.Serial.Poll.{Answers}
use yack.Ports.Registry.{HasRoom, IsPresent}
use yack.Io.Logged.{IsReady}
use yack.Trap.{Trapframe, trap_handler}
use yack.Trap.Table.{HasTables}
use yack.Trap.Handler.{Handled, trap_handler-Handled}
use yack.Pages.{ListOps}
use yack.Pages.Lists.{ListLaws}
use yack.Pages.Queue.{Free}
use yack.Paging.Tables.{absent}
use yack.Paging.Screened.{Created-Screen}
use yack.Segments.{Processor}
use yack.Boot.{Image, kmain}
use yack.Boot.Start.{IsImage, IsProcessor, Started, TrapsSet-same, kmain-Started}

-- From one machine to another by traps, one after another.
pub data Traps : Machine → List Trapframe → Machine → Type 0 where
  quiet : {m : Machine} → Traps m [] m
  trapped :
      {m n k : Machine} {tf : Trapframe} {tfs : List Trapframe}
      → trap_handler tf m ≡ done tt n
      → Traps n tfs k
      → Traps m (tf ∷ tfs) k

-- Each has one of the 256 numbers.
abbrev pub AreTraps : List Trapframe → Type 0
AreTraps [] = Unit {0}
AreTraps (tf ∷ tfs) = (tf.trapno < 256) × AreTraps tfs

module _ {lists : ListOps} (laws : ListLaws lists) (image : Image) (im : IsImage image) where
  -- A kernel that has started stays so while what it has set up stays.
  pub Started-same :
      (m n : Machine)
      → n.serial_default_port ≡ m.serial_default_port
      → n.trap_table ≡ m.trap_table
      → n.trap_callback_table ≡ m.trap_callback_table
      → n.gdt ≡ m.gdt
      → ((q : ℕ) → OffScreen q → n.memory q ≡ m.memory q)
      → IsReady n
      → Started laws image m
      → Started laws image n
  Started-same m n port gates callbacks gdt outside ready s = record {
    line = port ∙ s.line;
    traps = TrapsSet-same image.vectors m n gates callbacks ready s.traps;
    gdt = gdt ∙ s.gdt;
    directory = (
      s.directory.0,
      Created-Screen image.data_start image.end s.directory.0 m n (omega (arith, im.data_high))
          im.data_end (omega (arith, im.spare)) outside s.directory.1,
    );
  }

  pub Handled-Started :
      (tf : Trapframe) (m n : Machine)
      → Handled tf m n
      → Started laws image m
      → Started laws image n
  Handled-Started tf m n h s =
      Started-same m n h.default_port h.gates h.callbacks h.gdt h.outside h.ready s

  -- The machine that the handler leaves is the one that it is known to leave.
  pub step-Handled :
      (tf : Trapframe) (m n : Machine)
      → tf.trapno < 256
      → IsReady m
      → trap_handler tf m ≡ done tt n
      → Handled tf m n
  step-Handled tf m n h r e =
      let l = trap_handler-Handled tf m h r in subst (Handled tf m) (done-same l.1 e) l.2

  -- With the laws of lists, the image of the kernel where the linker puts it, whenever a sequence
  -- of traps with numbers below 256 leads from a machine that is as `kmain` has set it up to
  -- another: that one too is as `kmain` has set it up, its counter of traps has grown by the
  -- length of the sequence, in 32 bits, and its memory outside the screen is the same.
  pub Traps-Started :
      (tfs : List Trapframe) (m n : Machine)
      → AreTraps tfs
      → Traps m tfs n
      → Started laws image m
      → Started laws image n
        × (n.trap_counter % 2 ^ 32 ≡ (m.trap_counter + length tfs) % 2 ^ 32)
        × ((q : ℕ) → OffScreen q → n.memory q ≡ m.memory q)
  Traps-Started [] m n t quiet s = (s, omega arith, λ q o. refl)
  Traps-Started (tf ∷ tfs) m n (t, ts) (trapped {n = k} e rest) s =
      let h = step-Handled tf m k t s.traps.ready e in
      let next = Traps-Started tfs k n ts rest (Handled-Started tf m k h s) in
      (next.0, omega (arith, h.counted, next.1), λ q o. next.2 q o ∙ h.outside q o)

  pub serve :
      (tfs : List Trapframe) (m : Machine)
      → AreTraps tfs
      → Started laws image m
      → (n : Machine) × Traps m tfs n × Started laws image n
  serve [] m t s = (m, quiet, s)
  serve (tf ∷ tfs) m (t, ts) s =
      let l = trap_handler-Handled tf m t s.traps.ready in
      let rest = serve tfs l.0 ts (Handled-Started tf m l.0 l.2 s) in
      (rest.0, trapped l.1 rest.1, rest.2)

-- Under the conditions of `kmain-Started`, for any sequence of traps with numbers below 256:
-- `kmain` comes to the endless loop at its end with the interrupts enabled, and from there the
-- handler returns for each of the traps, one after another; at the end the default port, the
-- gates and callbacks, the segments, the page directory and the readiness for output are as
-- `kmain` has set them up.
kmain-Traps :
    {lists : ListOps} (laws : ListLaws lists) (image : Image) (cpu : Processor) (m : Machine)
    (tfs : List Trapframe)
    → IsImage image
    → IsProcessor cpu
    → HasTables m
    → HasRoom 0x3F8 m.serial_ports
    → IsPresent 0x3F8 m
    → Answers 0x3F8 m.device
    → ((i : ℕ) → 512 ≤ i → i < 1024 → absent m.memory (page_up image.end) i ≡ true)
    → Free laws image.registry [] m.memory
    → IsReady m
    → AreTraps tfs
    → (n k : Machine) × (kmain lists image cpu m ≡ hung (sti n))
      × Traps (sti n) tfs k
      × Started laws image k
kmain-Traps laws image cpu m tfs im pr ht space present answers new f r ts =
    let start = kmain-Started laws image cpu m im pr ht space present answers new f r in
    let run = serve laws image im tfs (sti start.0) ts start.2 in
    (start.0, run.0, start.1, run.1, run.2)
