-- ===== src/Boot/Start.antt =====
-- What `kmain` of kernel/kmain.c leaves when it comes to its endless loop.
use yack.Common.{
  ℕ, ◌+◌, ◌*◌, ◌%◌, ◌^◌, ◌≤◌, ◌<◌, ◌≡◌, refl, ap, subst, ◌∙◌, arith, List, [], ◌∷◌, true, length,
  lt→ltb, get_or,
}
use yack.Layout.{page_up, kernel_link}
use yack.Memory.Region.{Apart}
use yack.Machine.{
  Machine, done, hung, Kernel, ◌>>=◌, ◌>>◌, pure, cli, sti, event, null, interrupts_off,
  interrupts_on,
}
use yack.Machine.Returns.{Returns-done, done-same}
use yack.Screen.{buffer}
use yack.Screen.Showing.{Shown, Showing, Shown-same, Showing-same}
use yack.Screen.Writes.{OffScreen}
use yack.Serial.Poll.{Answers}
use yack.Format.{codes}
use yack.Format.Room.{room}
use yack.Io.{klog, kassert}
use yack.Io.Logged.{IsReady, klog-Logged}
use yack.Io.Shown.{klog-Shown}
use yack.Io.Stores.{retable-IsReady}
use yack.Ports.Registry.{HasRoom, IsPresent}
use yack.Trap.{trap_init, no_gate}
use yack.Trap.Table.{HasTables}
use yack.Trap.Init.{TrapsSet, trap_init-TrapsSet}
use yack.Pages.{ListOps}
use yack.Pages.Lists.{ListLaws}
use yack.Pages.Queue.{Free, Free-Screen}
use yack.Paging.{kvm_init}
use yack.Paging.Tables.{absent, entry-Outside}
use yack.Paging.Create.{Created}
use yack.Paging.Screened.{Created-Screen}
use yack.Paging.Init.{up_bounds, kvm_init-Created}
use yack.Segments.{Processor, get_segment, segments_init}
use yack.Segments.Init.{segments, segments_init-Leaves}
use yack.Boot.{Image, kmain}
use yack.Boot.Line.{line_up-LineUp}

-- Where the linker is to put the parts of the kernel.
pub record IsImage (image : Image) : Type 0 where
  pub high : kernel_link < image.kmain_address
  pub table : image.trap_table < 2 ^ 32
  pub data_aligned : image.data_start % 4096 ≡ 0
  pub data_high : kernel_link ≤ image.data_start
  pub data_end : image.data_start ≤ image.end
  pub spare : image.end + 4 * 4096 ≤ 0x80400000
  pub registry_low : buffer + 4000 ≤ image.registry
  pub registry_end : image.registry + 8 ≤ image.end
  pub directory_low : buffer + 4000 ≤ image.boot_directory
  pub directory_end : image.boot_directory + 4 ≤ image.end
  pub apart : Apart image.boot_directory 4 image.registry 8
  pub gdt : image.gdt_address < 2 ^ 32

-- The registers have their width.
pub record IsProcessor (cpu : Processor) : Type 0 where
  pub segment : (segment : ℕ) → get_segment cpu segment < 2 ^ 32
  pub size : cpu.gdt_size < 2 ^ 16
  pub low : cpu.gdt_low < 2 ^ 16
  pub high : cpu.gdt_high < 2 ^ 16

-- The machine with everything set up.
pub record Started {lists : ListOps} (laws : ListLaws lists) (image : Image) (n : Machine)
    : Type 0 where
  pub line : n.serial_default_port ≡ 0x3F8
  pub traps : TrapsSet image.vectors n
  pub gdt : n.gdt ≡ segments image.tss
  pub directory :
      (ps : List ℕ) × Created laws image.registry image.data_start image.end
        (page_up image.end)
        ps
        n

-- The hardware is the same, no trap was counted, and a screen that showed a paper, or nothing yet,
-- shows one.
pub record Announced (m n : Machine) : Type 0 where
  pub device : n.device ≡ m.device
  pub counter : n.trap_counter ≡ m.trap_counter
  pub shows : Showing m → Shown n

-- The traps stay set while their tables do.
pub TrapsSet-same :
    (vectors : ℕ → ℕ) (m n : Machine)
    → n.trap_table ≡ m.trap_table
    → n.trap_callback_table ≡ m.trap_callback_table
    → IsReady n
    → TrapsSet vectors m
    → TrapsSet vectors n
TrapsSet-same vectors m n g c r t = record {
  ready = r;
  tables = record {
    gates = ap length g ∙ t.tables.gates;
    callbacks = ap length c ∙ t.tables.callbacks;
  };
  gates = λ i h. ap (λ x. get_or x i no_gate) g ∙ t.gates i h;
  keyboard = ap (λ x. get_or x 0x21 null) c ∙ t.keyboard;
  free = λ i h ne. ap (λ x. get_or x i null) c ∙ t.free i h ne;
}

-- Output on the screen leaves the memory behind the kernel.
unmapped-Screen :
    (image : Image) (m n : Machine)
    → IsImage image
    → ((q : ℕ) → OffScreen q → n.memory q ≡ m.memory q)
    → ((i : ℕ) → 512 ≤ i → i < 1024 → absent m.memory (page_up image.end) i ≡ true)
    → (i : ℕ) → 512 ≤ i
    → i < 1024
    → absent n.memory (page_up image.end) i ≡ true
unmapped-Screen image m n im out new i l u =
    let b = up_bounds image.end (omega (arith, im.spare)) in
    rw
      (entry-Outside (page_up image.end) m.memory n.memory buffer 4000 i u out
        (omega (arith, b, im.data_high, im.data_end)))
      (new i l u)

module _ {lists : ListOps} (laws : ListLaws lists) (image : Image) (cpu : Processor) where
  -- The parts of `kmain` behind the serial line.
  abbrev set_up : Kernel (Unit {0})
  set_up =
      trap_init image.vectors image.trap_table
      >> (kvm_init lists image.registry image.boot_directory image.data_start image.end >>= λ _.
          pure tt)
      >> segments_init image.gdt_address image.tss cpu
      >> klog (codes "DEBUG") (codes "Calling STI\n") []

  set_up-Started :
      (m : Machine)
      → IsImage image
      → IsProcessor cpu
      → HasTables m
      → ((i : ℕ) → 512 ≤ i → i < 1024 → absent m.memory (page_up image.end) i ≡ true)
      → Free laws image.registry [] m.memory
      → m.serial_default_port ≡ 0x3F8
      → IsReady m
      → (n : Machine) × (set_up m ≡ done tt n) × Started laws image n × Announced m n
  set_up-Started m im pr ht new f port r =
      let traps = trap_init-TrapsSet image.vectors image.trap_table m im.table ht r in
      let n1 = traps.0 in
      let p = Returns-done (
        kvm_init-Created laws image.registry image.boot_directory image.data_start image.end n1
          im.data_aligned im.data_high im.data_end im.spare im.registry_low im.registry_end
          im.directory_low im.directory_end im.apart
          (unmapped-Screen image m n1 im traps.3.outside new)
          (Free-Screen image.registry [] m.memory n1.memory traps.3.outside f) traps.2.ready) in
      let n2 = p.1 in
      let s =
        segments_init-Leaves image.gdt_address image.tss cpu n2 im.gdt pr.segment pr.size pr.low
          pr.high p.3.1 in
      let l =
        klog-Logged (codes "DEBUG") (codes "Calling STI\n") [] 12 s.after (omega arith)
          (unfold room in refl) (omega arith) tt s.ready in
      let n = l.after in
      (
        n,
        rw traps.1 (rw p.2 (rw s.returns l.returns)),
        record {
          line =
              l.kept.serial_default_port ∙ s.spared.default_port ∙ p.3.2.serial_default_port
              ∙ traps.3.default_port ∙ port;
          traps =
              TrapsSet-same image.vectors n1 n
                (l.kept.trap_table ∙ s.spared.gates ∙ p.3.2.trap_table)
                (l.kept.trap_callback_table ∙ s.spared.callbacks ∙ p.3.2.trap_callback_table)
                l.ready traps.2;
          gdt = l.kept.gdt ∙ s.gdt;
          directory = (
            p.3.3,
            Created-Screen image.data_start image.end p.3.3 n2 n (omega (arith, im.data_high))
                im.data_end (omega (arith, im.spare)) (λ q o. l.outside q o ∙ s.spared.outside q o)
                p.3.4,
          );
        },
        record {
          device = l.kept.device ∙ s.spared.device ∙ p.3.2.device ∙ traps.3.device;
          counter = l.kept.trap_counter ∙ s.spared.counter ∙ p.3.2.trap_counter ∙ traps.3.counter;
          shows = λ q.
              let k =
                klog-Shown (codes "DEBUG") (codes "Calling STI\n") [] 12 s.after (omega arith)
                  (unfold room in refl) (omega arith) tt s.ready
                  (s.spared.showing (p.3.2.showing (traps.3.showing q))) in
              subst Shown (done-same k.1 l.returns) k.2;
        },
      )

  Started-sti : (m : Machine) → Started laws image m → Started laws image (sti m)
  unfolding sti
  Started-sti m s = record {
    line = s.line;
    traps =
        TrapsSet-same image.vectors m (event interrupts_on m) refl refl
          (retable-IsReady m.serial_ports m.trap_counter m.last_trapno m.trap_table
            m.trap_callback_table m.gdt (interrupts_on ∷ m.history) m s.traps.ready)
          s.traps;
    gdt = s.gdt;
    directory = (
      s.directory.0,
      record {
        tables = s.directory.1.tables;
        io = s.directory.1.io;
        text = s.directory.1.text;
        data_pages = s.directory.1.data_pages;
        rest = s.directory.1.rest;
      },
    );
  }

  Announced-sti : (m n : Machine) → Announced m n → Announced m (sti n)
  unfolding sti
  Announced-sti m n a = record {
    device = a.device;
    counter = a.counter;
    shows = λ q. Shown-same n (event interrupts_on n) refl refl (λ _ _ _. refl) (a.shows q);
  }

  -- The start, with what it leaves of the hardware and the screen.
  pub kmain-Announced :
      (m : Machine)
      → IsImage image
      → IsProcessor cpu
      → HasTables m
      → HasRoom 0x3F8 m.serial_ports
      → IsPresent 0x3F8 m
      → Answers 0x3F8 m.device
      → ((i : ℕ) → 512 ≤ i → i < 1024 → absent m.memory (page_up image.end) i ≡ true)
      → Free laws image.registry [] m.memory
      → IsReady m
      → (n : Machine) × (kmain lists image cpu m ≡ hung (sti n))
        × Started laws image (sti n)
        × Announced m (sti n)
  unfolding kmain kassert cli
  kmain-Announced m im pr ht space present answers new f r =
      let quiet = record m { history = interrupts_off ∷ m.history } in
      let up = line_up-LineUp quiet space present answers (
        retable-IsReady m.serial_ports m.trap_counter m.last_trapno m.trap_table
          m.trap_callback_table m.gdt (interrupts_off ∷ m.history) m r) in
      let n1 = up.0 in
      let rest =
        set_up-Started n1 im pr
          (record {
            gates = ap length up.2.gates ∙ ht.gates;
            callbacks = ap length up.2.callbacks ∙ ht.callbacks;
          })
          (unmapped-Screen image quiet n1 im up.2.outside new)
          (Free-Screen image.registry [] m.memory n1.memory up.2.outside f) up.2.port up.2.ready in
      (
        rest.0,
        rw (lt→ltb kernel_link image.kmain_address im.high) (rw up.1 (rw rest.1 refl)),
        Started-sti rest.0 rest.2,
        Announced-sti m rest.0 (record {
          device = rest.3.device ∙ up.2.device;
          counter = rest.3.counter ∙ up.2.counter;
          shows =
              λ q. rest.3.shows (up.2.showing (Showing-same m quiet refl refl (λ _ _ _. refl) q));
        }),
      )

  -- With the laws of lists, the image of the kernel where the linker puts it, a line at 0x3F8
  -- that has a chip which answers and a place in the registry, no free page yet, no entry present
  -- in the upper half of the first page behind the kernel, tables of 256 traps, registers of
  -- their width and a machine that is ready for output: `kmain` comes to the endless loop at its
  -- end, right after it has enabled the interrupts. Then 0x3F8 is the default port, each trap has
  -- its gate and only the keyboard's has a callback, the five segments are in the table, and the
  -- page directory behind the kernel maps the devices, the text and the data as `kvm_create`
  -- says, and nothing behind them.
  pub kmain-Started :
      (m : Machine)
      → IsImage image
      → IsProcessor cpu
      → HasTables m
      → HasRoom 0x3F8 m.serial_ports
      → IsPresent 0x3F8 m
      → Answers 0x3F8 m.device
      → ((i : ℕ) → 512 ≤ i → i < 1024 → absent m.memory (page_up image.end) i ≡ true)
      → Free laws image.registry [] m.memory
      → IsReady m
      → (n : Machine) × (kmain lists image cpu m ≡ hung (sti n)) × Started laws image (sti n)
  kmain-Started m im pr ht space present answers new f r =
      let k = kmain-Announced m im pr ht space present answers new f r in (k.0, k.1, k.2)
