-- ===== src/Boot/Keys.antt =====
-- What interrupts print once `kmain` stands in its endless loop.
use yack.Common.{
  ◌≤◌, refl, ℕ, ◌+◌, ◌%◌, ◌^◌, ◌<◌, ◌≡◌, ◌⊎◌, inl, inr, sym, subst, ◌∙◌, ap, arith, List, [], ◌∷◌,
  ◌++◌, ◌==◌, if◌then◌else◌, map, u8, u16, get_or, Bool-cases, append_assoc, Bool, true, false,
  append-nil, ==_iff,
}
use yack.Machine.{Machine, sti, hung, done, null, keyboard_handler}
use yack.Machine.Returns.{done-same}
use yack.Screen.Paper.{Paper, print_text}
use yack.Screen.Typing.{Shows}
use yack.Screen.Text.{print_text-IsStarted, IsStarted}
use yack.Screen.Spoken.{spoken, asked}
use yack.Serial.Poll.{Answers}
use yack.Io.Written.{IsOnLine, Written}
use yack.Io.Written.Joined.{print_text-append, map-append}
use yack.Trap.{Trapframe, scan_code, trap_handler}
use yack.Trap.Handler.{noticed}
use yack.Trap.Texts.{trap_text, letter_text, callback_text, reads_of}
use yack.Trap.Letters.{Gives, trap_handler-Written}
use yack.Screen.Showing.{Showing}
use yack.Layout.{page_up}
use yack.Ports.Registry.{HasRoom, IsPresent}
use yack.Io.Logged.{IsReady}
use yack.Trap.Table.{HasTables}
use yack.Pages.Queue.{Free}
use yack.Paging.Tables.{absent}
use yack.Segments.{Processor}
use yack.Pages.{ListOps}
use yack.Pages.Lists.{ListLaws}
use yack.Boot.{Image, kmain}
use yack.Boot.Start.{IsImage, IsProcessor, Started, kmain-Announced}
use yack.Boot.Running.{Traps, quiet, trapped, AreTraps, serve, Handled-Started, step-Handled}

-- What a trap prints, with the letter if it is the keyboard's, and what a sequence of traps prints.
abbrev pub key_text : (scan counter trapno : ℕ) → List ℕ
key_text scan counter trapno =
    trap_text counter trapno ++ (if trapno == 0x21 then letter_text (scan_code scan) else [])

-- The keyboard's trap takes one scan code.
abbrev pub key_reads : (trapno : ℕ) → ℕ
key_reads trapno = if trapno == 0x21 then 1 else 0

unfoldable pub texts : (scans : ℕ → ℕ) (reads counter : ℕ) → List Trapframe → List ℕ
texts scans reads counter [] = []
texts scans reads counter (tf ∷ tfs) =
    key_text (scans reads) ((counter + 1) % 2 ^ 32) tf.trapno
    ++ texts scans (reads + key_reads tf.trapno) ((counter + 1) % 2 ^ 32) tfs

-- A text has come to the screen and to the line at 0x3F8.
abbrev pub ShownAndSent : List ℕ → Paper → (m n : Machine) → Type 0
ShownAndSent t p m n =
    Shows (print_text t p) n × (spoken 0x3F8 n.history ≡ spoken 0x3F8 m.history ++ map u8 t)

printed_more :
    (t t' : List ℕ) (p : Paper) (m k n : Machine)
    → spoken 0x3F8 k.history ≡ spoken 0x3F8 m.history ++ map u8 t
    → ShownAndSent t' (print_text t p) k n
    → ShownAndSent (t ++ t') p m n
printed_more t t' p m k n e (shown, said) = (
  rw (print_text-append t t' p) shown,
  said
      ∙ ap (λ x. x ++ map u8 t') e
      ∙ append_assoc (spoken 0x3F8 m.history) (map u8 t) (map u8 t')
      ∙ ap (λ x. spoken 0x3F8 m.history ++ x) (sym (map-append t t')),
)

line-Answers :
    (m : Machine)
    → m.serial_default_port ≡ 0x3F8
    → (m.serial_default_port ≡ 0) ⊎ Answers m.serial_default_port m.device
    → Answers m.serial_default_port m.device
line-Answers m e (inl z) = absurd (omega arith)
line-Answers m e (inr a) = a

-- What the callback prints and reads.
if_text :
    (b : Bool) (scan : ℕ)
    → callback_text (if b then keyboard_handler else null) scan
      ≡ (if b then letter_text (scan_code scan) else [])
if_text true scan = refl
if_text false scan = refl

if_reads : (b : Bool) → reads_of (if b then keyboard_handler else null) ≡ (if b then 1 else 0)
if_reads true = refl
if_reads false = refl

module _ {lists : ListOps} (laws : ListLaws lists) (image : Image) (im : IsImage image) where
  Started-IsOnLine : (m : Machine) → Started laws image m → IsOnLine m
  Started-IsOnLine m s = record {
    ready = s.traps.ready;
    used = rw s.line (omega arith);
    elsewhere = rw s.line (omega arith, omega arith);
    unasked = rw s.line (omega arith);
    answers = line-Answers m s.line s.traps.ready.line;
  }

  -- Only the keyboard has a callback.
  callback-key :
      (m : Machine) (trapno : ℕ)
      → trapno < 256
      → Started laws image m
      → get_or m.trap_callback_table trapno null
        ≡ (if trapno == 0x21 then keyboard_handler else null)
  callback-key m trapno h s = elim (Bool-cases (trapno == 0x21)) [
    | inl e ↦
        let same : trapno ≡ 0x21 = (==_iff trapno 0x21).0 e in
        rw e (
          subst (λ i. get_or m.trap_callback_table i null ≡ keyboard_handler) (sym same)
            s.traps.keyboard)
    | inr ne ↦ rw ne (s.traps.free trapno h (λ q. absurd (ground arith)))
  ]

  key-Handles :
      (tf : Trapframe) (scans : ℕ → ℕ) (p : Paper) (m n : Machine)
      → tf.trapno < 256
      → trap_handler tf m ≡ done tt n
      → Gives scans m
      → Started laws image m
      → IsStarted p
      → Shows p m
      → Written
          (key_text (scans (asked m.history)) ((m.trap_counter + 1) % 2 ^ 32) tf.trapno)
          p
          (noticed tf m)
          n
        × (asked n.history ≡ asked m.history + key_reads tf.trapno)
  key-Handles tf scans p m n h e g s st shows =
      let w = trap_handler-Written tf scans p m h s.line g (Started-IsOnLine m s) st shows in
      let scan = scans (asked m.history) in
      let calls = callback-key m tf.trapno h s in
      (
        subst
            (λ t.
              Written (trap_text ((m.trap_counter + 1) % 2 ^ 32) tf.trapno ++ t) p (noticed tf m) n)
            (ap (λ c. callback_text c scan) calls ∙ if_text (tf.trapno == 0x21) scan)
            (subst (Written _ p (noticed tf m)) (done-same w.1 e) w.2),
        ap (λ (x : Machine). asked x.history) (sym (done-same w.1 e))
            ∙ w.3
            ∙ ap (λ c. asked m.history + reads_of c) calls
            ∙ ap (λ r. asked m.history + r) (if_reads (tf.trapno == 0x21)),
      )

  -- With the laws of lists, the image of the kernel where the linker puts it, a machine that is
  -- as `kmain` has set it up, a screen that shows a paper past its first position, a keyboard
  -- that gives one scan code after the other, one at each read, and traps with numbers below 256
  -- that lead from it to another machine: the texts of the traps, one behind the other, have been
  -- printed on the paper that the screen shows and have gone to the line at 0x3F8. The text of a
  -- trap is a log message with its number and the counter of traps, none for the clock's, and for
  -- the keyboard's another one with the letter of the next scan code, if it has one.
  pub Traps-Shows :
      (tfs : List Trapframe) (scans : ℕ → ℕ) (p : Paper) (m n : Machine)
      → AreTraps tfs
      → Traps m tfs n
      → Gives scans m
      → Started laws image m
      → IsStarted p
      → Shows p m
      → ShownAndSent (texts scans (asked m.history) m.trap_counter tfs) p m n
  unfolding texts
  Traps-Shows [] scans p m n t quiet g s st shows =
      (unfold print_text in shows, sym (append-nil (spoken 0x3F8 m.history)))
  Traps-Shows (tf ∷ tfs) scans p m n (t, ts) (trapped {n = k} e rest) g s st shows =
      let counter = (m.trap_counter + 1) % 2 ^ 32 in
      let reads = asked m.history in
      let text = key_text (scans reads) counter tf.trapno in
      let h = key-Handles tf scans p m k t e g s st shows in
      let w = h.0 in
      let later =
        Handled-Started laws image im tf m k (step-Handled laws image im tf m k t s.traps.ready e)
          s in
      let next =
        Traps-Shows tfs scans (print_text text p) k n ts rest (λ q. rw w.kept.device (g q)) later
          (print_text-IsStarted text p st) w.shows in
      printed_more text (texts scans (reads + key_reads tf.trapno) counter tfs) p m k n
        (subst (λ d. spoken (u16 d) k.history ≡ spoken (u16 d) m.history ++ map u8 text) s.line
          w.said)
        (subst (λ r. ShownAndSent (texts scans r counter tfs) (print_text text p) k n) h.1
          (subst (λ c. ShownAndSent (texts scans (asked k.history) c tfs) (print_text text p) k n)
            w.kept.trap_counter next))

-- With the laws of lists, the image of the kernel where the linker puts it, a line at 0x3F8 that
-- has a chip which answers and a place in the registry, no free page yet, no entry present in the
-- upper half of the first page behind the kernel, tables of 256 traps, registers of their width,
-- a machine that is ready for output, and whose cursor is at home, as after boot, or whose screen
-- shows a paper past its first position, with a keyboard that gives one scan code after the
-- other, one at each read, and for any sequence of traps with numbers below 256: `kmain` comes to
-- the endless loop at its end with the interrupts enabled and the screen showing a paper, and
-- from there the handler returns for each of the traps, one after another. At the end the texts
-- of the traps, one behind the other, have been printed on that paper and have gone to the line
-- at 0x3F8, and the default port, the gates and callbacks, the segments and the page directory
-- are as `kmain` has set them up. The text of a trap is a log message with its number and the
-- counter of traps, none for the clock's, and for the keyboard's another one with the letter of
-- the next scan code, if it has one.
pub kmain-Shows :
    {lists : ListOps} (laws : ListLaws lists) (image : Image) (cpu : Processor) (m : Machine)
    (tfs : List Trapframe) (scans : ℕ → ℕ)
    → IsImage image
    → IsProcessor cpu
    → HasTables m
    → HasRoom 0x3F8 m.serial_ports
    → IsPresent 0x3F8 m
    → Answers 0x3F8 m.device
    → ((i : ℕ) → 512 ≤ i → i < 1024 → absent m.memory (page_up image.end) i ≡ true)
    → Free laws image.registry [] m.memory
    → IsReady m
    → Showing m
    → Gives scans m
    → AreTraps tfs
    → (n k : Machine) × (p : Paper) × (kmain lists image cpu m ≡ hung (sti n))
      × Traps (sti n) tfs k
      × Started laws image k
      × Shows p (sti n)
      × ShownAndSent (texts scans (asked (sti n).history) m.trap_counter tfs) p (sti n) k
kmain-Shows laws image cpu m tfs scans im pr ht space present answers new f r s g ts =
    let start = kmain-Announced laws image cpu m im pr ht space present answers new f r in
    let n = sti start.0 in
    let a = start.3 in
    let (p, st, shows) = a.shows s in
    let run = serve laws image im tfs n ts start.2 in
    let printed =
      Traps-Shows laws image im tfs scans p n run.0 ts run.1 (λ h. rw a.device (g h)) start.2 st
        shows in
    (
      start.0,
      run.0,
      p,
      start.1,
      run.1,
      run.2,
      shows,
      subst (λ c. ShownAndSent (texts scans (asked n.history) c tfs) p n run.0) a.counter printed,
    )
