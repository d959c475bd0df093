-- ===== src/Boot/Timer.antt =====
-- The timer's counter and the shutdown of kernel/kmain.c.
use yack.Common.{
  ℕ, ◌+◌, ◌*◌, ◌/◌, ◌%◌, ◌^◌, ◌<◌, ◌≡◌, refl, arith, List, [], ◌∷◌, bit_or, u16, ◌<<<◌,
}
use yack.Common.Bits.{and_low, and_high, or_fields, or-zero, zero-or}
use yack.Machine.{Machine, Event, port_byte, port_word, port_read, done, outb, outw, inb, io_wait}
use yack.Format.{codes}
use yack.Format.Room.{room}
use yack.Io.Logged.{IsReady, klog-Logged}
use yack.Trap.{pic_eoi}
use yack.Boot.{do_shutdown, read_pit_count, set_pit_count}

-- The end of an access to the timer: the first controller is told, and a port is written to wait.
abbrev pub settled : List Event → List Event
settled h = port_byte 0x80 0 ∷ port_byte 0x20 0x20 ∷ h

-- `set_pit_count` sends the low and then the high byte of a count of 16 bits to the timer, tells
-- the first controller, and changes nothing else.
set_pit_count-bytes :
    (count : ℕ) (m : Machine)
    → count < 2 ^ 16
    → set_pit_count count m
      ≡ done tt (record m {
        history = settled (port_byte 0x40 (count / 256) ∷ port_byte 0x40 (count % 256) ∷ m.history);
      })
unfolding set_pit_count pic_eoi outb io_wait
set_pit_count-bytes count m h =
    let high : count / 256 * 256 / 256 % 256 ≡ count / 256 = omega arith in
    let low : count % 256 % 256 ≡ count % 256 = omega arith in
    rw (and_low 8 count, and_high 8 8 count h) (rw (high, low) refl)

-- What the timer answers when its counter is read.
abbrev pub asked : List Event → List Event
asked h = port_byte 0x43 4 ∷ h

joined : (low high : ℕ) → low < 256 → high < 256 → u16 (bit_or low (high <<< 8)) ≡ low + 256 * high
joined low high l h =
    ground (arith, or_fields 8 0 low high 0 l (omega arith), zero-or high, or-zero low)

-- `read_pit_count` asks for the counter of the timer, reads its low byte and then its high byte,
-- returns the number of 16 bits that they make, and tells the first controller.
read_pit_count-reads :
    (m : Machine)
    → read_pit_count m
      ≡ done
          (m.device (asked m.history) 0x40 % 256
            + 256 * (m.device (port_read 0x40 ∷ asked m.history) 0x40 % 256))
          (record m { history = settled (port_read 0x40 ∷ port_read 0x40 ∷ asked m.history) })
unfolding read_pit_count pic_eoi outb inb io_wait
read_pit_count-reads m =
    rw
      (joined (m.device (asked m.history) 0x40 % 256)
        (m.device (port_read 0x40 ∷ asked m.history) 0x40 % 256) (omega arith) (omega arith))
      refl

-- On a machine that is ready for output `do_shutdown` returns, and the last that it does is to
-- write the word 0x2000 to the port 0x604.
do_shutdown-powers_off :
    (m : Machine)
    → IsReady m
    → (n : Machine) × (h : List Event) × (do_shutdown m ≡ done tt n)
      × (n.history ≡ port_word 0x604 0x2000 ∷ h)
unfolding do_shutdown outw
do_shutdown-powers_off m r =
    let l =
      klog-Logged (codes "INFO") (codes "Shutting down...\n") [] 17 m (omega arith)
        (unfold room in refl) (omega arith) tt r in
    (
      record l.after { history = port_word 0x604 0x2000 ∷ l.after.history },
      l.after.history,
      rw l.returns refl,
      refl,
    )
