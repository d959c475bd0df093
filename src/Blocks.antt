-- ===== src/Blocks.antt =====
-- The instructions of arch/i386/include/x86.h that move more than a byte: `stosb`, `inw` and `insl`.
-- A count is the 32-bit word that the register has.
pub mod Moves
mod Tests
use yack.Common.{ℕ, zero, suc, ◌+◌, u8, u16, u32}
use yack.Memory.{write, store32}
use yack.Machine.{Machine, Outcome, done, Kernel, event, port_read, pure, change}

-- `rep stosb`: the byte `al` at `edi`, which moves up, `ecx` times.
rep_stosb : (ecx edi al : ℕ) → Machine → Machine
unfolding write
rep_stosb zero edi al m = m
rep_stosb (suc ecx) edi al m =
    rep_stosb ecx (edi + 1) al (record m { memory = write m.memory edi al })

unfoldable pub stosb : (addr data_byte cnt : ℕ) → Machine → Machine
unfolding rep_stosb
stosb addr data_byte cnt m = rep_stosb cnt addr (u8 data_byte) m

unfoldable pub inw : ℕ → Kernel ℕ
inw port m = done (u16 (m.device m.history (u16 port))) (event (port_read (u16 port)) m)

-- `rep insl`: one read of 32 bits for each word.
rep_insl : (ecx edi dx : ℕ) → Machine → Machine
unfolding store32
rep_insl zero edi dx m = m
rep_insl (suc ecx) edi dx m = rep_insl ecx (edi + 4) dx (
    event (port_read dx) (record m { memory = store32 m.memory edi (u32 (m.device m.history dx)) }))

unfoldable pub insl : (port addr cnt : ℕ) → Machine → Machine
unfolding rep_insl
insl port addr cnt m = rep_insl cnt addr (u16 port) m
