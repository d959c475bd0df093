-- ===== src/Blocks/Tests.antt =====
-- Three words from the data port of a disk controller.
use yack.Blocks.{insl}
use yack.Blocks.Moves.{Moved, insl-Moved}
use yack.Samples.{sample}

insl-Moved_example : Moved 3 0x1F0 0x80107000 sample (insl 0x1F0 0x80107000 3 sample)
insl-Moved_example = insl-Moved 0x1F0 0x80107000 3 sample
