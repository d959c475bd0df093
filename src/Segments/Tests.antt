-- ===== src/Segments/Tests.antt =====
-- The segments of the sample machine.
use yack.Common.{◌≡◌, ◌%◌, ◌/◌, ◌^◌, arith}
use yack.Segments.{encode, segments_init, Processor, get_segment}
use yack.Segments.Encode.{base_of, limit_of, granularity_of, encode-decode}
use yack.Segments.Init.{segments, Leaves, segments_init-Leaves}
use yack.Samples.{sample, sample-IsReady}

encode-decode_example :
    (base_of (encode 0x80104A20 108 0xF2 0xCF) ≡ 0x80104A20)
    × (limit_of (encode 0x80104A20 108 0xF2 0xCF) ≡ 108 % 2 ^ 20)
    × ((encode 0x80104A20 108 0xF2 0xCF).access ≡ 0xF2)
    × (granularity_of (encode 0x80104A20 108 0xF2 0xCF) ≡ 0xCF / 16)
encode-decode_example = encode-decode 0x80104A20 108 0xF2 0xCF (omega arith) (omega arith)

abbrev processor : Processor
processor = record {
  es = 16;
  cs = 8;
  ss = 16;
  ds = 16;
  fs = 16;
  gs = 16;
  gdt_size = 47;
  gdt_low = 0x5000;
  gdt_high = 0x8010;
}

segments_init-Leaves_example :
    Leaves sample (segments 0x80104A20) (segments_init 0x80105000 0x80104A20 processor sample)
segments_init-Leaves_example =
    segments_init-Leaves 0x80105000 0x80104A20 processor sample (omega arith)
      (λ s. unfold get_segment in ground arith) (omega arith) (omega arith) (omega arith)
      sample-IsReady
