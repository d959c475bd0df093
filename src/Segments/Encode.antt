-- ===== src/Segments/Encode.antt =====
-- What `x86_gdt_set` puts into a descriptor, and the table that `segments_init` leaves.
use yack.Common.{ℕ, ◌+◌, ◌*◌, ◌/◌, ◌%◌, ◌^◌, ◌<◌, ◌≡◌, refl, arith, bit_and, bit_or, ◌>>>◌}
use yack.Common.Bits.{and_low, and_high, or_congr, or_fields, zero-or, or-zero}
use yack.Machine.{Descriptor}
use yack.Segments.{encode, low_word, high_word}

-- The base, the limit and the flags that the processor reads from a descriptor.
abbrev pub base_of : Descriptor → ℕ
base_of d = d.base_low + 2 ^ 16 * d.base_mid + 2 ^ 24 * d.base_high

abbrev pub limit_of : Descriptor → ℕ
limit_of d = d.limit_low + 2 ^ 16 * (d.flags % 16)

abbrev pub granularity_of : Descriptor → ℕ
granularity_of d = d.flags / 16

flags_lem :
    (limit flags : ℕ)
    → flags < 256
    → bit_or (bit_and (limit >>> 16) 0x0F) (bit_and flags 0xF0)
      ≡ flags / 16 * 16 + limit / 65536 % 16
flags_lem limit flags h =
    let r = limit / 65536 % 16 in
    rw (and_low 4 (limit / 65536), and_high 4 4 flags h)
      (ground (
        arith,
        or_fields 4 0 r (flags / 16) 0 (omega arith) (omega arith),
        zero-or (flags / 16),
        or-zero r,
        or_congr r (0 * 2 ^ 4 + r) (flags / 16 * 16) (flags / 16 * 2 ^ 4 + 0) (omega arith)
            (omega arith),
      ))

encode_lem :
    (base limit access flags : ℕ)
    → flags < 256
    → encode base limit access flags ≡ record {
      limit_low = limit % 65536;
      base_low = base % 65536;
      base_mid = base / 65536 % 256;
      access = access;
      flags = flags / 16 * 16 + limit / 65536 % 16;
      base_high = base / 2 ^ 24 % 256;
    }
unfolding encode
encode_lem base limit access flags h = rw (
  flags_lem limit flags h,
  and_low 16 limit,
  and_low 16 base,
  and_low 8 (base / 65536),
  and_low 8 (base / 2 ^ 24),
)

-- For a base of 32 bits and flags of 8 bits the processor reads back from a descriptor the base,
-- the low 20 bits of the limit, the access byte and the high half of the flags that it was made
-- of.
pub encode-decode :
    (base limit access flags : ℕ)
    → base < 2 ^ 32
    → flags < 256
    → (base_of (encode base limit access flags) ≡ base)
      × (limit_of (encode base limit access flags) ≡ limit % 2 ^ 20)
      × ((encode base limit access flags).access ≡ access)
      × (granularity_of (encode base limit access flags) ≡ flags / 16)
encode-decode base limit access flags b f =
    rw (encode_lem base limit access flags f) (ground arith, ground arith, refl, ground arith)

pub encode-words :
    (base limit access flags : ℕ)
    → access < 256
    → flags < 256
    → (high_word (encode base limit access flags) < 2 ^ 32)
      × (low_word (encode base limit access flags) < 2 ^ 32)
encode-words base limit access flags a f =
    rw (encode_lem base limit access flags f) ((ground arith), (ground arith))
