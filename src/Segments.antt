-- ===== src/Segments.antt =====
-- `x86_gdt_set` and `segments_init` of kernel/mm/kvm.c, over the descriptors of `struct cpu`
-- (kernel/include/hardware/cpu.h), which kernel/hardware/cpu.c keeps for one processor.
pub mod Encode
pub mod Init
mod Tests
use yack.Common.{
  ℕ, ◌+◌, ◌*◌, ◌%◌, ◌^◌, bit_and, bit_or, List, [], ◌∷◌, set, map, replicate, ◌==◌, if◌then◌else◌,
  u16, ◌>>>◌,
}
use yack.Machine.{Descriptor, Kernel, ◌>>◌, change, event, gdt_loaded}
use yack.Format.{word, codes}
use yack.Io.{klog}

-- The descriptor that `x86_gdt_set` leaves in `*entry`.
unfoldable pub encode : (base limit access flags : ℕ) → Descriptor
encode base limit access flags = record {
  limit_low = bit_and limit 0xFFFF;
  base_low = bit_and base 0xFFFF;
  base_mid = bit_and (base >>> 16) 0xFF;
  access = access;
  flags = bit_or (bit_and (limit >>> 16) 0x0F) (bit_and flags 0xF0);
  base_high = bit_and (base >>> 24) 0xFF;
}

-- The two 32-bit words that the packed descriptor takes in memory.
abbrev pub low_word : Descriptor → ℕ
low_word d = d.limit_low + 2 ^ 16 * d.base_low

abbrev pub high_word : Descriptor → ℕ
high_word d = d.base_mid + 2 ^ 8 * d.access + 2 ^ 16 * d.flags + 2 ^ 24 * d.base_high

unfoldable pub gdt_set : (index base limit access flags : ℕ) → Kernel (Unit {0})
gdt_set index base limit access flags =
    let d = encode base limit access flags in
    change (λ m. record m { gdt = set m.gdt index d })
    >> klog (codes "DEBUG") (codes "GDT Entry: %0x %0x\n")
        (word (high_word d) ∷ word (low_word d) ∷ [])

abbrev pub no_descriptor : Descriptor
no_descriptor = record {
  limit_low = 0;
  base_low = 0;
  base_mid = 0;
  access = 0;
  flags = 0;
  base_high = 0;
}

-- What the processor holds in its segment registers and in its table register.
pub record Processor : Type 0 where
  pub es : ℕ
  pub cs : ℕ
  pub ss : ℕ
  pub ds : ℕ
  pub fs : ℕ
  pub gs : ℕ
  pub gdt_size : ℕ
  pub gdt_low : ℕ
  pub gdt_high : ℕ

-- `x86_get_segment`
unfoldable pub get_segment : Processor → (segment : ℕ) → ℕ
get_segment cpu segment =
    if segment == b'e'
    then cpu.es
    else (if segment == b'c'
        then cpu.cs
        else (if segment == b's'
            then cpu.ss
            else (if segment == b'd'
                then cpu.ds
                else (if segment == b'f'
                    then cpu.fs
                    else (if segment == b'g' then cpu.gs else 0xFFFFFFFF)))))

-- The three words that `sgdt` stores, with `x86_get_gdt`.
abbrev pub get_gdt : Processor → List ℕ
get_gdt cpu = cpu.gdt_size ∷ cpu.gdt_low ∷ cpu.gdt_high ∷ []

-- `gdt_address` and `tss` are where the linker puts `cpus_[0].cpu_gdt` and `TSS`.
module _ (gdt_address tss : ℕ) (cpu : Processor) where
  unfoldable pub log_segment : (label : List ℕ) (segment : ℕ) → Kernel (Unit {0})
  log_segment label segment = klog (codes "DEBUG") label (word (get_segment cpu segment) ∷ [])

  unfoldable pub segments_init : Kernel (Unit {0})
  unfolding log_segment
  segments_init =
      change (λ m. record m { gdt = replicate 6 no_descriptor })
      >> klog (codes "DEBUG") (codes "GDT address: %p\n") (word gdt_address ∷ [])
      >> gdt_set 1 0 0xFFFFFFFF 0x9A 0xCF
      >> gdt_set 2 0 0xFFFFFFFF 0x92 0xCF
      >> gdt_set 3 0 0xFFFFFFFF 0xFA 0xCF
      >> gdt_set 4 0 0xFFFFFFFF 0xF2 0xCF
      >> gdt_set 5 tss 108 0xF2 0xCF
      >> change (event (gdt_loaded 47 (u16 gdt_address) (u16 (gdt_address >>> 16)) 0x10 0x08))
      >> klog (codes "DEBUG") (codes "Segments loaded\n") []
      >> log_segment (codes "CS: %x\n") b'c'
      >> log_segment (codes "ES: %x\n") b'e'
      >> log_segment (codes "SS: %x\n") b's'
      >> log_segment (codes "DS: %x\n") b'd'
      >> log_segment (codes "FS: %x\n") b'f'
      >> log_segment (codes "GS: %x\n") b'g'
      >> klog (codes "DEBUG") (codes "SGDT: %x %x %x\n") (map word (get_gdt cpu))
