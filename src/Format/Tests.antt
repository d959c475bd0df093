-- ===== src/Format/Tests.antt =====
-- Runs of the formatter.
use yack.Common.{
  ℕ, ◌++◌, get_or, drop, ◌==◌, if◌then◌else◌, ◌-◌, ◌^◌, ◌≤◌, length, arith, ◌≡◌, refl, List, [],
  ◌∷◌, some, none, replicate, Option,
}
use mathlib.Core.Option
use yack.Format.Ends.{Ends, utoa_loop-Ends}
use yack.Format.{
  Arg, word, string_arg, codes, kvsnprintf, Printed, c_string, emit, utoa, itoa, utoa_loop,
  put_digit, put_char, number, printed,
}
use yack.Format.Rendered.{rendered, piece, before, digits_of}
use yack.Format.Rendered.Loop.{kvsnprintf-rendered}
use yack.Format.Number.{IsDigits, utoa_reads}
use yack.Format.Numeral.{numeral, read_number}
use yack.Format.Signed.{itoa_loses, amount_digits}
use yack.Format.Room.{room}
use yack.Format.Output.{IsInside, kvsnprintf-room, kvsnprintf_overruns}

abbrev zeroed : List ℕ
zeroed = replicate 16 0

abbrev run : ℕ → List ℕ → List Arg → Option (List ℕ)
run n fmt args = Option.map (λ (p : Printed). p.out) (kvsnprintf n fmt args zeroed)

hex :
    run 100
      (codes "x=%x %0x %p %u%%|")
      (word 0xBEEF ∷ word 0xBEEF ∷ word 0x1234 ∷ word 4294967295 ∷ [])
    ≡ some (codes "x=BEEF 0000BEEF 0x00001234 4294967295%|")
unfolding kvsnprintf c_string emit utoa itoa utoa_loop put_digit put_char
hex = refl

levels :
    run 100 (codes "[%s] %c%d") (string_arg "DEBUG" ∷ word 65 ∷ word 17 ∷ [])
    ≡ some (codes "[DEBUG] A17")
unfolding kvsnprintf c_string emit utoa itoa utoa_loop put_digit put_char
levels = refl

-- A negative number is lost.
negative : run 100 (codes "a%db") (word 0xFFFFFFFB ∷ []) ≡ some (codes "ab")
unfolding kvsnprintf c_string emit utoa itoa utoa_loop put_digit put_char
negative = refl

stray_percent : run 100 (codes "100%") [] ≡ none
unfolding kvsnprintf c_string emit utoa itoa utoa_loop put_digit put_char
stray_percent = refl

abbrev in_order : IsDigits zeroed
in_order = record { size = refl; end = refl }

-- Digits are of type `char`.
narrow : Option.map number (utoa 201 1000 zeroed) ≡ some []
unfolding c_string utoa utoa_loop put_digit put_char
narrow = refl

-- Too many digits for the static buffer.
below_buffer : utoa (2 ^ 31) 2 zeroed ≡ none
unfolding utoa utoa_loop put_digit put_char
below_buffer = refl

utoa_reads_example :
    (t : ℕ × List ℕ) × (utoa 0xBEEF 16 zeroed ≡ some t)
    × (read_number 16 0 (number t) ≡ 0xBEEF)
    × (length (number t) ≤ 4)
    × (t.0 ≤ 14)
    × IsDigits t.1
utoa_reads_example =
    utoa_reads 4 0xBEEF 16 zeroed (omega arith) (omega arith) (omega arith) (omega arith)
      (omega arith) in_order

-- A static buffer with the digits of 12345 in it.
abbrev used : List ℕ
used = replicate 10 0 ++ codes "12345" ++ 0 ∷ []

-- -5 after 12345.
itoa_loses_example :
    (t : ℕ × List ℕ) × (itoa 0xFFFFFFFB 10 used ≡ some t)
    × (number t ≡ (
        let stale = get_or used (14 - length (amount_digits 0xFFFFFFFB)) 0 in
        if stale == 0 then [] else stale ∷ b'-' ∷ drop 1 (amount_digits 0xFFFFFFFB)))
itoa_loses_example =
    itoa_loses 0xFFFFFFFB used (omega arith) (omega arith) (record { size = refl; end = refl })

garbage : Option.map number (itoa 0xFFFFFFFB 10 used) ≡ some (codes "4-")
unfolding c_string itoa utoa utoa_loop put_digit put_char
garbage = refl

kvsnprintf-room_example :
    (p : Printed) × (kvsnprintf 100 (codes "[%s] %x") (string_arg "INFO" ∷ word 17 ∷ []) zeroed
      ≡ some p)
    × IsInside 100 p
    × (length p.out ≤ 24)
    × IsDigits p.digits
kvsnprintf-room_example =
    kvsnprintf-room 100 (codes "[%s] %x") (string_arg "INFO" ∷ word 17 ∷ []) zeroed 24
      (omega arith, (omega arith, tt)) in_order (unfold room in refl) (omega arith)

kvsnprintf_overruns_example :
    kvsnprintf 2 (codes "%s") (string_arg "INFO" ∷ []) zeroed ≡ some (printed (codes "INFO") zeroed)
kvsnprintf_overruns_example = kvsnprintf_overruns 2 0 (codes "INFO") zeroed (omega arith)

utoa_loop-Ends_example :
    (result : ℕ × List ℕ) × (utoa_loop 32 1024 10 14 zeroed ≡ some result)
    × Ends 10 1024 14 zeroed result
utoa_loop-Ends_example =
    utoa_loop-Ends 4 10 1024 14 zeroed (omega arith) (omega arith) (omega arith) (omega arith)
      (omega arith)

kvsnprintf-rendered_example :
    (digits : List ℕ) × (kvsnprintf 64
        (codes "%d%% of %0x at %p\n")
        (word 42 ∷ word 0xCAFE ∷ word 0x80100000 ∷ [])
        zeroed
      ≡ some (printed (codes "42% of 0000CAFE at 0x80100000\n") digits))
    × IsDigits digits
kvsnprintf-rendered_example =
    kvsnprintf-rendered 64 (codes "%d%% of %0x at %p\n")
      (word 42 ∷ word 0xCAFE ∷ word 0x80100000 ∷ []) zeroed
      (codes "42% of 0000CAFE at 0x80100000\n") (omega arith, (omega arith, (omega arith, tt)))
      in_order (unfold rendered piece before digits_of numeral in refl) (omega arith)
