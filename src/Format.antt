-- ===== src/Format.antt =====
-- kernel/io/kvsnprintf.c: numbers to text, and formatted printing into a buffer.
-- A text is the list of its bytes without the terminating NUL.
pub mod Number
pub mod Numeral
pub mod Ends
pub mod Signed
pub mod Room
pub mod Steps
pub mod Output
pub mod Rendered
mod Tests
use yack.Common.{
  ℕ, zero, suc, ◌+◌, ◌-◌, ◌*◌, ◌/◌, ◌%◌, ◌^◌, Bool, true, false, Option, none, some, List, [], ◌∷◌,
  ◌++◌, ◌==◌, ltb, leb, if◌then◌else◌, length, set, drop, u8, sub_u32, ◌||◌, ◌&&◌,
}
use mathlib.Core.Option
use Prim.Native.Char.{code}
use Prim.Native.String.{String}

-- The text that a `char *` to the first of these bytes stands for.
unfoldable pub c_string : List ℕ → List ℕ
c_string [] = []
c_string (c ∷ cs) = if c == 0 then [] else c ∷ c_string cs

-- `*ptr-- = c` in an array of `char`. It is undefined outside the array, and at its first place,
-- where the pointer leaves it.
unfoldable pub put_char : (c ptr : ℕ) → List ℕ → Option (ℕ × List ℕ)
put_char c ptr buffer =
    if ltb 0 ptr && ltb ptr (length buffer) then some (ptr - 1, set buffer ptr (u8 c)) else none

-- One round of the loop of `utoa`: the digit for `rem` is put at `ptr`, which moves down.
unfoldable pub put_digit : (rem base ptr : ℕ) → List ℕ → Option (ℕ × List ℕ)
put_digit rem base ptr buffer =
    if ltb rem 10
    then put_char (b'0' + rem) ptr buffer
    else (if ltb rem base then put_char (b'A' + rem - 10) ptr buffer else some (ptr, buffer))

-- `while (value > 0)`. The fuel bounds the number of digits.
unfoldable pub utoa_loop : (fuel value base ptr : ℕ) → List ℕ → Option (ℕ × List ℕ)
utoa_loop zero value base ptr buffer = some (ptr, buffer)
utoa_loop (suc fuel) value base ptr buffer = elim (value == 0) [
  | true ↦ some (ptr, buffer)
  | false ↦ elim (put_digit (value % base) base ptr buffer) [
    | none ↦ none
    | some t ↦ utoa_loop fuel (value / base) base t.0 t.1
  ]
]

-- `return ptr + 1`
abbrev pub behind : ℕ × List ℕ → ℕ × List ℕ
behind (ptr, buffer) = (ptr + 1, buffer)

-- The text starts at the first component, in the static buffer that is the second. `none` is a
-- write outside the buffer.
unfoldable pub utoa : (value base : ℕ) → List ℕ → Option (ℕ × List ℕ)
utoa value base buffer =
    Option.map behind
      (if value == 0 then put_char b'0' 14 buffer else utoa_loop 32 value base 14 buffer)

-- `*ptr-- = '-'`, which is also what `itoa` returns.
abbrev pub put_sign : Option (ℕ × List ℕ) → Option (ℕ × List ℕ)
put_sign none = none
put_sign (some (ptr, buffer)) = put_char b'-' ptr buffer

-- An `i32` is given by its 32-bit word.
unfoldable pub itoa : (value base : ℕ) → List ℕ → Option (ℕ × List ℕ)
itoa value base buffer =
    if leb (2 ^ 31) value
    then put_sign (utoa (sub_u32 0 value) base buffer)
    else utoa value base buffer

-- A variadic argument of 32 bits: a number, or a pointer to a text.
pub data Arg : Type 0 where
  word : ℕ → Arg
  text : (address : ℕ) → List ℕ → Arg

abbrev pub arg_word : Arg → ℕ
arg_word (word w) = w
arg_word (text a s) = a

-- What a conversion sets before the padding: the bytes put at once, the text, whether to pad,
-- the length to pad to, and the buffer of `utoa`.
pub record Conversion : Type 0 where
  pub prefix : List ℕ
  pub body : List ℕ
  pub fill_zeroes : Bool
  pub fill_length : ℕ
  pub digits : List ℕ
  pub rest : List Arg

abbrev pub number : ℕ × List ℕ → List ℕ
number (i, buffer) = c_string (drop i buffer)

-- What the code calls once the text is known.
abbrev pub of_number :
    (prefix : List ℕ) (t : ℕ × List ℕ) (zeroes : Bool) (fill : ℕ) (rest : List Arg) → Conversion
of_number prefix t zeroes fill rest = record {
  prefix = prefix;
  body = number t;
  fill_zeroes = zeroes;
  fill_length = fill;
  digits = t.1;
  rest = rest;
}

abbrev pub of_text :
    (prefix body : List ℕ) (zeroes : Bool) (digits : List ℕ) (rest : List Arg) → Conversion
of_text prefix body zeroes digits rest = record {
  prefix = prefix;
  body = body;
  fill_zeroes = zeroes;
  fill_length = 0;
  digits = digits;
  rest = rest;
}

abbrev pub with_number :
    (prefix : List ℕ) (t : Option (ℕ × List ℕ)) (zeroes : Bool) (fill : ℕ) (rest : List Arg)
    → Option Conversion
with_number prefix t zeroes fill rest = Option.map (λ i. of_number prefix i zeroes fill rest) t

-- `%s`: a number is no pointer to a text.
unfoldable pub convert_text : Bool → Arg → List Arg → List ℕ → Option Conversion
convert_text zeroes (word w) rest digits = none
convert_text zeroes (text address s) rest digits = some (of_text [] s zeroes digits rest)

abbrev pub takes_arg : ℕ → Bool
takes_arg c = c == b'd' || c == b'p' || c == b'x' || c == b's' || c == b'c' || c == b'u'

-- The cases of the `switch` that read an argument, `a`.
unfoldable pub convert_arg :
    (zeroes : Bool) (c : ℕ) (a : Arg) (rest : List Arg) (digits : List ℕ) → Option Conversion
unfolding convert_text
convert_arg zeroes c a rest digits =
    if c == b'd'
    then with_number [] (itoa (arg_word a) 10 digits) zeroes 10 rest
    else (if c == b'p'
        then with_number (b'0' ∷ b'x' ∷ []) (utoa (arg_word a) 16 digits) true 8 rest
        else (if c == b'x'
            then with_number [] (utoa (arg_word a) 16 digits) zeroes 8 rest
            else (if c == b's'
                then convert_text zeroes a rest digits
                else (if c == b'c'
                    then some (of_text (u8 (arg_word a) ∷ []) [] zeroes digits rest)
                    else with_number [] (utoa (arg_word a) 10 digits) zeroes 0 rest))))

-- `va_arg` past the last argument is undefined.
unfoldable pub next_arg :
    (zeroes : Bool) (c : ℕ) (args : List Arg) (digits : List ℕ) → Option Conversion
unfolding convert_arg
next_arg zeroes c [] digits = none
next_arg zeroes c (a ∷ rest) digits = convert_arg zeroes c a rest digits

-- The `switch` on the byte `c` behind the `%` and its zeroes.
unfoldable pub convert :
    (zeroes : Bool) (c : ℕ) (args : List Arg) (digits : List ℕ) → Option Conversion
unfolding next_arg
convert zeroes c args digits =
    if c == b'%'
    then some (of_text [] (b'%' ∷ []) zeroes digits args)
    else (if takes_arg c
        then next_arg zeroes c args digits
        else some (of_text [] [] zeroes digits args))

-- `while (len < fill_length--) *ptr++ = '0'`
unfoldable pub pad : (fill_length len : ℕ) → List ℕ → List ℕ
pad zero len out = out
pad (suc fill_length) len out =
    if ltb len (suc fill_length) then pad fill_length len (out ++ b'0' ∷ []) else out

-- The bytes of a conversion behind those already put; none of these writes looks at the size
-- of the buffer.
unfoldable pub emit : Conversion → List ℕ → List ℕ
unfolding pad
emit k out =
    let prefixed = out ++ k.prefix in
    (if k.fill_zeroes then pad k.fill_length (length k.body) prefixed else prefixed) ++ k.body

-- Where the loop stands: at ordinary text, or behind a `%`, with `fill_zeroes`.
pub data Mode : Type 0 where
  plain : Mode
  percent : (fill_zeroes : Bool) → Mode

-- What has been put into `buf`, without the NUL at the end, and the buffer of `utoa`.
pub record Printed : Type 0 where
  pub out : List ℕ
  pub digits : List ℕ

abbrev pub printed : List ℕ → List ℕ → Printed
printed out digits = record { out = out; digits = digits }

-- The loop of `kvsnprintf` over what is left of `fmt`. `none` is undefined behaviour: an argument
-- that is not there or is no text, a write outside the static buffer of `utoa`, or a read past the
-- end of a format that ends behind a `%`. A run over `buf` itself shows in the result: the bytes
-- put only grow in number, so that they and the NUL behind them have stayed inside the buffer just
-- if in the end they are less than `bufsz`.
unfoldable pub format_loop :
    (bufsz : ℕ) → Mode → (fmt : List ℕ) → List Arg → (out digits : List ℕ) → Option Printed
unfolding convert emit
format_loop bufsz plain [] args out digits = some (printed out digits)
format_loop bufsz plain (c ∷ fmt) args out digits = elim (ltb (length out) bufsz) [
  | false ↦ some (printed out digits)
  | true ↦ elim (c == b'%') [
    | true ↦ format_loop bufsz (percent false) fmt args out digits
    | false ↦ format_loop bufsz plain fmt args (out ++ c ∷ []) digits
  ]
]
format_loop bufsz (percent zeroes) [] args out digits = none
format_loop bufsz (percent zeroes) (c ∷ fmt) args out digits = elim (c == b'0') [
  | true ↦ format_loop bufsz (percent true) fmt args out digits
  | false ↦ elim (convert zeroes c args digits) [
    | none ↦ none
    | some k ↦ format_loop bufsz plain fmt k.rest (emit k out) k.digits
  ]
]

unfoldable pub kvsnprintf :
    (bufsz : ℕ) (fmt : List ℕ) (args : List Arg) (digits : List ℕ) → Option Printed
unfolding format_loop
kvsnprintf bufsz fmt args digits = format_loop bufsz plain fmt args [] digits

-- The bytes of a text, for formats and arguments.
abbrev pub codes : String → List ℕ
codes String.[] = []
codes (String.◌∷◌ c s) = code c ∷ codes s

abbrev pub string_arg : String → Arg
string_arg s = text 0 (codes s)
