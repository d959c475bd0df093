-- ===== src/Io.antt =====
-- kernel/io/write.c (`write`), kernel/io/kprintf.c, and the macros `panic`, `kassert` and `klog`
-- of kernel/include/kernel.h.
pub mod Logged
pub mod Stores
pub mod Spared
pub mod Shown
pub mod Written
pub mod Messages
mod Tests
use yack.Common.{
  ℕ, ◌≤◌, Bool, true, false, Option, none, some, List, [], ◌∷◌, leb, length, if◌then◌else◌,
}
use yack.Machine.{Machine, Outcome, done, hung, fault, Kernel, ◌>>=◌, ◌>>◌, and_then, pure}
use yack.Screen.{put_bytes}
use yack.Serial.{serial_write}
use yack.Format.{Arg, word, text, Printed, kvsnprintf, codes}

abbrev pub max_buf_size : ℕ
max_buf_size = 4096

unfoldable pub write : (str : List ℕ) → Kernel ℕ
write str m =
    and_then (serial_write str m) λ _ m'. done (put_bytes str 0 m').0 (put_bytes str 0 m').1

-- Behind `kvsnprintf`: the text and its NUL must have fitted into `buffer`, and a text that is
-- not empty is written.
unfoldable pub flush : Printed → Kernel ℕ
flush p m =
    let m' = record m { digits = p.digits } in
    if leb max_buf_size (length p.out)
    then fault
    else (if leb 1 (length p.out)
        then and_then (write p.out m') (λ _. done (length p.out))
        else done 0 m')

unfoldable pub kprintf : (fmt : List ℕ) → List Arg → Kernel ℕ
unfolding flush
kprintf fmt args m = elim (kvsnprintf max_buf_size fmt args m.digits) [
  | none ↦ fault
  | some p ↦ flush p m
]

-- `level` is the name of the level as `#level` spells it.
unfoldable pub klog : (level fmt : List ℕ) → List Arg → Kernel (Unit {0})
klog level fmt args =
    kprintf (codes "[%s] ") (text 0 level ∷ []) >>= λ _. kprintf fmt args >>= λ _. pure tt

abbrev pub infinite_loop : {A : Type 0} → Kernel A
infinite_loop m = hung m

unfoldable pub panic : (fmt : List ℕ) → List Arg → Kernel (Unit {0})
panic fmt args = kprintf (codes "PANIC! ") [] >>= λ _.
    kprintf fmt args >>= λ _. kprintf (codes "\n") [] >>= λ _. infinite_loop

unfoldable pub kassert :
    (holds : Bool) (file : List ℕ) (line : ℕ) (expr : List ℕ) → Kernel (Unit {0})
kassert true file line expr = pure tt
kassert false file line expr =
    kprintf (codes "ERROR [%s:%d] Failed assertion: %s\n")
      (text 0 file ∷ word line ∷ text 0 expr ∷ [])
    >>= λ _. infinite_loop
