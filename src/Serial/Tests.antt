-- ===== src/Serial/Tests.antt =====
-- Two bytes to the serial line of the sample machine.
use yack.Common.{ℕ, ◌≡◌, ◌≢◌, refl, arith, [], ◌∷◌, length}
use yack.Machine.{Machine, done, waiting}
use yack.Serial.{poll, serial_write}
use yack.Serial.Poll.{sent, serial_write-sent, poll_stuck}
use yack.Samples.{sample, not_ready}

in_use : (n : ℕ) → n ≡ 0x3F8 → n ≢ 0
in_use n e h = absurd (omega arith)

serial_write-sent_example :
    serial_write (b'o' ∷ b'k' ∷ []) sample
    ≡ done
        (length {A = ℕ} (b'o' ∷ b'k' ∷ []))
        (record sample { history = sent 0x3F8 (b'o' ∷ b'k' ∷ []) [] })
serial_write-sent_example =
    serial_write-sent (b'o' ∷ b'k' ∷ []) sample (in_use 0x3F8 refl) (omega arith)
      (λ _. not_ready 0x60 refl)

abbrev idle : Machine
idle = record sample { device = λ _ _. 0x20 }

poll_stuck_example : poll 1000 0x3F8 idle ≡ waiting
poll_stuck_example = poll_stuck 1000 0x3F8 idle (λ _. refl)
