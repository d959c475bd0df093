-- ===== src/Blocks/Moves.antt =====
-- What `stosb` and `insl` leave.
use yack.Common.{
  ℕ, zero, suc, ◌+◌, ◌*◌, ◌%◌, ◌^◌, ◌≤◌, ◌<◌, ◌≡◌, ◌⊎◌, inl, refl, ◌∙◌, arith, List, ◌∷◌, u8, u16,
  u32,
}
use yack.Memory.{memset, memset_loop, write, load32, store32}
use yack.Memory.Laws.{load32-store32_self, store32_outside}
use yack.Memory.Region.{load32-same}
use yack.Machine.{Machine, Event, port_read, event}
use yack.Blocks.{rep_stosb, stosb, rep_insl, insl}

rep_stosb-memset_loop :
    (n edi al : ℕ) (m : Machine)
    → rep_stosb n edi al m ≡ record m { memory = memset_loop n edi al m.memory }
unfolding rep_stosb memset_loop
rep_stosb-memset_loop zero edi al m = refl
rep_stosb-memset_loop (suc n) edi al m =
    rep_stosb-memset_loop n (edi + 1) al (record m { memory = write m.memory edi al })

stosb-memset :
    (addr value cnt : ℕ) (m : Machine)
    → stosb addr value cnt m ≡ record m { memory = (memset addr value cnt m.memory).1 }
unfolding stosb memset
stosb-memset addr value cnt m = rep_stosb-memset_loop cnt addr (u8 value) m

-- The history after some reads of a port.
abbrev pub reads : (n port : ℕ) → List Event → List Event
reads zero port h = h
reads (suc n) port h = reads n port (port_read port ∷ h)

-- The words that the device gives, in the order of the reads.
pub record Moved (cnt port addr : ℕ) (m n : Machine) : Type 0 where
  pub words :
      (i : ℕ)
      → i < cnt
      → load32 n.memory (addr + 4 * i) ≡ m.device (reads i port m.history) port % 2 ^ 32
  pub outside : (q : ℕ) → (q < addr) ⊎ (addr + 4 * cnt ≤ q) → n.memory q ≡ m.memory q
  pub rest : n ≡ record m { memory = n.memory; history = reads cnt port m.history }

rep_insl-Moved :
    (cnt port addr : ℕ) (m : Machine) → Moved cnt port addr m (rep_insl cnt addr port m)
unfolding rep_insl
rep_insl-Moved zero port addr m = record {
  words = λ i h. absurd (omega arith);
  outside = λ q o. refl;
  rest = refl;
}
rep_insl-Moved (suc cnt) port addr m =
    let v = u32 (m.device m.history port) in
    let stored = store32 m.memory addr v in
    let q0 = event (port_read port) (record m { memory = stored }) in
    let r = rep_insl-Moved cnt port (addr + 4) q0 in
    let n = rep_insl cnt (addr + 4) port q0 in
    record {
      words = elim [
        | zero ↦ λ h.
            let e : addr + 4 * 0 ≡ addr = omega arith in
            rw e (
              load32-same addr stored n.memory (λ x l u. r.outside x (inl (omega arith)))
              ∙ load32-store32_self m.memory addr v (omega arith))
        | suc i ↦ λ h.
            let e : addr + 4 * suc i ≡ addr + 4 + 4 * i = omega arith in
            rw e (r.words i (omega arith))
      ];
      outside = λ x o. r.outside x (omega arith) ∙ store32_outside m.memory addr v x (omega arith);
      rest = r.rest;
    }

-- `insl` puts the 32-bit words that the device gives at `cnt` reads of the port, in the order of
-- the reads, at `addr` and the places behind it, four bytes apart, reads nothing else, and
-- changes no other byte and no other state.
pub insl-Moved :
    (port addr cnt : ℕ) (m : Machine) → Moved cnt (u16 port) addr m (insl port addr cnt m)
unfolding insl
insl-Moved port addr cnt m = rep_insl-Moved cnt (u16 port) addr m
