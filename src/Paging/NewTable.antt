-- ===== src/Paging/NewTable.antt =====
-- A new table for the directory, and what output on the screen leaves of the tables.
use yack.Common.{
  ℕ, ◌+◌, ◌*◌, ◌≤◌, ◌<◌, ◌≡◌, refl, arith, true, false, List, [], ◌∷◌, ◌==◌, sym, ◌∙◌,
}
use yack.Memory.{Memory}
use yack.Memory.Region.{Outside, load32-Outside}
use yack.Screen.{buffer}
use yack.Machine.{Machine, done}
use yack.Machine.Kept.{Kept, Kept-trans}
use yack.Format.{codes}
use yack.Format.Room.{room}
use yack.Io.{kassert}
use yack.Io.Logged.{IsReady, klog-Logged}
use yack.Io.Stores.{stored-IsReady, stored-Kept}
use yack.Pages.{ListOps}
use yack.Pages.Lists.{ListLaws}
use yack.Pages.Queue.{OffPages-screen}
use yack.Pages.Alloc.{kpalloc-Free, OffOwn, OffOwn-OffNodes}
use yack.Paging.{allocate_table}
use yack.Paging.Tables.{
  entry, absent, table, Tables, SameBut, SameBut-trans, entry-Outside, Tables-Outside,
}
use yack.Paging.Grow.{grown, grown-SameScreen, grown-there, grown-Tables, grown-SameBut}

module _ {lists : ListOps} (laws : ListLaws lists) (registry directory lo hi : ℕ) where
  -- Output on the screen leaves the tables and what they map.
  pub screen-Tables :
      (ps : List ℕ) (m m' : Memory)
      → Outside buffer 4000 m m'
      → Tables laws registry directory lo hi ps m
      → Tables laws registry directory lo hi ps m'
  screen-Tables ps m m' out t =
      Tables-Outside registry directory lo hi ps m m' buffer 4000 out t.own.0.3 t.free.head_off
        (OffPages-screen registry ps t.free.pages) t

  screen_entry :
      (ps : List ℕ) (m m' : Memory) (i : ℕ)
      → i < hi
      → Outside buffer 4000 m m'
      → Tables laws registry directory lo hi ps m
      → entry m' directory i ≡ entry m directory i
  screen_entry ps m m' i h out t =
      entry-Outside directory m m' buffer 4000 i (omega (arith, t.top)) out t.own.0.3

  pub screen-SameBut :
      (ps : List ℕ) (i k : ℕ) (m m' : Memory)
      → Outside buffer 4000 m m'
      → Tables laws registry directory lo hi ps m
      → SameBut directory lo hi i k m m'
  screen-SameBut ps i k m m' out t = record {
    still = λ j l u q. rw (screen_entry ps m m' j u out t) q;
    same = λ j e l u h q ne. rw (screen_entry ps m m' j u out t) (
        load32-Outside buffer 4000 (table m directory j + 4 * e) out
          (omega (arith, (t.owned j l u q).0.0.3)));
    blank = λ j l lj u h ne z p.
        let e = screen_entry ps m m' j u out t in
        let p' : absent m directory j ≡ false = rw (sym e) p in
        rw e (
          load32-Outside buffer 4000 (table m directory j + 4 * l) out
            (omega (arith, (t.owned j lj u p').0.0.3))
          ∙ z p');
  }

  -- A table for an entry that is absent.
  pub allocate_table-Tables :
      (d i k p : ℕ) (ps : List ℕ) (m : Machine)
      → lo ≤ d
      → d < hi
      → absent m.memory directory d ≡ true
      → Tables laws registry directory lo hi (p ∷ ps) m.memory
      → IsReady m
      → (n : Machine) × (allocate_table lists registry (directory + 4 * d) m ≡ done tt n)
        × IsReady n
        × Kept m n
        × Tables laws registry directory lo hi ps n.memory
        × (absent n.memory directory d ≡ false)
        × SameBut directory lo hi i k m.memory n.memory
  unfolding allocate_table kassert
  allocate_table-Tables d i k p ps m low high new t r =
      let l =
        klog-Logged (codes "DEBUG") (codes "Allocating a new page directory\n") [] 32 m
          (omega arith) (unfold room in refl) (omega arith) tt r in
      let seen = screen-Tables (p ∷ ps) m.memory l.after.memory l.outside t in
      let new' : absent l.after.memory directory d ≡ true =
        rw (screen_entry (p ∷ ps) m.memory l.after.memory d high l.outside t) new in
      let got = kpalloc-Free laws registry p ps l.after seen.free in
      let spared : (q : ℕ) → OffOwn registry (p ∷ ps) q → got.0 q ≡ l.after.memory q =
        λ q o. got.3 q (OffOwn-OffNodes registry q (p ∷ ps) o) in
      let ne : (p == 0) ≡ false = ground (arith, t.free.pages.0.1) in
      let memory =
        grown registry directory lo hi p ps d l.after.memory got.0 seen low high new' got.2
          spared in
      (
        record l.after { memory = memory },
        rw l.returns (rw got.1 (rw ne refl)),
        stored-IsReady memory l.after l.ready,
        Kept-trans l.kept (
            stored-Kept memory l.after (
              grown-SameScreen registry directory lo hi p ps d l.after.memory got.0 seen low high
                new' got.2 spared)),
        grown-Tables registry directory lo hi p ps d l.after.memory got.0 seen low high new' got.2
            spared,
        grown-there registry directory lo hi p ps d l.after.memory got.0 seen low high new' got.2
            spared,
        SameBut-trans directory lo hi i k m.memory l.after.memory memory
            (screen-SameBut (p ∷ ps) i k m.memory l.after.memory l.outside t)
            (grown-SameBut registry directory lo hi p ps d l.after.memory got.0 seen low high new'
              got.2 spared i k),
      )
