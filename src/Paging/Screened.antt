-- ===== src/Paging/Screened.antt =====
-- Output on the screen leaves the directory of the kernel.
use yack.Common.{ℕ, ◌∙◌, ◌-◌, ◌^◌, ◌≤◌, ◌<◌, inl, arith, List}
use yack.Memory.Region.{Outside}
use yack.Screen.{buffer}
use yack.Layout.{pd_index, pt_index}
use yack.Machine.{Machine}
use yack.Pages.{ListOps}
use yack.Pages.Lists.{ListLaws}
use yack.Paging.Tables.{Tables}
use yack.Paging.Slot.{pt_index-lt}
use yack.Paging.NewTable.{screen-Tables, screen-SameBut}
use yack.Paging.Range.{pd_index_lem, HasPage}
use yack.Paging.Create.{Created}

module _ {lists : ListOps} {laws : ListLaws lists} {registry directory : ℕ} where
  HasPage-Screen :
      (ps : List ℕ) (permissions va pa : ℕ) (m n : Machine)
      → Outside buffer 4000 m.memory n.memory
      → Tables laws registry directory 512 1024 ps m.memory
      → 0x80000000 ≤ va
      → va < 2 ^ 32
      → HasPage laws registry directory 512 1024 m permissions va pa
      → HasPage laws registry directory 512 1024 n permissions va pa
  HasPage-Screen ps permissions va pa m n out t low high (there, at) =
      let d = pd_index_lem va high in
      let l : 512 ≤ pd_index va = omega (arith, d) in
      let u : pd_index va < 1024 = omega (arith, d) in
      let s = screen-SameBut laws registry directory 512 1024 ps 1024 0 m.memory n.memory out t in
      (
        s.still (pd_index va) l u there,
        s.same (pd_index va) (pt_index va) l u (pt_index-lt va) there (inl (omega arith)) ∙ at,
      )

  pub Created-Screen :
      (data_start end : ℕ) (ps : List ℕ) (m n : Machine)
      → 0x80000000 ≤ data_start
      → data_start ≤ end
      → end < 2 ^ 32
      → Outside buffer 4000 m.memory n.memory
      → Created laws registry data_start end directory ps m
      → Created laws registry data_start end directory ps n
  Created-Screen data_start end ps m n low le top out c = record {
    tables = screen-Tables laws registry directory 512 1024 ps m.memory n.memory out c.tables;
    io = λ va av l u.
        HasPage-Screen ps 2 va (va - 0x80000000) m n out c.tables l (omega arith) (c.io va av l u);
    text = λ va av l u.
        HasPage-Screen ps 0 va (va - 0x80000000) m n out c.tables (omega arith) (omega arith)
          (c.text va av l u);
    data_pages = λ va av l u.
        HasPage-Screen ps 2 va (va - 0x80000000) m n out c.tables (omega arith) (omega arith)
          (c.data_pages va av l u);
    rest = λ va l u.
        let d = pd_index_lem va u in
        let s =
          screen-SameBut laws registry directory 512 1024 ps 1024 0 m.memory n.memory out
            c.tables in
        s.blank (pd_index va) (pt_index va) (omega (arith, d)) (omega (arith, d)) (pt_index-lt va)
          (inl (omega (arith, d))) (c.rest va l u);
  }
