-- ===== src/BootDirectory.antt =====
-- The page directory of arch/i386/paging.c, which the loader's code makes the first one.
pub mod Walk
mod Tests
use yack.Common.{ℕ, bit_or, ◌==◌, if◌then◌else◌}
use yack.Layout.{pd_index, kernel_base}

-- `X86_PDE_PRESENT`, `X86_PDE_RW` and `X86_PDE_PS`
abbrev pub pde_present : ℕ
pde_present = 1

abbrev pub pde_rw : ℕ
pde_rw = 2

abbrev pub pde_ps : ℕ
pde_ps = 128

-- The entry at an index. Entries without a line of their own are 0.
unfoldable pub x86_page_directory : (index : ℕ) → ℕ
x86_page_directory index =
    if index == 0
    then bit_or (bit_or pde_present pde_rw) pde_ps
    else if index == pd_index kernel_base
    then bit_or (bit_or pde_present pde_rw) pde_ps
    else 0
