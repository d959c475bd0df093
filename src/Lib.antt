-- ===== src/Lib.antt =====
-- Verification of yack, a small kernel for the i386.
--
-- The kernel boots into `kmain`, which sets up the serial line, the traps and the segments, and
-- from then on reacts to interrupts. All parts report by `klog`, which formats a message into a
-- buffer and writes it to the serial line and to the VGA text screen.
--
-- Files and the code that they model:
--   Layout     the address and page macros of arch/i386/include/x86.h and memlayout.h, in 32 bits
--   Memory     kernel/memop.c over a byte-addressed memory
--   Machine    the state that the functions share, port input and output (x86.h), and the monad:
--              the static variables of the C files are fields of `Machine`, memory that is reached
--              by pointers is its field `memory`, and what goes to the ports is its `history`
--   Screen     the static functions of kernel/io/write.c; Screen/Paper is the specification of the
--              console, text on endless paper, and Screen/Text relates the two; Screen/Spoken is
--              what the history says of the bytes sent to a port, Screen/Showing whether the screen
--              shows a paper, which every component keeps
--   Format     kernel/io/kvsnprintf.c: `utoa`, `itoa` and the loop over a format; Format/Rendered is
--              the specification, the text that a format stands for, and Format/Rendered/Loop
--              relates the two
--   Serial     `serial_write` of kernel/drivers/serial.c, with the serial port macros of x86.h
--   Ports      `serial_init_port` and `serial_set_default_port` of the same file; Ports/Known is the
--              specification, the registry as a set
--   Io         `write`, kernel/io/kprintf.c and the macros `klog`, `panic` and `kassert` of
--              kernel/include/kernel.h; Io/Logged is what the other components use of them,
--              Io/Written and Io/Messages what reaches the screen and the serial line
--   Blocks     `stosb`, `inw` and `insl` of x86.h
--   Trap       arch/i386/trap.c, with `x86_lidt` and `x86_pic_eoi` of x86.h; Trap/Handler is what the
--              handler leaves, Trap/Texts and Trap/Letters what it prints
--   Segments   `x86_gdt_set` and `segments_init` of kernel/mm/kvm.c
--   Pages      kernel/mm/pages.c; the functions of utils/include/list.h that it calls are a parameter.
--              Pages/Lists has the laws that are relied on, Pages/Linked functions that have them,
--              Pages/Queue what the allocator keeps, Pages/Calls the queue that it behaves as
--   Paging     `vm_map_page_`, `vm_map_pages`, `kvm_create` and `kvm_init` of kernel/mm/kvm.c;
--              Paging/Tables has the invariant of a directory and its tables, Paging/Grow and
--              Paging/Slot the two changes of it, Paging/Page, Paging/Range and Paging/Whole build
--              on them, and Paging/Calls, Paging/Create and Paging/Init on those; Paging/Translate is the
--              specification, the processor's walk, and Paging/Exhausted what happens without a page
--   Control    the control registers of x86.h and `kmv_switch` of kernel/mm/kvm.c
--   BootDirectory  arch/i386/paging.c
--   Boot       kernel/kmain.c; Boot/Line and Boot/Start are the composition of all parts, and
--              Boot/Running and Boot/Keys what interrupts do and print once `kmain` stands in its loop
--   Common     tests, lists, words, and `&` and `|` as arithmetic
--   Samples    a machine for the runs in the Tests modules
--
-- Words are natural numbers below a power of two; where the code narrows a value, the model takes
-- the remainder. A run of code that can fail gives an `Outcome`: it is done, it is in an endless
-- loop, that of a failed assertion, of a panic or of `kmain`, it has undefined behaviour, or it
-- waits for the hardware for longer than the machine's `patience`, a number of reads that no
-- theorem bounds from above. The loop of `utoa` has fuel for 32 digits, as many as a 32-bit number
-- has in base 2. Other loops recurse on their count or on the text. `kvsnprintf` gives what it has
-- put, also behind the end of its buffer; `kprintf` makes that undefined behaviour for its own.
--
-- Not modelled: interrupts while `kmain` runs, the assembly and the linker script, whose addresses
-- are parameters, utils/include/list.h, which is a copy of another project's library, and stubs.
-- The hardware is a function from the history and a port to the byte that is read.
pub mod Common
pub mod Layout
pub mod Memory
pub mod Machine
pub mod Screen
pub mod Format
pub mod Serial
pub mod Io
pub mod Trap
pub mod Segments
pub mod Ports
pub mod Pages
pub mod Paging
pub mod Blocks
pub mod Control
pub mod BootDirectory
pub mod Boot
pub mod Samples
