-- ===== src/Lib.antt =====
-- The memory management of a teaching kernel for RISC-V (kern/mm and libs): three page allocators
-- behind one interface, the linked lists they stand on, the start of memory, the slab allocator, and
-- the kernel's library and console.
--
-- Parts, and the files that model them:
--
-- - libs/list.h, the circular doubly linked list: LinkList. A pointer is a number, and a store gives
--   each entry its two pointers. LinkList/Links and Gap are about single pointer writes, Ring says when
--   a store holds a list, Laws what the operations do to it.
-- - kern/mm/default_pmm.c (first fit) and kern/mm/best_fit_pmm.c (best fit): FreeArea has the state and
--   the code that the two files share line by line, FirstFit and BestFit the two searches and the
--   managers' operations, under the names of the C functions. FreeArea/Holds says when a state stands
--   for a list of free blocks, FreeArea/Spec what insertion and coalescing do to such a list.
-- - kern/mm/buddy_pmm.c: Buddy, with one list for each order from 0 to MAX_ORDER. Buddy/Holds says
--   when a state stands for eleven lists of blocks; sums over the lists (Buddy/Lists) count the free
--   pages and say which pages are free.
-- - kern/mm/slub.c: Slub, over the page manager as a parameter. Slub/Layout is about where objects lie.
--   Slub/Valid says when a state is in order: lists of pages and of free objects, and the objects that
--   were handed out. Slub/Supply is what the allocator relies on of a page manager, and Slub/Backing
--   shows it of the buddy manager. The address of a page wraps around at 64 bits; the theorems are about
--   memory that ends at or below 0xC0000000, whose addresses do not. Slub/Serve is about kmalloc,
--   Slub/Freed about kfree; Slub/Use has the sequences of calls, Slub/Sound and Slub/Booted what holds
--   after any of them. Sizes above 2048 are no part of the sequences: kmalloc traps on them up to 4096,
--   and above kfree takes the user's data for the header of a slab.
--   Slub/Check is slub_check, a program like the checks of the managers, and Slub/Failing what it meets.
-- - libs/string.c: Strings, on a byte memory. The loops that a null byte ends take their number of
--   rounds as an argument, and more rounds than the string has bytes are enough.
-- - libs/printfmt.c: Print, the printing of numbers and the bounded buffer, and Print/Format, vprintfmt
--   on a format in memory and a sequence of argument words. Print/Format/Pieces describes formats as
--   lists of pieces and what each prints, Escapes, Switch and Render follow the code on them.
-- - kern/mm/pmm.h, kern/mm/mmu.h and libs/defs.h: Frames, the conversions between descriptors, frames
--   and addresses.
-- - kern/mm/pmm.c: Pmm, over `struct pmm_manager` as a record; Pmm/Managers has its three values,
--   Pmm/Boot computes what page_init gives to a manager, and Pmm/Pages what the buddy manager has then.
-- - libs/sbi.c, kern/driver/console.c, kern/libs/stdio.c, kern/debug/panic.c: Console, over the firmware
--   call as a parameter.
-- - kern/init/init.c: Kernel, the start, which calls the other parts in their order.
-- - The managers' self-checks, which pmm_init runs: FreeArea/Check, FirstFit/Check, BestFit/Check and
--   Buddy/Check, as programs over the manager's state (Base/Program). Buddy/Kept relates the blocks that
--   are handed out to the free lists, for Buddy/Stress.
-- - libs/readline.c: Readline, with a list for the input.
-- - kern/driver/dtb.c: Dtb, which uses Strings. Dtb/Tokens describes trees as sequences of tokens, and
--   Dtb/Walk follows the search on them.
-- - Base has what all share: machine words, outcomes of a run, lists on the native numbers.
--
-- A page descriptor is a number too, and so is the list entry inside it: `le2page` is the identity.
-- C's loops are recursion on fuel. The walks over the lists get as many rounds as there can be entries
-- (nr_free and two), which is proved to be enough for a well-formed list; size_to_order gets 33 rounds,
-- after which the shifted bit has left the word. A failed assert is the outcome `panicked`.
-- `unsigned int` and `size_t` wrap around as in C.
--
-- The loops of vprintfmt, cputs and getchar take their number of rounds as an argument too.
--
-- Not modelled: libs/riscv.h, the encoding header of the RISC-V project; the assembly in
-- kern/init/entry.S and the ecall of libs/sbi.c; page tables; the messages of the page managers,
-- of page_init, of the checks and of the device tree's search, whose output no other part reads.
mod Base
pub mod Frames
pub mod LinkList
pub mod FreeArea
pub mod FirstFit
pub mod BestFit
pub mod Buddy
pub mod Console
pub mod Dtb
pub mod Print
pub mod Readline
pub mod Slub
pub mod Pmm
pub mod Kernel
pub mod Strings
