-- ===== src/Lib.antt =====
-- Course projects on operating systems: extensions of the xv6 kernel, and user programs in C.
--
-- The parts modelled:
-- - `P2A: Scheduling/` is xv6 with a lottery scheduler. Sched models proc.c: the process table
--   (Sched/Table, proc.h), `hold_lottery` and `scheduler` (Sched/Lottery), `sleep`, `wakeup1`,
--   `kill` and the clock tick (Sched/Sleep), `allocproc`, `fork`, `exit`, `wait` and `growproc`
--   (Sched/Life), `settickets` and `getpinfo` (Sched/Tickets), and any sequence of these
--   (Sched/Steps). Pipe models pipe.c: the ring buffer as a queue (Pipe/Queue), `pipewrite` and
--   `piperead` (Pipe/Write, Pipe/Read), and their interleavings (Pipe/Flow). Strings models the
--   memory and string routines of string.c (Strings/Move, Strings/Text), and Pages
--   the free list of kalloc.c (Pages/Free).
-- - `P3A: MapReduce/` runs a map and a reduce function on threads. MapReduce/HashMap models
--   hashmap.c, the table that its programs share; MapReduce/Run models mapreduce.c: `MR_Emit`
--   (MapReduce/Run/Emit), `getValue` and `reducerHelper` (MapReduce/Run/Left and Reduce), both
--   together (MapReduce/Run/Whole), against groups of sorted nodes (MapReduce/Run/Groups).
-- - `P4: xv6 Memory Encryption/` keeps the pages of a process encrypted unless they are among the
--   last ones used. Encrypt models vm.c: `mencrypt`, `mdecrypt` with `insertQueue`, `removeQueue`
--   and `getpgtable`; what a process sees of its memory (Encrypt/View and Flip), the clock queue
--   (Encrypt/WorkingSet), the page fault (Encrypt/Fault), and ranges of pages (Encrypt/Range).
-- - `P2B: Shell/` is a shell, mysh.c. Shell/Table has the list of aliases, Shell/Parse
--   `preprocess`, Shell/Run the commands, the child and the loops of `main`. Shell/Words and
--   Shell/Redirect are about lines of words, Shell/Aliases about the list as a map, Shell/Child
--   about the call of `execv`, Shell/Lines about whole lines, Shell/Loop about the loops.
-- - `P3B: xv6 Kernel threads/` adds threads to xv6. Threads/Lock models the ticket lock of ulib.c, as
--   threads that do its atomic steps in any order: the order of their tickets (Threads/Lock/Order
--   and Tickets) and what follows (Threads/Lock/Turns). Threads/Create models `thread_create` and `thread_join`
--   of ulib.c, Threads/Kernel proc.c: its table (Threads/Slots and Scan), `clone`
--   (Threads/Clone), `wait`, `join` (Threads/Join) and `growproc` (Threads/Size); user memory is a function from page tables and addresses to words.
-- - `P1: UNIX Utilities/` has two filters of lines, my-look.c and wordle.c: Utilities, and the lines
--   they print in Utilities/Select, by what they keep of a line (Utilities/Letters).
-- Common has the lists, tests, machine words and streams of lines that all parts use.
--
-- How the models correspond to the code:
-- - A function that runs under `ptable.lock`, or under the lock of a pipe or of a map, is one step
--   from a state to a state. A function that sleeps is split at its call of `sleep`: the steps are
--   what runs before, and again from the wakeup on.
-- - A `struct proc *` is the index of a slot in the table. Pages, files and inodes are numbers, 0
--   for null. What proc.c calls in kalloc.c, vm.c, file.c and fs.c is the record Sched.Services
--   (Threads.Kernel.Services in P3B), a parameter of the definitions that call it.
-- - `wakeup` as pipe.c calls it changes the process table; Pipe returns the channels it is called
--   on, and Pipe/Flow applies them to its two processes.
-- - `int` and `uint` are numbers below 2^32 with the wrap-around written out, `size_t` is 64 bits;
--   a `char` is its unsigned byte, sign-extended where `Hash` does so. A `HashMap` has fewer than
--   2^31 slots, so that the `int` of a slot holds every index.
-- - `qsort` is a parameter that gives a sorted permutation (IsSort). The program's reducer is a
--   parameter too: it calls `get_next` with its key until NULL, as wordcount.c does.
-- - The probing loops of the hash map run on fuel, one round for each slot, which is enough since a
--   valid map has a free slot; the loops of the reducers have one round more than there are nodes,
--   each of which takes a node.
-- - Keys and values are lists of bytes before the NUL; in Strings the memory is a function from
--   addresses to bytes, and `strlen` runs on fuel, more rounds than the distance of the NUL.
-- - `next` of a free page is a function from addresses; where the kernel's image ends, which the
--   linker decides, is a parameter of Pages. The loop of `freerange` runs on fuel, more rounds than
--   there are pages.
-- - An entry of a page table is a record of its flags, since the header with their bits is not in
--   the repository, and a page's number stands for the pointer to its entry. Only pages that the
--   process may use must have frames of their own: the kernel's entries map all of memory again, and
--   an entry that maps nothing has no flags. `mdecrypt` and
--   `insertQueue` call each other: two calls of `mdecrypt` and 129 rounds of the clock are enough.
-- - In the shell a string is its list of bytes, an array of pointers a function from places, where
--   none is NULL; what C leaves undefined, as a NULL that is read through or a place past the 100 of
--   an array, is an outer none. The array of arguments is not cleared and gets no NULL behind the
--   pieces: what malloc's memory holds is a parameter (Blocks), where each place is NULL or a
--   string; an address of neither is left out. Whether fork and fopen succeed are parameters, and a child is the
--   call of `execv` that it makes. The loop over the pieces of a redirection runs on fuel for the
--   101 places it can reach, the loops of the shell's `main` and of P1 on fuel for more lines than
--   there are characters. All other loops of the development are structural.
--
-- Not modelled: spinlocks and interrupts below the level of steps, context switches by assembly,
-- `userinit`, the panics of `sched`, `procdump`, the files that `pipealloc` makes, memory that
-- `malloc` cannot give outside of the array of a map, the threads of `MR_Run`, the file system, the
-- devices, the page-table walk, the flush of the TLB and the bit that the hardware sets when a page is
-- used in P4, the list of memory that the shell frees at its end, the options of P1's programs,
-- and P5.
pub mod Common
pub mod Encrypt
pub mod MapReduce
pub mod Pages
pub mod Pipe
pub mod Sched
pub mod Shell
pub mod Strings
pub mod Threads
pub mod Utilities
