-- ===== src/Lib.antt =====
-- A model of parts of the qword kernel, root/src/kernel, and theorems about it.
--
-- The kernel is written in C. Memory comes from a bitmap of physical pages (mm/pmm.c). On top of it
-- stand the generic structures of lib: tables of reference-counted objects (dynarray.h), in which the
-- kernel keeps its open files, pipes and handles, and hash tables over names (ht.h), which the file
-- systems use. klib.c has the memory and string routines and the log, used by every part. fd/fd.c
-- keeps the open files as a dynarray of descriptors and passes each call on to the handlers that the
-- descriptor carries.
--
-- Prelude (with Tests, Lists, Int): natural numbers, Boolean tests, lists indexed by native numbers,
-- integers, and the bind of options. It models nothing.
--
-- Pmm: mm/pmm.c. The record Pmm is the bitmap, its length and the cursor of the search; a bit beyond
-- the bitmap is whatever memory holds there. scan is the loop of pmm_alloc, on as many rounds as the
-- bitmap has entries, which is the bound of the loop in C. pmm_alloc and pmm_free are the calls,
-- init_pmm (Pmm.Init) the set-up from the firmware's memory map. The lock that pmm_alloc and pmm_free
-- hold makes a call one step. Pmm.Scan, FirstFit and Alloc have the proofs for the search,
-- Pmm.Rewind the wrap of the cursor, Pmm.Init.Pages, Map and Grow those for the set-up.
--
-- Klib: lib/klib.c. Memory is a function from addresses to bytes; each routine is its loop with the
-- writes of its earlier rounds in place. Loops to the end of a string run on fuel, and the theorems
-- say that the length of the string is enough. Klib.Memory: memcpy, memmove, memset, memcmp and the
-- 64-bit forms. Klib.Strings: strlen, strcpy, strncpy, strcmp, strncmp, strchrnul, tolower.
-- Klib.Print: the buffer of kprint, numbers and kvprint with its conversions.
--
-- Dynarray: lib/dynarray.h. A Table is the slots with name_i; each macro is one step, since it holds
-- the lock of its table. The pointer that dynarray_getelem returns is the number of the slot. Counts
-- are 32 bits with their wrap. borrow is the pattern, used all over the kernel, of a reference that is
-- taken, used and given back. Dynarray.Lifetime, Add, Find and Borrow have the proofs.
--
-- Lock: the spinlock of lib/lock.h as steps of processors that take turns; mutual exclusion is in
-- Lock.Exclusion.
--
-- Fd: fd/fd.h and fd/fd.c. Handlers are functions on a type of states that stands for everything
-- behind the descriptors. Fd.Dispatch, Close and Dup have the proofs.
--
-- Pipe: fd/pipe/pipe.c. The buffer of a pipe is a function from offsets to bytes with the size that
-- krealloc was last asked for, in whole pages: a copy behind them is outside of the object. Since the
-- size is asked for in steps, a pipe has one page, and the queue is proved about up to 4096 bytes. Pipe.Calls has the calls on the table of pipes; a blocking read takes its waits from an
-- explicit schedule, each with what the other threads do meanwhile. Pipe.Buffer, Queue, Calls.Ends
-- and Calls.Reads have the proofs.
--
-- Part: lib/part.c, the reads and writes of partitions on any device, with proofs in Part.Bounds.
--
-- Time: lib/time.c, the Julian day number, the seconds since 1970 and sums of durations. Time.Jdn,
-- Calendar and Duration have the proofs.
--
-- Ht: lib/ht.h. An entry is empty, an element, or a further table with its own seed; the numbers that
-- rand64 gives to new tables, and whether they can be allocated, are arguments: the loop of ht_add
-- that goes on after all of them is `none`. Ht.Hash, Lookup, Add, Collide and Dump have the proofs.
--
-- Task: proc/task.c and lib/event.h. A Sched is the tables with what each processor runs. Task.Search
-- is task_get_next, on as many rounds as the table has entries, which is enough since the loop counts
-- its tries; Task.Switch is task_resched; Task.Threads has the calls on threads, Task.Processes those
-- on processes, Task.Events the events. What is done with scheduler_lock held is one step; Task.Runs
-- puts the steps of all processors in any order. Task.Scan, Turns, Exclusive, Runs and Kill have the
-- proofs. The registers are one number, and so is the state of the FPU.
--
-- Vmm: mm/vmm.c. Physical memory is the entries of its pages, and a Machine is that memory with the
-- page allocator of Pmm, from which tables come. map_page is split where the source goes from a table
-- to the next. A table is named by the path of indices to it; Vmm.Walk has the tree of tables, Grow
-- and Leaf the two changes of it, Pages, Unmap and NoMemory the calls.
--
-- Vfs: fd/vfs. The dump of the table of mount points is a list. A file system is the record of its
-- functions, on a type of states of its own; open makes handles that pass calls on to it, and
-- descriptors of Fd whose handlers are the calls on handles. Vfs.Mountpoint, Opens and Dup have the
-- proofs. Vfs.Paths is vfs_get_absolute_path in a buffer of bytes: Buffers, Steps and Starts have the
-- lemmas on what the buffer holds, Resolve the induction on the components, Absolute the results.
-- The loop runs on as many rounds as the path has bytes and one, which is enough.
--
-- Heap: lib/alloc.c on the page allocator of Pmm. Heap.Objects says what an object is and has the
-- proof for kalloc, Heap.Resize those for kfree and krealloc.
--
-- Rand: lib/rand.c. Rand.Reload has the proof for one reload of the array in place, Rand.Sequence that
-- for the numbers of all calls.
--
-- Syscall: the calls of proc/syscalls.c on the files of a process. Syscall has read, write and close;
-- the loop that bytes are moved in runs on fuel, and `len / 16777216 + 2` rounds are enough for a file
-- that gives what it has (Syscall.Io). Syscall.Close follows a number from its close to the next call.
-- Syscall.Numbers has the calls that give out numbers (open, dup2, pipe, fcntl), on a record of the
-- calls of the kernel whose laws are in Numbers.Owned; Numbers.Descriptors makes such a record of the
-- calls of fd/fd.c, and Numbers.Sequences has any sequence of them.
-- Syscall.Cwd has chdir and getcwd, on the paths of Vfs.Paths.
--
-- Echfs: the cache of the blocks of a file, of fs/echfs/echfs.c. The device is its allocation table, the
-- entry of the file and its blocks. Echfs.Cache says which file the cache and the device hold together,
-- Loads has the proof for one block, Transfers and Writes those for the two loops, Flush that for
-- synchronise_cached_file; Calls has echfs_read and echfs_write. The loops run on fuel, and a round for
-- each byte and one more are enough; the scan for a free block looks at as many entries as it is told.
--
-- A result `none` of a model means that the C code reads outside of an object or follows a null
-- pointer, or, where a definition says so, that a loop has not ended. Whether an allocation succeeds
-- is an argument wherever it is made by code of another part.
--
-- Not modelled: paths, directories and handles of echfs, the other file systems, signals and the stacks
-- of new threads, copies of address spaces, the other system calls, programs, the scan for
-- partitions, terminals; and what talks to hardware (storage, display, interrupts, ACPI), which has
-- little logic of its own. Output of the log to a port or the screen is left out, as are the assembly
-- routines and the boot loader.
pub mod Prelude
pub mod Pmm
pub mod Klib
pub mod Dynarray
pub mod Fd
pub mod Ht
pub mod Pipe
pub mod Part
pub mod Time
pub mod Lock
pub mod Task
pub mod Vmm
pub mod Vfs
pub mod Heap
pub mod Rand
pub mod Syscall
pub mod Echfs
