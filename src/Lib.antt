-- ===== src/Lib.antt =====
-- Verification of YayOS, a small x86-64 kernel (YYSloth) with a shell (YYUserspace).
--
-- The program's parts and how they interact. The page allocator hands out physical frames from a
-- bitmap; before it is ready, the early allocator hands them out from the loader's memory map. The
-- tables of pages are filled one page at a time, and the pages of a process that is copied are
-- shared and counted until one of the copies is written. The kernel heap and the kernel's address
-- allocator keep their memory and their list nodes in pools that stand in lists.
-- Processes have numbers from a second bitmap; those that can run stand in a ring of links, which
-- the timer turns, and wait in queues for semaphores and mutexes. A process has a table of
-- descriptors, which stands on the growing array, and the list of its free addresses.
-- A system call checks the pointers it is given against the page tables, finds the file of a
-- descriptor and runs an operation of it; the virtual file system finds the file of a path in the
-- tree of a mounted file system, such as the initial ramdisk.
-- The shell reads a line from the serial line, byte by byte, and shows it while it is edited.
--
-- The files, and the code they are about:
--   Bits: setBit and clearBit of YYSloth/src/memory/physalloc.cpp, bitScanForward of
--     YYSloth/include/utils.hpp, and their use on arrays of words;
--   Utils: alignUp and alignDown of YYSloth/include/utils.hpp;
--   PhysAlloc: YYSloth/src/memory/physalloc.cpp, the static members as one record;
--   DynArray: YYSloth/include/core/dynarray.hpp;
--   Descriptor: YYSloth/src/proc/descriptor.cpp;
--   Process: YYSloth/src/proc/proc.cpp (newProcess, freePid, schedule and the run list),
--     intlock.cpp and stackpool.cpp;
--   Process/Sync: YYSloth/src/proc/taskqueue.cpp, semaphore.cpp and mutex.cpp;
--   UserMemory: YYSloth/src/memory/usrvmmngr.cpp;
--   Pools: the doubly linked lists of pools that kheap.cpp and kvmmngr.cpp share;
--   Heap: YYSloth/src/memory/kheap.cpp, Heap/Pool one pool, Heap the lists and the calls;
--   KernelMemory: the list of free ranges of YYSloth/src/memory/kvmmngr.cpp, KernelMemory/Nodes
--     the pools of its list nodes;
--   EarlyMemory: YYSloth/src/memory/tmpphysalloc.cpp;
--   Ramdisk: file views, lookup and sizes of YYSloth/src/fs/ramdiskfs.cpp, with strhash and streq
--     of YYSloth/include/utils.hpp, and the loop of the shell's cat;
--   Paging, Security: the page table entries of YYSloth/include/memory/vmbase.hpp and the checks of
--     user pointers of YYSloth/src/memory/msecurity.cpp;
--   Mapper: the loops over pages of YYSloth/src/memory/vmmap.cpp, Mapper/Pages its mapNewPageAt
--     and freePageAt on one page, with walkToWithAlloc of YYSloth/src/memory/vmbase.cpp;
--   CopyOnWrite: the marking, the counting, the access check and the release of page tables of
--     YYSloth/src/memory/cow.cpp;
--   Files: the interface proc::IDescriptor, and the ramdisk's files as one of its instances;
--   SystemCalls: YYSloth/src/proc/userapi.cpp, the file calls in SystemCalls itself, the calls on
--     memory in SystemCalls/Memory, those on processes and constants in SystemCalls/Status;
--   Vfs: YYSloth/include/fs/pathiter.hpp in Vfs/Path, the tree of names of YYSloth/src/fs/vfs.cpp in
--     Vfs/Entry, the walk, mount and open in Vfs/Walking;
--   Elf: the parsing of YYSloth/src/proc/elf.cpp;
--   DevFs: registration and lookup of YYSloth/src/fs/devfs.cpp;
--   Logging: YYSloth/src/core/log.cpp;
--   Shell: the buffer operations of YYUserspace/shell/shell.cpp, Shell/Editor its render and
--     getline, Shell/Words the splitting of a line.
-- Base has what all share. The module Tests below a part of the program applies
-- its theorems to concrete inputs.
--
-- Correspondence. A function keeps its name, in lower case with underscores; the object or the
-- static members it works on are an argument and a result. `uint64_t` is a natural number, with
-- the wrap-around written out where the code can reach it; `int64_t` is Base/Int.ℤ. A null
-- pointer is `none`, and a write through it is the fault `none` of the whole operation.
-- Loops over arrays count the rounds left, which the caller computes from the loop's bounds, and
-- loops over the entries of a table take 512 or 256 rounds. The search of the heap's small lists
-- takes a round for each list from the first that fits, that for a free list node one for each of
-- the 128 nodes of a pool. Some loops run on fuel: those over pages, for which a round for each
-- page is enough, the walk along a path and the iterator, one round more than the path has bytes,
-- dropRec, one more than there are nodes, the printing of a number, 64 rounds for 64 bits, that of
-- calculcateCapacity on 60 rounds, which reach 2^64 from 16, that of cat, for which one round more
-- than there are bytes left is enough, and the one that splits a line, for which one round more
-- than the line has bytes is enough.
--
-- What stands outside: the memory behind arrays (`new_array` gives the contents of fresh memory,
-- or none), the outcome of a copy that ends inside an element (`blend`), the addresses that the
-- kernel address allocator gives for stacks. The calls of physMutex in the page allocator are left
-- out of its operations, and so is the invalidation of the processor's translations. The processor
-- state that schedule saves and loads, the port input and output of the drivers, and the boot code
-- are not modelled. Whether the kernel heap has memory for a node of the tree of names is part of a
-- superblock (`allocates`), and so for the copy of its name. The mutexes of the virtual file system
-- and of descriptors are left out: an operation is one step.
-- Not modelled: the copies of the page fault handler, which map frames in the kernel half by the
-- address allocator and the mapping of pages together, newPageTable, the initialisation of
-- the kernel heap, the calls of kvmmngr.cpp that merge ranges and give back pools, memoryinfo.cpp
-- and tmpvalloc.cpp, the reading of the device directory, the walk over the ramdisk's archive, fork,
-- exec, the loading of ELF areas, and the shell's other commands.
pub mod Base
pub mod Bits
pub mod Utils
pub mod Paging
pub mod Security
pub mod PhysAlloc
pub mod Pools
pub mod Heap
pub mod EarlyMemory
pub mod CopyOnWrite
pub mod DynArray
pub mod Descriptor
pub mod Process
pub mod UserMemory
pub mod KernelMemory
pub mod Ramdisk
pub mod Mapper
pub mod Files
pub mod SystemCalls
pub mod Vfs
pub mod Elf
pub mod DevFs
pub mod Logging
pub mod Shell
