-- ===== src/Lib.antt =====
-- The cros kernel: a small kernel for AArch64 with a round robin scheduler, signals, pipes, a FAT32
-- file system in memory, and system calls.
--
-- Parts and files. Paths are those of the repository.
--   * Base: shared tests, lists, C integers (Base/Ints) and the outcomes of code that follows
--     pointers (Base/Runs: a value, a fault, or no end within the fuel). Status:
--     include/types/status.h.
--   * Pipe: src/fs/pipe.h and src/fs/pipe.cpp. `Pipe` has the fields of the class; `put`, `read`,
--     `reader_read`, `writer_write` and so on are the methods; `new_reader` to `delete_writer` the
--     constructors and destructors of the endpoints. Pipe/Ring reads the ring as a sequence of bytes,
--     Pipe/Put and Pipe/Read are about the two loops, Pipe/Ends about the endpoints of a pipe that
--     `syscall_create_pipe` (src/kernel.cpp) made: its steps are copies, deletions, reads and writes.
--   * ReadyQueue: src/sched/queue.h and src/sched/queue.cpp. The nodes are on a heap, a function
--     from addresses to nodes; `new` is an address that the caller of the model gives.
--     ReadyQueue/Links says what a valid queue is, ReadyQueue/Fifo and ReadyQueue/Rounds what
--     the operations do to the sequence of waiting processes, ReadyQueue/Cut and
--     ReadyQueue/Remove what `remove` does.
--   * MemoryMap: src/memory/memorymap.h and src/memory/memorymap.cpp. The used part of the array is a
--     list of at most 16 regions; `unsigned long` goes round at 2 ^ 64. MemoryMap/Cover reads a map as
--     a type for each address, MemoryMap/Regions, Trim and Ends are about `trim` and its loop.
--   * SearchTree: src/containers/binary_search_tree.h. A node with its children is a value, so parent
--     pointers are places in the tree. SearchTree/Order is about the sequence of its entries,
--     SearchTree/Balance about its heights, SearchTree/Search about finding keys; SearchTree/Lookup
--     reads a tree without two entries of one key as a finite map, SearchTree/Update inserts into it,
--     and SearchTree/Remove is the removal, with the places that a rotation moves a node to.
--   * Strings: src/util/string.cpp on a memory of bytes.
--   * Context: src/sched/context.h and src/sched/aarch64/context.cpp, the registers; Context/Stack is
--     about what is pushed on the stack in memory.
--   * Process: src/sched/process.h, src/sched/process.cpp and src/sched/signalaction.h, with the
--     references of src/util/hasrefcount.cpp. Process/Signals is about `signal_trigger` and
--     `signal_return`, Process/Files and Process/Close about the descriptors, Process/Arguments is
--     `storeProgramArgs`, Process/Copy the copy, the clone, the assignment, `exec` and the destructor
--     (Copy/Stored is about the files of a copy, Copy/Moved about a process that is assigned), and
--     Process/Tame is about signals that do not kill.
--   * Kernel: the system calls of src/kernel.cpp on the files and the signal handlers of the
--     process that runs; a file object that a call deletes stands in its result.
--     Kernel/Descriptors is about the descriptors. Kernel/Processes is the process table and the
--     scheduler: the table has addresses, at which the processes are, and a removal assigns a
--     process to the object at another address where the tree moves an entry to another node.
--     Processes/Turns is about `syscall_yield` and `syscall_sigwait`, Processes/Signals about
--     `raiseSignal`, Processes/Table about `syscall_clone`.
--   * PageAllocator: src/memory/pageallocator.h, src/memory/pageallocator.cpp and `llog2` of
--     src/util/math.h. A list of free blocks is the sequence of their indexes, the map of blocks a
--     function. PageAllocator/Pages counts in how many free blocks a page is, PageAllocator/Sound is
--     the invariant; Insert, Split, Reserve, Free and Build are the operations that keep it, and Log
--     is the logarithm.
--   * Heap: src/memory/heap.h and src/memory/heap.cpp, the blocks of the kernel's heap as words of
--     memory; Heap/Blocks is about their headers and footers.
--   * PageTables: src/memory/aarch64/mmu.cpp, the translation tables in physical memory;
--     PageTables/Walk is about the entries that a walk reaches, PageTables/Spaces is
--     `createAddressSpace` and `unmap_region` of src/memory/mmap.cpp.
--   * Loader: src/loader/elf.h, src/loader/elf.cpp and `map_region` of src/memory/mmap.cpp,
--     where the address space is an interface whose calls may fail. Loader/Sections is about the
--     walk over the sections, Loader/Mapping about the pages that are mapped.
--   * Fat32: src/fs/fat32. Fat32/Bytes is helpers.cpp; Fat32/Paths is the paths of
--     fs_helpers.cpp, a string being the list of its characters; Fat32/Reader is
--     filecontextfat32.cpp, where the file system is a record of what the context uses of it,
--     and Fat32/Reader/Sectors is what it reads; Fat32/Disk is
--     disk_interface/disk_interface.cpp, the sectors of a disk in memory. Fat32/Table is the
--     file allocation table in fat32.cpp, entry.cpp and entry_helpers.cpp: Table/Chains follows
--     the clusters of an entry, Table/Free looks for a free one, Table/Grow allocates more,
--     Table/Places is where the entries of the table are; Grow/Rounds and Grow/Twice are about
--     allocating. Fat32/Names is the names in the entries: what the loops of entry_helpers.cpp
--     make of a string and of a sector, and Names/Entries reads and writes an entry and its long
--     names. Names/Text is about short names, Names/Pairs and Names/Parts about the parts of a
--     long name; Entries/Short and Entries/Long are about what is read of what was written,
--     Entries/Search is about the rounds of the search for long names.
-- A component's Tests module runs it on small inputs.
--
-- How the parts interact: the kernel's scheduler is the ready queue, whose values are pointers to
-- processes; a process holds its registers and, in a search tree, its files, among them the endpoints
-- of pipes and the contexts that read the file system; a context's stack is in the memory that the
-- string routines and the byte order of numbers are about; the page allocator is made from the memory
-- map. `syscall_fddup` finds, closes and stores files of a process, which are entries of its tree. The
-- loader reads the headers of a file with the byte order of Fat32/Bytes, reserves pages from the
-- allocator and maps them; the page tables reserve their pages from it too.
--
-- Bounds and fuel. The loops of `put` and `read` run on the number of rounds left, `n` at the start.
-- The loop of `place` runs on fuel, and the 16 entries of the array are enough (MemoryMap/Ends). The
-- loop of `remove` of the queue runs on fuel, and one round for each node is enough, as the theorems
-- on it ask for no more. The loops over strings run on fuel, and more than the length of the string is
-- enough; the loop of `read` of a file runs on fuel, and more than the bytes asked for is enough, since
-- each round copies one byte or more. `insert` of the page allocator runs on the number of sizes above
-- the block's, `reserve` on the number of lists and of halvings left; the loop of the constructor runs
-- on fuel, and one more than the pages of the region is enough (PageAllocator/Build). The walk along
-- a chain of the table runs on fuel, and two more than the clusters behind the first is enough; a table
-- with a cycle keeps the code going for ever. The walk over the sections of a file runs on fuel, and
-- their number is enough (Loader/Sections); the loop of `map_region` runs on fuel, and one more than the
-- pages is enough, where the size is a page or more below 2 ^ 64 (Loader/Mapping). The searches of the
-- heap run on fuel. The search for long names is given one round more than there are entries in front,
-- which is enough (Entries/Search). The bytes asked for are an `int` that is not negative. Sizes and
-- counters of type `int` are integers without an upper bound; the offset of a sector on the disk and
-- that of an entry of the table are `int` with its bound, a negative one standing with 2 ^ 32 more.
--
-- Not modelled: the drivers (src/devices), the boot code, exception entry and system registers
-- (src/aarch64), the growing of the heap (src/memory), the log, the tree of entries of
-- the file system, and the system calls that load programs, open files and map memory. A process that
-- still holds files is not destroyed or assigned another: destructor and assignment walk over nodes that
-- they delete, and the model has a fault there. Of `syscall_create_pipe` only the endpoints are modelled.
pub mod Base
pub mod Status
pub mod Pipe
pub mod ReadyQueue
pub mod MemoryMap
pub mod SearchTree
pub mod Fat32
pub mod Strings
pub mod Context
pub mod Process
pub mod Kernel
pub mod PageAllocator
pub mod PageTables
pub mod Loader
pub mod Heap
