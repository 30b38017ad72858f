-- ===== src/Lib.antt =====
-- A verification library for the Nachos 3.4 kernel of Nachos/nachos-3.4/code, a teaching operating
-- system in C++ that runs MIPS user programs on a simulated machine. This repository adds multiple
-- user processes to it: placement of address spaces in physical memory, a process list, and the
-- system calls Exec, Join, Exit and Yield. All paths below are under Nachos/nachos-3.4/code.
--
-- How the parts interact. The system call Exec makes an address space for a program file: its
-- constructor finds a run of free page frames in a bitmap of physical memory, with one of three
-- placement policies, marks it, builds a page table for it, and copies the program's segments there
-- through that table. The kernel keeps a list of the processes, in which Join and Exit look them up.
-- The simulated machine then runs the program: every fetch, load and store goes through the page
-- table, and an exception or a system call returns to the kernel. Below this, the kernel has threads with
-- a ready list and semaphores, whose queues are linked lists, and a simulated clock with a sorted list of
-- pending interrupts, which runs handlers between the steps of the threads. The file system keeps files in
-- sectors of the simulated disk: a bitmap says which sectors are free, a header which ones a file has, and a
-- directory where the headers are. The exercises of threads/threadtest.cc run on threads and semaphores.
--
-- Which file models what:
-- - Prelude: what the modules share, no program code. Prelude/Tests has the Boolean tests and ASSERT,
--   Prelude/Lists lists on native numbers, Prelude/Bits the bits of a machine word, Prelude/Families sums over
--   the states of many threads.
-- - Userprog/BitMap: the class BitMap of userprog/bitmap.cc, with its words and masks. Bits is about
--   Mark, Clear, Test and the constructor, Search about Find and NumClear.
-- - Userprog/Space: the data of AddrSpace and TranslationEntry, and the sizes of physical memory.
-- - Userprog/Placement: FirstFit, BestFit, WorstFit and MemoryAllocation of userprog/addrspace.cc. The
--   two nested loops of each are `search` and `scan`, with the body as an argument. Scan is about the
--   inner loop; First, Best and Worst are about the three policies.
-- - Userprog/Loading: AddrSpace::Translate, LoadSegment, the constructor, and what the destructor does
--   with memory, of userprog/addrspace.cc. Copy is about the bytes put into memory, Segment about
--   LoadSegment, Frames about the bits of physical memory, Construct about the whole constructor.
-- - Userprog/ProcessList: the class ProcessList of userprog/exception.cc, with its elements on a heap.
--   Links relates the heap to the list of the elements; Lookup and Update are about the methods.
-- - Userprog/Syscalls/Strings: the strings that the system calls Exec and Write of userprog/exception.cc read
--   from user memory, and the outer switch of ExceptionHandler. Reads is what a string in memory is.
-- - Userprog/Syscalls/Input: the system call Read, with SRead. Keyboard and File are about the two sources of its
--   bytes, Call about the registers and the memory that it leaves.
-- - Userprog/Syscalls/Processes: the process that Exec adds, Join, AdvancePC, and AddrSpace::CleanupExit. Fields
--   is about what the process list keeps of its elements, Match about Join and the end of a process, Create
--   about Exec, Forked about its P, V and Fork, Counters about the registers afterwards.
-- - Machine: the registers, main memory and tables of machine/machine.h, and RaiseException.
-- - Machine/Memory: Translate, ReadMem and WriteMem of machine/translate.cc. Address is about Translate,
--   RoundTrip and Registers about ReadMem and WriteMem.
-- - Machine/Word: the arithmetic of C on 32-bit patterns.
-- - Machine/Decode: Instruction::Decode of machine/mipssim.cc and the tables of machine/mipssim.h.
--   Fields is about the register numbers, Total about the operations.
-- - Machine/Mult: the function Mult of machine/mipssim.cc; Value is about its result.
-- - Machine/Cpu: OneInstruction of machine/mipssim.cc, case by case. Arith is about the instructions
--   that trap on overflow; Step, Exec and Advance are about every instruction.
-- - Machine/Interrupt: the class Interrupt of machine/interrupt.cc, with the ticks of machine/stats.h and the
--   delay of machine/timer.cc. Pending is about the sorted list, Handled says which handlers are called, Ticks
--   how the ticks are counted, Drain is about the loop of CheckIfDue, Clock about OneTick and Idle.
-- - Machine/Disk: the class Disk of machine/disk.cc, on the clock and with the interrupts of Machine/Interrupt.
--   Latency is about the time of a request, Requests about one request after the other.
-- - Threads/Sequence and Threads/LinkedList: the list of threads/list.cc, as a sequence of items with keys
--   and with its elements on a heap. Chain relates the two; Ends and Insert are about the methods.
-- - Threads/Kernel: threads/thread.cc, threads/scheduler.cc and threads/synch.cc. Step is what can happen
--   next. Inv is what always holds, Moves and Wakes say how the functions keep it, Order is about members
--   of a queue, Steps about runs of the kernel, and Balance about P and V together.
-- - Threads/Philosophers: the dining philosophers with semaphores of threads/threadtest.cc: DinPhilSemaphore,
--   GetSticks, Eat, PutSticks and LeaveRoom. Move is what a philosopher does between two calls of P, V and
--   Yield, Reach the states that any order of these leads to. Sticks is about who eats, Doors about how they
--   enter and leave.
-- - Threads/BusyWait: DinPhilBusyWait and ReachChopStick of threads/threadtest.cc, with steps between two calls
--   of Yield. Chopsticks is about who has them.
-- - Threads/PostOffice: PostOfficeSemaphore of threads/threadtest.cc, in the same way. Letters is about the
--   letters in the mailboxes and the end of the work. Threads/PostOffice/Loop is PostOfficeLoop of the same
--   file; Bounds is about its letters and about who sends.
-- - Filesys/FileHeader: the class FileHeader of filesys/filehdr.cc over the bitmap. Loops is about the loops of
--   Allocate and Deallocate, Allocate about the two functions.
-- - Filesys/Directory: the class Directory of filesys/directory.cc. Names is about the comparison of names,
--   Entries about Find, Add and Remove.
-- - Filesys/OpenFile: the class OpenFile of filesys/openfile.cc, with the requests to one sector of
--   machine/disk.cc. Buffers is about the bytes of a file, Read about ReadAt, Sectors about the loop of WriteAt,
--   Ends about the sectors that it changes in part, and Write about WriteAt, and Write, Seek and Read together.
-- - Filesys/FileSystem: Create, Open and Remove of filesys/filesys.cc over a volume, which is what the disk
--   holds of the directory, the bitmap and the headers. Owners says which sectors belong to which file, Create
--   and Remove what the two functions do, Keeps that files stay apart, RoundTrip is about the three together.
--
-- Conventions. A failed ASSERT, a NULL that is followed and an index outside a table give `none`. A
-- 32-bit int is its pattern, a number below 2 ^ 32. The host is little endian and its char is signed, so
-- the byte-order conversions do nothing. What the kernel does with an exception is an argument of the
-- machine, and the file an argument of the loader, with the bytes that ReadAt delivers as a hypothesis.
-- The value of a semaphore, the size of a file and the ticks of the clock do not overflow, and the size of a
-- file is not negative. The handlers of interrupts are arguments of Interrupt; that of the timer is given, and
-- satisfies the hypothesis on them.
--
-- Fuel. The loops of the placement policies run on fuel: 66 rounds of the outer and 33 of the inner one
-- for 32 frames. That is enough: each round of the inner loop moves the index on by one or is the last,
-- and so does each round of the outer one, where the index may stay only once, at the end of memory.
-- The search of the process list, and that of SortedInsert in a linked list, run on fuel, which is to be
-- more than the number of the elements. The loops over CheckIfDue have fuel for more than the pending
-- interrupts: each round but the last takes one that is due off the list, and one that a handler asks for
-- is due later. The name of Exec is read in 129 rounds and the string of Write in 501, one more than the
-- buffer has bytes, for the round at its end is the last; only a byte that cannot be read makes Write go on.
-- All other loops are structural.
--
-- Not modelled: the system calls Yield and Halt and what Write puts out, how a directory, a bitmap
-- and a header are stored in sectors, the start of the file system, the console,
-- the network (network), the registers of AddrSpace, reading and writing a bitmap in a file,
-- Shout and the reading of the input in threads/threadtest.cc, and Machine::Run, the endless loop around
-- OneInstruction. Context switching is in assembler, and the model keeps of it where a thread goes on;
-- console and debugger output has no result; machine/sysdep.cc only calls the host's system library; the
-- tools in bin and the user programs in test run outside the kernel; and no makefile builds the older
-- copies of files.
pub mod Prelude
pub mod Userprog
pub mod Machine
pub mod Threads
pub mod Filesys
