-- ===== src/Lib.antt =====
-- Verification of the kernel of labs/week7/EE23B102/xv6-riscv: the page allocator, page tables, processes,
-- pipes, open files, the buffer cache, the log, the bitmap, the inode table and the paths of the file
-- system, the mapping of files into memory, the console, the descriptors of the disk, spinlocks,
-- sleeplocks and the string functions; of the matcher of its grep; and of the queues of UDP packets and
-- the rings of the network card of the kernel of labs/week6/xv6-labs-2024.
--
-- The parts and the code they model (paths below labs/week7/EE23B102/xv6-riscv/kernel):
--   Base: lists, Boolean tests and the type Outcome of code that may panic.
--   Kalloc: kalloc.c. The free list is threaded through the memory, a function from addresses to words.
--     The loop of freerange runs on fuel pa_end / PGSIZE + 1, more rounds than there are pages below
--     pa_end; the fuel running out is a panic.
--   Pipe: pipe.c. The counters wrap at 2^32. A call of pipewrite or piperead is a sequence of stretches,
--     each from the lock to a return or a sleep. The copies from and to user memory and the test of a
--     killed process are arguments.
--   Log: log.c. The cache and the disk are functions from block numbers to contents; a call gives the
--     list of its disk writes in their order, and a crash leaves a prefix of them on the disk. The commit of
--     end_op, which runs without the lock, is a step apart from end_op's beginning and end.
--   Bio: bio.c. The list linked through prev and next is a list of buffers.
--   SharedTab: the table of shared pages in vm.c, buckets of entries under one lock.
--   Spinlock: spinlock.c, the lock and the nesting of push_off and pop_off. The swap of the lock's word, the
--     stores of lk->cpu and the release of the word are steps of their own, interleaved with those of all
--     CPUs. The other parts take an operation under a lock as one step.
--   Strings: string.c on a memory of bytes. The loop of strlen runs on fuel; it returns where the string
--     ends before the fuel does.
--   PageTable: vm.c, walk, walkaddr, mappages, uvmcreate, uvmunmap, uvmalloc, uvmdealloc and uvmclear, in the
--     memory and with the free list of Kalloc. PageTable.Tree has what the hardware reads in the tables. The
--     loops run on as much fuel as their range has pages, that of uvmalloc on newsz / PGSIZE + 1, and a round
--     passes a page; the fuel running out before the end of the range is a panic.
--   Console: console.c, consoleintr and consoleread, a stretch from the lock to a return or a sleep. The
--     answers of either_copyout and killed are arguments; the loop of ^U runs on the length of the line.
--   Virtio: virtio_disk.c, the descriptors of a request. free_chain runs on fuel 8, the number of
--     descriptors.
--   Mmap: struct vma_t of proc.h and sys_mmap of sysfile.c. Its children are Mmap.Unmap (sys_munmap of
--     sysfile.c), Mmap.Process (the loops over the areas in allocproc, kfork and kexit of proc.c) and
--     Mmap.Fault (vmfault and lazy_mmap of vm.c). They change the page table and the shared table. The page
--     table is the function from page numbers to PTEs that walk() reads. The answers of kalloc, readi and
--     mappages, and what other processes do while readi waits, are arguments.
--   Proc: proc.c. The process table, the pids and what each CPU runs; what a process or a CPU does between
--     two switches is a step, and steps come in any order.
--   FileTable: file.c, the descriptors of sysfile.c and pipealloc of pipe.c. The answers of kalloc and
--     copyout are arguments; the calls of pipeclose and iput are listed, not run.
--   Fs: balloc, bfree and skipelem of fs.c, and in Fs.Inodes iget and idup. The loop of balloc runs on as
--     much fuel as the disk has blocks, and each round passes 8192 of them; the names of a path run on the
--     length of the path.
--   Sleeplock: sleeplock.c. A turn of the loop of acquiresleep and a releasesleep are steps.
--   Grep: ../user/grep.c, match, matchhere and matchstar, on strings as lists of bytes.
--   Net: net.c and net.h of labs/week6/xv6-labs-2024/kernel. Each bound port has its pending packets as a
--     list. The answers of kalloc and copyout are arguments.
--   TxRing, RxRing: e1000_transmit and e1000_recv of e1000.c, there. The card's registers and done bits are
--     part of the rings. The loop of e1000_recv runs on fuel 16, and a call passes at most 15 descriptors.
--   The modules below these hold the proofs, named for what they show, and Tests.
--
-- An int argument of a system call is its 32-bit pattern, and an address has 64 bits. Reference counts
-- do not overflow in the model.
--
-- Not modelled: the contents of inodes and directories, reads and writes of files, the copying and the
-- freeing of page tables and the copies to and from user memory, the contexts and stacks of processes,
-- devices but for the console, the descriptors of the disk and the rings of the network card, traps and
-- assembly code, the making of the packets to send, and the user programs but for the matcher of grep.
-- Wakeups appear in Proc and Sleeplock, and elsewhere only as far as pipes, sockets and the console sleep.
pub mod Base
pub mod Bio
pub mod Console
pub mod FileTable
pub mod Fs
pub mod Grep
pub mod Kalloc
pub mod Log
pub mod Mmap
pub mod Net
pub mod PageTable
pub mod Pipe
pub mod Proc
pub mod RxRing
pub mod SharedTab
pub mod Sleeplock
pub mod Spinlock
pub mod Strings
pub mod TxRing
pub mod Virtio
