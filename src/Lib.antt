-- ===== src/Lib.antt =====
-- xanaduOS, a small kernel for i386: its allocators of frames, virtual ranges, slabs and heap, its
-- paging and mapping, its processes, its library of strings, the screen, the ramdisk, the timer, the
-- drivers of the serial port, the clock, the keyboard and the floppy disk, and the tables and
-- controllers that it sets up at start.
--
-- Numbers are natural numbers with the wrap-around of the machine's words written out. An array in
-- memory is a function from indices to words or bytes. A function that changes globals takes the
-- record of them and returns the new one; an error code is a value; a dereference of NULL and fuel
-- run out are `none`, as the comment at each definition says.
--
-- Base: names of the library, bit and word operations, memory, error numbers (kernel/error.h), port
-- output as a list of writes, and devices: a `Machine` is a parameter, what reads of its ports give
-- and what every access changes, and the drivers are functions on its state that may run out of
-- fuel.
--
-- Frames: mem/frame_alloc.c, the bitmap of physical page frames. `FrameState` is the file's globals;
-- each function takes the bitmap and returns the new one. Walk and Marks treat the loops over a
-- range of frames, Search, Taken and Single the search, Meta addresses and release, Long ranges of
-- more than 32 frames, and Init the initialisation. `map_frame` is empty in the source.
--
-- Slibc: lib/slibc.c, the string functions that the kernel uses instead of a C library; the ramdisk
-- reads its headers with `atoi` and compares names with `strneq`.
--
-- Buddy: mem/buddy_frame_alloc.c, the allocator of virtual ranges. Free lists are lists of
-- addresses, the slab cache of their nodes is the number of nodes left; what the last node of a new
-- list goes on to, which the source does not write, is a parameter. Buddy.Clone is the copy of an
-- allocator. Not modelled: `buddy_alloc_clean` and `buddy_alloc_destroy`.
--
-- Paging: mem/paging.c, page directories and tables as an array of words; the tables that the heap
-- gives are a parameter, and that the heap may itself take frames and tables to grow is not part of
-- the call. Not modelled: the start. Clone is the copy of a directory for a new task, over Paging
-- and Mmap, without the contents of its pages.
--
-- Mmap: mem/mmap.c, a range of the buddy allocator mapped to frames of the frame allocator through
-- the directory of Paging, and released again. Not modelled: the mapping of files.
--
-- Slab: mem/slav_allocator.c, caches of objects of one size; what the heap gives for a slab is a
-- parameter. Not modelled: `slab_cache_destroy`.
--
-- Heap: mem/allocator.c, the blocks of the heap by the addresses of their headers; the result of
-- mapping more pages is a parameter, and the search among the holes takes fuel, since it need not
-- end. Not modelled: the variants that zero the memory or return its physical address.
--
-- Int: kernel/int.c and kernel/exceptions.c, the tables of interrupts, their start and the dispatch,
-- over Pic. Pit: drivers/pit.c, the timer over Int; its loops run over the list of interrupts that
-- come. Not modelled: its callbacks.
--
-- Proc: proc/proc.c with the list macros of include/lib/kernel.h, the tasks by address and their
-- list; `Step` is what may happen to the processes and `Reachable` the states they reach. Not
-- modelled: `load_elf`, registers, stacks and the switch of tasks, which is assembly.
--
-- Screen: drivers/fb.c, text on the frame buffer, numbers as text, and formats (Screen.Format).
--
-- Initrd: fs/initrd.c, the tar archive of the ramdisk, its directories, reading and look-up by name.
--
-- Syscall: kernel/syscall.c, the table of the system calls over Screen and Proc. Files: fs/fs.c, the
-- calls through the functions of a node.
--
-- Serial, Clock, Cmos, Ps2, Keyboard and Floppy: drivers/serial.c, rtc.c, cmos.c, ps2.c, keyboard.c
-- and storage/floppy.c, over a `Machine`; their handlers are registered with Int, and Clock writes
-- its numbers with the `itoa` of Screen, into its buffer of 16 bytes: a write behind it is a fault.
-- An interrupt is a call of its own: none comes within another call.
--
-- Pic, Pci and Gdt: drivers/pic.c, ipc/pci.c and kernel/gdt.c.
--
-- Fuel: a loop that stops at a test only takes fuel. For `schedule` one more than the number of
-- tasks is enough; for `itoa` ten rounds, the number of digits of a 32-bit number; for the search in
-- a byte of the bitmap nine, one for each bit and one to stop; for `strcmp` one more than the
-- length; for the parser of the archive two for each header and one to stop. The flush of the
-- screen, the enumeration of bridges, the look-up by name and the list of holes in `kfree` take any
-- fuel, and no theorem is about them. The loops that poll a device take fuel: 3001 rounds are enough
-- for those of the floppy controller, which end at a timeout; for the clock and the serial port,
-- which wait without end, a theorem assumes that the device answers within the fuel. All other loops
-- count down from their own bound.
--
-- Not modelled: the drivers of the hard disk and the network card, the start of the kernel,
-- assembly, and the functions of a modelled file that only print.
pub mod Base
pub mod Frames
pub mod Slibc
pub mod Buddy
pub mod Pic
pub mod Gdt
pub mod Pci
pub mod Screen
pub mod Initrd
pub mod Paging
pub mod Mmap
pub mod Int
pub mod Pit
pub mod Slab
pub mod Proc
pub mod Heap
pub mod Cmos
pub mod Floppy
pub mod Serial
pub mod Clock
pub mod Ps2
pub mod Keyboard
pub mod Syscall
pub mod Files
pub mod Clone
