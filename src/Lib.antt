-- ===== src/Lib.antt =====
-- Models of ImplusOS, a small x86-64 operating system in C, with theorems about them.
--
-- A boot loader loads the kernel and hands it the firmware's memory map. The kernel sets up its
-- memory, descriptor tables and page tables, drives a display and a disk, and runs user
-- processes that enter it by system calls. The process manager gets each process's stack from
-- the heap, the system calls end in its scheduler.
--
-- The files, and the code they are about:
-- - Boot.antt and Boot/: BootLoader/Loader.c, the boot loader over the calls of the UEFI
--   firmware: reading the image of the kernel, loading its segments, leaving the boot services,
--   and `efi_main`.
-- - Process.antt and Process/: Kernel/ProcessManager/ProcessManager_Create.c, the process table
--   and the scheduler. One function per function of the code, a table of 16 processes as a
--   list, the current process as a signed number, and the words of memory that new stacks are
--   built from. Halting is a result of the scheduler (`halted`).
-- - Heap.antt and Heap/: Kernel/Memory/Memory_Main.c, the heap: `memory_init`, `kmalloc`,
--   `kfree`, `kcalloc`, `krealloc` and the statistics. Block headers live in a memory indexed
--   by address and are linked by `next`, as in the code.
-- - Pages.antt and Pages/: Kernel/Memory/Memory_Main.c, the page bitmap:
--   `init_physical_memory`, `alloc_page` and `free_page`.
-- - Files.antt and Files/: Kernel/Syscall/Syscall_File.c, the table of open files. What
--   Kernel/Drivers/FileSystem/FAT32/FAT32_Main.c offers is an interface, `FileSystem`: finding
--   a file, and reading and writing all of its bytes; that it delivers as many bytes as the
--   file has is a named hypothesis, `ReadsWhole`.
-- - Syscalls.antt and Syscalls/: Kernel/Syscall/Syscall_Dispatch.c, `syscall_dispatch` over the
--   operations of the other parts, with the state that it reaches as one record. The words of
--   the frames and the variables of the kernel stand apart from the bytes of the memory; what a
--   write of a call to their addresses makes of them depends on where the linker puts them, and
--   is a parameter, `overwrite`.
-- - Paging.antt: Kernel/Paging/Paging_Main.c, `init_paging` and `map_mmio_virt`, with the
--   addresses of the tables as parameters.
-- - Disk.antt and Disk/: Kernel/IO/IO_Main.c, the loops of `disk_read` and `disk_write` over a
--   device that transfers one sector, and in Disk/Ata.antt down to the ports of the controller.
-- - Fat32.antt and Fat32/: Kernel/Drivers/FileSystem/FAT32/FAT32_Main.c, the table of clusters,
--   the search of the root directory, and reading and writing files, over that device.
--   Fat32/Find.antt fills the interface `FileSystem` with it, and Fat32/Calls.antt puts the
--   file calls on top.
-- - Elf.antt and Elf/: Kernel/Kernel_Main.c, `load_userland_elf`, over the file system and the
--   heap as interfaces. The calls of this heap act on the memory, so that the headers of its
--   blocks can lie where the program is loaded.
-- - Userland.antt and Userland/: Userland/Userland.c, the system calls of the user program and
--   the loader of its picture. The instruction `syscall` is a parameter, which
--   Userland/Calls.antt fills with the dispatcher.
-- - Png.antt and Png/: Userland/Application/PNG_Decoder/PNG_Decoder.c, the decoder of that
--   picture.
-- - Pci.antt and Pci/: Kernel/Drivers/PCI/PCI_Main.c, the configuration space and the scan of
--   the buses, over two ports.
-- - Strings.antt: Kernel/Memory/Other_Utils.c and Kernel/Memory/Memory_Utils.c, the byte
--   routines of the C library.
-- - Display.antt and Display/: Kernel/Drivers/Display/VirtIO/VirtIO.c, `virtio_gpu_draw_pixel`
--   and `virtio_gpu_fill_rect`.
-- - Virtio.antt and Virtio/: the rest of that file, over a `Platform` that gives the ports, the
--   memory, the heap and `map_mmio_virt`: the device in the configuration space (Virtio.antt),
--   its capabilities and the negotiation (Virtio/Caps.antt), the control queue
--   (Virtio/Queue.antt), the commands (Virtio/Commands.antt) and `virtio_gpu_init` and
--   `virtio_gpu_present` (Virtio/Init.antt).
-- - Interrupts.antt and Interrupts/: Kernel/IDT/IDT_Main.c, the interrupt descriptor table and
--   the table of handlers.
-- - Segments.antt and Segments/: Kernel/GDT/GDT_Main.c, the segment descriptors and `init_gdt`.
-- - Msr.antt: Kernel/Syscall/Syscall_Init.c, `syscall_init` over the instructions for model-
--   specific registers.
-- - Serial.antt and Serial/: Kernel/Kernel_Main.c, the serial port.
-- - Startup.antt and Startup/: Kernel/Kernel_Main.c, `kernel_main` over all these parts, with
--   the heap and the page tables behind the display driver, and the disk behind the file system
--   and the loader. For its loader the headers of the heap stand apart from the bytes, while
--   the loader itself (Elf.antt) is over a heap whose calls act on the memory.
-- - Allocator.antt: the interface through which the other parts see `kmalloc` and `kfree`.
-- - Base.antt and Base/: tests, list and integer helpers that the parts share.
--
-- Addresses and machine integers are natural numbers; 0 is NULL. Where the code computes in 32
-- or 64 bits and can wrap round, the remainder is written out. Spin locks and masked interrupts
-- make each operation of the heap, the bitmap and the scheduler a single step, so an operation
-- is a function from state to state. Messages to the serial port are left out, since no code
-- reads them.
--
-- Loops over a table recurse on the number of rounds. Walks along the heap's list have fuel
-- `walk_fuel`, 2^22 rounds: the heap has 2^24 bytes and each block takes at least 16, so the
-- list has at most 2^20 blocks, and no walk goes round it more than twice. The loop over the
-- firmware's memory map has as many rounds as the map has bytes.
--
-- The loop of `fat32_read_file` takes at least a byte in each round, so it has as many rounds
-- as bytes are left; the search and the writing have the bound `max_clusters` of the code. The
-- loop over the program headers has 2^16 rounds, one for each 16-bit number; that over the
-- chunks of a picture moves by eight bytes at least, so the size of the file is rounds enough;
-- and that of `load_png` reads a byte at least in each round, so 2^20 rounds fill its buffer.
-- The walk over the capabilities has the 64 rounds of `guard`, and the wait for the display the
-- ten million of `VIRTIO_MMIO_TIMEOUT`; those for the disk have ten million as well. The loop
-- of `ExitBootServicesComplete` has no bound of its own; its rounds are a parameter, and on
-- firmware that gives in after some attempts a round more than these is enough.
--
-- Not modelled: the assembly entry points; `pow` and `ldexp`, which compute on floating-point
-- numbers; the listing of the root directory and of the memory on the serial port, which change
-- no state; the exFAT driver, whose files are empty. The wait for the serial port has no bound
-- in the code, nor have `strcmp` and `strtol`: their rounds are a parameter.
pub mod Allocator
pub mod Base
pub mod Boot
pub mod Disk
pub mod Display
pub mod Elf
pub mod Fat32
pub mod Files
pub mod Heap
pub mod Interrupts
pub mod Msr
pub mod Pages
pub mod Paging
pub mod Pci
pub mod Png
pub mod Process
pub mod Segments
pub mod Serial
pub mod Startup
pub mod Strings
pub mod Syscalls
pub mod Userland
pub mod Virtio
