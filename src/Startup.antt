-- ===== src/Startup.antt =====
-- Kernel/Kernel_Main.c: `kernel_main`, the order in which the kernel sets up its parts, over the parts
-- themselves, and `entry_user_mode`. What is printed is left out.
pub mod Ready
use implus_os.Base.{
  ℕ, ◌+◌, ◌*◌, ◌/◌, ◌%◌, ◌^◌, Bool, List, [], ◌∷◌, Option, none, some, ℤ, pos, negsuc, true, false,
}
use implus_os.Allocator.{Allocator}
use implus_os.Pages.{Pages, MemoryMap, init_physical_memory, reset_hint}
use implus_os.Paging.{Paging, init_paging, map_mmio_virt}
use implus_os.Heap.{Heap, kmalloc, kfree, memory_init}
use implus_os.Interrupts.{Interrupts, init_idt}
use implus_os.Segments.{Gdt, init_gdt}
use implus_os.Msr.{Msrs, CpuState, syscall_init}
use implus_os.Pci.{Ports}
use implus_os.Virtio.{Bars}
use implus_os.Virtio.Bus.{Platform}
use implus_os.Virtio.Init.{Globals, virtio_gpu_init}
use implus_os.Process.{Manager, process_manager_init, process_register_boot_process}
use implus_os.Files.{KernelFile, FileState, syscall_file_init}
use implus_os.Disk.{Device}
use implus_os.Fat32.{Bpb, fat32_init}
use implus_os.Fat32.Find.{fat_system}
use implus_os.Elf.{Machine, load_userland_elf}

-- What the display driver reaches: the heap, the page tables, and the memory and the registers of the
-- devices.
pub record Hardware (B : Type 0) : Type 0 where
  pub heap : Heap
  pub paging : Paging
  pub board : B

-- The ports, and loads and stores, of the board.
pub record Board (B : Type 0) : Type 0 where
  pub ports : Ports B
  pub load : B → (bytes addr : ℕ) → ℕ × B
  pub store : B → (bytes addr value : ℕ) → B

-- The addresses that the linker and the compiler choose.
pub record Addresses : Type 0 where
  pub pdpt : ℕ
  pub pd : ℕ → ℕ
  pub kernel_end : ℕ
  pub isr_default : ℕ
  pub isr_page_fault : ℕ
  pub idt : ℕ
  pub tss : ℕ
  pub gdt_stack_end : ℕ
  pub gdt : ℕ
  pub cmd : ℕ
  pub resp : ℕ
  pub syscall_stack_end : ℕ
  pub syscall_entry : ℕ
  pub cpu_state : ℕ
  pub user_stack : ℕ

-- The static variables of all parts, the disk and the registers of the processor.
pub record World (B D M : Type 0) : Type 0 where
  pub hardware : Hardware B
  pub pages : Pages
  pub interrupts : Interrupts
  pub segments : Gdt
  pub globals : Globals
  pub cpu : CpuState
  pub msrs : M
  pub manager : Manager
  pub files : List KernelFile
  pub disk : D
  pub bpb : Bpb
  pub mem : ℕ → ℕ

-- The machine stops, or goes to user mode with the words that `iretq` takes: the instruction pointer, the
-- code segment, the flags, the stack pointer and the stack segment.
pub data Start : Type 0 where
  halts : Start
  enters : (rip cs rflags rsp ss : ℕ) → Start

abbrev pub user_stack_size : ℕ
user_stack_size = 8192

abbrev pub entry_user_mode : (user_stack user_entry : ℕ) → Start
entry_user_mode user_stack user_entry =
    enters user_entry (0x28 + 3) 0x202 ((user_stack + user_stack_size) / 16 * 16) (0x20 + 3)

-- The heap and the ports as the drivers see them.
abbrev pub hardware_heap : {B : Type 0} → Allocator (Hardware B)
hardware_heap = record {
  kmalloc = λ h size. let r = kmalloc h.heap size in (r.0, record h { heap = r.1 });
  kfree = λ h ptr. record h { heap = kfree h.heap ptr };
}

-- The heap as the loader sees it. Here the headers of the blocks stand apart from the bytes, as they do in
-- Heap.antt, so no segment of the program runs over them.
abbrev pub loader_heap : {B : Type 0} → Allocator (Machine (Hardware B))
loader_heap = record {
  kmalloc =
      λ st size. let r = hardware_heap.kmalloc st.heap size in (r.0, record st { heap = r.1 });
  kfree = λ st ptr. record st { heap = hardware_heap.kfree st.heap ptr };
}

module _ {B D M : Type 0} (board : Board B) (device : Device D) (msrs : Msrs M)
    (at : Addresses) where
  abbrev pub platform : Platform (Hardware B)
  platform = record {
    ports = record {
      outl = λ h port value. record h { board = board.ports.outl h.board port value };
      inl = λ h port. let r = board.ports.inl h.board port in (r.0, record h { board = r.1 });
    };
    load = λ h bytes addr. let r = board.load h.board bytes addr in (r.0, record h { board = r.1 });
    store = λ h bytes addr value. record h { board = board.store h.board bytes addr value };
    heap = hardware_heap;
    map_mmio_virt = λ h phys.
        let r = map_mmio_virt at.pdpt at.pd h.paging phys in (r.0, record h { paging = r.1 });
  }

  -- The memory, the page tables, the heap, the interrupts and the segments.
  unfoldable pub set_up_memory :
      MemoryMap → (frame_buffer_base frame_buffer_size : ℕ) → World B D M → World B D M
  set_up_memory map frame_buffer_base frame_buffer_size w =
      let (pages, heap) = init_physical_memory map at.kernel_end w.hardware.heap w.pages in
      record w {
        pages = reset_hint pages;
        hardware = record w.hardware {
          paging = init_paging at.pdpt at.pd frame_buffer_base frame_buffer_size w.hardware.paging;
          heap = memory_init at.kernel_end heap;
        };
        interrupts = init_idt at.isr_default at.isr_page_fault at.idt w.interrupts;
        segments = init_gdt at.tss at.gdt_stack_end at.gdt w.segments;
      }

  -- The display, whose failure is only reported, system calls, processes, the file system, and the files.
  unfoldable pub set_up_services : Bars → World B D M → World B D M
  set_up_services stack w =
      let display = virtio_gpu_init platform at.cmd at.resp stack w.globals w.hardware in
      let calls = syscall_init msrs at.syscall_stack_end at.syscall_entry at.cpu_state w.msrs in
      let fat = fat32_init device w.bpb w.disk in
      let table : FileState D (Hardware B) =
        syscall_file_init
          (record { files = w.files; fs = w.disk; heap = display.1.1; mem = w.mem }) in
      record w {
        hardware = display.1.1;
        globals = display.1.0;
        cpu = calls.0;
        msrs = calls.1;
        manager = process_manager_init w.manager;
        bpb = fat.1;
        files = table.files;
      }

  -- The registration of the first process, and the way to it.
  unfoldable pub register_first : (user_entry : ℕ) → World B D M → ℤ × Manager → Start × World B D M
  register_first user_entry w (negsuc n, m) = (halts, record w { manager = m })
  register_first user_entry w (pos pid, m) =
      (entry_user_mode at.user_stack user_entry, record w { manager = m })

  unfoldable pub start_user : World B D M → Option ℕ × Machine (Hardware B) → Start × World B D M
  start_user w (none, st) = (halts, record w { hardware = st.heap; mem = st.mem })
  start_user w (some user_entry, st) =
      register_first user_entry (record w { hardware = st.heap; mem = st.mem })
        (process_register_boot_process w.manager user_entry (at.user_stack + user_stack_size))

  -- Everything up to the files, and the loading of the user program behind it.
  unfoldable pub set_up :
      MemoryMap → (frame_buffer_base frame_buffer_size : ℕ) → Bars → World B D M → World B D M
  set_up map frame_buffer_base frame_buffer_size stack w =
      set_up_services stack (set_up_memory map frame_buffer_base frame_buffer_size w)

  unfoldable pub load_program : World B D M → Option ℕ × Machine (Hardware B)
  load_program w =
      load_userland_elf (fat_system device w.bpb) loader_heap w.disk
        (record { heap = w.hardware; mem = w.mem })

  unfoldable pub kernel_main :
      MemoryMap
      → (frame_buffer_base frame_buffer_size : ℕ) → Bars
      → World B D M
      → Start × World B D M
  kernel_main map frame_buffer_base frame_buffer_size stack w =
      let ready = set_up map frame_buffer_base frame_buffer_size stack w in
      start_user ready (load_program ready)
