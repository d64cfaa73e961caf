-- ===== src/Boot.antt =====
-- BootLoader/Loader.c: the boot loader. The firmware is a parameter: its calls by the protocol that
-- they go to, each with a status. What the loader prints is left out.
pub mod Leaves
pub mod Enters
pub mod Kernel
mod Tests
use implus_os.Base.{
  ℕ, zero, suc, ◌+◌, ◌-◌, ◌*◌, ◌%◌, ◌^◌, Bool, true, false, not, if◌then◌else◌, ltb, leb, ◌==◌,
  List, length, Option, none, some,
}
use implus_os.Elf.{word_at, long_at, e_entry, e_phoff, e_phnum, pt_load, has_magic}
use implus_os.Files.{put_bytes}

-- EFI_STATUS: the highest bit marks an error.
abbrev pub efi_success : ℕ
efi_success = 0

abbrev pub efi_load_error : ℕ
efi_load_error = 2 ^ 63 + 1

abbrev pub efi_buffer_too_small : ℕ
efi_buffer_too_small = 2 ^ 63 + 5

abbrev pub efi_error : ℕ → Bool
efi_error status = leb (2 ^ 63) status

-- What `GetMemoryMap` gives through its pointers.
pub record MapReply : Type 0 where
  pub size : ℕ
  pub key : ℕ
  pub descriptor_size : ℕ
  pub descriptor_version : ℕ

-- The frame buffer as the graphics protocol describes it.
pub record Mode : Type 0 where
  pub frame_buffer_base : ℕ
  pub frame_buffer_size : ℕ
  pub horizontal_resolution : ℕ
  pub vertical_resolution : ℕ
  pub pixels_per_scan_line : ℕ

-- The calls of the firmware over a state of its own, and what its headers and its library define. A read
-- of a file gives its bytes.
pub record Firmware (S : Type 0) : Type 0 where
  pub initialize_lib : S → (image_handle : ℕ) → S
  pub device_of_image : S → (image_handle : ℕ) → ℕ × (ℕ × S)
  pub file_system_of : S → (device : ℕ) → ℕ × (ℕ × S)
  pub open_volume : S → (fs : ℕ) → ℕ × (ℕ × S)
  pub graphics_mode : S → ℕ × (Mode × S)
  pub open_kernel : S → (root : ℕ) → ℕ × (ℕ × S)
  pub get_info : S → (file info_size info : ℕ) → ℕ × (ℕ × S)
  pub read : S → (file size buffer : ℕ) → ℕ × (List ℕ × S)
  pub allocate_pool : S → (size : ℕ) → ℕ × (ℕ × S)
  pub free_pool : S → (buffer : ℕ) → S
  pub allocate_pages_at : S → (pages addr : ℕ) → ℕ × S
  pub get_memory_map : S → (size buffer : ℕ) → ℕ × (MapReply × S)
  pub exit_boot_services : S → (image_handle map_key : ℕ) → ℕ × S
  pub sizeof_file_info : ℕ
  pub size_to_pages : ℕ → ℕ
  pub copy_mem : (dst src size : ℕ) → (ℕ → ℕ) → ℕ → ℕ
  pub set_mem : (dst size value : ℕ) → (ℕ → ℕ) → ℕ → ℕ

-- `BOOT_INFO`; the loader leaves the list of loaded files empty.
pub record BootInfo : Type 0 where
  pub memory_map : ℕ
  pub memory_map_size : ℕ
  pub memory_map_descriptor_size : ℕ
  pub memory_map_descriptor_version : ℕ
  pub mode : Mode
  pub loaded_file_count : ℕ

-- The firmware and the memory.
pub record Boot (S : Type 0) : Type 0 where
  pub firmware : S
  pub mem : ℕ → ℕ

-- `Elf64_Phdr`, the fields that the loader reads.
pub record LoadHeader : Type 0 where
  pub p_type : ℕ
  pub p_offset : ℕ
  pub p_paddr : ℕ
  pub p_filesz : ℕ
  pub p_memsz : ℕ

abbrev pub load_header_at : (ℕ → ℕ) → ℕ → LoadHeader
load_header_at mem ph = record {
  p_type = word_at mem ph;
  p_offset = long_at mem (ph + 8);
  p_paddr = long_at mem (ph + 24);
  p_filesz = long_at mem (ph + 32);
  p_memsz = long_at mem (ph + 40);
}

-- How the loader ends: with a status, in a loop for ever, or in the kernel. `out_of_rounds` stands for
-- a loop that has not ended in the rounds it was given.
pub data End : Type 0 where
  returned : (status : ℕ) → End
  hangs : End
  enters : (entry : ℕ) → (info : BootInfo) → End
  out_of_rounds : End

abbrev pub with_map : MapReply → BootInfo → BootInfo
with_map m info = record info {
  memory_map_descriptor_size = m.descriptor_size;
  memory_map_descriptor_version = m.descriptor_version;
}

abbrev pub boot_info : Mode → BootInfo
boot_info mode = record {
  memory_map = 0;
  memory_map_size = 0;
  memory_map_descriptor_size = 0;
  memory_map_descriptor_version = 0;
  mode = record mode { frame_buffer_size = mode.frame_buffer_size % 2 ^ 32 };
  loaded_file_count = 0;
}

module _ {S : Type 0} (fw : Firmware S) where
  -- `LoadFileToMemory`: the status, the buffer and the number of bytes.
  unfoldable pub load_file_to_memory : (file : ℕ) → Boot S → ℕ × ((ℕ × ℕ) × Boot S)
  load_file_to_memory file b =
      let info = fw.allocate_pool b.firmware (fw.sizeof_file_info + 256) in
      let size = fw.get_info info.1.1 file (fw.sizeof_file_info + 256) info.1.0 in
      let buffer = fw.allocate_pool size.1.1 size.1.0 in
      let bytes = fw.read buffer.1.1 file size.1.0 buffer.1.0 in
      if efi_error info.0
      then (info.0, ((0, 0), record b { firmware = info.1.1 }))
      else if efi_error size.0
      then (size.0, ((0, 0), record b { firmware = size.1.1 }))
      else if efi_error buffer.0
      then (buffer.0, ((0, size.1.0), record b { firmware = buffer.1.1 }))
      else (
        bytes.0,
        (
          (buffer.1.0, length bytes.1.0),
          record { firmware = bytes.1.1; mem = put_bytes bytes.1.0 buffer.1.0 b.mem },
        ),
      )

  -- The bytes of a segment and the zeros behind it. The header is read again after the copy.
  unfoldable pub place_segment : (image ph : ℕ) → (ℕ → ℕ) → ℕ → ℕ
  place_segment image ph mem =
      let s = load_header_at mem ph in
      let copied = fw.copy_mem s.p_paddr (image + s.p_offset) s.p_filesz mem in
      let t = load_header_at copied ph in
      fw.set_mem ((t.p_paddr + t.p_filesz) % 2 ^ 64) ((t.p_memsz + 2 ^ 64 - t.p_filesz) % 2 ^ 64) 0
        copied

  -- The loop over the headers from number `i` on, of which there are less than 2^16.
  unfoldable pub place_segments : (rounds i phdrs image : ℕ) → Boot S → ℕ × Boot S
  place_segments zero i phdrs image b = (efi_success, b)
  place_segments (suc rounds) i phdrs image b =
      let s = load_header_at b.mem (phdrs + i * 56) in
      let pages = fw.allocate_pages_at b.firmware (fw.size_to_pages s.p_memsz) s.p_paddr in
      let skipped = place_segments rounds (i + 1) phdrs image b in
      let placed =
        place_segments rounds (i + 1) phdrs image
          (record { firmware = pages.1; mem = place_segment image (phdrs + i * 56) b.mem }) in
      if leb (e_phnum b.mem image) i
      then (efi_success, b)
      else if not (s.p_type == pt_load)
      then skipped
      else if efi_error pages.0
      then (pages.0, record b { firmware = pages.1 })
      else placed

  -- `LoadKernelELF`: the status and the entry point.
  unfoldable pub load_kernel_elf : (image : ℕ) → Boot S → ℕ × (ℕ × Boot S)
  load_kernel_elf image b =
      let placed = place_segments (2 ^ 16) 0 (image + e_phoff b.mem image) image b in
      if not (has_magic b.mem image)
      then (efi_load_error, (0, b))
      else if efi_error placed.0
      then (placed.0, (0, placed.1))
      else (efi_success, (e_entry placed.1.mem image, placed.1))

  -- `ExitBootServicesComplete`, as many rounds of its loop as given: no status means that it goes on.
  unfoldable pub exit_boot_services_complete :
      (rounds image_handle : ℕ) → BootInfo → S → Option ℕ × (BootInfo × S)
  exit_boot_services_complete zero image_handle info s = (none, (info, s))
  exit_boot_services_complete (suc rounds) image_handle info s =
      let asked = fw.get_memory_map s 0 0 in
      let info1 = with_map asked.1.0 info in
      let size = (asked.1.0.size + asked.1.0.descriptor_size * 8) % 2 ^ 64 in
      let pool = fw.allocate_pool asked.1.1 size in
      let info2 = record info1 { memory_map = pool.1.0 } in
      let map = fw.get_memory_map pool.1.1 size pool.1.0 in
      let info3 = with_map map.1.0 info2 in
      let info4 = record info3 { memory_map_size = map.1.0.size } in
      let exit = fw.exit_boot_services map.1.1 image_handle map.1.0.key in
      let again =
        exit_boot_services_complete rounds image_handle info4 (fw.free_pool exit.1 pool.1.0) in
      if not (asked.0 == efi_buffer_too_small)
      then (some asked.0, (info1, asked.1.1))
      else if efi_error pool.0
      then (some pool.0, (info2, pool.1.1))
      else if efi_error map.0
      then (some map.0, (info3, map.1.1))
      else if exit.0 == efi_success
      then (some efi_success, (info4, exit.1))
      else again

  -- The end of `efi_main`.
  unfoldable pub enter_kernel : (entry : ℕ) → (ℕ → ℕ) → Option ℕ × (BootInfo × S) → End × Boot S
  enter_kernel entry mem (none, (info, s)) = (out_of_rounds, record { firmware = s; mem = mem })
  enter_kernel entry mem (some status, (info, s)) =
      if efi_error status
      then (hangs, record { firmware = s; mem = mem })
      else (enters entry info, record { firmware = s; mem = mem })

  -- From the file of the kernel on.
  unfoldable pub start_kernel : (rounds image_handle file : ℕ) → BootInfo → Boot S → End × Boot S
  start_kernel rounds image_handle file info b =
      let image = load_file_to_memory file b in
      let kernel = load_kernel_elf image.1.0.0 image.1.1 in
      let left = exit_boot_services_complete rounds image_handle info kernel.1.1.firmware in
      if efi_error image.0
      then (returned image.0, image.1.1)
      else if efi_error kernel.0
      then (returned kernel.0, kernel.1.1)
      else enter_kernel kernel.1.0 kernel.1.1.mem left

  unfoldable pub efi_main : (rounds image_handle : ℕ) → Boot S → End × Boot S
  efi_main rounds image_handle b =
      let device = fw.device_of_image (fw.initialize_lib b.firmware image_handle) image_handle in
      let fs = fw.file_system_of device.1.1 device.1.0 in
      let root = fw.open_volume fs.1.1 fs.1.0 in
      let gop = fw.graphics_mode root.1.1 in
      let file = fw.open_kernel gop.1.1 root.1.0 in
      if efi_error device.0
      then (returned device.0, record b { firmware = device.1.1 })
      else if efi_error fs.0
      then (returned fs.0, record b { firmware = fs.1.1 })
      else if efi_error root.0
      then (returned root.0, record b { firmware = root.1.1 })
      else if efi_error gop.0
      then (returned gop.0, record b { firmware = gop.1.1 })
      else if efi_error file.0
      then (returned file.0, record b { firmware = file.1.1 })
      else start_kernel rounds image_handle file.1.0 (boot_info gop.1.0)
          (record b { firmware = file.1.1 })
