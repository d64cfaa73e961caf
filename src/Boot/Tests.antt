-- ===== src/Boot/Tests.antt =====
-- A firmware whose first attempt to leave the boot services fails, an image with one segment, and the
-- theorems on them.
use implus_os.Base.{
  ℕ, zero, suc, ◌+◌, ◌-◌, ◌/◌, ◌^◌, ◌≤◌, ◌<◌, ◌≡◌, ◌⊎◌, inl, inr, refl, Bool, true, false, ◌&&◌,
  if◌then◌else◌, ltb, leb, ◌==◌, [], arith,
}
use implus_os.Elf.{e_phoff}
use implus_os.Boot.{
  Firmware, BootInfo, Boot, efi_buffer_too_small, boot_info, load_kernel_elf,
  exit_boot_services_complete, efi_main,
}
use implus_os.Boot.Leaves.{Patient, Ends, exit_boot_services_complete-Ends}
use implus_os.Boot.Enters.{Outcome, efi_main-Outcome}
use implus_os.Boot.Kernel.{Granting, Fits}
use implus_os.Boot.Kernel.Image.{IsImage, header_of}
use implus_os.Boot.Kernel.Loads.{Loads, load_kernel_elf-Loads}

-- The state says whether the next attempt fails.
abbrev firmware : Firmware Bool
firmware = record {
  initialize_lib = λ s image_handle. s;
  device_of_image = λ s image_handle. (0, (1, s));
  file_system_of = λ s device. (0, (2, s));
  open_volume = λ s fs. (0, (3, s));
  graphics_mode = λ s. (
    0,
    (
      record {
        frame_buffer_base = 0x80000000;
        frame_buffer_size = 0x300000;
        horizontal_resolution = 1024;
        vertical_resolution = 768;
        pixels_per_scan_line = 1024;
      },
      s,
    ),
  );
  open_kernel = λ s root. (0, (4, s));
  get_info = λ s file info_size info. (0, (0, s));
  read = λ s file size buffer. (0, ([], s));
  allocate_pool = λ s size. (0, (4096, s));
  free_pool = λ s buffer. s;
  allocate_pages_at = λ s pages addr. (if leb 0x100000 addr then 0 else 2 ^ 63 + 9, s);
  get_memory_map = λ s size buffer. (
    if size == 0 then efi_buffer_too_small else 0,
    (record { size = 480; key = 7; descriptor_size = 48; descriptor_version = 1 }, s),
  );
  exit_boot_services = λ s image_handle map_key. (if s then 2 ^ 63 + 2 else 0, false);
  sizeof_file_info = 80;
  size_to_pages = λ n. n / 4096 + 1;
  copy_mem = λ dst src size mem j.
      if leb dst j && ltb j (dst + size) then mem (src + (j - dst)) else mem j;
  set_mem = λ dst size value mem j. if leb dst j && ltb j (dst + size) then value else mem j;
}

patient : Patient firmware
patient = record {
  patience = λ s. if s then 1 else 0;
  refused = λ s. refl;
  mapped = λ s n p. omega arith;
  pooled = λ s n. omega arith;
  freed = λ s p. omega arith;
  left = λ s n p h ok. leaves s;
}
  where
    leaves : (s : Bool) → ((if s then 2 ^ 63 + 2 else 0) ≡ 0) ⊎ (0 < (if s then 1 else 0))
    leaves true = inr (omega arith)
    leaves false = inl refl

short : (s : Bool) → (if s then 1 else 0) < 2
short true = omega arith
short false = omega arith

-- The image at 4096, of 128 bytes, with a segment of 8 bytes for 1 MB, where it takes 16.
abbrev image_byte : ℕ → ℕ
image_byte j =
    if j == 0
    then 0x7f
    else if j == 1
    then 69
    else if j == 2
    then 76
    else if j == 3
    then 70
    else if j == 32
    then 64
    else if j == 56
    then 1
    else if j == 64
    then 1
    else if j == 72
    then 120
    else if j == 90
    then 16
    else if j == 96
    then 8
    else if j == 104
    then 16
    else 0

abbrev boot : Boot Bool
boot = record { firmware = true; mem = λ j. image_byte (j - 4096) }

granting : Granting firmware 4096 128
granting = record {
  copies = λ dst src n mem apart i lt. copies_lem dst src n mem i lt;
  copied_outside = λ dst src n mem j out. ground (arith, out);
  set = λ dst n v mem i lt. ground (arith, lt);
  set_outside = λ dst n v mem j out. ground (arith, out);
  covers = λ n. omega arith;
  disjoint = λ s pages addr ok. ground (arith, ok);
}
  where
    copies_lem :
        (dst src n : ℕ) (mem : ℕ → ℕ) (i : ℕ)
        → i < n
        → firmware.copy_mem dst src n mem (dst + i) ≡ mem (src + i)
    copies_lem dst src n mem i lt =
        let back : dst + i - dst ≡ i = omega arith in ground (arith, lt, back)

image : IsImage boot.mem 4096 128 (4096 + e_phoff boot.mem 4096)
image = record {
  head = omega arith;
  count = omega arith;
  table = omega arith;
  table_end = omega arith;
  fits = λ k lt load. fits_one k lt;
  inside = λ k lt load. inside_one k lt;
  apart = λ k l lt hi. absurd (omega (arith, lt, hi));
}
  where
    fits_one : (k : ℕ) → k < 1 → Fits (header_of boot.mem 4160 k)
    fits_one zero lt = record { no_longer = omega arith; ends = omega arith }
    fits_one (suc k) lt = absurd (omega (arith, lt))

    inside_one :
        (k : ℕ)
        → k < 1
        → (header_of boot.mem 4160 k).p_offset + (header_of boot.mem 4160 k).p_filesz ≤ 128
    inside_one zero lt = omega arith
    inside_one (suc k) lt = absurd (omega (arith, lt))

load_kernel_elf-Loads_example : Loads firmware 4096 boot (load_kernel_elf firmware 4096 boot)
load_kernel_elf-Loads_example = load_kernel_elf-Loads firmware 4096 128 boot image granting

abbrev info : BootInfo
info = boot_info (firmware.graphics_mode true).1.0

exit_boot_services_complete-Ends_example :
    Ends firmware 5 info (exit_boot_services_complete firmware 2 5 info true)
unfolding patient
exit_boot_services_complete-Ends_example =
    exit_boot_services_complete-Ends firmware patient 2 5 info true (omega arith)

efi_main-Outcome_example : Outcome firmware 5 (efi_main firmware 2 5 boot)
unfolding patient
efi_main-Outcome_example = efi_main-Outcome firmware patient 2 5 boot (λ s. short s)
