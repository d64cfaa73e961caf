-- ===== src/Boot/Enters.antt =====
-- How `efi_main` ends.
use implus_os.Base.{
  ℕ, ◌<◌, ◌≡◌, ◌⊎◌, inl, inr, refl, sym, ap, ◌∙◌, ◌^◌, ◌+◌, not, Bool, true, false, Option, none,
  some, if-cases,
}
use implus_os.Elf.{e_entry, e_phoff, has_magic}
use implus_os.Boot.{
  Firmware, Mode, BootInfo, Boot, End, returned, hangs, enters, efi_success, efi_error,
  load_file_to_memory, load_kernel_elf, enter_kernel, boot_info, start_kernel, efi_main,
  place_segments,
}
use implus_os.Boot.Leaves.{Patient, Left, Ends, exit_boot_services_complete-Ends}

module _ {S : Type 0} (fw : Firmware S) where
  -- The kernel is entered at the entry point of the image that was loaded, behind the boot services, with
  -- the mode of the display that the firmware gave.
  pub record Entered (image_handle entry : ℕ) (info : BootInfo) (b : Boot S) : Type 0 where
    pub left : Left fw image_handle info b.firmware
    pub image : ℕ
    pub loaded : Boot S
    pub is_elf : has_magic loaded.mem image ≡ true
    pub placed : b.mem ≡ (load_kernel_elf fw image loaded).1.1.mem
    pub entry_point : e_entry b.mem image ≡ entry
    pub display : S
    pub found : efi_error (fw.graphics_mode display).0 ≡ false
    pub mode : info.mode ≡ (boot_info (fw.graphics_mode display).1.0).mode

  pub record Outcome (image_handle : ℕ) (r : End × Boot S) : Type 0 where
    pub how :
        ((status : ℕ) × (r.0 ≡ returned status) × (efi_error status ≡ true))
        ⊎ ((r.0 ≡ hangs)
            ⊎ ((run : ℕ × BootInfo) × (r.0 ≡ enters run.0 run.1)
                × Entered image_handle run.0 run.1 r.1))

  -- An image that was loaded has the entry point of its header.
  record Loaded (image : ℕ) (b : Boot S) (r : ℕ × (ℕ × Boot S)) : Type 0 where
    is_elf : efi_error r.0 ≡ false → has_magic b.mem image ≡ true
    entry_point : efi_error r.0 ≡ false → e_entry r.1.1.mem image ≡ r.1.0

module _ {S : Type 0} (fw : Firmware S) where
  load_kernel_elf-Loaded : (image : ℕ) (b : Boot S) → Loaded fw image b (load_kernel_elf fw image b)
  unfolding load_kernel_elf
  load_kernel_elf-Loaded image b =
      let placed = place_segments fw (2 ^ 16) 0 (image + e_phoff b.mem image) image b in
      if-cases (Loaded fw image b) (not (has_magic b.mem image)) _ _
        (λ e. record { is_elf = λ f. absurd (cc f); entry_point = λ f. absurd (cc f) })
        (λ e.
          if-cases (Loaded fw image b) (efi_error placed.0) _
            (efi_success, (e_entry placed.1.mem image, placed.1))
            (λ f. record {
              is_elf = λ g. absurd (cc (f, g));
              entry_point = λ g. absurd (cc (f, g));
            })
            (λ f. record {
              is_elf = λ g. is_not (has_magic b.mem image) e;
              entry_point = λ g. refl;
            }))
    where
      is_not : (t : Bool) → not t ≡ false → t ≡ true
      is_not true e = refl
      is_not false e = cc e

  module _ (image_handle : ℕ) where
    failed :
        {status : ℕ} {b : Boot S}
        → efi_error status ≡ true
        → Outcome fw image_handle (returned status, b)
    failed {status} e = record { how = inl (status, refl, e) }

    enter_kernel-Outcome :
        (entry : ℕ) (mem : ℕ → ℕ) (start : BootInfo) (r : Option ℕ × (BootInfo × S))
        → Ends fw image_handle start r
        → ((info : BootInfo)
            → info.mode ≡ start.mode
            → Left fw image_handle info r.1.1
            → Entered fw image_handle entry info (record { firmware = r.1.1; mem = mem }))
        → Outcome fw image_handle (enter_kernel fw entry mem r)
    unfolding enter_kernel
    enter_kernel-Outcome entry mem start (none, (info, s)) ends k = elim ends.how [
      | inl (e, left) ↦ absurd (cc e)
      | inr (status, e, bad) ↦ absurd (cc e)
    ]
    enter_kernel-Outcome entry mem start (some status, (info, s)) ends k = elim ends.how [
      | inl (e, left) ↦
          let same : status ≡ efi_success = cc e in
          let good : efi_error status ≡ false = rw same refl in
          rw good (record { how = inr (inr ((entry, info), refl, k info ends.mode left)) })
      | inr (status', e, bad) ↦
          let same : status ≡ status' = cc e in
          let worse : efi_error status ≡ true = rw same bad in
          rw worse (record { how = inr (inl refl) })
    ]

    start_kernel-Outcome :
        (rounds file : ℕ) (mode : Mode) (display : S) (b : Boot S) (patient : Patient fw)
        → ((s : S) → patient.patience s < rounds)
        → efi_error (fw.graphics_mode display).0 ≡ false
        → (fw.graphics_mode display).1.0 ≡ mode
        → Outcome fw image_handle (start_kernel fw rounds image_handle file (boot_info mode) b)
    unfolding start_kernel
    start_kernel-Outcome rounds file mode display b patient enough found same =
        let image = load_file_to_memory fw file b in
        let kernel = load_kernel_elf fw image.1.0.0 image.1.1 in
        let elf = load_kernel_elf-Loaded image.1.0.0 image.1.1 in
        if-cases (Outcome fw image_handle) (efi_error image.0) _ _ (λ e. failed e)
          (λ e.
            if-cases (Outcome fw image_handle) (efi_error kernel.0) _ _ (λ e. failed e)
              (λ f.
                enter_kernel-Outcome kernel.1.0 kernel.1.1.mem (boot_info mode) _
                  (exit_boot_services_complete-Ends fw patient rounds image_handle (boot_info mode)
                    kernel.1.1.firmware (enough _))
                  (λ info m left. record {
                    left = left;
                    image = image.1.0.0;
                    loaded = image.1.1;
                    is_elf = elf.is_elf f;
                    placed = refl;
                    entry_point = elf.entry_point f;
                    display = display;
                    found = found;
                    mode = m ∙ ap (λ g. (boot_info g).mode) (sym same);
                  })))

-- `efi_main` never stays in the loop that leaves the boot services. It returns an error, or stops because
-- the services could not be left, or enters the kernel: then the services were left with the key of the map
-- that the kernel is told of, the memory is as `LoadKernelELF` made it from an image with the magic number,
-- the entry point is that of the image's header, and the mode of the display is what the firmware gave. This
-- is on firmware that is as patient as the standard says, for rounds beyond its patience.
pub efi_main-Outcome :
    {S : Type 0} (fw : Firmware S) (patient : Patient fw) (rounds image_handle : ℕ) (b : Boot S)
    → ((s : S) → patient.patience s < rounds)
    → Outcome fw image_handle (efi_main fw rounds image_handle b)
unfolding efi_main
efi_main-Outcome fw patient rounds image_handle b enough =
    let device = fw.device_of_image (fw.initialize_lib b.firmware image_handle) image_handle in
    let fs = fw.file_system_of device.1.1 device.1.0 in
    let root = fw.open_volume fs.1.1 fs.1.0 in
    let gop = fw.graphics_mode root.1.1 in
    let file = fw.open_kernel gop.1.1 root.1.0 in
    if-cases (Outcome fw image_handle) (efi_error device.0) _ _ (λ e. failed fw image_handle e)
      (λ e.
        if-cases (Outcome fw image_handle) (efi_error fs.0) _ _ (λ e. failed fw image_handle e)
          (λ e.
            if-cases (Outcome fw image_handle) (efi_error root.0) _ _
              (λ e. failed fw image_handle e)
              (λ e.
                if-cases (Outcome fw image_handle) (efi_error gop.0) _ _
                  (λ e. failed fw image_handle e)
                  (λ found.
                    if-cases (Outcome fw image_handle) (efi_error file.0) _ _
                      (λ e. failed fw image_handle e)
                      (λ e.
                        start_kernel-Outcome fw image_handle rounds file.1.0 gop.1.0 root.1.1 _
                          patient enough found refl)))))
