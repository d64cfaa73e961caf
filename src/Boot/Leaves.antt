-- ===== src/Boot/Leaves.antt =====
-- How `ExitBootServicesComplete` ends.
use implus_os.Base.{
  ℕ, zero, suc, ◌+◌, ◌*◌, ◌%◌, ◌^◌, ◌≤◌, ◌<◌, ◌≡◌, ◌⊎◌, inl, inr, refl, true, false, not, ◌==◌,
  Option, some, arith, if-cases, ==→eq,
}
use implus_os.Boot.{
  Firmware, MapReply, BootInfo, efi_success, efi_buffer_too_small, efi_error,
  exit_boot_services_complete,
}

-- Firmware as the standard describes it: a map into no room at all is refused, and an attempt to leave
-- with the key of the map that was asked for last succeeds at the latest when `patience` is used up.
pub record Patient {S : Type 0} (fw : Firmware S) : Type 0 where
  pub patience : S → ℕ
  pub refused : (s : S) → (fw.get_memory_map s 0 0).0 ≡ efi_buffer_too_small
  pub mapped : (s : S) (n p : ℕ) → patience (fw.get_memory_map s n p).1.1 ≤ patience s
  pub pooled : (s : S) (n : ℕ) → patience (fw.allocate_pool s n).1.1 ≤ patience s
  pub freed : (s : S) (p : ℕ) → patience (fw.free_pool s p) ≤ patience s
  pub left :
      (s : S) (n p h : ℕ)
      → let m = fw.get_memory_map s n p in
        efi_error m.0 ≡ false
        → let e = fw.exit_boot_services m.1.1 h m.1.0.key in
          (e.0 ≡ efi_success) ⊎ (patience e.1 < patience s)

module _ {S : Type 0} (fw : Firmware S) where
  -- The boot services were left with the key of the map that was asked for just before, and the kernel is
  -- told where that map is, how long it is, and how long its entries are.
  pub record Left (image_handle : ℕ) (info : BootInfo) (s : S) : Type 0 where
    pub before : S
    pub size : ℕ
    pub map : ℕ × (MapReply × S)
    pub asked : fw.get_memory_map before size info.memory_map ≡ map
    pub succeeded : efi_error map.0 ≡ false
    pub exits : fw.exit_boot_services map.1.1 image_handle map.1.0.key ≡ (efi_success, s)
    pub map_size : info.memory_map_size ≡ map.1.0.size
    pub descriptor_size : info.memory_map_descriptor_size ≡ map.1.0.descriptor_size

  -- Either that, or the status is an error. The mode of the display stays as it was given.
  pub record Ends (image_handle : ℕ) (start : BootInfo) (r : Option ℕ × (BootInfo × S))
      : Type 0 where
    pub mode : r.1.0.mode ≡ start.mode
    pub how :
        ((r.0 ≡ some efi_success) × Left image_handle r.1.0 r.1.1)
        ⊎ ((status : ℕ) × (r.0 ≡ some status) × (efi_error status ≡ true))

module _ {S : Type 0} (fw : Firmware S) (patient : Patient fw) where
  pair_eq : (r : ℕ × S) → (r.0 == efi_success) ≡ true → r ≡ (efi_success, r.1)
  pair_eq (status, s) e = let same : status ≡ 0 = ==→eq status 0 e in rw same refl

  exit_boot-Ends :
      (rounds image_handle : ℕ) (start info : BootInfo) (s : S)
      → info.mode ≡ start.mode
      → patient.patience s < rounds
      → Ends fw image_handle start (exit_boot_services_complete fw rounds image_handle info s)
  unfolding exit_boot_services_complete
  exit_boot-Ends zero image_handle start info s m h = absurd (omega (arith, h))
  exit_boot-Ends (suc rounds) image_handle start info s m h =
      let asked = fw.get_memory_map s 0 0 in
      let size = (asked.1.0.size + asked.1.0.descriptor_size * 8) % 2 ^ 64 in
      let pool = fw.allocate_pool asked.1.1 size in
      let map = fw.get_memory_map pool.1.1 size pool.1.0 in
      let exit = fw.exit_boot_services map.1.1 image_handle map.1.0.key in
      if-cases (Ends fw image_handle start) (not (asked.0 == efi_buffer_too_small)) _ _
        (λ e. absurd (not_both asked.0 (patient.refused s) e))
        (λ e.
          if-cases (Ends fw image_handle start) (efi_error pool.0) _ _
            (λ e. record { mode = m; how = inr (pool.0, refl, e) })
            (λ e.
              if-cases (Ends fw image_handle start) (efi_error map.0) _ _
                (λ e. record { mode = m; how = inr (map.0, refl, e) })
                (λ ok.
                  if-cases (Ends fw image_handle start) (exit.0 == efi_success) _ _
                    (λ e. record {
                      mode = m;
                      how = inl (
                        refl,
                        record {
                          before = pool.1.1;
                          size = size;
                          map = map;
                          asked = refl;
                          succeeded = ok;
                          exits = pair_eq exit e;
                          map_size = refl;
                          descriptor_size = refl;
                        },
                      );
                    })
                    (λ e. exit_boot-Ends rounds image_handle start _ _ m (
                      fewer pool.1.1 size pool.1.0 ok e
                        (step (patient.mapped s 0 0) (patient.pooled asked.1.1 size) h))))))
    where
      not_both : (n : ℕ) → n ≡ efi_buffer_too_small → not (n == efi_buffer_too_small) ≡ true → ⊥
      not_both n e f = ground (arith, e, f)

      step : {a b c : ℕ} → b ≤ a → c ≤ b → a < suc rounds → c < suc rounds
      step x y z = omega (arith, x, y, z)

      fewer :
          (t : S) (n p : ℕ)
          → efi_error (fw.get_memory_map t n p).0 ≡ false
          → let m = fw.get_memory_map t n p in
            let e = fw.exit_boot_services m.1.1 image_handle m.1.0.key in
            (e.0 == efi_success) ≡ false
            → patient.patience t < suc rounds
            → patient.patience (fw.free_pool e.1 p) < rounds
      fewer t n p ok off small =
          let m = fw.get_memory_map t n p in
          let e = fw.exit_boot_services m.1.1 image_handle m.1.0.key in
          elim (patient.left t n p image_handle ok) [
            | inl same ↦ absurd (ground (arith, same, off))
            | inr less ↦ omega (arith, less, small, patient.freed e.1 p)
          ]

-- `ExitBootServicesComplete` ends within as many rounds as the firmware's patience asks for, and either
-- with an error, or with the boot services left by the key of the map that was asked for just before and
-- with that map in what the kernel is told, on firmware that is as patient as the standard says.
pub exit_boot_services_complete-Ends :
    {S : Type 0} (fw : Firmware S) (patient : Patient fw) (rounds image_handle : ℕ)
    (info : BootInfo) (s : S)
    → patient.patience s < rounds
    → Ends fw image_handle info (exit_boot_services_complete fw rounds image_handle info s)
exit_boot_services_complete-Ends fw patient rounds image_handle info s h =
    exit_boot-Ends fw patient rounds image_handle info info s refl h
