-- ===== src/Userland/Calls.antt =====
-- The user program's calls through the dispatcher of the kernel: what is packed into the registers, and
-- what comes back.
use mathlib.Core.Path.{subst}
use implus_os.Base.{
  ℕ, ◌+◌, ◌-◌, ◌*◌, ◌/◌, ◌%◌, ◌^◌, ◌<◌, ◌≡◌, refl, sym, ap, ◌∙◌, inl, inr, false, get_or, ℤ, pos,
  negsuc, arith, update, update_self,
}
use implus_os.Allocator.{Allocator}
use implus_os.Display.{virtio_gpu_fill_rect}
use implus_os.Files.{FileSystem, FileState, syscall_file_read}
use implus_os.Files.Access.{ReadsWhole, ReadOut, syscall_file_read-ReadOut}
use implus_os.Files.Table.{IsTable}
use implus_os.Process.{Manager, Resume, resume, halted, process_schedule_on_syscall}
use implus_os.Process.Invariant.{IsRunning}
use implus_os.Process.Operations.{schedule-IsRunning, schedule-qword}
use implus_os.Syscalls.{
  Kernel, finish, resumed, to_int32, to_uint64, schedule, set_syscall_result, rewritten,
  with_result, syscall_dispatch,
}
use implus_os.Userland.{Syscall, to_int64, draw_fill_rect, file_read}

-- An `int32_t`.
abbrev pub IsInt32 : ℤ → Type 0
IsInt32 (pos n) = n < 2 ^ 31
IsInt32 (negsuc n) = n < 2 ^ 31

int32_back : (z : ℤ) → IsInt32 z → to_int32 (to_uint64 z) ≡ z
int32_back (pos n) h = ground (arith, h)
int32_back (negsuc n) h =
    let low : (2 ^ 64 - 1 - n) % 2 ^ 32 ≡ 2 ^ 32 - 1 - n = omega (arith, h) in
    let back : 2 ^ 32 - 1 - (2 ^ 32 - 1 - n) ≡ n = omega (arith, h) in
    ground (arith, h, low, ap negsuc back)

int64_back : (n : ℕ) → n < 2 ^ 63 → to_int64 n ≡ pos n
int64_back n h = ground (arith, h)

module _ {S H : Type 0} (overwrite : (before : ℕ → ℕ) → Kernel S H → Kernel S H)
    (system : FileSystem S) (alloc : Allocator H) where
  -- RAX of the frame that the kernel goes on with.
  abbrev pub rax : Resume × Kernel S H → ℕ
  rax (resume rsp user_rsp, k) = k.manager.qword rsp
  rax (halted, k) = 0

  -- The instruction `syscall` on the kernel: the frame is built at `saved_rsp`, and a register that the
  -- call does not set has the value of `regs`.
  abbrev pub by_dispatch : ℕ → (ℕ → ℕ) → Syscall (Kernel S H)
  by_dispatch saved_rsp regs k num args =
      let out =
        syscall_dispatch overwrite system alloc saved_rsp num (get_or args 0 (regs 0))
          (get_or args 1 (regs 1)) (get_or args 2 (regs 2)) (get_or args 3 (regs 3)) k in
      (rax out, out.1)

  -- What the scheduler does with a call leaves the display and the files alone.
  resumed-kept :
      (k : Kernel S H) (out : Resume × Manager)
      → ((resumed k out).1.gpu ≡ k.gpu) × ((resumed k out).1.file_state ≡ k.file_state)
  resumed-kept k (resume rsp user_rsp, m) = (refl, refl)
  resumed-kept k (halted, m) = (refl, refl)

  -- A call that asks for no switch goes on with the frame it came with, in which its result stands.
  finish-with_result :
      (saved_rsp cur : ℕ) (r : ℤ) (files : FileState S H) (k : Kernel S H)
      → IsRunning k.manager cur
      → (rax (finish saved_rsp (with_result saved_rsp r files k)) ≡ to_uint64 r)
        × ((finish saved_rsp (with_result saved_rsp r files k)).1.file_state ≡ files)
  finish-with_result saved_rsp cur r files k v =
      let m = record k.manager { qword = update k.manager.qword saved_rsp (to_uint64 r) } in
      let v' : IsRunning m cur = record {
        size = v.size;
        current = v.current;
        inside = v.inside;
        runs = v.runs;
        alone = v.alone;
      } in
      let on = (schedule-IsRunning saved_rsp k.user_rsp v').1 in
      (
        ap
              (λ o. rax (
                resumed (record k { manager = m; file_state = files })
                  (o, (process_schedule_on_syscall m saved_rsp k.user_rsp false).1)))
              on
            ∙ ap (λ q. q saved_rsp) (schedule-qword saved_rsp k.user_rsp v')
            ∙ update_self k.manager.qword saved_rsp (to_uint64 r),
        (resumed-kept (record k { manager = m; file_state = files })
            (process_schedule_on_syscall m saved_rsp k.user_rsp false)).1,
      )

  pair_eq :
      {a b : ℤ} {x y : FileState S H} → a ≡ b → x ≡ y → ◌≡◌ {A = ℤ × FileState S H} (a, x) (b, y)
  pair_eq e f = cc (e, f)

  -- The result of a read survives the way through the register.
  result_back :
      (st : FileState S H) (fd : ℤ) (buffer len : ℕ) (o : ℤ × FileState S H)
      → IsTable st.files
      → ReadOut system alloc st fd buffer len o
      → to_int64 (to_uint64 o.0) ≡ o.0
  result_back st fd buffer len (r, st') table (_, inl (e, _, _)) =
      subst (λ z. to_int64 (to_uint64 z) ≡ z) (sym e) refl
  result_back st fd buffer len (r, st') table (_, inr (f, n, _, e, am, _, _, _)) =
      subst (λ z. to_int64 (to_uint64 z) ≡ z) (sym e)
        (int64_back n (ground (arith, am, table.small f)))

  module _ (saved_rsp : ℕ) (regs : ℕ → ℕ) (k : Kernel S H) where
    -- The kernel fills the rectangle that the user program names: the width and the height, packed into
    -- one register, come apart again, for sizes of 32 bits; and the files stay as they are.
    pub draw_fill_rect-dispatch :
        (x y w h color : ℕ)
        → x < 2 ^ 32
        → y < 2 ^ 32
        → w < 2 ^ 32
        → h < 2 ^ 32
        → color < 2 ^ 32
        → ((draw_fill_rect (by_dispatch saved_rsp regs) k x y w h color).gpu
            ≡ virtio_gpu_fill_rect k.gpu x y w h color)
          × ((draw_fill_rect (by_dispatch saved_rsp regs) k x y w h color).file_state
              ≡ k.file_state)
    unfolding draw_fill_rect syscall_dispatch
    draw_fill_rect-dispatch x y w h color hx hy hw hh hc =
        let k' = record k.manager { qword = update k.manager.qword saved_rsp 0 } in
        let kept =
          resumed-kept
            (record k {
              manager = k';
              gpu =
                  virtio_gpu_fill_rect k.gpu (x % 2 ^ 32) (y % 2 ^ 32)
                    ((w * 2 ^ 32 + h) / 2 ^ 32 % 2 ^ 32) ((w * 2 ^ 32 + h) % 2 ^ 32)
                    (color % 2 ^ 32);
            })
            (process_schedule_on_syscall k' saved_rsp k.user_rsp false) in
        let x_back : x % 2 ^ 32 ≡ x = omega (arith, hx) in
        let y_back : y % 2 ^ 32 ≡ y = omega (arith, hy) in
        let w_back : (w * 2 ^ 32 + h) / 2 ^ 32 % 2 ^ 32 ≡ w = omega (arith, hw, hh) in
        let h_back : (w * 2 ^ 32 + h) % 2 ^ 32 ≡ h = omega (arith, hw, hh) in
        let color_back : color % 2 ^ 32 ≡ color = omega (arith, hc) in
        (kept.0 ∙ cc (x_back, y_back, w_back, h_back, color_back), kept.1)

    -- A read of the user program satisfies what `syscall_file_read` promises: its result comes back, of a
    -- descriptor of 32 bits, in the process that called, on a table and over a file system as the kernel
    -- needs them, if the bytes that the call writes are none of the kernel's variables.
    pub file_read-ReadOut :
        (cur : ℕ) (fd : ℤ) (buffer len : ℕ)
        → IsRunning k.manager cur
        → IsTable k.file_state.files
        → ReadsWhole system alloc k.file_state.fs
        → IsInt32 fd
        → let files = (syscall_file_read system alloc k.file_state fd buffer len).1 in
          rewritten overwrite files k ≡ record k { file_state = files }
          → ReadOut system alloc k.file_state fd buffer len (
              let r = file_read (by_dispatch saved_rsp regs) k fd buffer len in
              (r.0, r.1.file_state))
    unfolding file_read syscall_dispatch
    file_read-ReadOut cur fd buffer len runs table whole small apart =
        let out =
          syscall_file_read system alloc k.file_state (to_int32 (to_uint64 fd)) buffer len in
        let done = finish-with_result saved_rsp cur out.0 out.1 k runs in
        let promised =
          subst (λ z. ReadOut system alloc k.file_state z buffer len out) (int32_back fd small)
            (syscall_file_read-ReadOut system alloc k.file_state (to_int32 (to_uint64 fd)) buffer
              len table whole) in
        let fin = finish saved_rsp (
          schedule false,
          set_syscall_result saved_rsp (to_uint64 out.0) (rewritten overwrite out.1 k),
        ) in
        let spared : rewritten overwrite out.1 k ≡ record k { file_state = out.1 } =
          subst
            (λ z.
              let files = (syscall_file_read system alloc k.file_state z buffer len).1 in
              rewritten overwrite files k ≡ record k { file_state = files })
            (sym (int32_back fd small)) apart in
        let ends : fin ≡ finish saved_rsp (with_result saved_rsp out.0 out.1 k) =
          ap
            (λ q.
              finish saved_rsp (schedule false, set_syscall_result saved_rsp (to_uint64 out.0) q))
            spared in
        let same : out ≡ (to_int64 (rax fin), fin.1.file_state) = sym (
          pair_eq
            (ap (λ q. to_int64 (rax q)) ends
              ∙ ap to_int64 done.0
              ∙ result_back k.file_state fd buffer len out table promised)
            (ap (λ q. q.1.file_state) ends ∙ done.1)) in
        subst (λ o. ReadOut system alloc k.file_state fd buffer len o) same promised
