-- ===== src/Userland.antt =====
-- Userland/Userland.c: the calls of the system as the user program makes them, and the loader of its
-- picture; its messages to the serial port are left out. What the instruction `syscall` does is a parameter, and so is the decoder of
-- Userland/Application/PNG_Decoder/PNG_Decoder.c.
pub mod Calls
pub mod Reads
mod Tests
use implus_os.Base.{
  ℕ, zero, suc, ◌+◌, ◌-◌, ◌*◌, ◌%◌, ◌^◌, Bool, true, false, ◌||◌, if◌then◌else◌, ltb, leb, ◌==◌,
  List, [], ◌∷◌, Option, none, some, ℤ, pos, negsuc, minus_one,
}
use implus_os.Syscalls.{to_int32, to_uint64}

-- What `syscall` does with RAX and the arguments that are set, in the order of the registers RDI, RSI,
-- RDX and R10: the value in RAX behind it.
abbrev pub Syscall : Type 0 → Type 0
Syscall K = K → ℕ → List ℕ → ℕ × K

abbrev pub to_int64 : ℕ → ℤ
to_int64 n = let w = n % 2 ^ 64 in if ltb w (2 ^ 63) then pos w else negsuc (2 ^ 64 - 1 - w)

-- `read_bytes > 0`, and how many.
abbrev pub got : ℤ → ℕ
got (pos n) = n
got (negsuc n) = 0

abbrev pub max_png : ℕ
max_png = 1024 * 1024

-- What `png_decode_buffer` gives: the pixels, their width and height.
abbrev pub Image : Type 0
Image = ℕ × ℕ × ℕ

module _ {K : Type 0} (enter : Syscall K) where
  abbrev pub syscall0 : K → ℕ → ℕ × K
  syscall0 k num = enter k num []

  abbrev pub syscall1 : K → ℕ → ℕ → ℕ × K
  syscall1 k num arg1 = enter k num (arg1 ∷ [])

  abbrev pub syscall2 : K → ℕ → ℕ → ℕ → ℕ × K
  syscall2 k num arg1 arg2 = enter k num (arg1 ∷ arg2 ∷ [])

  abbrev pub syscall3 : K → ℕ → ℕ → ℕ → ℕ → ℕ × K
  syscall3 k num arg1 arg2 arg3 = enter k num (arg1 ∷ arg2 ∷ arg3 ∷ [])

  abbrev pub syscall4 : K → ℕ → ℕ → ℕ → ℕ → ℕ → ℕ × K
  syscall4 k num arg1 arg2 arg3 arg4 = enter k num (arg1 ∷ arg2 ∷ arg3 ∷ arg4 ∷ [])

  abbrev pub serial_write_string : K → ℕ → K
  serial_write_string k str = (syscall1 k 2 str).1

  abbrev pub thread_create : K → ℕ → ℤ × K
  thread_create k entry = let (r, k') = syscall1 k 6 entry in (to_int32 r, k')

  abbrev pub process_yield : K → K
  process_yield k = (syscall0 k 4).1

  -- Behind the call the code waits in an empty loop for its end.
  abbrev pub process_exit : K → K
  process_exit k = (syscall0 k 5).1

  unfoldable pub draw_fill_rect : K → ℕ → ℕ → ℕ → ℕ → ℕ → K
  draw_fill_rect k x y w h color =
      let packed_wh = w * 2 ^ 32 + h in (syscall4 k 11 x y packed_wh color).1

  abbrev pub draw_present : K → K
  draw_present k = (syscall0 k 12).1

  abbrev pub file_open : K → ℕ → ℕ → ℤ × K
  file_open k path flags = let (r, k') = syscall2 k 20 path flags in (to_int32 r, k')

  unfoldable pub file_read : K → ℤ → ℕ → ℕ → ℤ × K
  file_read k fd buffer len =
      let (r, k') = syscall3 k 21 (to_uint64 fd) buffer len in (to_int64 r, k')

  abbrev pub file_write : K → ℤ → ℕ → ℕ → ℤ × K
  file_write k fd buffer len =
      let (r, k') = syscall3 k 22 (to_uint64 fd) buffer len in (to_int64 r, k')

  abbrev pub file_close : K → ℤ → ℤ × K
  file_close k fd = let (r, k') = syscall1 k 23 (to_uint64 fd) in (to_int32 r, k')

  abbrev pub kmalloc : K → ℕ → ℕ × K
  kmalloc k size = syscall1 k 24 size

  abbrev pub kfree : K → ℕ → K
  kfree k ptr = (syscall1 k 25 ptr).1

  abbrev pub memcpy : K → ℕ → ℕ → ℕ → ℕ × K
  memcpy k dst src n = syscall3 k 26 dst src n

  abbrev pub memcmp : K → ℕ → ℕ → ℕ → ℤ × K
  memcmp k s1 s2 n = let (r, k') = syscall3 k 27 s1 s2 n in (to_int32 r, k')

  -- The loop that reads the file: the bytes read, and the state. A round that goes on has read a byte
  -- at least, so `max_png` rounds are enough.
  pub read_all : ℕ → ℤ → ℕ → ℕ → K → Option (ℕ × K)
  read_all zero fd file_buffer offset k = none
  read_all (suc fuel) fd file_buffer offset k =
      let r = file_read k fd (file_buffer + offset) 256 in
      let rest = read_all fuel fd file_buffer (offset + got r.0) r.1 in
      if got r.0 == 0
      then some (offset, r.1)
      else if leb max_png (offset + got r.0)
      then some (offset + got r.0, r.1)
      else rest

  module _ (png_decode_buffer : K → ℕ → ℕ → Image × K) where
    abbrev pub checked_image : K → ℕ → Image × K → Image × K
    checked_image k file_buffer ((rgba, width, height), k') = (
      (if rgba == 0 || (width == 0 || height == 0) then (0, 0, 0) else (rgba, width, height)),
      kfree k' file_buffer,
    )

    abbrev pub decoded : ℤ → ℕ → K → Option (ℕ × K) → Image × K
    decoded fd file_buffer k none = ((0, 0, 0), k)
    decoded fd file_buffer k (some (offset, k')) =
        let closed = (file_close k' fd).1 in
        checked_image closed file_buffer (png_decode_buffer closed file_buffer offset)

    abbrev pub load_opened : ℤ × K → Image × K
    load_opened (negsuc n, k) = ((0, 0, 0), k)
    load_opened (pos fd, k) =
        let (file_buffer, k') = kmalloc k max_png in
        if file_buffer == 0
        then ((0, 0, 0), (file_close k' (pos fd)).1)
        else decoded (pos fd) file_buffer k' (read_all max_png (pos fd) file_buffer 0 k')

    unfoldable pub load_png : K → ℕ → Image × K
    load_png k path = load_opened (file_open k path 0)

    -- A row of the picture, and the picture, as `_start` draws them. `pixel` reads a word of the memory.
    pub draw_row : (K → ℕ → ℕ) → ℕ → ℕ → ℕ → ℕ → ℕ → K → K
    draw_row pixel zero x y rgba width k = k
    draw_row pixel (suc n) x y rgba width k =
        draw_row pixel n (x + 1) y rgba width
          (draw_fill_rect k x y 1 1 (pixel k (rgba + (y * width + x) % 2 ^ 32 * 4)))

    pub draw_rows : (K → ℕ → ℕ) → ℕ → ℕ → ℕ → ℕ → K → K
    draw_rows pixel zero y rgba width k = k
    draw_rows pixel (suc n) y rgba width k =
        draw_rows pixel n (y + 1) rgba width (draw_row pixel width 0 y rgba width k)

    -- `_start` up to its last loop, which yields for ever. `path` is the address of the picture's name.
    unfoldable pub start : (K → ℕ → ℕ) → ℕ → K → K
    start pixel path k =
        let ((rgba, width, height), k') =
          load_png (draw_present (draw_fill_rect k 50 50 100 250 0xffffffff)) path in
        if rgba == 0 then k' else kfree (draw_present (draw_rows pixel height 0 rgba width k')) rgba
