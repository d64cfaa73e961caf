-- ===== src/Display/Tests.antt =====
-- Drawing on a screen of ten by ten pixels, and its theorems at concrete inputs.
use implus_os.Base.{◌+◌, ◌*◌, ◌≡◌, refl, true, arith}
use implus_os.Display.{Gpu, virtio_gpu_fill_rect, fill_rows, fill_row}
use implus_os.Display.Rect.{virtio_gpu_fill_rect_lem}

abbrev screen : Gpu
screen = record { ready = true; fb = 0x300000; pixel = λ j. 0; width = 10; height = 10 }

-- A rectangle that reaches beyond both borders.
cut_rect : (virtio_gpu_fill_rect screen 8 8 100 (4294967295) 7).pixel 99 ≡ 7
unfolding virtio_gpu_fill_rect fill_rows fill_row
cut_rect = refl

virtio_gpu_fill_rect_lem_example : (virtio_gpu_fill_rect screen 8 8 100 3 7).pixel (9 * 10 + 9) ≡ 7
virtio_gpu_fill_rect_lem_example =
    virtio_gpu_fill_rect_lem screen 8 8 100 3 7 9 9 (omega arith) (omega arith) (omega arith)
      (omega arith) (omega arith) (omega arith)
