-- ===== src/Allocator.antt =====
-- What the other components see of Kernel/Memory/Memory_Main.c: an allocator over a state of its
-- own. `Heap/Kmalloc.antt` and its neighbours hold the functions themselves.
use implus_os.Base.{ℕ}

-- A pointer is its address, and 0 is NULL.
pub record Allocator (H : Type 0) : Type 0 where
  pub kmalloc : H → ℕ → ℕ × H
  pub kfree : H → ℕ → H
