-- ===== src/Interrupts/Tests.antt =====
-- A table of interrupts, and the theorems on it at concrete inputs.
use implus_os.Base.{◌≡◌, refl, [], ◌∷◌, none}
use implus_os.Interrupts.{Interrupts, gate, irq_handler}

abbrev empty : Interrupts
empty = record {
  idt = λ n. gate 0;
  irq_routines = λ n. 0;
  idt_ptr = record { limit = 0; base = 0 };
  idtr = record { limit = 0; base = 0 };
}

-- The second controller is acknowledged behind the first.
slave_line : irq_handler empty 44 ≡ (none, (0x20, 0x20) ∷ (0xa0, 0x20) ∷ [])
unfolding irq_handler
slave_line = refl
