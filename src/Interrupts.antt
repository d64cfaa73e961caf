-- ===== src/Interrupts.antt =====
-- Kernel/IDT/IDT_Main.c: the interrupt descriptor table and the table of handlers. A function is its
-- address, and 0 is NULL. The addresses of the two assembly stubs are parameters.
pub mod Gates
mod Tests
use implus_os.Base.{
  ℕ, zero, suc, ◌+◌, ◌-◌, ◌*◌, ◌/◌, ◌%◌, ◌^◌, Bool, true, false, not, ◌&&◌, if◌then◌else◌, ltb, leb,
  ◌==◌, List, [], ◌∷◌, ◌++◌, Option, none, some, update,
}

abbrev pub idt_entries : ℕ
idt_entries = 256

abbrev pub idt_entry_size : ℕ
idt_entry_size = 16

abbrev pub max_irqs : ℕ
max_irqs = 256

-- `IDT_Entry`.
pub record IdtEntry : Type 0 where
  pub offset_low : ℕ
  pub selector : ℕ
  pub ist : ℕ
  pub type_attr : ℕ
  pub offset_mid : ℕ
  pub offset_high : ℕ
  pub zeroes : ℕ

-- `IDT_Ptr`.
pub record IdtPtr : Type 0 where
  pub limit : ℕ
  pub base : ℕ

-- `idt`, `irq_routines` and `idt_ptr`, and the register of the processor that says where the table is.
pub record Interrupts : Type 0 where
  pub idt : ℕ → IdtEntry
  pub irq_routines : ℕ → ℕ
  pub idt_ptr : IdtPtr
  pub idtr : IdtPtr

unfoldable pub register_interrupt_handler : Interrupts → ℕ → ℕ → Interrupts
register_interrupt_handler s irq handler =
    if ltb irq max_irqs then record s { irq_routines = update s.irq_routines irq handler } else s

unfoldable pub unregister_interrupt_handler : Interrupts → ℕ → Interrupts
unregister_interrupt_handler s irq =
    if ltb irq max_irqs then record s { irq_routines = update s.irq_routines irq 0 } else s

-- The routine that an interrupt calls, if any.
abbrev pub called : Interrupts → ℕ → Option ℕ
called s irq =
    if ltb irq max_irqs && not (s.irq_routines irq == 0) then some (s.irq_routines irq) else none

-- The bytes written to ports at the end of an interrupt.
abbrev pub acknowledged : ℕ → List (ℕ × ℕ)
acknowledged irq =
    if leb 32 irq && ltb irq 48
    then (0x20, 0x20) ∷ (if leb 40 irq then (0xa0, 0x20) ∷ [] else [])
    else []

-- The routine called, and the port writes behind it.
unfoldable pub irq_handler : Interrupts → ℕ → Option ℕ × List (ℕ × ℕ)
irq_handler s irq = (called s irq, acknowledged irq)

abbrev pub gate : ℕ → IdtEntry
gate addr = record {
  offset_low = addr % 2 ^ 16;
  selector = 0x08;
  ist = 0;
  type_attr = 0x8e;
  offset_mid = addr / 2 ^ 16 % 2 ^ 16;
  offset_high = addr / 2 ^ 32 % 2 ^ 32;
  zeroes = 0;
}

unfoldable pub set_interrupt_handler : Interrupts → ℕ → ℕ → Interrupts
set_interrupt_handler s n handler = record s { idt = update s.idt n (gate handler) }

-- The loop of `init_idt` over the entries from `i` on.
pub set_all : ℕ → ℕ → ℕ → Interrupts → Interrupts
set_all zero i handler s = s
set_all (suc n) i handler s = set_all n (i + 1) handler (set_interrupt_handler s i handler)

-- `load_idt` of Kernel/IDT/IDT.asm: the instruction `lidt`.
abbrev pub load_idt : IdtPtr → Interrupts → Interrupts
load_idt ptr s = record s { idtr = ptr }

abbrev pub place_idt : IdtPtr → Interrupts → Interrupts
place_idt ptr s = load_idt ptr (record s { idt_ptr = ptr })

-- `idt_at` is the address of `idt`, whose entries have `idt_entry_size` bytes each.
unfoldable pub init_idt : (isr_default isr_page_fault idt_at : ℕ) → Interrupts → Interrupts
init_idt isr_default isr_page_fault idt_at s =
    place_idt (record { limit = idt_entries * idt_entry_size - 1; base = idt_at })
      (set_interrupt_handler (set_all idt_entries 0 isr_default s) 14 isr_page_fault)

unfoldable pub set_exception_handler : Interrupts → ℕ → ℕ → Interrupts
set_exception_handler s n handler = if ltb n 32 then set_interrupt_handler s n handler else s

-- `32 + irq`, for the sixteen lines of the interrupt controllers.
unfoldable pub set_irq_handler : Interrupts → ℕ → ℕ → Interrupts
set_irq_handler s irq handler = if ltb irq 16 then set_interrupt_handler s (32 + irq) handler else s
