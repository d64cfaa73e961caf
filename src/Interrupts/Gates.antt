-- ===== src/Interrupts/Gates.antt =====
-- What the processor reads from the table, and which entries the operations change.
use implus_os.Base.{
  ℕ, ◌+◌, ◌*◌, ◌^◌, ◌<◌, ◌≡◌, inl, inr, ap, ◌&&◌, if◌then◌else◌, ltb, ◌==◌, arith, none, some,
  update, Bool-cases,
}
use implus_os.Interrupts.{
  Interrupts, IdtEntry, max_irqs, gate, set_interrupt_handler, irq_handler,
  register_interrupt_handler, unregister_interrupt_handler, set_irq_handler,
}

-- The address that an interrupt through the entry goes to.
abbrev pub target : IdtEntry → ℕ
target e = e.offset_low + e.offset_mid * 2 ^ 16 + e.offset_high * 2 ^ 32

-- The address in a gate is the whole 64-bit address of its handler.
pub target-gate : (addr : ℕ) → addr < 2 ^ 64 → target (gate addr) ≡ addr
target-gate addr h = omega arith

-- `set_irq_handler` changes only the vector of its line, 32 to 47, so no exception's vector; a line
-- above 15 changes nothing.
pub set_irq_handler_lem :
    (s : Interrupts) (irq handler n : ℕ)
    → handler < 2 ^ 64
    → target ((set_irq_handler s irq handler).idt n)
      ≡ (if ltb irq 16 && (n == 32 + irq) then handler else target (s.idt n))
unfolding set_irq_handler set_interrupt_handler
set_irq_handler_lem s irq handler n h = elim (Bool-cases (ltb irq 16)) [
  | inr e ↦ ground (arith, e)
  | inl e ↦ elim (Bool-cases (n == 32 + irq)) [
    | inl f ↦
        let at : update s.idt (32 + irq) (gate handler) n ≡ gate handler = ground (arith, f) in
        ground (arith, e, f, ap target at, target-gate handler h)
    | inr f ↦
        let at : update s.idt (32 + irq) (gate handler) n ≡ s.idt n = ground (arith, f) in
        ground (arith, e, f, ap target at)
  ]
]

-- An interrupt calls the routine that was registered for it last, none once it is unregistered, and
-- registering one leaves the others' routines alone.
pub irq_handler-register :
    (s : Interrupts) (irq handler n : ℕ)
    → irq < max_irqs
    → 0 < handler
    → ((irq_handler (register_interrupt_handler s irq handler) n).0
        ≡ (if n == irq then some handler else (irq_handler s n).0))
      × ((irq_handler (unregister_interrupt_handler s irq) n).0
          ≡ (if n == irq then none else (irq_handler s n).0))
unfolding irq_handler register_interrupt_handler unregister_interrupt_handler
irq_handler-register s irq handler n lt nz = (ground (arith, lt, nz), ground (arith, lt))
