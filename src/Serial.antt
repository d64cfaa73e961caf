-- ===== src/Serial.antt =====
-- Kernel/Kernel_Main.c: the serial port, over the instructions for the ports. A character waits until the
-- port is free, for as many looks as the port needs at most.
pub mod Digits
mod Tests
use implus_os.Base.{
  ℕ, zero, suc, ◌+◌, ◌-◌, ◌*◌, ◌/◌, ◌%◌, ◌^◌, Bool, true, false, if◌then◌else◌, ltb, ◌==◌, List, [],
  ◌∷◌, Option, none, some,
}

pub record Uart (C : Type 0) : Type 0 where
  pub outb : C → (port val : ℕ) → C
  pub inb : C → (port : ℕ) → ℕ × C

abbrev pub com1_port : ℕ
com1_port = 0x3f8

-- The characters of the code: a new line, a carriage return, and the digits of `hex`.
abbrev pub new_line : ℕ
new_line = 10

abbrev pub carriage_return : ℕ
carriage_return = 13

abbrev pub hex : ℕ → ℕ
hex n = if ltb n 10 then 48 + n else 55 + n

-- The digits of a number at the shifts from `4 * (n - 1)` down to 0.
pub hex_digits : (n value : ℕ) → List ℕ
hex_digits zero value = []
hex_digits (suc n) value = hex (value / 16 ^ n % 16) ∷ hex_digits n value

module _ {C : Type 0} (uart : Uart C) where
  unfoldable pub serial_init : C → C
  serial_init c =
      let c1 = uart.outb c (com1_port + 1) 0x00 in
      let c2 = uart.outb c1 (com1_port + 3) 0x80 in
      let c3 = uart.outb c2 (com1_port + 0) 0x03 in
      let c4 = uart.outb c3 (com1_port + 1) 0x00 in
      let c5 = uart.outb c4 (com1_port + 3) 0x03 in
      let c6 = uart.outb c5 (com1_port + 2) 0xc7 in uart.outb c6 (com1_port + 4) 0x0b

  -- The loop until the port is free: no state behind it means that it goes on.
  pub wait_free : (looks : ℕ) → C → Option C
  wait_free zero c = none
  wait_free (suc looks) c =
      let (status, c') = uart.inb c (com1_port + 5) in
      let rest = wait_free looks c' in if status / 2 ^ 5 % 2 == 0 then rest else some c'

  abbrev pub and_out : Option C → ℕ → Option C
  and_out none char = none
  and_out (some c) char = some (uart.outb c com1_port char)

  unfoldable pub serial_write_char : (looks char : ℕ) → C → Option C
  serial_write_char looks char c = and_out (wait_free looks c) char

  abbrev pub and_go_on : Option C → (C → Option C) → Option C
  and_go_on none next = none
  and_go_on (some c) next = next c

  -- The characters before the final 0.
  unfoldable pub serial_write_string : (looks : ℕ) → List ℕ → C → Option C
  serial_write_string looks [] c = some c
  serial_write_string looks (char ∷ chars) c =
      and_go_on
        (and_go_on (if char == new_line then serial_write_char looks carriage_return c else some c)
          (λ c'. serial_write_char looks char c'))
        (λ c'. serial_write_string looks chars c')

  -- The loop over the digits.
  unfoldable pub write_digits : (looks : ℕ) → List ℕ → C → Option C
  write_digits looks [] c = some c
  write_digits looks (d ∷ ds) c =
      and_go_on (serial_write_char looks d c) (λ c'. write_digits looks ds c')

  unfoldable pub serial_write_uint64 : (looks value : ℕ) → C → Option C
  serial_write_uint64 looks value c =
      and_go_on (serial_write_string looks (48 ∷ 120 ∷ []) c)
        (λ c'. write_digits looks (hex_digits 16 value) c')

  abbrev pub serial_write_uint32 : (looks value : ℕ) → C → Option C
  serial_write_uint32 looks value c = serial_write_uint64 looks (value % 2 ^ 32) c

  abbrev pub serial_write_uint16 : (looks value : ℕ) → C → Option C
  serial_write_uint16 looks value c = serial_write_uint64 looks (value % 2 ^ 16) c
