-- ===== src/Serial/Digits.antt =====
-- What a number sends over the serial port, and that it can be read from it.
use implus_os.Base.{
  ℕ, zero, suc, ◌+◌, ◌-◌, ◌*◌, ◌/◌, ◌%◌, ◌^◌, ◌<◌, ◌≡◌, refl, sym, ap, ◌∙◌, Bool, true, false,
  if◌then◌else◌, ltb, ◌==◌, List, [], ◌∷◌, ◌++◌, length, Option, some, arith,
}
use mathlib.Core.List.{append-nil, append_assoc}
use implus_os.Serial.{
  Uart, com1_port, hex, hex_digits, wait_free, and_out, and_go_on, serial_write_char,
  serial_write_string, write_digits, serial_write_uint64,
}

-- A digit and a number as a reader takes them.
abbrev pub digit_value : ℕ → ℕ
digit_value char = if ltb char 58 then char - 48 else char - 55

unfoldable pub number_value : List ℕ → ℕ → ℕ
number_value [] n = n
number_value (char ∷ chars) n = number_value chars (n * 16 + digit_value char)

digit_value-hex : (n : ℕ) → n < 16 → digit_value (hex n) ≡ n
digit_value-hex n h = ground (arith, h)

mod_fits : (n : ℕ) → n % 16 < 16
mod_fits n = omega arith

-- The digits from a place on, behind a number that has been read.
number_value-hex_digits :
    (value : ℕ) → value < 2 ^ 64 → number_value (hex_digits 16 value) 0 ≡ value
unfolding number_value hex_digits
number_value-hex_digits value h =
    let d = λ (k : ℕ). digit_value-hex (value / 16 ^ k % 16) (mod_fits (value / 16 ^ k)) in
    rw (d 15, d 14, d 13, d 12, d 11, d 10, d 9, d 8, d 7, d 6, d 5, d 4, d 3, d 2, d 1, d 0)
      (omega (arith, h))

module _ {C : Type 0} (uart : Uart C) where
  -- The port is free after `n` looks, of a state in which `next` holds then.
  abbrev pub Frees : ℕ → (C → Type 0) → C → Type 0
  Frees zero next c =
      ((uart.inb c (com1_port + 5)).0 / 2 ^ 5 % 2 ≡ 1) × next (uart.inb c (com1_port + 5)).1
  Frees (suc n) next c =
      ((uart.inb c (com1_port + 5)).0 / 2 ^ 5 % 2 ≡ 0) × Frees n next (uart.inb c (com1_port + 5)).1

  -- A port that shows that it is free after fewer looks than `looks`, sends nothing on its own, and
  -- sends what is written to it when it has shown that. What becomes of a character that is written to a
  -- busy port is left open.
  pub record Sends (looks : ℕ) : Type 0 where
    pub sent : C → List ℕ
    pub delay : C → ℕ
    pub is_free : C → Bool
    pub soon : (c : C) → delay c < looks
    pub frees : (c : C) → Frees (delay c) (λ c'. (is_free c' ≡ true) × (sent c' ≡ sent c)) c
    pub sends :
        (c : C) (char : ℕ)
        → is_free c ≡ true
        → sent (uart.outb c com1_port char) ≡ sent c ++ (char ∷ [])

  -- The state behind a transmission of these characters.
  pub record Sent {looks : ℕ} (port : Sends looks) (c : C) (chars : List ℕ) (r : Option C)
      : Type 0 where
    pub after : C
    pub done : r ≡ some after
    pub now : port.sent after ≡ port.sent c ++ chars

  wait_free_lem :
      (looks n : ℕ) (next : C → Type 0) (c : C)
      → n < looks
      → Frees n next c
      → (c' : C) × (wait_free uart looks c ≡ some c') × next c'
  unfolding wait_free
  wait_free_lem zero n next c h k = absurd (omega (arith, h))
  wait_free_lem (suc looks) zero next c h (e, k) =
      let set : ((uart.inb c (com1_port + 5)).0 / 2 ^ 5 % 2 == 0) ≡ false = ground (arith, e) in
      rw set ((uart.inb c (com1_port + 5)).1, refl, k)
  wait_free_lem (suc looks) (suc n) next c h (e, k) =
      let clear : ((uart.inb c (com1_port + 5)).0 / 2 ^ 5 % 2 == 0) ≡ true = ground (arith, e) in
      rw clear (wait_free_lem looks n next _ (omega (arith, h)) k)

  module _ {looks : ℕ} (port : Sends looks) where
    serial_write_char-Sent :
        (char : ℕ) (c : C) → Sent port c (char ∷ []) (serial_write_char uart looks char c)
    unfolding serial_write_char
    serial_write_char-Sent char c =
        let (c', e, (free, same)) =
          wait_free_lem looks (port.delay c) _ c (port.soon c) (port.frees c) in
        record {
          after = uart.outb c' com1_port char;
          done = ap (λ o. and_out uart o char) e;
          now = port.sends c' char free ∙ ap (λ l. l ++ (char ∷ [])) same;
        }

    go_on-Sent :
        (xs ys : List ℕ) (c : C) (r : Option C) (next : C → Option C)
        → Sent port c xs r
        → ((c' : C) → Sent port c' ys (next c'))
        → Sent port c (xs ++ ys) (and_go_on uart r next)
    go_on-Sent xs ys c r next s k =
        let t = k s.after in
        record {
          after = t.after;
          done = ap (λ o. and_go_on uart o next) s.done ∙ t.done;
          now = t.now ∙ ap (λ l. l ++ ys) s.now ∙ append_assoc (port.sent c) xs ys;
        }

    write_digits-Sent : (ds : List ℕ) (c : C) → Sent port c ds (write_digits uart looks ds c)
    unfolding write_digits
    write_digits-Sent [] c = record { after = c; done = refl; now = sym (append-nil (port.sent c)) }
    write_digits-Sent (d ∷ ds) c =
        go_on-Sent (d ∷ []) ds c _ (λ c'. write_digits uart looks ds c')
          (serial_write_char-Sent d c) (λ c'. write_digits-Sent ds c')

    prefix-Sent :
        (c : C) → Sent port c (48 ∷ 120 ∷ []) (serial_write_string uart looks (48 ∷ 120 ∷ []) c)
    unfolding serial_write_string
    prefix-Sent c = go_on-Sent (48 ∷ []) (120 ∷ []) c _ _ (serial_write_char-Sent 48 c) (λ c'.
        go_on-Sent (120 ∷ []) [] c' _ _ (serial_write_char-Sent 120 c')
          (λ c''. record { after = c''; done = refl; now = sym (append-nil (port.sent c'')) }))

-- `serial_write_uint64` ends and sends "0x" and sixteen digits, from which the number is read back, for
-- a number of 64 bits and a port that shows that it is free after fewer looks than the loop has and sends
-- a character that is written to it then.
pub serial_write_uint64-Sent :
    {C : Type 0} (uart : Uart C) {looks : ℕ} (port : Sends uart looks) (value : ℕ) (c : C)
    → value < 2 ^ 64
    → (digits : List ℕ) × (number_value digits 0 ≡ value)
      × (length digits ≡ 16)
      × Sent uart port c (48 ∷ 120 ∷ digits) (serial_write_uint64 uart looks value c)
unfolding serial_write_uint64 hex_digits
serial_write_uint64-Sent uart {looks} port value c h = (
  hex_digits 16 value,
  number_value-hex_digits value h,
  refl,
  go_on-Sent uart port (48 ∷ 120 ∷ []) (hex_digits 16 value) c _ _ (prefix-Sent uart port c)
      (λ c'. write_digits-Sent uart port (hex_digits 16 value) c'),
)
