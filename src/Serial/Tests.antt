-- ===== src/Serial/Tests.antt =====
-- A port that keeps what is sent, and the theorem on it.
use implus_os.Base.{
  ℕ, ◌<◌, Bool, true, false, ◌≡◌, refl, if◌then◌else◌, ◌==◌, List, [], ◌∷◌, ◌++◌, length, arith,
}
use implus_os.Serial.{Uart, com1_port, serial_write_uint64}
use implus_os.Serial.Digits.{Sends, Sent, Frees, number_value, serial_write_uint64-Sent}

-- The port is free, or is busy for one look or two.
data Busy : Type 0 where
  ready one_look two_looks : Busy

-- What was sent, and whether the port is busy: it loses what is written to it then.
abbrev Line : Type 0
Line = List ℕ × Busy

abbrev put : ℕ → Line → Line
put val (sent, ready) = (sent ++ (val ∷ []), two_looks)
put val (sent, one_look) = (sent, one_look)
put val (sent, two_looks) = (sent, two_looks)

abbrev look : Line → ℕ × Line
look (sent, ready) = (0x20, (sent, ready))
look (sent, one_look) = (0, (sent, ready))
look (sent, two_looks) = (0, (sent, one_look))

abbrev uart : Uart Line
uart = record {
  outb = λ c port val. if port == com1_port then put val c else c;
  inb = λ c port. look c;
}

abbrev waits : Busy → ℕ
waits ready = 0
waits one_look = 1
waits two_looks = 2

abbrev shows_free : Busy → Bool
shows_free ready = true
shows_free one_look = false
shows_free two_looks = false

few : (b : Busy) → waits b < 4
few ready = omega arith
few one_look = omega arith
few two_looks = omega arith

freed :
    (l : List ℕ) (b : Busy)
    → Frees uart (waits b) (λ c'. (shows_free c'.1 ≡ true) × (c'.0 ≡ l)) (l, b)
freed l ready = (refl, (refl, refl))
freed l one_look = (refl, (refl, (refl, refl)))
freed l two_looks = (refl, (refl, (refl, (refl, refl))))

appends :
    (l : List ℕ) (b : Busy) (char : ℕ)
    → shows_free b ≡ true
    → (uart.outb (l, b) com1_port char).0 ≡ l ++ (char ∷ [])
appends l ready char e = refl
appends l one_look char e = absurd (cc e)
appends l two_looks char e = absurd (cc e)

abbrev port : Sends uart 4
port = record {
  sent = λ c. c.0;
  delay = λ c. waits c.1;
  is_free = λ c. shows_free c.1;
  soon = λ c. few c.1;
  frees = λ c. freed c.0 c.1;
  sends = λ c char free. appends c.0 c.1 char free;
}

serial_write_uint64-Sent_example :
    (digits : List ℕ) × (number_value digits 0 ≡ 0x2f00)
    × (length digits ≡ 16)
    × Sent uart port ([], ready) (48 ∷ 120 ∷ digits) (serial_write_uint64 uart 4 0x2f00 ([], ready))
serial_write_uint64-Sent_example =
    serial_write_uint64-Sent uart port 0x2f00 ([], ready) (omega arith)
