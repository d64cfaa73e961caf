-- ===== src/Strings/Tests.antt =====
-- The byte routines on a small memory, and the theorems on them at concrete inputs.
use implus_os.Base.{ℕ, ◌-◌, ◌≡◌, refl, ◌&&◌, leb, if◌then◌else◌, some, pos, negsuc}
use implus_os.Strings.{memcmp, strncmp, strcmp, digits_from, strtol, abs}

-- The byte at each address is the address.
abbrev count : ℕ → ℕ
count a = a

differs : (memcmp 3 10 20 count ≡ negsuc 9) × (strncmp 3 20 10 count ≡ pos 10)
unfolding memcmp strncmp
differs = (refl, refl)

-- The numeral 345 at address 51, its end at 54, and the same at 151.
abbrev numeral : ℕ → ℕ
numeral a = if leb 51 a && leb a 53 then a else if leb 151 a && leb a 153 then a - 100 else 0

parses : (strtol 5 51 numeral ≡ some 345) × (strcmp 5 51 151 numeral ≡ some (pos 0))
unfolding digits_from strcmp
parses = (refl, refl)

drops_sign : abs (negsuc 4) ≡ pos 5
drops_sign = refl
