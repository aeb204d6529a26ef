-- ===== src/Text/Utf8.antt =====
-- `str::as_bytes` and `str::from_utf8`: a character is one to four bytes.
use rollforward.Prelude.{
  ℕ, zero, suc, Bool, Option, none, some, leb, ◌==◌, nat_eq, ◌&&◌, ◌||◌, ◌*◌, ◌-◌, ◌+◌, ◌/◌, ◌%◌,
  Bytes, List, [], ◌∷◌, ◌++◌, ltb, if◌then◌else◌,
}

abbrev pub utf8_char : ℕ → Bytes
utf8_char c =
    if ltb c 0x80
    then c ∷ []
    else if ltb c 0x800
    then (0xc0 + c / 0x40) ∷ (0x80 + c % 0x40) ∷ []
    else if ltb c 0x10000
    then (0xe0 + c / 0x1000) ∷ (0x80 + c / 0x40 % 0x40) ∷ (0x80 + c % 0x40) ∷ []
    else (0xf0 + c / 0x40000)
      ∷ (0x80 + c / 0x1000 % 0x40)
      ∷ (0x80 + c / 0x40 % 0x40)
      ∷ (0x80 + c % 0x40)
      ∷ []

unfoldable pub as_bytes : List ℕ → Bytes
as_bytes [] = []
as_bytes (c ∷ text) = utf8_char c ++ as_bytes text

-- A character that `min` does not reach was encoded at too great a length.
abbrev is_scalar : ℕ → ℕ → Bool
is_scalar min c = leb min c && (ltb c 0xd800 || (leb 0xe000 c && ltb c 0x110000))

prepend : ℕ → Option (List ℕ) → Option (List ℕ)
prepend c none = none
prepend c (some text) = some (c ∷ text)

-- `missing` bytes of a character are still to come, whose bits so far are `acc`.
decode : (missing acc min : ℕ) → Bytes → Option (List ℕ)
unfolding prepend
decode zero acc min [] = some []
decode (suc missing) acc min [] = none
decode zero acc min (b ∷ bytes) =
    let one = decode 0 0 0 bytes in
    let two = decode 1 (b - 0xc0) 0x80 bytes in
    let three = decode 2 (b - 0xe0) 0x800 bytes in
    let four = decode 3 (b - 0xf0) 0x10000 bytes in
    if ltb b 0x80
    then prepend b one
    else if ltb b 0xc0
    then none
    else if ltb b 0xe0
    then two
    else if ltb b 0xf0
    then three
    else if ltb b 0xf8
    then four
    else none
decode (suc missing) acc min (b ∷ bytes) =
    let c = acc * 0x40 + (b - 0x80) in
    let next = decode 0 0 0 bytes in
    let more = decode missing c min bytes in
    if leb 0x80 b && ltb b 0xc0
    then (if missing == 0 then (if is_scalar min c then prepend c next else none) else more)
    else none

-- `std::str::from_utf8`, without its error's text.
unfoldable pub from_utf8 : Bytes → Option (List ℕ)
unfolding decode
from_utf8 bytes = decode 0 0 0 bytes
