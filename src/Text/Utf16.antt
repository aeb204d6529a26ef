-- ===== src/Text/Utf16.antt =====
-- `str::encode_utf16`: a character above the basic plane is two code units.
use rollforward.Prelude.{ℕ, ◌+◌, ◌-◌, ◌/◌, ◌%◌, List, [], ◌∷◌, ltb, if◌then◌else◌}

abbrev pub len_utf16 : ℕ → ℕ
len_utf16 c = if ltb c 0x10000 then 1 else 2

abbrev pub encode_utf16 : List ℕ → List ℕ
encode_utf16 [] = []
encode_utf16 (c ∷ text) =
    let rest = encode_utf16 text in
    if ltb c 0x10000
    then c ∷ rest
    else (0xd800 + (c - 0x10000) / 0x400) ∷ (0xdc00 + (c - 0x10000) % 0x400) ∷ rest
