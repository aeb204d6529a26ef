-- ===== src/Prelude/Text.antt =====
-- Rust's `String` and `Vec<u8>`, both as sequences of bytes, and the decimal form of a number.
use Prim.Native.Nat.{ℕ, zero, suc, ◌+◌, ◌/◌, ◌%◌}
use Prim.Native.Char.{code}
use Prim.Native.String as Literal
use mathlib.Core.List.{List, [], ◌∷◌, ◌++◌}
use rollforward.Prelude.Tests.{ltb, if◌then◌else◌}

abbrev pub String : Type 0
String = List ℕ

abbrev pub Bytes : Type 0
Bytes = List ℕ

-- A literal, which is ASCII wherever the source has one.
unfoldable pub str : Literal.String → String
str Literal.[] = []
str (Literal.◌∷◌ c s) = code c ∷ str s

-- `{n}` in a format string.
decimal_fuel : ℕ → ℕ → String
decimal_fuel zero n = []
decimal_fuel (suc f) n =
    let rest = decimal_fuel f (n / 10) in
    if ltb n 10 then (48 + n) ∷ [] else rest ++ (48 + n % 10) ∷ []

unfoldable pub decimal : ℕ → String
unfolding decimal_fuel
decimal n = decimal_fuel (suc n) n
