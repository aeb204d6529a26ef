-- ===== src/Binary/Float.antt =====
-- `n as f64` for a `u64`: the nearest multiple of a power of two that leaves 53 bits, ties to even.
use rollforward.Prelude.{
  ℕ, zero, suc, ◌+◌, ◌-◌, ◌*◌, ◌/◌, ◌%◌, ◌^◌, ◌<◌, ◌≡◌, refl, ◌&&◌, ◌||◌, ltb, leb, arith,
  if◌then◌else◌,
}

-- Rounds away the last `suc k` bits.
round_bits : ℕ → ℕ → ℕ
round_bits k n =
    let unit = 2 ^ suc k in
    let q = n / unit in
    let r = n % unit in
    if ltb (2 * r) unit || (leb (2 * r) unit && leb (q % 2) 0) then q * unit else (q + 1) * unit

-- From 53 bits on, one more bit is rounded away for each that the number has more.
float_from : ℕ → ℕ → ℕ → ℕ
float_from zero k n = n
float_from (suc f) k n =
    let more = float_from f (suc k) n in if ltb n (2 ^ (54 + k)) then round_bits k n else more

unfoldable pub to_f64 : ℕ → ℕ
unfolding float_from round_bits
to_f64 n = if ltb n (2 ^ 53) then n else float_from 11 0 n

-- Below 2 ^ 53 the conversion is exact.
pub to_f64-eq_self : (n : ℕ) → n < 2 ^ 53 → to_f64 n ≡ n
unfolding to_f64
to_f64-eq_self n h = ground arith

above_exact : to_f64 (2 ^ 53 + 1) ≡ 2 ^ 53
unfolding to_f64
above_exact = refl

tie_to_even : to_f64 (2 ^ 53 + 3) ≡ 2 ^ 53 + 4
unfolding to_f64
tie_to_even = refl

largest : to_f64 (2 ^ 64 - 1) ≡ 2 ^ 64
unfolding to_f64
largest = refl
