-- ===== src/Prelude/Int.antt =====
-- `i64`, for the time stamps; `negsuc n` is -(n + 1).
use Prim.Native.Nat.{ℕ}
use mathlib.Core.Bool.{Bool, true, false}
use native.Mathlib.Decide.{ℕ_discrete}
use rollforward.Prelude.Tests.{ltb}
use rollforward.Prelude.Equality.{Eq}

pub data ℤ : Type 0 where
  pos : ℕ → ℤ
  negsuc : ℕ → ℤ

unfoldable pub int_lt : ℤ → ℤ → Bool
int_lt (pos a) (pos b) = ltb a b
int_lt (pos a) (negsuc b) = false
int_lt (negsuc a) (pos b) = true
int_lt (negsuc a) (negsuc b) = ltb b a

ℤ-discrete : Discrete ℤ
ℤ-discrete = hlevel ℕ_discrete

instance unfoldable pub int_eq : Eq ℤ
unfolding ℤ-discrete
int_eq = record { dec = ℤ-discrete }
