-- ===== src/Prelude/Equality.antt =====
-- Rust's `==` for every type whose equality can be decided.
use Prim.Native.Nat.{ℕ}
use mathlib.Core.Path.{◌≡◌}
use mathlib.Core.Logic.{ite, ◌≢◌}
use mathlib.Core.Bool.{Bool, true, false}
use mathlib.Core.Option.{Option}
use mathlib.Core.List.{List}
use native.Mathlib.Decide.{ℕ_discrete}
use native.Mathlib.Omega.{arith}

pub record Eq {ℓ} (A : Type ℓ) : Type ℓ where
  pub dec : Discrete A

infix 50 ◌==◌
abbrev pub ◌==◌ {ℓ} : {A : Type ℓ} ⦃e : Eq A⦄ → A → A → Bool
◌==◌ ⦃e⦄ a b = ite (e.dec a b) true false

list_dec {ℓ} : {A : Type ℓ} → Discrete A → Discrete (List A)
list_dec d = hlevel d

option_dec {ℓ} : {A : Type ℓ} → Discrete A → Discrete (Option A)
option_dec d = hlevel d

pair_dec {ℓ κ} : {A : Type ℓ} {B : Type κ} → Discrete A → Discrete B → Discrete (A × B)
pair_dec d e = hlevel (d, e)

instance unfoldable pub nat_eq : Eq ℕ
unfolding ℕ_discrete
nat_eq = record { dec = ℕ_discrete }

instance unfoldable pub list_eq {ℓ} : {A : Type ℓ} ⦃e : Eq A⦄ → Eq (List A)
unfolding list_dec
list_eq ⦃e⦄ = record { dec = list_dec e.dec }

instance unfoldable pub option_eq {ℓ} : {A : Type ℓ} ⦃e : Eq A⦄ → Eq (Option A)
unfolding option_dec
option_eq ⦃e⦄ = record { dec = option_dec e.dec }

instance unfoldable pub pair_eq {ℓ κ} : {A : Type ℓ} {B : Type κ} ⦃e : Eq A⦄ ⦃f : Eq B⦄ → Eq (A × B)
unfolding pair_dec
pair_eq ⦃e⦄ ⦃f⦄ = record { dec = pair_dec e.dec f.dec }

module _ {ℓ} {A : Type ℓ} ⦃e : Eq A⦄ where
  pub ==→eq : (a b : A) → (a == b) ≡ true → a ≡ b
  ==→eq a b h = ground arith

  pub ==_refl : (a : A) → (a == a) ≡ true
  ==_refl a = ground arith

  pub ne→== : (a b : A) → a ≢ b → (a == b) ≡ false
  ne→== a b h = ground arith
