-- ===== src/Prelude/Order.antt =====
-- Total orders, as `Ord` gives them to the ordered maps and to `sort`: numbers, strings (byte by
-- byte, as Rust compares them) and pairs.
use Prim.Native.Nat.{ℕ}
use mathlib.Core.Path.{◌≡◌, refl}
use mathlib.Core.Logic.{◌≢◌}
use mathlib.Core.Bool.{Bool, true, false, ◌&&◌, ◌||◌}
use mathlib.Core.List.{List, [], ◌∷◌}
use native.Mathlib.Omega.{arith}
use rollforward.Prelude.Tests.{ltb}
use rollforward.Prelude.Equality.{Eq, ◌==◌, nat_eq, list_eq, pair_eq}

-- `lt a b` is `a < b`.
pub record Ord {ℓ} (A : Type ℓ) : Type ℓ where
  pub eq : Eq A
  pub lt : A → A → Bool
  pub lt_irrefl : (a : A) → lt a a ≡ false
  pub lt_trans : (a b c : A) → lt a b ≡ true → lt b c ≡ true → lt a c ≡ true
  pub lt_total : (a b : A) → lt a b ≡ false → a ≢ b → lt b a ≡ true

pub nat_lt_irrefl : (a : ℕ) → ltb a a ≡ false
nat_lt_irrefl a = ground arith

pub nat_lt_trans : (a b c : ℕ) → ltb a b ≡ true → ltb b c ≡ true → ltb a c ≡ true
nat_lt_trans a b c h k = ground arith

pub nat_lt_total : (a b : ℕ) → ltb a b ≡ false → a ≢ b → ltb b a ≡ true
nat_lt_total a b h n = ground arith

instance abbrev pub nat_ord : Ord ℕ
nat_ord = record {
  eq = nat_eq;
  lt = ltb;
  lt_irrefl = nat_lt_irrefl;
  lt_trans = nat_lt_trans;
  lt_total = nat_lt_total;
}

-- Lexicographic order of sequences.
module _ {ℓ} {A : Type ℓ} (o : Ord A) where
  unfoldable pub list_lt : List A → List A → Bool
  list_lt [] [] = false
  list_lt [] (b ∷ bs) = true
  list_lt (a ∷ as') [] = false
  list_lt (a ∷ as') (b ∷ bs) = o.lt a b || (◌==◌ ⦃e = o.eq⦄ a b && list_lt as' bs)

  pub list_lt_irrefl : (as' : List A) → list_lt as' as' ≡ false
  unfolding list_lt
  list_lt_irrefl [] = refl
  list_lt_irrefl (a ∷ as') = ground (arith, o.lt_irrefl a, list_lt_irrefl as')

  pub list_lt_trans :
      (as' bs cs : List A) → list_lt as' bs ≡ true → list_lt bs cs ≡ true → list_lt as' cs ≡ true
  unfolding list_lt
  list_lt_trans [] [] cs h k = k
  list_lt_trans [] (b ∷ bs) [] h k = k
  list_lt_trans [] (b ∷ bs) (c ∷ cs) h k = refl
  list_lt_trans (a ∷ as') [] cs h k = ground arith
  list_lt_trans (a ∷ as') (b ∷ bs) [] h k = k
  list_lt_trans (a ∷ as') (b ∷ bs) (c ∷ cs) h k =
      ground (arith, o.lt_trans a b c, list_lt_trans as' bs cs)

  pub list_lt_total : (as' bs : List A) → list_lt as' bs ≡ false → as' ≢ bs → list_lt bs as' ≡ true
  unfolding list_lt
  list_lt_total [] [] h n = absurd (n refl)
  list_lt_total [] (b ∷ bs) h n = ground arith
  list_lt_total (a ∷ as') [] h n = refl
  list_lt_total (a ∷ as') (b ∷ bs) h n = ground (arith, o.lt_total a b, list_lt_total as' bs)

instance abbrev pub list_ord {ℓ} : {A : Type ℓ} ⦃o : Ord A⦄ → Ord (List A)
list_ord ⦃o⦄ = record {
  eq = list_eq ⦃e = o.eq⦄;
  lt = list_lt o;
  lt_irrefl = list_lt_irrefl o;
  lt_trans = list_lt_trans o;
  lt_total = list_lt_total o;
}

module _ {ℓ κ} {A : Type ℓ} {B : Type κ} (o : Ord A) (p : Ord B) where
  unfoldable pub pair_lt : A × B → A × B → Bool
  pair_lt (a, b) (c, d) = o.lt a c || (◌==◌ ⦃e = o.eq⦄ a c && p.lt b d)

  pub pair_lt_irrefl : (x : A × B) → pair_lt x x ≡ false
  unfolding pair_lt
  pair_lt_irrefl (a, b) = ground (arith, o.lt_irrefl a, p.lt_irrefl b)

  pub pair_lt_trans : (x y z : A × B) → pair_lt x y ≡ true → pair_lt y z ≡ true → pair_lt x z ≡ true
  unfolding pair_lt
  pair_lt_trans (a, b) (c, d) (e, f) h k = ground (arith, o.lt_trans a c e, p.lt_trans b d f)

  pub pair_lt_total : (x y : A × B) → pair_lt x y ≡ false → x ≢ y → pair_lt y x ≡ true
  unfolding pair_lt
  pair_lt_total (a, b) (c, d) h n = ground (arith, o.lt_total a c, p.lt_total b d)

instance abbrev pub pair_ord {ℓ κ} : {A : Type ℓ} {B : Type κ} ⦃o : Ord A⦄ ⦃p : Ord B⦄ → Ord (A × B)
pair_ord ⦃o⦄ ⦃p⦄ = record {
  eq = pair_eq ⦃e = o.eq⦄ ⦃f = p.eq⦄;
  lt = pair_lt o p;
  lt_irrefl = pair_lt_irrefl o p;
  lt_trans = pair_lt_trans o p;
  lt_total = pair_lt_total o p;
}
