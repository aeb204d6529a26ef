-- ===== src/Types/Key.antt =====
-- `ResourceKey` and `ResourceKind`, with the derived `Eq` and `Ord`.
use rollforward.Prelude.{
  String, Bool, true, false, ◌≡◌, ◌≢◌, ap, ◌++◌, ◌∷◌, Eq, Ord, list_eq, list_ord, nat_eq, nat_ord,
  pair_ord, pair_lt, list_lt, ℕ_discrete,
}

pub record ResourceKey : Type 0 where
  pub scope_id : String
  pub resource_id : String

pub data ResourceKind : Type 0 where
  binary text : ResourceKind

-- `{scope_id}\0{resource_id}`.
unfoldable pub encoded : ResourceKey → String
encoded key = key.scope_id ++ (0 ∷ key.resource_id)

ResourceKey-discrete : Discrete ResourceKey
ResourceKey-discrete = hlevel ℕ_discrete

ResourceKind-discrete : Discrete ResourceKind
ResourceKind-discrete = hlevel

instance unfoldable pub key_eq : Eq ResourceKey
unfolding ResourceKey-discrete
key_eq = record { dec = ResourceKey-discrete }

instance unfoldable pub kind_eq : Eq ResourceKind
unfolding ResourceKind-discrete
kind_eq = record { dec = ResourceKind-discrete }

string_pairs : Ord (String × String)
string_pairs = pair_ord

fields : ResourceKey → String × String
fields key = (key.scope_id, key.resource_id)

key_lt : ResourceKey → ResourceKey → Bool
unfolding string_pairs fields pair_lt list_lt
key_lt a b = string_pairs.lt (fields a) (fields b)

key_lt_irrefl : (a : ResourceKey) → key_lt a a ≡ false
unfolding key_lt
key_lt_irrefl a = string_pairs.lt_irrefl (fields a)

key_lt_trans : (a b c : ResourceKey) → key_lt a b ≡ true → key_lt b c ≡ true → key_lt a c ≡ true
unfolding key_lt
key_lt_trans a b c h k = string_pairs.lt_trans (fields a) (fields b) (fields c) h k

key_of : String × String → ResourceKey
key_of (scope, resource) = record { scope_id = scope; resource_id = resource }

key_lt_total : (a b : ResourceKey) → key_lt a b ≡ false → a ≢ b → key_lt b a ≡ true
unfolding key_lt key_of
key_lt_total a b h n = string_pairs.lt_total (fields a) (fields b) h (λ e. n (ap key_of e))

instance unfoldable pub key_ord : Ord ResourceKey
unfolding key_lt key_lt_irrefl key_lt_trans key_lt_total
key_ord = record {
  eq = key_eq;
  lt = key_lt;
  lt_irrefl = key_lt_irrefl;
  lt_trans = key_lt_trans;
  lt_total = key_lt_total;
}
