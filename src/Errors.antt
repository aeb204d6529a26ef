-- ===== src/Errors.antt =====
-- `SyncError` (src/types.rs), and `Result` with its `?` as the bind of `do` blocks.
use rollforward.Prelude.{ℕ, String, Option, none, some, List, [], ◌∷◌}

pub data Result {ℓ} (A E : Type ℓ) : Type ℓ where
  ok : A → Result A E
  err : E → Result A E

pub data SyncError : Type 0 where
  io_error : (msg : String) → SyncError
  conflict_need_resolution : SyncError
  conflict : (sequence : ℕ) → SyncError
  retry_exhausted : (attempts : ℕ) → SyncError
  serde_error : (msg : String) → SyncError
  corrupt : (hash : String) → SyncError

-- `?`: an error ends the block.
infixl 5 ◌>>=◌
abbrev pub ◌>>=◌ {ℓ} : {A B E : Type ℓ} → Result A E → (A → Result B E) → Result B E
outcome >>= next = elim outcome [ err e ↦ err e | ok value ↦ next value ]

-- `ok_or_else`.
abbrev pub ok_or {ℓ} : {A E : Type ℓ} → E → Option A → Result A E
ok_or e none = err e
ok_or e (some a) = ok a

module _ {ℓ} {A B E : Type ℓ} where
  -- `iter().map(f).collect::<Result<Vec<_>, _>>()`: the first error ends it.
  unfoldable pub traverse : (A → Result B E) → List A → Result (List B) E
  traverse f [] = ok []
  traverse f (a ∷ l) = do b ← f a; bs ← traverse f l; ok (b ∷ bs)
