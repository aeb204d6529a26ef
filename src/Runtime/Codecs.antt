-- ===== src/Runtime/Codecs.antt =====
-- What the runtime (src/runtime.rs) takes from fastcdc, serde_json and std as values: the cuts of a file,
-- the JSON of the stored records and of an event's details, and the message of a UTF-8 error.
use rollforward.Prelude.{ℕ, String, Bytes, Bool, List}
use rollforward.Errors.{Result}
use rollforward.Binary.{PackIndex}
use rollforward.Runtime.State.{RuntimeState}

-- A value in an event's details, as the source writes it in `json!`.
pub data Scalar : Type 0 where
  number : ℕ → Scalar
  string : String → Scalar
  boolean : Bool → Scalar

pub data Detail : Type 0 where
  scalar : Scalar → Detail
  rows : List (List (String × Scalar)) → Detail

abbrev pub Fields : Type 0
Fields = List (String × Detail)

pub record Codecs : Type 0 where
  pub fast_cdc : Bytes → ℕ → ℕ → ℕ → List (ℕ × ℕ)
  pub index_json : PackIndex → Result Bytes String
  pub utf8_message : Bytes → String
  pub detail_json : Fields → String
  pub state_json : RuntimeState → Result Bytes String
  pub state_from_json : Bytes → Result RuntimeState String
