-- ===== src/Json.antt =====
-- JSON values as the launcher uses serde_json: a value is opaque (its serialised text), and the
-- operations of the package are the fields of a record that the definitions take.
use xlpod.Common.{ℕ, Bool, String, List, Option}

-- `serde_json::Value`.
abbrev pub Value : Type 0
Value = String

pub record Json : Type 0 where
  -- `Value::get`, `Value::as_str` and `Value::as_bool`.
  pub get : Value → String → Option Value
  pub as_str : Value → Option String
  pub as_bool : Value → Option Bool
  -- `json!` on an object, a list, a string, a number and a Boolean.
  pub object : List (String × Value) → Value
  pub array : List Value → Value
  pub string : String → Value
  pub flag : Bool → Value
  pub number : ℕ → Value
  -- `serde_json::from_str`.
  pub parse : String → Option Value
