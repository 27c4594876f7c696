-- ===== src/Json.antt =====
-- The external serde_json: what the program asks of a `serde_json::Value`.
use Prim.Native.String.{String}
use platarium_core.Base.{ℕ, Bool, Option, List}

-- A finite number that an `f64` holds: a numerator over a power of two.
pub record Float : Type 0 where
  pub negative : Bool
  pub numerator : ℕ
  pub scale : ℕ

-- `index` is `v["name"]`, which is null where the name is missing; `get` is `v.get("name")`.
pub record Json (Value : Type 0) : Type 0 where
  pub from_str : String → Option Value
  pub index : Value → String → Value
  pub get : Value → String → Option Value
  pub is_null : Value → Bool
  pub as_str : Value → Option String
  pub as_u64 : Value → Option ℕ
  pub as_f64 : Value → Option Float
  pub as_array : Value → Option (List Value)
