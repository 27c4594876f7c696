-- ===== src/Rpc/Params.antt =====
-- src/core/core_rpc.rs: the parameters of a request.
pub mod Numbers
use Prim.Native.String.{String}
use platarium_core.Base.{
  ℕ, ◌-◌, Bool, true, false, Option, none, some, List, ltb, if◌then◌else◌, u64_mod, Result, ok, err,
  other, missing_value,
}
use platarium_core.Data.Int.{ℤ, pos, negsuc}
use platarium_core.Data.Parse.{codes, parse_uint, parse_int, i64_bound}
use platarium_core.Json.{Json}
use platarium_core.Storage.{BlockCommit, SnapshotMeta}

-- What this file asks of serde_json beside `Json`.
pub record RequestDecoder (Value : Type 0) : Type 0 where
  pub null : Value
  pub empty_object : Value
  pub as_i64 : Value → Option ℤ
  pub as_bool : Value → Option Bool
  pub candidates_from_str : String → Option (List (String × ℕ))
  pub texts_from_str : String → Option (List String)
  pub commit_from_str : String → Option BlockCommit
  pub snapshot_from_str : String → Option SnapshotMeta

-- `params.get(key).and_then(f)`
abbrev pub and_then {ℓ} : {A B : Type ℓ} → Option A → (A → Option B) → Option B
and_then none f = none
and_then (some a) f = f a

-- `n >= 0` and `n as u64`
abbrev pub not_negative : ℤ → Option ℕ
not_negative (pos n) = some n
not_negative (negsuc n) = none

-- `n as i64` of a `u64`: the upper half is negative.
abbrev pub as_i64_wrapping : ℕ → ℤ
as_i64_wrapping n = if ltb n i64_bound then pos n else negsuc (u64_mod - 1 - n)

abbrev pub parsed {ℓ} : {A : Type ℓ} → Option A → Result A
parsed none = err (other "invalid param")
parsed (some a) = ok a

module _ {Value : Type 0} (j : Json Value) (d : RequestDecoder Value) (params : Value) where
  abbrev pub param_opt_str : String → Option String
  param_opt_str key = and_then (j.get params key) j.as_str

  unfoldable pub param_str : String → Result String
  param_str key = elim (param_opt_str key) [ some s ↦ ok s | none ↦ err missing_value ]

  unfoldable pub param_u64 : String → Result ℕ
  unfolding parse_uint
  param_u64 key = elim (and_then (j.get params key) j.as_u64) [
    | some n ↦ ok n
    | none ↦ elim (and_then (and_then (j.get params key) d.as_i64) not_negative) [
      | some n ↦ ok n
      | none ↦ elim (param_opt_str key) [
        | some s ↦ parsed (parse_uint u64_mod (codes s))
        | none ↦ err missing_value
      ]
    ]
  ]

  unfoldable pub param_i64 : String → Result ℤ
  unfolding parse_int
  param_i64 key = elim (and_then (j.get params key) d.as_i64) [
    | some n ↦ ok n
    | none ↦ elim (and_then (j.get params key) j.as_u64) [
      | some n ↦ ok (as_i64_wrapping n)
      | none ↦ elim (param_opt_str key) [
        | some s ↦ parsed (parse_int (codes s))
        | none ↦ err missing_value
      ]
    ]
  ]

  -- `usize` has 64 bits.
  abbrev pub param_usize : String → Result ℕ
  param_usize = param_u64

  abbrev pub param_bool : String → Bool
  param_bool key = elim (and_then (j.get params key) d.as_bool) [ some b ↦ b | none ↦ false ]
