-- ===== src/Transaction/Gateway.antt =====
-- src/core/transaction.rs: `from_gateway_json`, over a parameter for serde_json.
pub mod Amounts
use Prim.Native.String.{String}
use platarium_core.Base.{
  ℕ, ◌*◌, ◌/◌, ◌%◌, ◌^◌, ◌-◌, min, Bool, true, false, ◌&&◌, not, Option, none, some, List, [], ◌∷◌,
  any, ltb, leb, ◌==◌, if◌then◌else◌, u64_mod, u128_mod, Result, ok, err, ◌>>=◌, PlatariumError,
  other, unsupported_number, missing_value,
}
use platarium_core.Data.Ord.{◌==◌ as same, string_eq}
use platarium_core.Data.Parse.{codes, trim, parse_uint, strip_prefix}
use platarium_core.Data.Set.{collect_set}
use platarium_core.Asset.{Asset, plp, token}
use platarium_core.Json.{Json, Float}
use platarium_core.Transaction.{Transaction}

-- `f.fract() == 0.0 && f > 0.0 && f <= u64::MAX as f64`: as an `f64`, `u64::MAX` is 2^64.
unfoldable pub is_whole : Float → Bool
is_whole f =
    f.numerator % 2 ^ f.scale == 0
    && (not f.negative && ltb 0 f.numerator && leb f.numerator (u64_mod * 2 ^ f.scale))

-- `f as u64` of a number that is not negative: it stops at `u64::MAX`.
unfoldable pub as_u64_saturating : Float → ℕ
as_u64_saturating f = min (f.numerator / 2 ^ f.scale) (u64_mod - 1)

unfoldable pub parse_u128_text : List ℕ → Result ℕ
parse_u128_text t =
    if any (λ c. c == b'.') t
    then err unsupported_number
    else if any (λ c. c == b'e') t
    then err unsupported_number
    else if any (λ c. c == b'E') t
    then err unsupported_number
    else elim (parse_uint u128_mod t) [ some n ↦ ok n | none ↦ err unsupported_number ]

-- The asset of its text: PLP, a token with its prefix, or a token without one.
unfoldable pub parse_canonical : String → Asset
parse_canonical text =
    if same text "PLP"
    then plp
    else elim (strip_prefix "Token:" text) [ some rest ↦ token rest | none ↦ token text ]

-- `ok_or_else` and `unwrap_or`
abbrev pub require {ℓ} : {A : Type ℓ} → String → Option A → Result A
require message none = err (other message)
require message (some a) = ok a

unfoldable pub parse_float : Float → Result ℕ
unfolding is_whole as_u64_saturating
parse_float f = if is_whole f then ok (as_u64_saturating f) else err unsupported_number

module _ {Value : Type 0} (j : Json Value) where
  unfoldable pub parse_u128_json : Value → Result ℕ
  unfolding parse_u128_text parse_float
  parse_u128_json v = if j.is_null v then err missing_value else elim (j.as_u64 v) [
    | some n ↦ ok n
    | none ↦ elim (j.as_f64 v) [
      | some f ↦ parse_float f
      | none ↦ elim (j.as_str v) [
        | some s ↦ parse_u128_text (trim (codes s))
        | none ↦ err unsupported_number
      ]
    ]
  ]

  -- `filter_map(|x| x.as_str())`: an entry that is not a text is dropped.
  abbrev pub texts : List Value → List String
  texts [] = []
  texts (v ∷ vs) = elim (j.as_str v) [ some s ↦ s ∷ texts vs | none ↦ texts vs ]

  abbrev pub text_set : Value → List String
  text_set v = elim (j.as_array v) [ some vs ↦ collect_set (texts vs) | none ↦ [] ]

  abbrev pub text_field : String → String → Value → Result String
  text_field name message v = require message (j.as_str (j.index v name))

  abbrev pub optional_text : String → Value → Option String
  optional_text name v = elim (j.get v name) [ none ↦ none | some x ↦ j.as_str x ]

  abbrev pub asset_text : Value → String
  asset_text v = elim (j.as_str (j.index v "asset")) [ none ↦ "PLP" | some s ↦ s ]

  unfoldable pub from_gateway_json : String → Result Transaction
  unfolding parse_canonical parse_u128_json
  from_gateway_json json_str = do
    v ← require "invalid tx JSON" (j.from_str json_str)
    hash ← text_field "hash" "missing hash" v
    from ← text_field "from" "missing from" v
    to ← text_field "to" "missing to" v
    let asset = parse_canonical (asset_text v)
    amount ← parse_u128_json (j.index v "amount")
    fee_uplp ← parse_u128_json (j.index v "fee_uplp")
    nonce ← require "missing or invalid nonce" (j.as_u64 (j.index v "nonce"))
    let reads = text_set (j.index v "reads")
    let writes = text_set (j.index v "writes")
    sig_main ← text_field "sig_main" "missing sig_main" v
    sig_derived ← text_field "sig_derived" "missing sig_derived" v
    ok (record {
      hash = hash;
      from = from;
      to = to;
      asset = asset;
      amount = amount;
      fee_uplp = fee_uplp;
      nonce = nonce;
      reads = reads;
      writes = writes;
      sig_main = sig_main;
      sig_derived = sig_derived;
      pub_main = optional_text "pub_main" v;
      pub_derived = optional_text "pub_derived" v;
    })
