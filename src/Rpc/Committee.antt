-- ===== src/Rpc/Committee.antt =====
-- src/core/core_rpc.rs: the methods on committees.
use platarium_core.Base.{ℕ, not, List, length, ◌==◌, Result, ok, ◌>>=◌, ◌>>◌, guard, other}
use platarium_core.Data.Parse.{trim_text}
use platarium_core.Json.{Json}
use platarium_core.Assembly.{Hasher}
use platarium_core.Node.{NodeId}
use platarium_core.Selection.{selection_percent_from_load_pct, committee_count, select_n_by_weight}
use platarium_core.Transaction.Gateway.{require}
use platarium_core.Rpc.Params.{RequestDecoder, param_str, param_u64, param_usize}

module _ {Value : Type 0} (j : Json Value) (d : RequestDecoder Value) (params : Value) where
  unfoldable pub percent_method : Result ℕ
  unfolding param_u64 selection_percent_from_load_pct
  percent_method = param_u64 j d params "load_pct" >>= selection_percent_from_load_pct

  unfoldable pub count_method : Result ℕ
  unfolding param_u64 committee_count
  count_method = do
    candidates ← param_usize j d params "candidates"
    load_pct ← param_u64 j d params "load_pct"
    ok (committee_count candidates load_pct)

  -- The seed has 32 bytes.
  unfoldable pub select_committee_method : Hasher → Result (List NodeId)
  unfolding param_str param_u64 select_n_by_weight
  select_committee_method h = do
    candidates_raw ← param_str j d params "candidates"
    seed_hex ← param_str j d params "seed_hex"
    n ← param_usize j d params "count"
    pairs ← require "invalid candidates JSON" (d.candidates_from_str candidates_raw)
    seed ← require "invalid seed_hex" (h.hex_decode (trim_text seed_hex))
    guard (not (length seed == 32)) (other "seed_hex must be 64 hex chars (32 bytes)")
    select_n_by_weight h.sha256 pairs seed n
