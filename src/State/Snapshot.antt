-- ===== src/State/Snapshot.antt =====
-- src/core/state.rs: snapshots, and the state root that a block header carries.
use Prim.Native.String.{String}
use platarium_core.Base.{ℕ, Bool, ◌&&◌, List, [], ◌∷◌, ◌++◌, map, filter, is_empty, length}
use platarium_core.Data.Ord.{◌==◌, string_eq, string_ord, pair_eq}
use platarium_core.Data.Map.{HashMap, get_or_zero}
use platarium_core.Data.Sort.{sort_by}
use platarium_core.Data.Bytes.{as_bytes, to_le_bytes}
use platarium_core.Asset.{plp, as_canonical}
use platarium_core.State.{State, Address, asset_key}

pub record StateSnapshot : Type 0 where
  pub asset_balances : HashMap (Address × String) ℕ
  pub uplp_balances : HashMap Address ℕ
  pub nonces : HashMap Address ℕ

unfoldable pub create_snapshot : State → StateSnapshot
create_snapshot s = record {
  asset_balances = s.asset_balances;
  uplp_balances = s.uplp_balances;
  nonces = s.nonces;
}

unfoldable pub restore : State → StateSnapshot → State
restore s snapshot = record s {
  asset_balances = snapshot.asset_balances;
  uplp_balances = snapshot.uplp_balances;
  nonces = snapshot.nonces;
}

-- `StateSnapshot::get_balance`, `get_nonce`, `get_all_balances` and `get_all_nonces`
unfoldable pub snapshot_balance : StateSnapshot → Address → ℕ
snapshot_balance snap address = get_or_zero snap.asset_balances (asset_key address plp)

unfoldable pub snapshot_nonce : StateSnapshot → Address → ℕ
snapshot_nonce snap address = get_or_zero snap.nonces address

abbrev pub is_plp_entry : (Address × String) × ℕ → Bool
is_plp_entry e = e.0.1 == as_canonical plp

abbrev pub address_balance : (Address × String) × ℕ → Address × ℕ
address_balance e = (e.0.0, e.1)

unfoldable pub get_all_balances : StateSnapshot → List (Address × ℕ)
get_all_balances snap =
    sort_by (λ e. e.0) (map address_balance (filter is_plp_entry snap.asset_balances))

unfoldable pub get_all_nonces : StateSnapshot → List (Address × ℕ)
get_all_nonces snap = sort_by (λ e. e.0) snap.nonces

-- What `compute_state_root` feeds to the hasher for a sorted list of (address, number) pairs, with
-- numbers of `width` bytes.
unfoldable pub hashed_entries : ℕ → List (Address × ℕ) → List ℕ
hashed_entries width [] = []
hashed_entries width ((address, v) ∷ es) =
    as_bytes address ++ (to_le_bytes width v ++ hashed_entries width es)

-- `compute_state_root`, for the hexadecimal text of a SHA-256 digest.
unfoldable pub compute_state_root : (List ℕ → String) → StateSnapshot → String
unfolding get_all_balances get_all_nonces hashed_entries
compute_state_root sha256_hex snap =
    sha256_hex (hashed_entries 16 (get_all_balances snap) ++ hashed_entries 8 (get_all_nonces snap))

unfoldable pub snapshot_is_empty : StateSnapshot → Bool
snapshot_is_empty snap =
    is_empty snap.asset_balances && (is_empty snap.uplp_balances && is_empty snap.nonces)

-- `balance_count` and `nonce_count`
unfoldable pub balance_count : StateSnapshot → ℕ
balance_count snap = length snap.asset_balances

unfoldable pub nonce_count : StateSnapshot → ℕ
nonce_count snap = length snap.nonces
