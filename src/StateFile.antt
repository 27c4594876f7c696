-- ===== src/StateFile.antt =====
-- src/core/state_file.rs: the form of a state in a file, and what the command line does with it.
pub mod Decimals
pub mod RoundTrip
pub mod Saving
use Prim.Native.String.{String}
use platarium_core.Base.{
  ℕ, Bool, Option, none, some, List, [], ◌∷◌, map, ◌==◌, if◌then◌else◌, not, ltb, u128_mod,
  saturating_add, Result, ok, err, ◌>>=◌, ◌>>◌, guard, other, unsupported_version,
  unsupported_number,
}
use platarium_core.Data.Ord.{◌==◌ as same, string_eq, string_ord, pair_ord}
use platarium_core.Data.Map.{HashMap}
use platarium_core.Data.Sort.{sort_by}
use platarium_core.Data.Parse.{parse_uint}
use platarium_core.Asset.{Asset, plp, is_plp}
use platarium_core.Crypto.{Crypto}
use platarium_core.Fee.{digits_upto}
use platarium_core.State.{
  State, Address, new, get_balance, get_asset_balance, get_uplp_balance, get_nonce,
  fee_spendable_uplp, set_asset_balance, set_uplp_balance, set_balance, set_nonce,
}
use platarium_core.State.Snapshot.{StateSnapshot, create_snapshot, compute_state_root}
use platarium_core.Transaction.{Transaction, TransactionHashData}
use platarium_core.Transaction.Gateway.{parse_canonical, from_gateway_json}
use platarium_core.Execution.{
  production, validate_transaction, check_transaction_applicability, execute_transaction,
}
use platarium_core.Json.{Json}

abbrev pub state_file_version : ℕ
state_file_version = 1

-- A decimal text is the list of its bytes here.
abbrev pub Decimal : Type 0
Decimal = List ℕ

pub record StateFileData : Type 0 where
  pub version : ℕ
  pub asset_balances : List (String × String × Decimal)
  pub uplp_balances : List (String × Decimal)
  pub nonces : List (String × ℕ)

-- `StateFileData::empty`
abbrev pub empty : StateFileData
empty = record {
  version = state_file_version;
  asset_balances = [];
  uplp_balances = [];
  nonces = [];
}

-- `u128::to_string`: a number of 128 bits has at most 39 digits.
unfoldable pub to_decimal : ℕ → Decimal
unfolding digits_upto
to_decimal n = digits_upto 39 n

abbrev pub asset_row : (Address × String) × ℕ → String × String × Decimal
asset_row ((addr, asset), bal) = (addr, asset, to_decimal bal)

abbrev pub uplp_row : Address × ℕ → String × Decimal
uplp_row (addr, bal) = (addr, to_decimal bal)

abbrev pub asset_row_key : String × String × Decimal → String × String
asset_row_key (addr, asset, bal) = (addr, asset)

unfoldable pub from_state : State → StateFileData
unfolding to_decimal create_snapshot
from_state s =
    let snap = create_snapshot s in
    record {
      version = state_file_version;
      asset_balances = sort_by asset_row_key (map asset_row snap.asset_balances);
      uplp_balances = sort_by (λ r. r.0) (map uplp_row snap.uplp_balances);
      nonces = sort_by (λ r. r.0) snap.nonces;
    }

-- `parse::<u128>()` with its error
abbrev pub parse_balance : Decimal → Result ℕ
parse_balance text = elim (parse_uint u128_mod text) [
  | some n ↦ ok n
  | none ↦ err unsupported_number
]

-- The loops of `into_state`
unfoldable pub read_asset_balances : State → List (String × String × Decimal) → Result State
unfolding parse_canonical set_asset_balance
read_asset_balances s [] = ok s
read_asset_balances s ((addr, asset, text) ∷ rows) = parse_balance text >>= λ bal.
    read_asset_balances (set_asset_balance s addr (parse_canonical asset) bal) rows

unfoldable pub read_uplp_balances : State → List (String × Decimal) → Result State
unfolding set_uplp_balance
read_uplp_balances s [] = ok s
read_uplp_balances s ((addr, text) ∷ rows) =
    parse_balance text >>= λ bal. read_uplp_balances (set_uplp_balance s addr bal) rows

unfoldable pub read_nonces : State → List (String × ℕ) → State
unfolding set_nonce
read_nonces s [] = s
read_nonces s ((addr, nonce) ∷ rows) = read_nonces (set_nonce s addr nonce) rows

unfoldable pub into_state : StateFileData → Result State
unfolding read_asset_balances read_uplp_balances read_nonces
into_state file = do
  guard (not (file.version == state_file_version)) (unsupported_version file.version)
  s1 ← read_asset_balances new file.asset_balances
  s2 ← read_uplp_balances s1 file.uplp_balances
  ok (read_nonces s2 file.nonces)

unfoldable pub parse_asset : String → Result Asset
unfolding parse_canonical
parse_asset asset = if same asset "" then ok plp else ok (parse_canonical asset)

-- The answer of `state_query_json`, before it is printed
pub record StateQuery : Type 0 where
  pub asset : Asset
  pub balance : ℕ
  pub uplp_balance : ℕ
  pub fee_spendable : ℕ
  pub nonce : ℕ

-- A file is its decoded contents, or none where there is no file. The JSON text is left out.
unfoldable pub load_state_file : Option StateFileData → Result State
unfolding into_state
load_state_file none = err (other "read state file")
load_state_file (some file) = into_state file

-- `with_state_file_mut`: what `save_state_file` is called with, if it is called, and the result.
-- StateFile.Saving has the files that the call changes.
abbrev pub initial_state : Option StateFileData → Result State
initial_state none = ok new
initial_state (some file) = into_state file

abbrev pub save_with : {A : Type 0} → Result (State × A) → Option StateFileData × Result A
save_with (err e) = (none, err e)
save_with (ok (s, a)) = (some (from_state s), ok a)

-- What `init_state_file` calls `save_state_file` with, whatever the file held
unfoldable pub init_state_file : StateFileData
unfolding from_state
init_state_file = from_state new

unfoldable pub with_state_file :
    Option StateFileData → (State → Result State) → Option StateFileData × Result (Unit {0})
unfolding into_state from_state
with_state_file file f = save_with (initial_state file >>= λ s. f s >>= λ s'. ok (s', tt))

unfoldable pub state_query : Option StateFileData → String → String → Result StateQuery
unfolding load_state_file parse_asset get_balance get_asset_balance get_uplp_balance get_nonce
    fee_spendable_uplp
state_query file address asset = do
  s ← load_state_file file
  a ← parse_asset asset
  ok (record {
    asset = a;
    balance = if is_plp a then get_balance s address else get_asset_balance s address a;
    uplp_balance = get_uplp_balance s address;
    fee_spendable = fee_spendable_uplp s address;
    nonce = get_nonce s address;
  })

module _ {Value : Type 0} (j : Json Value) (c : Crypto TransactionHashData) where
  -- `ok` for a transaction that is valid, the error that is printed for one that is not
  unfoldable pub state_validate_tx : Option StateFileData → String → Result (Result (Unit {0}))
  unfolding load_state_file from_gateway_json validate_transaction check_transaction_applicability
  state_validate_tx file tx_json = do
    s ← load_state_file file
    tx ← from_gateway_json j tx_json
    ok (validate_transaction c tx >> check_transaction_applicability s tx)

  abbrev pub applied :
      (List ℕ → String)
      → Transaction
      → State × Result (Unit {0})
      → Result (State × (String × String))
  applied hash_hex tx (s, err e) = err e
  applied hash_hex tx (s, ok u) = ok (s, (tx.hash, compute_state_root hash_hex (create_snapshot s)))

  unfoldable pub state_apply_tx :
      (List ℕ → String)
      → Option StateFileData
      → String
      → Option StateFileData × Result (String × String)
  unfolding from_gateway_json execute_transaction
  state_apply_tx hash_hex file tx_json = save_with (
      initial_state file >>= λ s. from_gateway_json j tx_json >>= λ tx.
      applied hash_hex tx (execute_transaction c s tx production))

-- The credits of `state_credit_json`
abbrev pub credit_plp : State → Address → ℕ → State
credit_plp s addr plp_amount =
    if ltb 0 plp_amount
    then set_balance s addr (saturating_add u128_mod (get_balance s addr) plp_amount)
    else s

abbrev pub credit_uplp : State → Address → ℕ → State
credit_uplp s addr uplp =
    if ltb 0 uplp
    then set_uplp_balance s addr (saturating_add u128_mod (get_uplp_balance s addr) uplp)
    else s

unfoldable pub state_credit :
    (List ℕ → String)
    → Option StateFileData
    → String
    → ℕ
    → ℕ
    → Bool
    → Option StateFileData × Result String
unfolding set_balance get_balance
state_credit hash_hex file address plp_amount uplp testnet =
    if not testnet
    then (none, err (other "state-credit requires --testnet flag"))
    else save_with (
        initial_state file >>= λ s.
        let s' = credit_uplp (credit_plp s address plp_amount) address uplp in
        ok (s', compute_state_root hash_hex (create_snapshot s')))

unfoldable pub state_root : (List ℕ → String) → Option StateFileData → Result String
unfolding load_state_file
state_root hash_hex file =
    load_state_file file >>= λ s. ok (compute_state_root hash_hex (create_snapshot s))
