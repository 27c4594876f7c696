-- ===== src/State/Balances.antt =====
-- The entries of the maps after the single writes of a transfer.
use Prim.Native.String.{String}
use text.Mathlib.TextEquality.{eq_iff}
use platarium_core.Base.{
  ℕ, ◌+◌, ◌-◌, ◌%◌, ◌≤◌, ◌<◌, min, ◌≡◌, ◌≢◌, refl, Option, none, some, arith, if◌then◌else◌,
  u64_mod, u128_mod, err, invalid_nonce,
}
use platarium_core.Data.Ord.{◌==◌, string_eq, pair_eq}
use platarium_core.Data.Map.{HashMap, insert, get_or_zero, get_or_zero-insert}
use platarium_core.Asset.{Asset, plp, token, is_plp}
use platarium_core.State.{
  State, Address, treasury_address, asset_key, charge_fee, debit, credit, bump_nonce,
  apply_transfer, check_transfer,
}

-- A read after `debit`: the sender's entry of the asset, its PLP entry, and all others.
module _ (ab : HashMap (Address × String) ℕ) (from : Address) (amount fee : ℕ) where
  pub debit_self :
      (asset : Asset)
      → get_or_zero ab (asset_key from plp) < u128_mod
      → get_or_zero ab (asset_key from asset) < u128_mod
      → amount + (if is_plp asset then fee else 0) ≤ get_or_zero ab (asset_key from asset)
      → fee ≤ get_or_zero ab (asset_key from plp)
      → get_or_zero (debit ab from asset amount fee) (asset_key from asset)
          + amount
          + (if is_plp asset then fee else 0)
        ≡ get_or_zero ab (asset_key from asset)
  unfolding debit
  debit_self plp small_plp small enough enough_fee =
      let k = asset_key from plp in
      ground (
        arith,
        get_or_zero-insert ab k (get_or_zero ab k - fee - amount) k,
        get_or_zero-insert ab k (get_or_zero ab k - amount) k,
        eq_iff from from,
        eq_iff k.1 k.1,
      )
  debit_self (token t) small_plp small enough enough_fee =
      let k = asset_key from (token t) in
      let f = asset_key from plp in
      let ab1 = insert ab f (get_or_zero ab f - fee) in
      ground (
        arith,
        get_or_zero-insert ab k (get_or_zero ab k - amount) k,
        get_or_zero-insert ab1 k (get_or_zero ab k - amount) k,
        eq_iff from from,
        eq_iff k.1 k.1,
      )

  pub debit-others :
      (asset : Asset) (other : Address × String)
      → other.0 ≢ from
      → get_or_zero (debit ab from asset amount fee) other ≡ get_or_zero ab other
  unfolding debit
  debit-others plp other h =
      let k = asset_key from plp in
      let p = get_or_zero ab k in
      ground (
        arith,
        get_or_zero-insert ab k ((p + u128_mod - amount) % u128_mod) other,
        get_or_zero-insert ab k (((p + u128_mod - fee) % u128_mod + u128_mod - amount) % u128_mod)
            other,
        eq_iff from other.0,
        h,
      )
  debit-others (token t) other h =
      let k = asset_key from (token t) in
      let f = asset_key from plp in
      let v = (get_or_zero ab k + u128_mod - amount) % u128_mod in
      let w = (get_or_zero ab f + u128_mod - fee) % u128_mod in
      ground (
        arith,
        get_or_zero-insert ab k v other,
        get_or_zero-insert ab f w other,
        get_or_zero-insert (insert ab f w) k v other,
        eq_iff from other.0,
        h,
      )

module _ (ab : HashMap (Address × String) ℕ) (to : Address) (asset : Asset) (amount : ℕ) where
  pub credit_lem :
      (key : Address × String)
      → get_or_zero (credit ab to asset amount) key ≡ (
          if asset_key to asset == key
          then (get_or_zero ab (asset_key to asset) + amount) % u128_mod
          else get_or_zero ab key)
  unfolding credit
  credit_lem key =
      get_or_zero-insert ab (asset_key to asset)
        ((get_or_zero ab (asset_key to asset) + amount) % u128_mod) key

module _ (ub : HashMap Address ℕ) (from : Address) (fee : ℕ) where
  pub charge_fee_others :
      (other : Address)
      → other ≢ from
      → other ≢ treasury_address
      → get_or_zero (charge_fee ub from fee) other ≡ get_or_zero ub other
  unfolding charge_fee
  charge_fee_others other nf nt =
      let bal = get_or_zero ub from in
      let ub1 = insert ub from (bal - min fee bal) in
      let old = get_or_zero ub1 treasury_address in
      ground (
        arith,
        get_or_zero-insert ub1 treasury_address ((old + fee) % u128_mod) other,
        get_or_zero-insert ub from (bal - min fee bal) other,
        eq_iff from other,
        eq_iff treasury_address other,
      )

  pub charge_fee_lem :
      from ≢ treasury_address
      → get_or_zero ub treasury_address + fee < u128_mod
      → (get_or_zero (charge_fee ub from fee) from + (fee - (fee - min fee (get_or_zero ub from)))
          ≡ get_or_zero ub from)
        × (get_or_zero (charge_fee ub from fee) treasury_address
            ≡ get_or_zero ub treasury_address + fee)
  unfolding charge_fee
  charge_fee_lem nt small =
      let bal = get_or_zero ub from in
      let ub1 = insert ub from (bal - min fee bal) in
      let old = get_or_zero ub1 treasury_address in
      ground (
        arith,
        get_or_zero-insert ub1 treasury_address ((old + fee) % u128_mod) from,
        get_or_zero-insert ub1 treasury_address ((old + fee) % u128_mod) treasury_address,
        get_or_zero-insert ub from (bal - min fee bal) from,
        get_or_zero-insert ub from (bal - min fee bal) treasury_address,
        eq_iff from from,
        eq_iff treasury_address treasury_address,
        eq_iff from treasury_address,
        eq_iff treasury_address from,
      )

pub bump_nonce_others :
    (nonces : HashMap Address ℕ) (from : Address) (n : Option ℕ) (other : Address)
    → other ≢ from
    → get_or_zero (bump_nonce nonces from n) other ≡ get_or_zero nonces other
unfolding bump_nonce
bump_nonce_others nonces from none other h = refl
bump_nonce_others nonces from (some n) other h =
    ground (arith, get_or_zero-insert nonces from ((n + 1) % u64_mod) other, eq_iff from other)

pub apply_transfer-wrong_nonce :
    (s : State) (from to : Address) (asset : Asset) (amount fee n cur : ℕ)
    → get_or_zero s.nonces from ≡ cur
    → cur ≢ n
    → apply_transfer s from to asset amount fee (some n) ≡ (s, err (invalid_nonce n cur))
unfolding apply_transfer check_transfer
apply_transfer-wrong_nonce s from to asset amount fee n cur e ne = ground arith
