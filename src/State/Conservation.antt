-- ===== src/State/Conservation.antt =====
-- Transfers move balances and fees, and create or destroy none.
use Prim.Native.String.{String}
use text.Mathlib.TextEquality.{eq_iff}
use platarium_core.Base.{
  ℕ, ◌+◌, ◌-◌, ◌≤◌, ◌<◌, min, ◌≡◌, refl, ◌%◌, true, Option, none, some, arith, if◌then◌else◌,
  u128_mod, ok,
}
use platarium_core.Data.Ord.{◌==◌, string_eq, pair_eq}
use platarium_core.Data.Map.{
  HashMap, insert, get_or_zero, total_by, total_by-insert, get_or_zero-insert,
  get_or_zero-le-total_by,
}
use platarium_core.Asset.{Asset, plp, token, is_plp, as_canonical, is_plp-canonical}
use platarium_core.State.{
  State, Address, treasury_address, asset_key, charge_fee, debit, credit, fee_plp_used,
  transfer_effects, apply_transfer, check_transfer,
}

-- The sum of the balances of one asset.
abbrev pub asset_total : HashMap (Address × String) ℕ → String → ℕ
asset_total ab c = total_by (λ k. k.1 == c) ab

abbrev pub uplp_total : HashMap Address ℕ → ℕ
uplp_total ub = total_by (λ k. true) ub

charge_fee-total :
    (ub : HashMap Address ℕ) (from : Address) (fee : ℕ)
    → uplp_total ub - min fee (get_or_zero ub from) + fee < u128_mod
    → uplp_total (charge_fee ub from fee) + min fee (get_or_zero ub from) ≡ uplp_total ub + fee
unfolding charge_fee
charge_fee-total ub from fee h =
    let bal = get_or_zero ub from in
    let ub1 = insert ub from (bal - min fee bal) in
    let old = get_or_zero ub1 treasury_address in
    omega (
      arith,
      total_by-insert (λ k. true) ub from (bal - min fee bal),
      total_by-insert (λ k. true) ub1 treasury_address ((old + fee) % u128_mod),
      get_or_zero-le-total_by (λ k. true) ub from refl,
      get_or_zero-le-total_by (λ k. true) ub1 treasury_address refl,
    )

credit-total :
    (ab : HashMap (Address × String) ℕ) (to : Address) (asset : Asset) (amount : ℕ) (c : String)
    → asset_total ab (as_canonical asset) + amount < u128_mod
    → asset_total (credit ab to asset amount) c
      ≡ asset_total ab c + (if as_canonical asset == c then amount else 0)
unfolding credit
credit-total ab to asset amount c h =
    let k = asset_key to asset in
    let old = get_or_zero ab k in
    ground (
      arith,
      total_by-insert (λ j. j.1 == c) ab k ((old + amount) % u128_mod),
      get_or_zero-le-total_by (λ j. j.1 == as_canonical asset) ab k,
      eq_iff (as_canonical asset) (as_canonical asset),
    )

module _ (ab : HashMap (Address × String) ℕ) (from : Address) (amount fee : ℕ) (c : String) where
  debit_plp-total :
      get_or_zero ab (asset_key from plp) < u128_mod
      → amount + fee ≤ get_or_zero ab (asset_key from plp)
      → asset_total (debit ab from plp amount fee) c
          + (if as_canonical plp == c then amount + fee else 0)
        ≡ asset_total ab c
  unfolding debit
  debit_plp-total small enough =
      let k = asset_key from plp in
      ground (
        arith,
        total_by-insert (λ j. j.1 == c) ab k (get_or_zero ab k - fee - amount),
        get_or_zero-le-total_by (λ j. j.1 == c) ab k,
      )

  debit_token-total :
      (t : String)
      → get_or_zero ab (asset_key from plp) < u128_mod
      → get_or_zero ab (asset_key from (token t)) < u128_mod
      → fee ≤ get_or_zero ab (asset_key from plp)
      → amount ≤ get_or_zero ab (asset_key from (token t))
      → asset_total (debit ab from (token t) amount fee) c
          + (if as_canonical plp == c then fee else 0)
          + (if as_canonical (token t) == c then amount else 0)
        ≡ asset_total ab c
  unfolding debit
  debit_token-total t small_plp small enough_fee enough =
      let k = asset_key from (token t) in
      let f = asset_key from plp in
      let ab1 = insert ab f (get_or_zero ab f - fee) in
      ground (
        arith,
        total_by-insert (λ j. j.1 == c) ab k (get_or_zero ab k - amount),
        total_by-insert (λ j. j.1 == c) ab f (get_or_zero ab f - fee),
        total_by-insert (λ j. j.1 == c) ab1 k (get_or_zero ab k - amount),
        get_or_zero-insert ab f (get_or_zero ab f - fee) k,
        pair_eq.same_iff f k,
        is_plp-canonical (token t),
        eq_iff (as_canonical (token t)) (as_canonical plp),
        eq_iff (as_canonical plp) (as_canonical (token t)),
        get_or_zero-le-total_by (λ j. j.1 == c) ab k,
        get_or_zero-le-total_by (λ j. j.1 == c) ab f,
      )

-- All that is held of an asset; the μPLP pool holds PLP.
abbrev pub supply : State → Asset → ℕ
supply s a =
    asset_total s.asset_balances (as_canonical a)
    + (if is_plp a then uplp_total s.uplp_balances else 0)

-- What the guards establish, in exact arithmetic.
abbrev pub Affords : State → Address → Asset → ℕ → ℕ → Type 0
Affords s from asset amount fee =
    let fee_plp = fee_plp_used s from fee in
    (amount + (if is_plp asset then fee_plp else 0)
      ≤ get_or_zero s.asset_balances (asset_key from asset))
    × (fee_plp ≤ get_or_zero s.asset_balances (asset_key from plp))

pub check_transfer-Affords :
    (s : State) (from : Address) (asset : Asset) (amount fee : ℕ) (n : Option ℕ)
    → get_or_zero s.asset_balances (asset_key from plp) + 1 < u128_mod
    → check_transfer s from asset amount fee n ≡ ok tt
    → Affords s from asset amount fee
unfolding check_transfer
check_transfer-Affords s from plp amount fee none small h = ground arith
check_transfer-Affords s from plp amount fee (some n) small h = ground arith
check_transfer-Affords s from (token t) amount fee none small h = ground arith
check_transfer-Affords s from (token t) amount fee (some n) small h = ground arith

-- The balance of one address is part of the total.
pub balance-le-total :
    (ab : HashMap (Address × String) ℕ) (address : Address) (a : Asset)
    → get_or_zero ab (asset_key address a) ≤ asset_total ab (as_canonical a)
balance-le-total ab address a =
    get_or_zero-le-total_by (λ j. j.1 == as_canonical a) ab (asset_key address a)
      ((eq_iff (as_canonical a) (as_canonical a)).1 refl)

-- Debit and credit together take the PLP part of the fee out of the balances, and nothing else.
credit-debit-total :
    (ab : HashMap (Address × String) ℕ) (from to : Address) (asset : Asset) (amount fee : ℕ)
    (c : String)
    → asset_total ab (as_canonical plp) < u128_mod
    → asset_total ab (as_canonical asset) < u128_mod
    → amount + (if is_plp asset then fee else 0) ≤ get_or_zero ab (asset_key from asset)
    → fee ≤ get_or_zero ab (asset_key from plp)
    → asset_total (credit (debit ab from asset amount fee) to asset amount) c
        + (if as_canonical plp == c then fee else 0)
      ≡ asset_total ab c
credit-debit-total ab from to plp amount fee c small_plp small enough enough_fee = ground (
  arith,
  balance-le-total ab from plp,
  debit_plp-total ab from amount fee c,
  debit_plp-total ab from amount fee (as_canonical plp),
  credit-total (debit ab from plp amount fee) to plp amount c,
  eq_iff (as_canonical plp) (as_canonical plp),
)
credit-debit-total ab from to (token t) amount fee c small_plp small enough enough_fee = ground (
  arith,
  balance-le-total ab from plp,
  balance-le-total ab from (token t),
  debit_token-total ab from amount fee c t,
  debit_token-total ab from amount fee (as_canonical (token t)) t,
  credit-total (debit ab from (token t) amount fee) to (token t) amount c,
  eq_iff (as_canonical (token t)) (as_canonical (token t)),
)

module _ (s : State) (from to : Address) (asset : Asset) (amount fee : ℕ) (n : Option ℕ) where
  transfer_effects-supply :
      (a : Asset)
      → supply s plp + 1 < u128_mod
      → supply s asset + 1 < u128_mod
      → Affords s from asset amount fee
      → supply (transfer_effects s from to asset amount fee n) a ≡ supply s a
  unfolding transfer_effects
  transfer_effects-supply a small_plp small h = ground (
    arith,
    balance-le-total s.asset_balances from plp,
    get_or_zero-le-total_by (λ k. true) s.uplp_balances from refl,
    charge_fee-total s.uplp_balances from fee,
    credit-debit-total s.asset_balances from to asset amount (fee_plp_used s from fee)
        (as_canonical a),
    is_plp-canonical a,
    eq_iff (as_canonical a) (as_canonical plp),
    eq_iff (as_canonical plp) (as_canonical a),
  )

  -- A transfer, whether it succeeds or fails, leaves the supply of every asset as it was. The
  -- supplies of PLP and of the asset moved must lie below the largest 128-bit number.
  pub apply_transfer-supply :
      (a : Asset)
      → supply s plp + 1 < u128_mod
      → supply s asset + 1 < u128_mod
      → supply (apply_transfer s from to asset amount fee n).0 a ≡ supply s a
  unfolding apply_transfer
  apply_transfer-supply a small_plp small = ground (
    arith,
    balance-le-total s.asset_balances from plp,
    check_transfer-Affords s from asset amount fee n,
    transfer_effects-supply a small_plp small,
  )
