-- ===== src/State/Overdraft.antt =====
-- Where the guard of a PLP transfer is too weak: the saturating sum of amount and fee.
use text.Mathlib.TextEquality.{eq_iff}
use platarium_core.Base.{
  ℕ, ◌+◌, ◌-◌, ◌%◌, ◌≤◌, ◌<◌, ◌≡◌, ◌≢◌, refl, Option, none, some, arith, u128_mod, ok,
}
use platarium_core.Data.Ord.{string_eq, pair_eq}
use platarium_core.Data.Map.{get_or_zero, insert, get_or_zero-insert}
use platarium_core.Asset.{plp}
use platarium_core.State.{
  State, Address, asset_key, get_asset_balance, get_uplp_balance, check_transfer, transfer_effects,
  debit, credit, apply_transfer,
}
use platarium_core.State.Transfer.{NonceMatches, apply_transfer-ok}

overdraft_passes :
    (s : State) (from : Address) (amount fee : ℕ) (n : Option ℕ)
    → get_or_zero s.asset_balances (asset_key from plp) ≡ u128_mod - 1
    → get_or_zero s.uplp_balances from ≡ 0
    → fee < u128_mod
    → NonceMatches s from n
    → check_transfer s from plp amount fee n ≡ ok tt
unfolding check_transfer
overdraft_passes s from amount fee none full empty small m = ground arith
overdraft_passes s from amount fee (some n) full empty small m = ground arith

-- A sender whose PLP balance is the largest 128-bit number, with nothing in the μPLP pool, can
-- transfer an amount that with its fee exceeds that balance: the transfer succeeds, and the
-- sender's new balance is too high by 2 ^ 128.
pub apply_transfer_overdraft :
    (s : State) (from to : Address) (amount fee : ℕ) (n : Option ℕ)
    → from ≢ to
    → get_asset_balance s from plp ≡ u128_mod - 1
    → get_uplp_balance s from ≡ 0
    → amount < u128_mod
    → fee < u128_mod
    → u128_mod ≤ amount + fee
    → NonceMatches s from n
    → let (s', r) = apply_transfer s from to plp amount fee n in
      (r ≡ ok tt)
      × (get_asset_balance s from plp < amount + fee)
      × (get_asset_balance s' from plp + amount + fee ≡ get_asset_balance s from plp + u128_mod)
unfolding get_asset_balance get_uplp_balance transfer_effects debit credit
apply_transfer_overdraft s from to amount fee n ne full empty small small_fee over m =
    let ab = s.asset_balances in
    let k = asset_key from plp in
    let left = ((u128_mod - 1 + u128_mod - fee) % u128_mod + u128_mod - amount) % u128_mod in
    let ab1 = insert ab k left in
    let back = (get_or_zero ab1 (asset_key to plp) + amount) % u128_mod in
    rw
      (apply_transfer-ok s from to plp amount fee n
        (overdraft_passes s from amount fee n full empty small_fee m))
      (
        refl,
        omega arith,
        ground (
          arith,
          get_or_zero-insert ab1 (asset_key to plp) back k,
          get_or_zero-insert ab k left k,
          eq_iff from from,
          eq_iff k.1 k.1,
          eq_iff to from,
          full,
          empty,
        ),
      )
