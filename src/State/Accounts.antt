-- ===== src/State/Accounts.antt =====
-- The accounts after a transfer that succeeds: who pays, who is paid, and who is left alone.
use text.Mathlib.TextEquality.{eq_iff}
use platarium_core.Base.{
  ℕ, ◌+◌, ◌-◌, ◌%◌, ◌<◌, ◌≡◌, ◌≢◌, Option, some, arith, if◌then◌else◌, u64_mod, u128_mod, ok, err,
  invalid_nonce,
}
use platarium_core.Data.Ord.{string_eq, pair_eq}
use platarium_core.Data.Map.{get_or_zero-insert}
use platarium_core.Asset.{Asset, plp, is_plp, as_canonical}
use platarium_core.State.{
  State, Address, treasury_address, asset_key, get_asset_balance, get_uplp_balance, get_nonce,
  debit, bump_nonce, fee_plp_used, transfer_effects, apply_transfer,
}
use platarium_core.State.Conservation.{check_transfer-Affords}
use platarium_core.State.Transfer.{apply_transfer-ok, apply_transfer-ok_inv}
use platarium_core.State.Balances.{
  debit_self, debit-others, credit_lem, charge_fee_others, charge_fee_lem, bump_nonce_others,
  apply_transfer-wrong_nonce,
}

module _ (s : State) (from to : Address) (asset : Asset) (amount fee : ℕ) (n : Option ℕ) where
  -- A transfer between two addresses that succeeds takes from the sender the amount, and of PLP
  -- also the part of the fee that the μPLP pool did not cover, and gives the receiver the amount.
  -- The balances read must lie below the largest 128-bit number, also with the amount received.
  pub apply_transfer_moves :
      from ≢ to
      → get_asset_balance s from plp + 1 < u128_mod
      → get_asset_balance s from asset < u128_mod
      → get_asset_balance s to asset + amount < u128_mod
      → (apply_transfer s from to asset amount fee n).1 ≡ ok tt
      → let s' = (apply_transfer s from to asset amount fee n).0 in
        (get_asset_balance s' from asset
            + amount
            + (if is_plp asset then fee_plp_used s from fee else 0)
          ≡ get_asset_balance s from asset)
        × (get_asset_balance s' to asset ≡ get_asset_balance s to asset + amount)
  unfolding get_asset_balance transfer_effects
  apply_transfer_moves ne small_plp small small_to h =
      let ab = s.asset_balances in
      let f = fee_plp_used s from fee in
      let passed = apply_transfer-ok_inv s from to asset amount fee n h in
      let affords = check_transfer-Affords s from asset amount fee n small_plp passed in
      rw (apply_transfer-ok s from to asset amount fee n passed) (
        ground (
          arith,
          debit_self ab from amount f asset,
          credit_lem (debit ab from asset amount f) to asset amount (asset_key from asset),
          affords,
          eq_iff to from,
          ne,
        ),
        ground (
          arith,
          debit-others ab from amount f asset (asset_key to asset),
          credit_lem (debit ab from asset amount f) to asset amount (asset_key to asset),
          eq_iff to to,
          eq_iff (as_canonical asset) (as_canonical asset),
          ne,
        ),
      )

  -- An address that neither sends nor receives, and is not the treasury, keeps its balance of
  -- every asset, its μPLP balance and its nonce, whether the transfer succeeds or fails.
  pub apply_transfer_others :
      (other : Address) (a : Asset)
      → other ≢ from
      → other ≢ to
      → other ≢ treasury_address
      → let s' = (apply_transfer s from to asset amount fee n).0 in
        (get_asset_balance s' other a ≡ get_asset_balance s other a)
        × (get_uplp_balance s' other ≡ get_uplp_balance s other)
        × (get_nonce s' other ≡ get_nonce s other)
  unfolding get_asset_balance get_nonce get_uplp_balance apply_transfer transfer_effects
  apply_transfer_others other a nf nt ntr =
      let ab = s.asset_balances in
      let f = fee_plp_used s from fee in
      (
        ground (
          arith,
          debit-others ab from amount f asset (asset_key other a) nf,
          credit_lem (debit ab from asset amount f) to asset amount (asset_key other a),
          eq_iff to other,
          nt,
        ),
        ground (arith, charge_fee_others s.uplp_balances from fee other nf ntr),
        ground (arith, bump_nonce_others s.nonces from n other nf),
      )

  -- A transfer that succeeds takes from the sender's μPLP pool what PLP does not pay of the fee,
  -- and pays the whole fee to the treasury. The treasury is not the sender, and does not overflow.
  pub apply_transfer_fee :
      from ≢ treasury_address
      → get_uplp_balance s treasury_address + fee < u128_mod
      → (apply_transfer s from to asset amount fee n).1 ≡ ok tt
      → let s' = (apply_transfer s from to asset amount fee n).0 in
        (get_uplp_balance s' from + (fee - fee_plp_used s from fee) ≡ get_uplp_balance s from)
        × (get_uplp_balance s' treasury_address ≡ get_uplp_balance s treasury_address + fee)
  unfolding get_uplp_balance transfer_effects
  apply_transfer_fee nt small h =
      rw
        (apply_transfer-ok s from to asset amount fee n
          (apply_transfer-ok_inv s from to asset amount fee n h))
        (charge_fee_lem s.uplp_balances from fee nt small)

-- A transfer that succeeded with an expected nonce cannot be applied again with that nonce: the
-- sender's nonce has moved on by one, so any transfer that expects the old one is refused.
pub apply_transfer_replay :
    (s : State) (from to to' : Address) (asset asset' : Asset) (amount amount' fee fee' n : ℕ)
    → n < u64_mod
    → (apply_transfer s from to asset amount fee (some n)).1 ≡ ok tt
    → let s' = (apply_transfer s from to asset amount fee (some n)).0 in
      apply_transfer s' from to' asset' amount' fee' (some n)
      ≡ (s', err (invalid_nonce n ((n + 1) % u64_mod)))
unfolding transfer_effects bump_nonce
apply_transfer_replay s from to to' asset asset' amount amount' fee fee' n small h =
    rw
      (apply_transfer-ok s from to asset amount fee (some n)
        (apply_transfer-ok_inv s from to asset amount fee (some n) h))
      (apply_transfer-wrong_nonce _ from to' asset' amount' fee' n ((n + 1) % u64_mod)
        (ground
          (arith, get_or_zero-insert s.nonces from ((n + 1) % u64_mod) from, eq_iff from from))
        (omega arith))
