-- ===== src/State/Transfer.antt =====
-- What one transfer does to the accounts it names, and when it is refused.
use platarium_core.Base.{ℕ, ◌+◌, ◌<◌, ◌≡◌, ◌≢◌, ◌↔◌, ap, Option, none, some, arith, u128_mod, ok}
use platarium_core.Data.Ord.{string_eq, pair_eq}
use platarium_core.Data.Map.{get_or_zero}
use platarium_core.Asset.{Asset, plp, token}
use platarium_core.State.{
  State, Address, asset_key, transfer_effects, apply_transfer, check_transfer,
}
use platarium_core.State.Conservation.{Affords, check_transfer-Affords}

-- The nonce that a caller expects, if any, is the sender's.
abbrev pub NonceMatches : State → Address → Option ℕ → Type 0
NonceMatches s from none = Unit
NonceMatches s from (some n) = get_or_zero s.nonces from ≡ n

check_transfer-ok :
    (s : State) (from : Address) (asset : Asset) (amount fee : ℕ) (n : Option ℕ)
    → get_or_zero s.asset_balances (asset_key from plp) + 1 < u128_mod
    → fee < u128_mod
    → NonceMatches s from n
    → Affords s from asset amount fee
    → check_transfer s from asset amount fee n ≡ ok tt
unfolding check_transfer
check_transfer-ok s from plp amount fee none small small_fee m h = ground arith
check_transfer-ok s from plp amount fee (some n) small small_fee m h = ground arith
check_transfer-ok s from (token t) amount fee none small small_fee m h = ground arith
check_transfer-ok s from (token t) amount fee (some n) small small_fee m h = ground arith

check_transfer-NonceMatches :
    (s : State) (from : Address) (asset : Asset) (amount fee : ℕ) (n : Option ℕ)
    → check_transfer s from asset amount fee n ≡ ok tt
    → NonceMatches s from n
unfolding check_transfer
check_transfer-NonceMatches s from asset amount fee none h = tt
check_transfer-NonceMatches s from plp amount fee (some n) h = ground arith
check_transfer-NonceMatches s from (token t) amount fee (some n) h = ground arith

module _ (s : State) (from to : Address) (asset : Asset) (amount fee : ℕ) (n : Option ℕ) where
  pub apply_transfer-ok :
      check_transfer s from asset amount fee n ≡ ok tt
      → apply_transfer s from to asset amount fee n
        ≡ (transfer_effects s from to asset amount fee n, ok tt)
  unfolding apply_transfer
  apply_transfer-ok h = ground (arith, h)

  pub apply_transfer-ok_inv :
      (apply_transfer s from to asset amount fee n).1 ≡ ok tt
      → check_transfer s from asset amount fee n ≡ ok tt
  unfolding apply_transfer
  apply_transfer-ok_inv h = ground arith

  -- A transfer succeeds exactly when the expected nonce, if any, is the sender's, and the sender
  -- can pay: the amount together with the part of the fee that the μPLP pool does not cover. The
  -- sender's PLP balance must lie below the largest 128-bit number, and the fee be a 128-bit number.
  pub apply_transfer_iff :
      get_or_zero s.asset_balances (asset_key from plp) + 1 < u128_mod
      → fee < u128_mod
      → ((apply_transfer s from to asset amount fee n).1 ≡ ok tt)
        ↔ (NonceMatches s from n × Affords s from asset amount fee)
  apply_transfer_iff small small_fee = (
    λ h. (
      check_transfer-NonceMatches s from asset amount fee n (apply_transfer-ok_inv h),
      check_transfer-Affords s from asset amount fee n small (apply_transfer-ok_inv h),
    ),
    λ h.
        ap (λ r. r.1)
          (apply_transfer-ok (check_transfer-ok s from asset amount fee n small small_fee h.0 h.1)),
  )

  -- A transfer that is refused changes nothing.
  pub apply_transfer_err :
      (apply_transfer s from to asset amount fee n).1 ≢ ok tt
      → (apply_transfer s from to asset amount fee n).0 ≡ s
  unfolding apply_transfer
  apply_transfer_err h = ground arith
