-- ===== src/State/WellFormed.antt =====
-- The state that a node keeps: proper maps, with balances of 128 bits and nonces of 64.
use Prim.Native.String.{String}
use platarium_core.Base.{
  ℕ, ◌<◌, Option, none, some, [], ◌∷◌, arith, ltb, u64_mod, u128_mod, Result, ok, err, Bool-cases,
  inl, inr, All,
}
use platarium_core.Data.Ord.{Eq, string_eq, pair_eq}
use platarium_core.Data.Map.{HashMap, insert, get_or_zero, IsMap, insert-IsMap}
use platarium_core.Asset.{Asset, plp, token}
use platarium_core.State.{
  State, Address, treasury_address, asset_key, charge_fee, debit, credit, bump_nonce,
  transfer_effects, apply_transfer, check_transfer,
}

module _ {ℓ} {K : Type ℓ} ⦃e : Eq K⦄ (w : ℕ) where
  -- A map with one entry for a key, whose values lie below `w`.
  abbrev pub IsBounded : HashMap K ℕ → Type 0
  IsBounded m = IsMap m × All (λ x. x.1 < w) m

  insert-Below :
      (m : HashMap K ℕ) (k : K) (v : ℕ)
      → v < w
      → All (λ x. x.1 < w) m
      → All (λ x. x.1 < w) (insert m k v)
  insert-Below [] k v h a = (h, tt)
  insert-Below ((j, u) ∷ m) k v h a = ground (arith, insert-Below m k v h a.1)

  insert-IsBounded :
      (m : HashMap K ℕ) (k : K) (v : ℕ) → v < w → IsBounded m → IsBounded (insert m k v)
  insert-IsBounded m k v h b = (insert-IsMap m k v b.0, insert-Below m k v h b.1)

  get_or_zero-lt : (m : HashMap K ℕ) (k : K) → 0 < w → All (λ x. x.1 < w) m → get_or_zero m k < w
  get_or_zero-lt [] k h a = h
  get_or_zero-lt ((j, u) ∷ m) k h a = ground (arith, get_or_zero-lt m k h a.1)

pub record IsWellFormed (s : State) : Type 0 where
  pub assets : IsBounded u128_mod s.asset_balances
  pub uplp : IsBounded u128_mod s.uplp_balances
  pub nonces : IsBounded u64_mod s.nonces

debit-IsBounded :
    (ab : HashMap (Address × String) ℕ) (from : Address) (asset : Asset) (amount fee : ℕ)
    → IsBounded u128_mod ab
    → IsBounded u128_mod (debit ab from asset amount fee)
unfolding debit
debit-IsBounded ab from plp amount fee h =
    insert-IsBounded u128_mod ab (asset_key from plp) _ (omega arith) h
debit-IsBounded ab from (token t) amount fee h = elim (Bool-cases (ltb 0 fee)) [
  | inl e ↦ rw e (
      insert-IsBounded u128_mod _ (asset_key from (token t)) _ (omega arith)
        (insert-IsBounded u128_mod ab (asset_key from plp) _ (omega arith) h))
  | inr e ↦ rw e (insert-IsBounded u128_mod ab (asset_key from (token t)) _ (omega arith) h)
]

charge_fee-IsBounded :
    (ub : HashMap Address ℕ) (from : Address) (fee : ℕ)
    → IsBounded u128_mod ub
    → IsBounded u128_mod (charge_fee ub from fee)
unfolding charge_fee
charge_fee-IsBounded ub from fee h = insert-IsBounded u128_mod _ treasury_address _ (omega arith) (
    insert-IsBounded u128_mod ub from _
      (omega (arith, get_or_zero-lt u128_mod ub from (omega arith) h.1)) h)

bump_nonce-IsBounded :
    (nonces : HashMap Address ℕ) (from : Address) (n : Option ℕ)
    → IsBounded u64_mod nonces
    → IsBounded u64_mod (bump_nonce nonces from n)
unfolding bump_nonce
bump_nonce-IsBounded nonces from none h = h
bump_nonce-IsBounded nonces from (some n) h = insert-IsBounded u64_mod nonces from _ (omega arith) h

transfer_effects-IsWellFormed :
    (s : State) (from to : Address) (asset : Asset) (amount fee : ℕ) (n : Option ℕ)
    → IsWellFormed s
    → IsWellFormed (transfer_effects s from to asset amount fee n)
unfolding transfer_effects credit
transfer_effects-IsWellFormed s from to asset amount fee n h = record {
  assets =
      insert-IsBounded u128_mod _ (asset_key to asset) _ (omega arith)
        (debit-IsBounded s.asset_balances from asset amount _ h.assets);
  uplp = charge_fee-IsBounded s.uplp_balances from fee h.uplp;
  nonces = bump_nonce-IsBounded s.nonces from n h.nonces;
}

-- Whatever a transfer does, arithmetic that wraps included, the state stays well formed.
pub apply_transfer-IsWellFormed :
    (s : State) (from to : Address) (asset : Asset) (amount fee : ℕ) (n : Option ℕ)
    → IsWellFormed s
    → IsWellFormed (apply_transfer s from to asset amount fee n).0
unfolding apply_transfer
apply_transfer-IsWellFormed s from to asset amount fee n h =
    elim (check_transfer s from asset amount fee n)
      as (λ r.
        IsWellFormed
          (elim r as (λ x. State × Result (Unit {0})) [
            | ok _ ↦ (transfer_effects s from to asset amount fee n, ok tt)
            | err e ↦ (s, err e)
          ]).0) [ ok _ ↦ transfer_effects-IsWellFormed s from to asset amount fee n h | err e ↦ h ]
