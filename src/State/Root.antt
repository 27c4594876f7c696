-- ===== src/State/Root.antt =====
-- src/core/state.rs: what the state root depends on. A `HashMap` iterates in no fixed order, and
-- the root sorts before it hashes.
use mathlib.Core.Path.{subst}
use mathlib.Core.List.{Permᴰ}
use Prim.Native.String.{String}
use text.Mathlib.TextEquality.{eq_iff}
use platarium_core.Base.{
  ℕ, ◌≡◌, ◌≢◌, refl, false, List, [], ◌∷◌, map, arith, filter, All, Bool-cases, inl, inr,
}
use platarium_core.Data.Ord.{◌==◌, string_eq, pair_eq, string_ord}
use platarium_core.Data.Map.{HashMap, IsMap, contains_key, insert}
use platarium_core.Data.Perm.{map-perm, filter-perm}
use platarium_core.Data.Sort.Order.{HasDistinctKeys, sort_by-perm}
use platarium_core.Asset.{token, plp, as_canonical, is_plp-canonical}
use platarium_core.State.{State, Address, set_asset_balance, set_uplp_balance}
use platarium_core.State.Snapshot.{
  StateSnapshot, create_snapshot, is_plp_entry, address_balance, compute_state_root,
}

plp_addresses-ne :
    (m : HashMap (Address × String) ℕ) (a : Address)
    → contains_key m (a, as_canonical plp) ≡ false
    → All (λ (y : Address × ℕ). a ≢ y.0) (map address_balance (filter is_plp_entry m))
plp_addresses-ne [] a h = tt
plp_addresses-ne (((a', c'), w) ∷ m) a h = elim (Bool-cases (c' == as_canonical plp)) [
  | inl e ↦ rw e (
    (λ q. ground (arith, eq_iff a' a, eq_iff c' (as_canonical plp), h, e, q)),
    plp_addresses-ne m a (ground (arith, h)),
  )
  | inr e ↦ rw e (plp_addresses-ne m a (ground (arith, h)))
]

plp_balances-HasDistinctKeys :
    (m : HashMap (Address × String) ℕ)
    → IsMap m
    → HasDistinctKeys (λ (e : Address × ℕ). e.0) (map address_balance (filter is_plp_entry m))
plp_balances-HasDistinctKeys [] h = tt
plp_balances-HasDistinctKeys (((a, c), w) ∷ m) h = elim (Bool-cases (c == as_canonical plp)) [
  | inl e ↦ rw e (
    plp_addresses-ne m a
        (subst (λ d. contains_key m (a, d) ≡ false) ((eq_iff c (as_canonical plp)).0 e) h.0),
    plp_balances-HasDistinctKeys m h.1,
  )
  | inr e ↦ rw e (plp_balances-HasDistinctKeys m h.1)
]

keys-ne :
    (m : HashMap Address ℕ) (a : Address)
    → contains_key m a ≡ false
    → All (λ (y : Address × ℕ). a ≢ y.0) m
keys-ne [] a h = tt
keys-ne ((j, w) ∷ m) a h =
    ((λ q. ground (arith, eq_iff j a, h, q)), keys-ne m a (ground (arith, h)))

IsMap-HasDistinctKeys :
    (m : HashMap Address ℕ) → IsMap m → HasDistinctKeys (λ (e : Address × ℕ). e.0) m
IsMap-HasDistinctKeys [] h = tt
IsMap-HasDistinctKeys ((k, v) ∷ m) h = (keys-ne m k h.0, IsMap-HasDistinctKeys m h.1)

-- Two snapshots that hold the same entries have the same state root, in whatever order their maps
-- iterate.
pub compute_state_root-perm :
    (sha256_hex : List ℕ → String) (s t : StateSnapshot)
    → IsMap s.asset_balances
    → IsMap s.nonces
    → Permᴰ s.asset_balances t.asset_balances
    → Permᴰ s.nonces t.nonces
    → compute_state_root sha256_hex s ≡ compute_state_root sha256_hex t
unfolding compute_state_root
compute_state_root-perm sha256_hex s t ms mn pb pn = rw (
  sort_by-perm (λ (e : Address × ℕ). e.0) (map-perm address_balance (filter-perm is_plp_entry pb))
      (plp_balances-HasDistinctKeys s.asset_balances ms),
  sort_by-perm (λ (e : Address × ℕ). e.0) pn (IsMap-HasDistinctKeys s.nonces mn),
)

filter-insert_token :
    (m : HashMap (Address × String) ℕ) (a : Address) (t : String) (v : ℕ)
    → filter is_plp_entry (insert m (a, as_canonical (token t)) v) ≡ filter is_plp_entry m
filter-insert_token [] a t v = ground (arith, is_plp-canonical (token t))
filter-insert_token (((a', c'), w) ∷ m) a t v = ground (
  arith,
  is_plp-canonical (token t),
  eq_iff c' (as_canonical (token t)),
  filter-insert_token m a t v,
)

-- The state root says nothing of the balances of tokens, nor of the μPLP pool: writing either
-- leaves it as it was.
pub compute_state_root-blind :
    (sha256_hex : List ℕ → String) (s : State) (a : Address) (t : String) (v : ℕ)
    → (compute_state_root sha256_hex (create_snapshot (set_asset_balance s a (token t) v))
        ≡ compute_state_root sha256_hex (create_snapshot s))
      × (compute_state_root sha256_hex (create_snapshot (set_uplp_balance s a v))
          ≡ compute_state_root sha256_hex (create_snapshot s))
unfolding compute_state_root create_snapshot set_asset_balance set_uplp_balance
compute_state_root-blind sha256_hex s a t v =
    (rw (filter-insert_token s.asset_balances a t v), refl)
