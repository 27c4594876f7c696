-- ===== src/Tests/Ledger.antt =====
-- The ledger's theorems at concrete transfers.
use mathlib.Core.List.Permᴰ
use Prim.Native.String.{String}
use text.Mathlib.Text.{◌==◌ as str_eq}
use text.Mathlib.TextEquality.{eq_iff}
use platarium_core.Base.{
  ℕ, ◌+◌, ◌-◌, ◌<◌, ◌≡◌, ◌≢◌, ◌↔◌, refl, arith, false, none, some, List, [], ◌∷◌, u128_mod,
  if◌then◌else◌, Result, ok, err, insufficient_balance,
}
use platarium_core.Asset.{plp, token, as_canonical, is_plp}
use platarium_core.State.{
  State, get_asset_balance, get_uplp_balance, get_nonce, apply_transfer, fee_plp_used,
  set_asset_balance, set_uplp_balance, check_transfer, transfer_effects, credit, debit, charge_fee,
  bump_nonce, Address,
}
use platarium_core.State.Snapshot.{StateSnapshot, create_snapshot, compute_state_root}
use platarium_core.State.Conservation.{supply, Affords, apply_transfer-supply}
use platarium_core.State.Transfer.{NonceMatches, apply_transfer_iff}
use platarium_core.State.Accounts.{apply_transfer_moves, apply_transfer_others}
use platarium_core.State.Overdraft.{apply_transfer_overdraft}
use platarium_core.State.Root.{compute_state_root-perm, compute_state_root-blind}
use platarium_core.Tests.Fixtures.{ledger}

abbrev paid : State × Result (Unit {0})
unfolding apply_transfer
paid = apply_transfer ledger "alice" "bob" plp 100 6 (some 7)

-- Alice pays 100 and the part of the fee that her pool does not cover.
paid_test :
    (paid.1 ≡ ok tt)
    × (get_asset_balance paid.0 "alice" plp ≡ 898)
    × (get_asset_balance paid.0 "bob" plp ≡ 150)
    × (get_uplp_balance paid.0 "treasury" ≡ 6)
    × (get_nonce paid.0 "alice" ≡ 8)
unfolding paid get_asset_balance get_uplp_balance get_nonce check_transfer as_canonical
    transfer_effects credit debit charge_fee bump_nonce
paid_test = (refl, refl, refl, refl, refl)

-- She cannot pay more than she has.
overspent_test :
    (apply_transfer ledger "alice" "bob" plp 999 6 (some 7)).1
    ≡ err (insufficient_balance 1_001 1_000)
unfolding apply_transfer check_transfer as_canonical
overspent_test = refl

refused : (apply_transfer ledger "alice" "bob" plp 999 6 (some 7)).1 ≢ ok tt
unfolding apply_transfer check_transfer as_canonical
refused h = ground (arith, h)

alice-ne-bob : ◌≢◌ {A = Address} "alice" "bob"
alice-ne-bob h = ground (arith, (eq_iff "alice" "bob").1 h)

bob-ne : (s : String) → (str_eq "bob" s ≡ false) → "bob" ≢ s
bob-ne s e h = ground (arith, (eq_iff "bob" s).1 h, e)

is_paid : (apply_transfer ledger "alice" "bob" plp 100 6 (some 7)).1 ≡ ok tt
unfolding paid
is_paid = paid_test.0

apply_transfer-supply_example :
    supply (apply_transfer ledger "alice" "bob" plp 100 6 (some 7)).0 plp ≡ supply ledger plp
unfolding as_canonical
apply_transfer-supply_example =
    apply_transfer-supply ledger "alice" "bob" plp 100 6 (some 7) plp (omega arith) (omega arith)

apply_transfer_iff_example :
    ((apply_transfer ledger "alice" "bob" (token "usd") 300 6 (some 7)).1 ≡ ok tt)
    ↔ (NonceMatches ledger "alice" (some 7) × Affords ledger "alice" (token "usd") 300 6)
unfolding as_canonical
apply_transfer_iff_example =
    apply_transfer_iff ledger "alice" "bob" (token "usd") 300 6 (some 7) (omega arith) (omega arith)

apply_transfer_moves_example :
    let s' = (apply_transfer ledger "alice" "bob" plp 100 6 (some 7)).0 in
    (get_asset_balance s' "alice" plp
        + 100
        + (if is_plp plp then fee_plp_used ledger "alice" 6 else 0)
      ≡ get_asset_balance ledger "alice" plp)
    × (get_asset_balance s' "bob" plp ≡ get_asset_balance ledger "bob" plp + 100)
unfolding as_canonical get_asset_balance
apply_transfer_moves_example =
    apply_transfer_moves ledger "alice" "bob" plp 100 6 (some 7) alice-ne-bob (omega arith)
      (omega arith) (omega arith) is_paid

apply_transfer_others_example :
    let s' = (apply_transfer ledger "alice" "carol" plp 100 6 (some 7)).0 in
    (get_asset_balance s' "bob" plp ≡ get_asset_balance ledger "bob" plp)
    × (get_uplp_balance s' "bob" ≡ get_uplp_balance ledger "bob")
    × (get_nonce s' "bob" ≡ get_nonce ledger "bob")
apply_transfer_others_example =
    apply_transfer_others ledger "alice" "carol" plp 100 6 (some 7) "bob" plp (bob-ne "alice" refl)
      (bob-ne "carol" refl) (bob-ne "treasury" refl)

abbrev hoard : State
hoard = record {
  asset_balances = (("alice", "PLP"), u128_mod - 1) ∷ [];
  uplp_balances = [];
  nonces = [];
}

apply_transfer_overdraft_example :
    let (s', r) = apply_transfer hoard "alice" "bob" plp (u128_mod - 1) 1 none in
    (r ≡ ok tt)
    × (get_asset_balance hoard "alice" plp < u128_mod - 1 + 1)
    × (get_asset_balance s' "alice" plp + (u128_mod - 1) + 1
        ≡ get_asset_balance hoard "alice" plp + u128_mod)
unfolding as_canonical get_asset_balance get_uplp_balance
apply_transfer_overdraft_example =
    apply_transfer_overdraft hoard "alice" "bob" (u128_mod - 1) 1 none alice-ne-bob refl refl
      (omega arith) (omega arith) (omega arith) tt

abbrev reordered : StateSnapshot
reordered = record {
  asset_balances =
      (("bob", "PLP"), 50) ∷ (("alice", "PLP"), 1_000) ∷ (("alice", "Token:usd"), 300) ∷ [];
  uplp_balances = ("alice", 4) ∷ [];
  nonces = ("alice", 7) ∷ [];
}

abbrev constant_hash : List ℕ → String
constant_hash bytes = "00"

compute_state_root-perm_example :
    compute_state_root constant_hash (create_snapshot ledger)
    ≡ compute_state_root constant_hash reordered
unfolding create_snapshot
compute_state_root-perm_example =
    compute_state_root-perm constant_hash (create_snapshot ledger) reordered
      (refl, (refl, (refl, tt))) (refl, tt) (Permᴰ.swap refl refl) (Permᴰ.refl _)

compute_state_root-blind_example :
    (compute_state_root constant_hash
        (create_snapshot (set_asset_balance ledger "bob" (token "usd") 9))
      ≡ compute_state_root constant_hash (create_snapshot ledger))
    × (compute_state_root constant_hash (create_snapshot (set_uplp_balance ledger "bob" 9))
        ≡ compute_state_root constant_hash (create_snapshot ledger))
compute_state_root-blind_example = compute_state_root-blind constant_hash ledger "bob" "usd" 9
