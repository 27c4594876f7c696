-- ===== src/StateFile/RoundTrip.antt =====
-- src/core/state_file.rs: saving a state and loading it gives every balance and nonce back.
use mathlib.Core.List.Permᴰ
use Prim.Native.String.{String}
use platarium_core.Base.{ℕ, ◌<◌, ◌≡◌, ◌∙◌, refl, ap, [], ◌∷◌, map, All, u128_mod, Result, ok, ◌>>=◌}
use platarium_core.Data.Ord.{Ord, string_eq, string_ord, pair_eq, pair_ord}
use platarium_core.Data.Map.{HashMap, insert}
use platarium_core.Data.Sort.{sort_by}
use platarium_core.Data.Sort.Order.{sort_by-Perm, All-perm}
use platarium_core.Data.Rebuild.{insert_all, sort_by-map, get_or_zero-insert_all_perm}
use platarium_core.Asset.{Asset, as_canonical}
use platarium_core.State.{
  State, Address, new, asset_key, get_asset_balance, get_uplp_balance, get_nonce, set_asset_balance,
  set_uplp_balance, set_nonce,
}
use platarium_core.State.Snapshot.{create_snapshot}
use platarium_core.State.WellFormed.{IsWellFormed}
use platarium_core.Transaction.Gateway.{parse_canonical}
use platarium_core.StateFile.{
  asset_row, asset_row_key, uplp_row, from_state, into_state, read_asset_balances,
  read_uplp_balances, read_nonces,
}
use platarium_core.StateFile.Decimals.{parse_balance-to_decimal}

-- Each asset is held under its canonical text, as every write of the state holds it.
abbrev pub HasCanonicalAssets : State → Type 0
HasCanonicalAssets s = All (λ e. as_canonical (parse_canonical e.0.1) ≡ e.0.1) s.asset_balances

-- The loops of `into_state` on rows that were written
read_asset_balances-rows :
    (s : State) (rows : HashMap (Address × String) ℕ)
    → All (λ e. e.1 < u128_mod) rows
    → All (λ e. as_canonical (parse_canonical e.0.1) ≡ e.0.1) rows
    → read_asset_balances s (map asset_row rows)
      ≡ ok (record s { asset_balances = insert_all s.asset_balances rows })
unfolding read_asset_balances set_asset_balance
read_asset_balances-rows s [] small canonical = refl
read_asset_balances-rows s (((addr, asset), bal) ∷ rows) (h, small) (k, canonical) =
    let s' = set_asset_balance s addr (parse_canonical asset) bal in
    ap
      (λ r. r >>= λ b.
        read_asset_balances (set_asset_balance s addr (parse_canonical asset) b)
          (map asset_row rows))
      (parse_balance-to_decimal bal h)
    ∙ read_asset_balances-rows s' rows small canonical
    ∙ ap
        (λ text. ok (record s {
          asset_balances = insert_all (insert s.asset_balances (addr, text) bal) rows;
        }))
        k

read_uplp_balances-rows :
    (s : State) (rows : HashMap Address ℕ)
    → All (λ e. e.1 < u128_mod) rows
    → read_uplp_balances s (map uplp_row rows)
      ≡ ok (record s { uplp_balances = insert_all s.uplp_balances rows })
unfolding read_uplp_balances set_uplp_balance
read_uplp_balances-rows s [] small = refl
read_uplp_balances-rows s ((addr, bal) ∷ rows) (h, small) =
    ap (λ r. r >>= λ b. read_uplp_balances (set_uplp_balance s addr b) (map uplp_row rows))
      (parse_balance-to_decimal bal h)
    ∙ read_uplp_balances-rows (set_uplp_balance s addr bal) rows small

read_nonces-rows :
    (s : State) (rows : HashMap Address ℕ)
    → read_nonces s rows ≡ record s { nonces = insert_all s.nonces rows }
unfolding read_nonces set_nonce
read_nonces-rows s [] = refl
read_nonces-rows s ((addr, n) ∷ rows) = read_nonces-rows (set_nonce s addr n) rows

-- The state that is loaded: each map rebuilt from its sorted rows
abbrev rebuilt : State → State
rebuilt s = record {
  asset_balances = insert_all [] (sort_by (λ e. e.0) s.asset_balances);
  uplp_balances = insert_all [] (sort_by (λ e. e.0) s.uplp_balances);
  nonces = insert_all [] (sort_by (λ e. e.0) s.nonces);
}

module _ {K : Type 0} ⦃o : Ord K⦄ (P : K × ℕ → Type 0) where
  sorted-All : (m : HashMap K ℕ) → All P m → All P (sort_by (λ e. e.0) m)
  sorted-All m h = All-perm (λ e. e.0) P (Permᴰ.symm (sort_by-Perm (λ e. e.0) m)) h

bind-ok : {A B : Type 0} {r : Result A} {a : A} (f : A → Result B) → r ≡ ok a → (r >>= f) ≡ f a
bind-ok f h = ap (λ r. r >>= f) h

into_state-rebuilt :
    (s : State) → IsWellFormed s → HasCanonicalAssets s → into_state (from_state s) ≡ ok (rebuilt s)
unfolding into_state from_state create_snapshot
into_state-rebuilt s wf canonical =
    let assets = sort_by (λ e. e.0) s.asset_balances in
    let uplp = sort_by (λ e. e.0) s.uplp_balances in
    let s1 : State = record new { asset_balances = insert_all [] assets } in
    let s2 : State = record s1 { uplp_balances = insert_all [] uplp } in
    bind-ok
      (λ t. read_uplp_balances t (from_state s).uplp_balances >>= λ u.
        ok (read_nonces u (from_state s).nonces))
      (ap (read_asset_balances new) (sort_by-map asset_row_key asset_row s.asset_balances)
        ∙ read_asset_balances-rows new assets
            (sorted-All (λ e. e.1 < u128_mod) s.asset_balances wf.assets.1)
            (sorted-All (λ e. as_canonical (parse_canonical e.0.1) ≡ e.0.1) s.asset_balances
              canonical))
    ∙ bind-ok (λ u. ok (read_nonces u (from_state s).nonces))
        (ap (read_uplp_balances s1) (sort_by-map (λ r. r.0) uplp_row s.uplp_balances)
          ∙ read_uplp_balances-rows s1 uplp
              (sorted-All (λ e. e.1 < u128_mod) s.uplp_balances wf.uplp.1))
    ∙ ap ok (read_nonces-rows s2 (sort_by (λ e. e.0) s.nonces))

-- A well-formed state whose assets are canonical is loaded from the file it was saved in: loading
-- succeeds, and every balance, μPLP balance and nonce is as it was.
pub into_state-from_state :
    (s : State)
    → IsWellFormed s
    → HasCanonicalAssets s
    → (loaded : State) × (into_state (from_state s) ≡ ok loaded)
      × ((address : Address) (asset : Asset)
          → get_asset_balance loaded address asset ≡ get_asset_balance s address asset)
      × ((address : Address) → get_uplp_balance loaded address ≡ get_uplp_balance s address)
      × ((address : Address) → get_nonce loaded address ≡ get_nonce s address)
unfolding get_asset_balance get_uplp_balance get_nonce
into_state-from_state s wf canonical = (
  rebuilt s,
  into_state-rebuilt s wf canonical,
  λ address asset.
      get_or_zero-insert_all_perm s.asset_balances _ (sort_by-Perm (λ e. e.0) s.asset_balances)
        wf.assets.0 (asset_key address asset),
  λ address.
      get_or_zero-insert_all_perm s.uplp_balances _ (sort_by-Perm (λ e. e.0) s.uplp_balances)
        wf.uplp.0 address,
  λ address.
      get_or_zero-insert_all_perm s.nonces _ (sort_by-Perm (λ e. e.0) s.nonces) wf.nonces.0 address,
)
