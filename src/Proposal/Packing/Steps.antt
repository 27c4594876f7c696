-- ===== src/Proposal/Packing/Steps.antt =====
-- src/core/block_proposal.rs: one round of the selection.
use platarium_core.Base.{◌+◌, ◌≤◌, ◌≡◌, refl, true, false, List, [], ◌∷◌, length, leb, arith}
use platarium_core.Data.Ord.{string_eq}
use platarium_core.Json.{Json}
use platarium_core.Proposal.{
  MempoolSnapshotEntry, fee_uplp_u64, block_gas_cap_uplp, block_max_tx_count,
}
use platarium_core.Proposal.Packing.{Selection, take_entry, wrong_nonce, over_cap, select_loop}

module _ {Value : Type 0} (j : Json Value) where
  pub taken_gas :
      (st : Selection) (e : MempoolSnapshotEntry Value)
      → over_cap j st e ≡ false
      → ((take_entry j st e).gas_used ≡ st.gas_used + fee_uplp_u64 j e.tx)
        × (st.gas_used + fee_uplp_u64 j e.tx ≤ block_gas_cap_uplp)
  taken_gas st e h = (ground (arith, h), ground (arith, h))

  pub select_loop-stop :
      (st : Selection) (pool : List (MempoolSnapshotEntry Value))
      → leb block_max_tx_count (length st.hashes) ≡ true
      → select_loop j st pool ≡ st
  unfolding select_loop
  select_loop-stop st [] h = refl
  select_loop-stop st (e ∷ es) h = rw h refl

  module _ (st : Selection) (e : MempoolSnapshotEntry Value)
      (es : List (MempoolSnapshotEntry Value)) where
    pub select_loop-skip_nonce :
        leb block_max_tx_count (length st.hashes) ≡ false
        → wrong_nonce j st e ≡ true
        → select_loop j st (e ∷ es) ≡ select_loop j st es
    unfolding select_loop
    select_loop-skip_nonce h k = rw (h, k) refl

    pub select_loop-skip_gas :
        leb block_max_tx_count (length st.hashes) ≡ false
        → wrong_nonce j st e ≡ false
        → over_cap j st e ≡ true
        → select_loop j st (e ∷ es) ≡ select_loop j st es
    unfolding select_loop
    select_loop-skip_gas h k l = rw (h, k, l) refl

    pub select_loop-take :
        leb block_max_tx_count (length st.hashes) ≡ false
        → wrong_nonce j st e ≡ false
        → over_cap j st e ≡ false
        → select_loop j st (e ∷ es) ≡ select_loop j (take_entry j st e) es
    unfolding select_loop
    select_loop-take h k l = rw (h, k, l) refl
