-- ===== src/Proposal/Status/Progress.antt =====
-- src/core/block_proposal.rs: a pool with a transaction that can be packed leads to a block.
use Prim.Native.String.{String}
use platarium_core.Base.{
  ℕ, zero, suc, ◌+◌, ◌<◌, ◌≤◌, ◌≡◌, ap, ◌∙◌, refl, ◌⊎◌, inl, inr, true, false, List, [], ◌∷◌,
  length, length-append, ltb, u64_mod, arith, sum_by, Bool-cases,
}
use platarium_core.Data.Int.{ℤ, pos, negsuc, le_int}
use platarium_core.Data.Sublist.{IsSublist, keep, skip, All-member}
use platarium_core.Json.{Json}
use platarium_core.State.{State, get_nonce}
use platarium_core.Proposal.{MempoolSnapshotEntry, fee_uplp_u64, block_gas_cap_uplp}
use platarium_core.Proposal.Packing.{
  Selection, chain_nonces, take_entry, wrong_nonce, over_cap, select_loop, select_block_txs,
}
use platarium_core.Proposal.Packing.Senders.{Knows, chain_nonces-Knows}
use platarium_core.Proposal.Status.{
  wait_since, older, time_of, oldest_time, oldest_wait_sec, sum_fee_uplp, block_proposal_status,
}

older_lem :
    (a : ℕ) (ts : ℤ) → (b : ℕ) × (older (pos a) ts ≡ pos b) × ((a ≡ 0) ⊎ ((0 < b) × (b ≤ a)))
older_lem zero (negsuc t) = (0, refl, inl refl)
older_lem (suc a) (negsuc t) = (suc a, refl, inr (omega arith, omega arith))
older_lem zero (pos zero) = (0, refl, inl refl)
older_lem (suc a) (pos zero) = (suc a, refl, inr (omega arith, omega arith))
older_lem zero (pos (suc t)) = (suc t, ground arith, inl refl)
older_lem (suc a) (pos (suc t)) = elim (Bool-cases (ltb (suc t) (suc a))) [
  | inl l ↦ (suc t, ground (arith, l), inr (omega arith, ground (arith, l)))
  | inr g ↦ (suc a, ground (arith, g), inr (omega arith, omega arith))
]

-- A positive time bounds the oldest time from above.
older_bound : (a t : ℕ) → (b : ℕ) × (older (pos a) (pos (suc t)) ≡ pos b) × (0 < b) × (b ≤ suc t)
older_bound zero t = (suc t, ground arith, omega arith, omega arith)
older_bound (suc a) t = elim (Bool-cases (ltb (suc t) (suc a))) [
  | inl l ↦ (suc t, ground (arith, l), omega arith, omega arith)
  | inr g ↦ (suc a, ground (arith, g), omega arith, ground (arith, g))
]

wait_lem : (r now : ℕ) → 0 < r → r + 5 ≤ now → le_int (pos 5) (wait_since (pos r) (pos now)) ≡ true
wait_lem zero now p h = absurd (omega arith)
wait_lem (suc r) now p h = ground arith

module _ {Value : Type 0} where
  oldest_time-le :
      (pool : List (MempoolSnapshotEntry Value)) (a : ℕ)
      → (r : ℕ) × (oldest_time (pos a) pool ≡ pos r) × ((a ≡ 0) ⊎ ((0 < r) × (r ≤ a)))
  unfolding oldest_time
  oldest_time-le [] zero = (0, refl, inl refl)
  oldest_time-le [] (suc a) = (suc a, refl, inr (omega arith, omega arith))
  oldest_time-le (e ∷ es) a =
      let (b, eq, bound) = older_lem a (time_of e) in
      let (r, eq', bound') = oldest_time-le es b in
      (r, ap (λ o. oldest_time o es) eq ∙ eq', ground (arith, bound, bound'))

  oldest_time-member :
      {e : MempoolSnapshotEntry Value} {pool : List (MempoolSnapshotEntry Value)}
      → IsSublist (e ∷ []) pool
      → (a t : ℕ) → time_of e ≡ pos (suc t)
      → (r : ℕ) × (oldest_time (pos a) pool ≡ pos r) × (0 < r) × (r ≤ suc t)
  unfolding oldest_time
  oldest_time-member {e = e} (keep {ys = es} rest) a t h =
      let (b, eq, positive, le) = older_bound a t in
      let (r, eq', bound) = oldest_time-le es b in
      (
        r,
        ap (λ o. oldest_time o es) (ap (older (pos a)) h ∙ eq) ∙ eq',
        ground (arith, bound),
        ground (arith, bound),
      )
  oldest_time-member (skip {y = y} {ys = es} rest) a t h =
      let (b, eq, bound) = older_lem a (time_of y) in
      let (r, eq', positive, le) = oldest_time-member rest b t h in
      (r, ap (λ o. oldest_time o es) eq ∙ eq', positive, le)

  member-nonempty :
      {e : MempoolSnapshotEntry Value} {pool : List (MempoolSnapshotEntry Value)}
      → IsSublist (e ∷ []) pool
      → 0 < length pool
  member-nonempty (keep rest) = omega arith
  member-nonempty (skip rest) = omega arith

  -- Where a pending transaction with a time has waited for 5 seconds or longer, the reported wait is
  -- at least 5 seconds, and a block is proposed whatever the fees are.
  pub waited-should_propose :
      (j : Json Value) (pool : List (MempoolSnapshotEntry Value)) (e : MempoolSnapshotEntry Value)
      (t now : ℕ)
      → IsSublist (e ∷ []) pool
      → time_of e ≡ pos (suc t)
      → suc t + 5 ≤ now
      → let status = block_proposal_status j pool (pos now) in
        (le_int (pos 5) status.oldest_mempool_wait_sec ≡ true) × (status.should_propose ≡ true)
  unfolding block_proposal_status oldest_wait_sec
  waited-should_propose j pool e t now member time waited =
      let (r, eq, positive, le) = oldest_time-member member 0 t time in
      let long : le_int (pos 5) (wait_since (oldest_time (pos 0) pool) (pos now)) ≡ true =
        ap (λ o. le_int (pos 5) (wait_since o (pos now))) eq
        ∙ wait_lem r now positive (omega arith) in
      (long, ground (arith, long, member-nonempty member))

  sum_fee_uplp-sum :
      (j : Json Value) (pool : List (MempoolSnapshotEntry Value))
      → sum_by (λ a. fee_uplp_u64 j a.tx) pool < u64_mod
      → sum_fee_uplp j pool ≡ sum_by (λ a. fee_uplp_u64 j a.tx) pool
  unfolding sum_fee_uplp
  sum_fee_uplp-sum j [] h = refl
  sum_fee_uplp-sum j (e ∷ es) h = omega (arith, sum_fee_uplp-sum j es (omega arith))

  fee-le-sum :
      (j : Json Value) {e : MempoolSnapshotEntry Value} {pool : List (MempoolSnapshotEntry Value)}
      → IsSublist (e ∷ []) pool
      → fee_uplp_u64 j e.tx ≤ sum_by (λ a. fee_uplp_u64 j a.tx) pool
  fee-le-sum j (keep rest) = omega arith
  fee-le-sum j (skip rest) = omega (arith, fee-le-sum j rest)

  module _ (j : Json Value) where
    take_entry-grows :
        (st : Selection) (e : MempoolSnapshotEntry Value) → 0 < length (take_entry j st e).hashes
    take_entry-grows st e = omega (arith, length-append st.hashes (e.tx.hash ∷ []))

    -- What is taken stays taken.
    select_loop-grows :
        (pool : List (MempoolSnapshotEntry Value)) (st : Selection)
        → 0 < length st.hashes
        → 0 < length (select_loop j st pool).hashes
    unfolding select_loop
    select_loop-grows [] st h = h
    select_loop-grows (e ∷ es) st h = ground (
      arith,
      select_loop-grows es st h,
      select_loop-grows es (take_entry j st e) (take_entry-grows st e),
    )

    -- The loop passes over nothing that it could take.
    select_loop-takes :
        (st : Selection) {e : MempoolSnapshotEntry Value} {pool : List (MempoolSnapshotEntry Value)}
        → IsSublist (e ∷ []) pool
        → length st.hashes ≡ 0
        → wrong_nonce j st e ≡ false
        → over_cap j st e ≡ false
        → 0 < length (select_loop j st pool).hashes
    unfolding select_loop
    select_loop-takes st {e = e} (keep {ys = es} rest) none_yet nonce cap_ok = ground (
      arith,
      none_yet,
      nonce,
      cap_ok,
      select_loop-grows es (take_entry j st e) (take_entry-grows st e),
    )
    select_loop-takes st (skip {y = y} {ys = es} rest) none_yet nonce cap_ok = ground (
      arith,
      none_yet,
      select_loop-takes st rest none_yet nonce cap_ok,
      select_loop-grows es (take_entry j st y) (take_entry-grows st y),
    )

    starts_right :
        (st : Selection) (e : MempoolSnapshotEntry Value) (next : String → ℕ)
        → Knows st.next_nonce next e
        → e.tx.nonce ≡ next e.tx.from
        → wrong_nonce j st e ≡ false
    starts_right st e next (inl o) h = ground (arith, o)
    starts_right st e next (inr k) h = ground (arith, k, h)

    -- A pool with a transaction that the chain can take next, with a fee from 1 up to the cap, makes
    -- progress: a block is proposed at once, whatever the time, and the selection is not empty. The
    -- fees of the pool must add up to a 64-bit number.
    pub proposal_progress :
        (s : State) (pool : List (MempoolSnapshotEntry Value)) (e : MempoolSnapshotEntry Value)
        (now : ℤ)
        → IsSublist (e ∷ []) pool
        → e.tx.nonce ≡ get_nonce s e.tx.from
        → 1 ≤ fee_uplp_u64 j e.tx
        → fee_uplp_u64 j e.tx ≤ block_gas_cap_uplp
        → sum_by (λ a. fee_uplp_u64 j a.tx) pool < u64_mod
        → ((block_proposal_status j pool now).should_propose ≡ true)
          × (0 < (select_block_txs j s pool).tx_count)
    unfolding block_proposal_status select_block_txs
    proposal_progress s pool e now member nonce paid small fits =
        let start : Selection = record {
          next_nonce = chain_nonces s [] pool;
          gas_used = 0;
          hashes = [];
        } in
        let known = All-member (Knows (chain_nonces s [] pool) (get_nonce s)) member (
          chain_nonces-Knows s pool [] (chain_nonces s [] pool)
            (λ k n h. absurd (ground (arith, h))) refl) in
        (
          ground (arith, member-nonempty member, sum_fee_uplp-sum j pool fits, fee-le-sum j member),
          select_loop-takes start member refl (starts_right start e (get_nonce s) known nonce)
              (ground arith),
        )
