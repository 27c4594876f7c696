-- ===== src/Proposal/Packing/Chosen.antt =====
-- src/core/block_proposal.rs: the entries that a block takes.
use mathlib.Core.Path.{subst}
use mathlib.Core.List.{append-nil}
use Prim.Native.String.{String}
use mathlib.Core.List.{append_assoc}
use platarium_core.Base.{
  ℕ, ◌+◌, ◌%◌, ◌≤◌, ◌<◌, ◌≢◌, true, ◌≡◌, sym, ◌∙◌, refl, ◌⊎◌, inl, inr, false, List, [], ◌∷◌, ◌++◌,
  map, length, length-append, leb, if◌then◌else◌, u64_mod, wrapping_add, arith, sum_by, All,
  All-imp, Bool-cases,
}
use platarium_core.Data.Ord.{◌==◌ as same, string_eq}
use platarium_core.Data.Map.{get_or_zero-insert}
use platarium_core.Data.Sublist.{IsSublist, keep, skip, empty-IsSublist}
use platarium_core.Json.{Json}
use platarium_core.State.{State, get_nonce}
use platarium_core.Proposal.{
  MempoolSnapshotEntry, fee_uplp_u64, is_ordinary, block_gas_cap_uplp, block_max_tx_count,
}
use platarium_core.Proposal.Packing.{
  Selection, chain_nonces, take_entry, wrong_nonce, over_cap, select_loop, select_block_txs,
}
use platarium_core.Proposal.Packing.Senders.{Knows, chain_nonces-Knows}
use platarium_core.Proposal.Packing.Steps.{
  taken_gas, select_loop-stop, select_loop-skip_nonce, select_loop-skip_gas, select_loop-take,
}

module _ {Value : Type 0} where
  -- the next nonces once an entry is taken
  abbrev pub advance : (String → ℕ) → MempoolSnapshotEntry Value → String → ℕ
  advance next e a = if same e.tx.from a then (e.tx.nonce + 1) % u64_mod else next a

  -- Each entry of an ordinary sender has the sender's next nonce, given those before the first.
  abbrev pub IsConsecutive : (String → ℕ) → List (MempoolSnapshotEntry Value) → Type 0
  IsConsecutive next [] = Unit
  IsConsecutive next (e ∷ es) =
      ((is_ordinary e.tx.from ≡ false) ⊎ (e.tx.nonce ≡ next e.tx.from))
      × IsConsecutive (advance next e) es

module _ {Value : Type 0} (j : Json Value) where
  -- What is taken, with the reason for each entry that is passed over: an ordinary sender's nonce is
  -- not the next one, or the fee does not fit under the cap any more. It ends with the pool, or where
  -- the block has as many entries as it may.
  pub data IsGreedy
      : (String → ℕ)
        → ℕ
        → ℕ
        → List (MempoolSnapshotEntry Value)
        → List (MempoolSnapshotEntry Value)
        → Type 0 where
    full :
        {next : String → ℕ} {gas n : ℕ} {pool : List (MempoolSnapshotEntry Value)}
        → block_max_tx_count ≤ n
        → IsGreedy next gas n pool []
    finish : {next : String → ℕ} {gas n : ℕ} → IsGreedy next gas n [] []
    not_next :
        {next : String → ℕ} {gas n : ℕ} {e : MempoolSnapshotEntry Value}
        {pool chosen : List (MempoolSnapshotEntry Value)}
        → is_ordinary e.tx.from ≡ true
        → e.tx.nonce ≢ next e.tx.from
        → IsGreedy next gas n pool chosen
        → IsGreedy next gas n (e ∷ pool) chosen
    not_fitting :
        {next : String → ℕ} {gas n : ℕ} {e : MempoolSnapshotEntry Value}
        {pool chosen : List (MempoolSnapshotEntry Value)}
        → block_gas_cap_uplp < gas + fee_uplp_u64 j e.tx
        → IsGreedy next gas n pool chosen
        → IsGreedy next gas n (e ∷ pool) chosen
    taken :
        {next : String → ℕ} {gas n : ℕ} {e : MempoolSnapshotEntry Value}
        {pool chosen : List (MempoolSnapshotEntry Value)}
        → IsGreedy (advance next e) (gas + fee_uplp_u64 j e.tx) (n + 1) pool chosen
        → IsGreedy next gas n (e ∷ pool) (e ∷ chosen)

  take_entry-Knows :
      (st : Selection) (next : String → ℕ) (e e' : MempoolSnapshotEntry Value)
      → Knows st.next_nonce next e'
      → Knows (take_entry j st e).next_nonce (advance next e) e'
  take_entry-Knows st next e e' (inl o) = inl o
  take_entry-Knows st next e e' (inr h) = elim (Bool-cases (is_ordinary e'.tx.from)) [
    | inr o ↦ inl o
    | inl o ↦ inr (
        ground (
          arith,
          o,
          h,
          string_eq.same_iff e.tx.from "",
          string_eq.same_iff e'.tx.from "",
          string_eq.same_iff e.tx.from e'.tx.from,
          get_or_zero-insert st.next_nonce e.tx.from (wrapping_add u64_mod e.tx.nonce 1) e'.tx.from,
        ))
  ]

  -- What the loop adds to its state
  abbrev pub Adds :
      (String → ℕ)
      → List (MempoolSnapshotEntry Value)
      → Selection
      → Selection
      → List (MempoolSnapshotEntry Value)
      → Type 0
  Adds next pool st final chosen =
      IsSublist chosen pool
      × (final.hashes ≡ st.hashes ++ map (λ e. e.tx.hash) chosen)
      × (final.gas_used ≡ st.gas_used + sum_by (λ e. fee_uplp_u64 j e.tx) chosen)
      × (final.gas_used ≤ block_gas_cap_uplp)
      × (length final.hashes ≤ block_max_tx_count)
      × IsConsecutive next chosen
      × IsGreedy next st.gas_used (length st.hashes) pool chosen

  not_full : (n : ℕ) → leb block_max_tx_count n ≡ false → n + 1 ≤ block_max_tx_count
  not_full n h = ground (arith, h)

  -- An entry that is passed over leaves what was chosen.
  Adds-skip :
      (next : String → ℕ) (e : MempoolSnapshotEntry Value) (es : List (MempoolSnapshotEntry Value))
      (st final : Selection) (chosen : List (MempoolSnapshotEntry Value))
      → (IsGreedy next st.gas_used (length st.hashes) es chosen
          → IsGreedy next st.gas_used (length st.hashes) (e ∷ es) chosen)
      → Adds next es st final chosen
      → Adds next (e ∷ es) st final chosen
  Adds-skip next e es st final chosen reason (sub, hashes, used, gas, count, nonces, greedy) =
      (skip sub, hashes, used, gas, count, nonces, reason greedy)

  Adds-keep :
      (next : String → ℕ) (e : MempoolSnapshotEntry Value) (es : List (MempoolSnapshotEntry Value))
      (st final : Selection) (chosen : List (MempoolSnapshotEntry Value))
      → (is_ordinary e.tx.from ≡ false) ⊎ (e.tx.nonce ≡ next e.tx.from)
      → over_cap j st e ≡ false
      → Adds (advance next e) es (take_entry j st e) final chosen
      → Adds next (e ∷ es) st final (e ∷ chosen)
  Adds-keep next e es st final chosen nonce gas
        (sub, hashes, used, bound, count, consecutive, greedy) =
      (
        keep sub,
        hashes ∙ append_assoc st.hashes (e.tx.hash ∷ []) (map (λ a. a.tx.hash) chosen),
        omega (arith, used, taken_gas j st e gas),
        bound,
        count,
        (nonce, consecutive),
        taken (
            subst (λ n. IsGreedy (advance next e) (st.gas_used + fee_uplp_u64 j e.tx) n es chosen)
              (length-append st.hashes (e.tx.hash ∷ []))
              (subst
                (λ g. IsGreedy (advance next e) g (length (take_entry j st e).hashes) es chosen)
                (taken_gas j st e gas).0 greedy)),
      )

  right_nonce :
      (st : Selection) (next : String → ℕ) (e : MempoolSnapshotEntry Value)
      → Knows st.next_nonce next e
      → wrong_nonce j st e ≡ false
      → (is_ordinary e.tx.from ≡ false) ⊎ (e.tx.nonce ≡ next e.tx.from)
  right_nonce st next e (inl o) h = inl o
  right_nonce st next e (inr k) h = elim (Bool-cases (is_ordinary e.tx.from)) [
    | inr o ↦ inl o
    | inl o ↦ inr (ground (arith, o, h, k))
  ]

  late_nonce :
      (st : Selection) (next : String → ℕ) (e : MempoolSnapshotEntry Value)
      → Knows st.next_nonce next e
      → wrong_nonce j st e ≡ true
      → (is_ordinary e.tx.from ≡ true) × (e.tx.nonce ≢ next e.tx.from)
  late_nonce st next e (inl o) h = absurd (ground (arith, o, h))
  late_nonce st next e (inr k) h = (ground (arith, h), λ q. ground (arith, h, k, q))

  dear_fee :
      (st : Selection) (e : MempoolSnapshotEntry Value)
      → over_cap j st e ≡ true
      → block_gas_cap_uplp < st.gas_used + fee_uplp_u64 j e.tx
  dear_fee st e h = ground (arith, h)

  -- The loop's result, whatever is left of the pool.
  abbrev Outcome : (String → ℕ) → List (MempoolSnapshotEntry Value) → Selection → Selection → Type 0
  Outcome next pool st final =
      (chosen : List (MempoolSnapshotEntry Value)) × Adds next pool st final chosen

  Outcome-nil :
      (pool : List (MempoolSnapshotEntry Value)) (st : Selection) (next : String → ℕ)
      → st.gas_used ≤ block_gas_cap_uplp
      → length st.hashes ≤ block_max_tx_count
      → IsGreedy next st.gas_used (length st.hashes) pool []
      → Outcome next pool st st
  Outcome-nil pool st next gas count greedy =
      ([], (empty-IsSublist pool, sym (append-nil st.hashes), omega arith, gas, count, tt, greedy))

  select_loop-Outcome :
      (pool : List (MempoolSnapshotEntry Value)) (st : Selection) (next : String → ℕ)
      → st.gas_used ≤ block_gas_cap_uplp
      → length st.hashes ≤ block_max_tx_count
      → All (Knows st.next_nonce next) pool
      → Outcome next pool st (select_loop j st pool)
  unfolding select_loop
  select_loop-Outcome [] st next gas count knows = Outcome-nil [] st next gas count finish
  select_loop-Outcome (e ∷ es) st next gas count (known, knows) =
      let skipped : select_loop j st (e ∷ es) ≡ select_loop j st es
          → ((chosen : List (MempoolSnapshotEntry Value))
              → IsGreedy next st.gas_used (length st.hashes) es chosen
              → IsGreedy next st.gas_used (length st.hashes) (e ∷ es) chosen)
          → Outcome next (e ∷ es) st (select_loop j st (e ∷ es)) =
        λ eq reason.
          let (chosen, adds) = select_loop-Outcome es st next gas count knows in
          subst (Outcome next (e ∷ es) st) (sym eq)
            (chosen, Adds-skip next e es st (select_loop j st es) chosen (reason chosen) adds) in
      elim (Bool-cases (leb block_max_tx_count (length st.hashes))) [
        | inl full' ↦
            subst (Outcome next (e ∷ es) st) (sym (select_loop-stop j st (e ∷ es) full'))
              (Outcome-nil (e ∷ es) st next gas count (full (ground (arith, full'))))
        | inr free ↦ elim (Bool-cases (wrong_nonce j st e)) [
          | inl wrong ↦
              let (ordinary, late) = late_nonce st next e known wrong in
              skipped (select_loop-skip_nonce j st e es free wrong)
                (λ chosen. not_next ordinary late)
          | inr right ↦ elim (Bool-cases (over_cap j st e)) [
            | inl over ↦
                skipped (select_loop-skip_gas j st e es free right over)
                  (λ chosen. not_fitting (dear_fee st e over))
            | inr under ↦
                let st' = take_entry j st e in
                let (chosen, adds) =
                  select_loop-Outcome es st' (advance next e)
                    (omega (arith, taken_gas j st e under))
                    (omega (
                      arith,
                      length-append st.hashes (e.tx.hash ∷ []),
                      not_full (length st.hashes) free,
                    ))
                    (All-imp (λ e'. take_entry-Knows st next e e') es knows) in
                subst (Outcome next (e ∷ es) st) (sym (select_loop-take j st e es free right under))
                  (
                    e ∷ chosen,
                    Adds-keep next e es st (select_loop j st' es) chosen
                        (right_nonce st next e known right) under adds,
                  )
          ]
        ]
      ]

-- A block takes entries of the pool in the pool's order, and lists their hashes. Its gas is the sum
-- of their fees, without a wrap, and at most the cap; there are at most 10 000 of them. The entries
-- of each ordinary sender have consecutive nonces from the sender's nonce in the state on. An entry
-- is passed over only where its nonce is not the sender's next one, or its fee does not fit under the
-- cap any more, or the block is full.
pub select_block_txs-IsConsecutive :
    {Value : Type 0} (j : Json Value) (s : State) (pool : List (MempoolSnapshotEntry Value))
    → let r = select_block_txs j s pool in
      (chosen : List (MempoolSnapshotEntry Value)) × IsSublist chosen pool
      × (r.hashes ≡ map (λ e. e.tx.hash) chosen)
      × (r.tx_count ≡ length r.hashes)
      × (r.tx_count ≤ block_max_tx_count)
      × (r.gas_used ≡ sum_by (λ e. fee_uplp_u64 j e.tx) chosen)
      × (r.gas_used ≤ r.gas_cap)
      × IsConsecutive (get_nonce s) chosen
      × IsGreedy j (get_nonce s) 0 0 pool chosen
unfolding select_block_txs
select_block_txs-IsConsecutive j s pool =
    let start : Selection = record {
      next_nonce = chain_nonces s [] pool;
      gas_used = 0;
      hashes = [];
    } in
    let (chosen, (sub, hashes, gas, bound, count, nonces, greedy)) =
      select_loop-Outcome j pool start (get_nonce s) (omega arith) (omega arith) (
        chain_nonces-Knows s pool [] (chain_nonces s [] pool) (λ k n h. absurd (ground (arith, h)))
          refl) in
    (chosen, sub, hashes, refl, count, omega (arith, gas), bound, nonces, greedy)
