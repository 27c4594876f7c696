-- ===== src/Proposal/Admission/Accepted.antt =====
-- src/core/block_proposal.rs: what an admitted transaction satisfies.
use mathlib.Core.Path.{subst}
use platarium_core.Base.{
  ℕ, ◌+◌, ◌<◌, ◌≤◌, ◌≡◌, ◌≢◌, ◌∙◌, refl, ◌⊎◌, inl, inr, ◌↔◌, sym, some, Bool, true, false, List,
  length, ltb, ◌==◌, if◌then◌else◌, u64_mod, u128_mod, wrapping_add, saturating_add, arith,
  Bool-cases, is_ok, Result, ok, err, ◌>>◌, ◌&&◌, guard, PlatariumError,
}
use platarium_core.Data.Ord.{◌==◌ as same, string_eq}
use platarium_core.Asset.{plp, is_plp}
use platarium_core.Crypto.{Crypto}
use platarium_core.Fee.{calculate_fee_from_load}
use platarium_core.Json.{Json}
use platarium_core.State.{State, get_nonce, get_asset_balance, fee_spendable_uplp, apply_transfer}
use platarium_core.Transaction.{Transaction, TransactionHashData}
use platarium_core.Execution.{validate_transaction, check_transaction_applicability}
use platarium_core.Execution.Laws.{check_transaction_applicability-eq-apply_transfer}
use platarium_core.Proposal.{MempoolSnapshotEntry, mempool_max_nonce_gap, faucet_address}
use platarium_core.Proposal.Pending.{nonce_already_pending, pending_reserve, contiguous_next_nonce}
use platarium_core.Proposal.Pending.Nonces.{contiguous_next_nonce_lem}
use platarium_core.Proposal.Admission.{verdict, check_admission, admit_transaction}

six_guards-ok :
    (b1 b2 b3 b4 b5 b6 : Bool) (r : Result (Unit {0})) (e1 e2 e3 e4 e5 e6 : PlatariumError)
    → (is_ok (
          guard b1 e1
          >> (guard b2 e2 >> (guard b3 e3 >> (guard b4 e4 >> (guard b5 e5 >> (guard b6 e6 >> r))))))
        ≡ true)
      ↔ ((b1 ≡ false)
          × (b2 ≡ false)
          × (b3 ≡ false)
          × (b4 ≡ false)
          × (b5 ≡ false)
          × (b6 ≡ false)
          × (is_ok r ≡ true))
six_guards-ok b1 b2 b3 b4 b5 b6 r e1 e2 e3 e4 e5 e6 = ground arith

verdict-expected :
    (min_fee expected : ℕ) (r : Result (Unit {0}))
    → (verdict min_fee expected r).expected_nonce ≡ expected
verdict-expected min_fee expected (ok u) = refl
verdict-expected min_fee expected (err e) = refl

module _ {Value : Type 0} (j : Json Value) (c : Crypto TransactionHashData) (s : State)
    (pool : List (MempoolSnapshotEntry Value)) where
  -- What the pool asks of a sender's transaction
  abbrev pub IsAdmissible : Transaction → Type 0
  IsAdmissible tx =
      let chain = get_nonce s tx.from in
      let tip = contiguous_next_nonce pool tx.from chain in
      let reserved = pending_reserve j pool tx.from in
      (chain ≤ tx.nonce)
      × (nonce_already_pending pool tx.from tx.nonce ≡ false)
      × (tx.nonce ≤ saturating_add u64_mod tip mempool_max_nonce_gap)
      × (calculate_fee_from_load (length pool) ≤ tx.fee_uplp)
      × (wrapping_add u128_mod reserved.1 tx.fee_uplp ≤ fee_spendable_uplp s tx.from)
      × ((is_plp tx.asset ≡ false)
          ⊎ (wrapping_add u128_mod reserved.0 tx.amount ≤ get_asset_balance s tx.from plp))
      × (is_ok (validate_transaction c tx) ≡ true)
      × ((tx.nonce ≢ chain) ⊎ (is_ok (check_transaction_applicability s tx) ≡ true))

  module _ (tx : Transaction) where
    abbrev final_check : Result (Unit {0})
    final_check =
        if tx.nonce == get_nonce s tx.from
        then validate_transaction c tx >> check_transaction_applicability s tx
        else validate_transaction c tx

    check_admission_iff :
        let min_fee = calculate_fee_from_load (length pool) in
        let tip = contiguous_next_nonce pool tx.from (get_nonce s tx.from) in
        (is_ok (check_admission j c s pool tx min_fee tip) ≡ true) ↔ IsAdmissible tx
    unfolding check_admission
    check_admission_iff =
        let chain = get_nonce s tx.from in
        let tip = contiguous_next_nonce pool tx.from chain in
        let min_fee = calculate_fee_from_load (length pool) in
        let reserved = pending_reserve j pool tx.from in
        let fee_need = wrapping_add u128_mod reserved.1 tx.fee_uplp in
        let need = wrapping_add u128_mod reserved.0 tx.amount in
        let stale = ltb tx.nonce chain in
        let pending = nonce_already_pending pool tx.from tx.nonce in
        let far = ltb (saturating_add u64_mod tip mempool_max_nonce_gap) tx.nonce in
        let cheap = ltb tx.fee_uplp min_fee in
        let poor = ltb (fee_spendable_uplp s tx.from) fee_need in
        let plp_bal = get_asset_balance s tx.from plp in
        let broke = is_plp tx.asset && ltb plp_bal need in
        let passes = six_guards-ok stale pending far cheap poor broke final_check in
        (
          λ h.
              let (b1, b2, b3, b4, b5, b6, ok7) = (passes _ _ _ _ _ _).0 h in
              (
                ground (arith, b1),
                b2,
                ground (arith, b3),
                ground (arith, b4),
                ground (arith, b5),
                ground (arith, b6),
                ground (arith, ok7),
                ground (arith, ok7),
              ),
          λ (h1, h2, h3, h4, h5, h6, h7, h8). (passes _ _ _ _ _ _).1 (
            ground (arith, h1),
            h2,
            ground (arith, h3),
            ground (arith, h4),
            ground (arith, h5),
            ground (arith, h6),
            ground (arith, h7, h8),
          ),
        )

    pub admit_transaction_iff :
        ((admit_transaction j c s pool tx).accepted ≡ true)
        ↔ ((tx.from ≡ faucet_address) ⊎ IsAdmissible tx)
    unfolding admit_transaction
    admit_transaction_iff = elim (Bool-cases (same tx.from faucet_address)) [
      | inl faucet ↦
          (λ h. inl ((string_eq.same_iff tx.from faucet_address).0 faucet), λ h. rw faucet refl)
      | inr other ↦ (
        λ h. inr (check_admission_iff.0 (ground (arith, h, other))),
        λ h. elim h [
          | inl e ↦ absurd (ground (arith, (string_eq.same_iff tx.from faucet_address).1 e, other))
          | inr a ↦ ground (arith, check_admission_iff.1 a, other)
        ],
      )
    ]

    -- A transaction that is admitted with the chain's nonce, and is not the faucet's, can be applied
    -- to the state. Its amount is a 128-bit number.
    pub admit_transaction-applies :
        tx.amount < u128_mod
        → tx.from ≢ faucet_address
        → tx.nonce ≡ get_nonce s tx.from
        → (admit_transaction j c s pool tx).accepted ≡ true
        → is_ok (apply_transfer s tx.from tx.to tx.asset tx.amount tx.fee_uplp (some tx.nonce)).1
          ≡ true
    admit_transaction-applies small other next accepted = elim (admit_transaction_iff.0 accepted) [
      | inl e ↦ absurd (other e)
      | inr (h1, h2, h3, h4, h5, h6, h7, h8) ↦ elim h8 [
        | inl ne ↦ absurd (ne next)
        | inr applicable ↦
            sym (check_transaction_applicability-eq-apply_transfer s tx small) ∙ applicable
      ]
    ]

    named_tip :
        same tx.from faucet_address ≡ false
        → (admit_transaction j c s pool tx).expected_nonce
          ≡ contiguous_next_nonce pool tx.from (get_nonce s tx.from)
    unfolding admit_transaction
    named_tip other =
        let min_fee = calculate_fee_from_load (length pool) in
        let tip = contiguous_next_nonce pool tx.from (get_nonce s tx.from) in
        rw other (verdict-expected min_fee tip (check_admission j c s pool tx min_fee tip))

    -- The nonce that the answer names, whether it accepts or refuses the transaction, is one that
    -- the pool takes of the sender: not below the chain's, not pending, and within the gap. The
    -- chain's nonce and the size of the pool add up to a 64-bit number.
    pub admit_transaction_expected :
        tx.from ≢ faucet_address
        → get_nonce s tx.from + length pool < u64_mod
        → let expected = (admit_transaction j c s pool tx).expected_nonce in
          (get_nonce s tx.from ≤ expected)
          × (nonce_already_pending pool tx.from expected ≡ false)
          × (expected
              ≤ saturating_add u64_mod
                  (contiguous_next_nonce pool tx.from (get_nonce s tx.from))
                  mempool_max_nonce_gap)
    admit_transaction_expected other small =
        let tip = contiguous_next_nonce pool tx.from (get_nonce s tx.from) in
        let (free, above, below, pending) =
          contiguous_next_nonce_lem pool tx.from (get_nonce s tx.from) small in
        let named : same tx.from faucet_address ≡ false =
          ground (arith, string_eq.same_iff tx.from faucet_address, other) in
        subst
          (λ n.
            (get_nonce s tx.from ≤ n)
            × (nonce_already_pending pool tx.from n ≡ false)
            × (n ≤ saturating_add u64_mod tip mempool_max_nonce_gap))
          (sym (named_tip named)) (above, free, omega arith)
