-- ===== src/Votes.antt =====
-- src/core/confirmation_layer.rs: the votes of a validator group on a transaction (L1).
-- src/core/block_assembly.rs aggregates the votes on a block (L2) by the same code.
pub mod Outcome
use platarium_core.Base.{
  ℕ, ◌*◌, ◌/◌, Bool, true, false, not, List, [], ◌∷◌, map, ltb, leb, if◌then◌else◌, filter, length,
  count_by, is_empty, u64_mod, wrapping_mul, Result, ok, err, is_ok, no_votes, ◌>>=◌,
}
use platarium_core.State.{State}
use platarium_core.Transaction.{Transaction, TransactionHashData}
use platarium_core.Crypto.{Crypto}
use platarium_core.Execution.{validate_transaction, check_transaction_applicability}
use platarium_core.Node.{NodeId}
use platarium_core.Node.Registry.{NodeRegistry, record_vote}

abbrev pub l1_confirm_threshold_pct : ℕ
l1_confirm_threshold_pct = 67

pub data Vote : Type 0 where
  confirm reject : Vote

abbrev pub same_vote : Vote → Vote → Bool
same_vote confirm confirm = true
same_vote confirm reject = false
same_vote reject confirm = false
same_vote reject reject = true

pub data ConfirmationResult : Type 0 where
  confirmed rejected : ConfirmationResult

abbrev pub Ballot : Type 0
Ballot = NodeId × Vote

unfoldable pub confirm_count : List Ballot → ℕ
confirm_count votes = count_by (λ (v : Ballot). same_vote v.1 confirm) votes

abbrev pub majority_of : List Ballot → Vote
unfolding confirm_count
majority_of votes = if ltb (length votes / 2) (confirm_count votes) then confirm else reject

abbrev pub to_penalize : List Ballot → List NodeId
to_penalize votes =
    map (λ (v : Ballot). v.0)
      (filter (λ (v : Ballot). not (same_vote v.1 (majority_of votes))) votes)

-- The count of a slice fits 64 bits; the products by 100 and by the threshold wrap.
abbrev pub reaches : ℕ → List Ballot → Bool
reaches threshold votes =
    leb (wrapping_mul u64_mod (length votes) threshold)
      (wrapping_mul u64_mod (confirm_count votes) 100)

unfoldable pub process_l1_confirmation : List Ballot → Result (ConfirmationResult × List NodeId)
process_l1_confirmation votes =
    if is_empty votes
    then err no_votes
    else ok
        (if reaches l1_confirm_threshold_pct votes then confirmed else rejected, to_penalize votes)

module _ (c : Crypto TransactionHashData) where
  unfoldable pub verify_tx_for_l1 : State → Transaction → Result Bool
  verify_tx_for_l1 state tx =
      if not (is_ok (validate_transaction c tx))
      then ok false
      else ok (is_ok (check_transaction_applicability state tx))

  -- The result of the verification is bound to `_valid` and not used.
  unfoldable pub confirm_transaction_l1 :
      State → Transaction → List Ballot → Result (ConfirmationResult × List NodeId)
  unfolding verify_tx_for_l1 process_l1_confirmation
  confirm_transaction_l1 state tx votes = do
    _valid ← verify_tx_for_l1 state tx
    process_l1_confirmation votes

-- The first unknown node stops the loop; the votes recorded before it stay.
unfoldable pub apply_l1_penalties : NodeRegistry → List NodeId → NodeRegistry × Result (Unit {0})
apply_l1_penalties registry [] = (registry, ok tt)
apply_l1_penalties registry (node_id ∷ node_ids) =
    let after = record_vote registry node_id true in
    elim after.1 [ ok _ ↦ apply_l1_penalties after.0 node_ids | err e ↦ after ]
