-- ===== src/Votes/Outcome.antt =====
-- What a vote decides, and whom it penalizes.
use platarium_core.Base.{
  ℕ, ◌*◌, ◌≤◌, ◌<◌, ◌≡◌, ◌↔◌, refl, arith, Bool, true, false, not, List, [], ◌∷◌, map, ltb,
  if◌then◌else◌, filter, length, u64_mod, Result, ok, count_by-le-length, lt→ltb,
}
use platarium_core.State.{State}
use platarium_core.Transaction.{Transaction, TransactionHashData}
use platarium_core.Crypto.{Crypto}
use platarium_core.Node.{NodeId}
use platarium_core.Votes.{
  Vote, confirm, reject, same_vote, ConfirmationResult, confirmed, rejected, Ballot, confirm_count,
  to_penalize, reaches, process_l1_confirmation, verify_tx_for_l1, confirm_transaction_l1,
}

-- The voters of one side, in the order of the votes.
abbrev pub voters : Vote → List Ballot → List NodeId
voters v [] = []
voters v ((id, w) ∷ votes) = if same_vote w v then id ∷ voters v votes else voters v votes

opponents :
    (v : Vote) (votes : List Ballot)
    → map (λ (b : Ballot). b.0) (filter (λ (b : Ballot). not (same_vote b.1 v)) votes)
      ≡ voters (if same_vote v confirm then reject else confirm) votes
opponents v [] = refl
opponents v ((id, w) ∷ votes) = ground (arith, opponents v votes)

confirm_count-voters : (votes : List Ballot) → confirm_count votes ≡ length (voters confirm votes)
unfolding confirm_count
confirm_count-voters [] = refl
confirm_count-voters ((id, v) ∷ votes) = ground (arith, confirm_count-voters votes)

-- The wrapped comparison is the exact one.
pub reaches_iff :
    (threshold : ℕ) (votes : List Ballot)
    → threshold ≤ 100
    → length votes * 100 < u64_mod
    → (reaches threshold votes ≡ true)
      ↔ (threshold * length votes ≤ 100 * length (voters confirm votes))
unfolding confirm_count
reaches_iff threshold votes p h =
    let c = count_by-le-length (λ (v : Ballot). same_vote v.1 confirm) votes in
    let m : length votes * threshold ≤ length votes * 100 = grind arith in
    grind (arith, c, m, confirm_count-voters votes)

-- The penalized are the voters of the side that has no simple majority; a tie is a rejection.
pub to_penalize_lem :
    (votes : List Ballot)
    → to_penalize votes ≡ (
        if ltb (length votes) (2 * length (voters confirm votes))
        then voters reject votes
        else voters confirm votes)
unfolding confirm_count
to_penalize_lem votes =
    ground (arith, opponents confirm votes, opponents reject votes, confirm_count-voters votes)

verdict_iff :
    (r : Bool) (penalized : List NodeId)
    → ◌≡◌ {A = Result (ConfirmationResult × List NodeId)}
        (ok (if r then confirmed else rejected, penalized))
        (ok (confirmed, penalized))
      ↔ (r ≡ true)
verdict_iff r penalized = ground arith

-- Where 100 times the number of votes fits 64 bits: a group that votes confirms the transaction
-- exactly where at least 67 of each 100 votes confirm it.
pub process_l1_confirmation_iff :
    (votes : List Ballot)
    → length votes * 100 < u64_mod
    → (process_l1_confirmation votes ≡ ok (confirmed, to_penalize votes))
      ↔ ((1 ≤ length votes) × (67 * length votes ≤ 100 * length (voters confirm votes)))
unfolding process_l1_confirmation
process_l1_confirmation_iff [] h = ground arith
process_l1_confirmation_iff (b ∷ votes) h =
    let a = verdict_iff (reaches 67 (b ∷ votes)) (to_penalize (b ∷ votes)) in
    let r = reaches_iff 67 (b ∷ votes) (omega arith) h in
    (λ e. (omega arith, r.0 (a.0 e)), λ q. a.1 (r.1 q.1))

-- Where 100 times the number of votes fits 64 bits: where more than half, but less than 67 of each
-- 100, confirm the transaction, it is rejected, and the voters who voted to reject it are penalized.
pub process_l1_confirmation_split :
    (votes : List Ballot)
    → length votes * 100 < u64_mod
    → length votes < 2 * length (voters confirm votes)
    → 100 * length (voters confirm votes) < 67 * length votes
    → process_l1_confirmation votes ≡ ok (rejected, voters reject votes)
unfolding process_l1_confirmation
process_l1_confirmation_split [] h over under = ground arith
process_l1_confirmation_split (b ∷ votes) h over under =
    let r = reaches_iff 67 (b ∷ votes) (omega arith) h in
    let no : reaches 67 (b ∷ votes) ≡ false = ground (arith, r) in
    let p = to_penalize_lem (b ∷ votes) in
    let most : ltb (length (b ∷ votes)) (2 * length (voters confirm (b ∷ votes))) ≡ true =
      lt→ltb _ _ over in
    rw no (rw p (rw most refl))

-- The votes alone decide: whether the transaction passes the verification makes no difference.
pub confirm_transaction_l1_blind :
    (c : Crypto TransactionHashData) (state : State) (tx : Transaction) (votes : List Ballot)
    → confirm_transaction_l1 c state tx votes ≡ process_l1_confirmation votes
unfolding confirm_transaction_l1 verify_tx_for_l1
confirm_transaction_l1_blind c state tx votes = ground arith
