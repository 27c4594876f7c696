-- ===== src/Assembly/Finality.antt =====
-- What the votes on a block decide.
use platarium_core.Base.{
  ◌+◌, ◌*◌, ◌≤◌, ◌<◌, ◌≡◌, ◌↔◌, refl, arith, Bool, true, false, List, [], ◌∷◌, length, ltb,
  if◌then◌else◌, u64_mod, Result, ok, err, lt→ltb,
}
use platarium_core.Node.{NodeId}
use platarium_core.Votes.{confirm, reject, Ballot, reaches, to_penalize}
use platarium_core.Votes.Outcome.{voters, reaches_iff, to_penalize_lem}
use platarium_core.Assembly.{
  BlockConfirmationResult, confirmed, rejected, block_finalized, process_l2_block_votes,
}

abbrev pub is_final : Result (BlockConfirmationResult × List NodeId) → Bool
unfolding block_finalized
is_final (ok (result, _)) = block_finalized result
is_final (err e) = false

final_iff :
    (r : Bool) (penalized : List NodeId)
    → (is_final (ok (if r then confirmed else rejected, penalized)) ≡ true) ↔ (r ≡ true)
unfolding block_finalized
final_iff r penalized = ground arith

-- Where 100 times the number of votes fits 64 bits: a block is final exactly where it has votes and
-- at least 70 of each 100 confirm it.
pub process_l2_block_votes_iff :
    (votes : List Ballot)
    → length votes * 100 < u64_mod
    → (is_final (process_l2_block_votes votes) ≡ true)
      ↔ ((1 ≤ length votes) × (70 * length votes ≤ 100 * length (voters confirm votes)))
unfolding process_l2_block_votes block_finalized
process_l2_block_votes_iff [] h = ground arith
process_l2_block_votes_iff (b ∷ votes) h =
    let a = final_iff (reaches 70 (b ∷ votes)) (to_penalize (b ∷ votes)) in
    let r = reaches_iff 70 (b ∷ votes) (omega arith) h in
    (λ e. (omega arith, r.0 (a.0 e)), λ q. a.1 (r.1 q.1))

voters-length :
    (votes : List Ballot)
    → length (voters confirm votes) + length (voters reject votes) ≡ length votes
voters-length [] = refl
voters-length ((id, v) ∷ votes) = ground (arith, voters-length votes)

-- Where 100 times the number of votes fits 64 bits: at least 70 of each 100 votes for a block make it
-- final, and penalize those who voted against it, who are at most 30 of each 100.
pub process_l2_block_votes_final :
    (votes : List Ballot)
    → length votes * 100 < u64_mod
    → 1 ≤ length votes
    → 70 * length votes ≤ 100 * length (voters confirm votes)
    → (process_l2_block_votes votes ≡ ok (confirmed, voters reject votes))
      × (100 * length (voters reject votes) ≤ 30 * length votes)
unfolding process_l2_block_votes
process_l2_block_votes_final [] h some_votes enough = ground arith
process_l2_block_votes_final (b ∷ votes) h some_votes enough =
    let r = reaches_iff 70 (b ∷ votes) (omega arith) h in
    let yes = r.1 enough in
    let most : ltb (length (b ∷ votes)) (2 * length (voters confirm (b ∷ votes))) ≡ true =
      lt→ltb _ _ (omega arith) in
    (
      rw yes (rw (to_penalize_lem (b ∷ votes)) (rw most refl)),
      omega (arith, voters-length (b ∷ votes)),
    )
