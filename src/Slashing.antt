-- ===== src/Slashing.antt =====
-- src/core/slashing.rs: penalties to reputation and stake.
pub mod Penalties
use platarium_core.Base.{
  ℕ, ◌*◌, ◌/◌, Option, none, some, List, [], ◌∷◌, u64_mod, wrapping_mul, saturating_sub, Result, ok,
  err, node_not_found,
}
use platarium_core.Node.{Node, NodeId, score_scale}
use platarium_core.Node.Registry.{NodeRegistry, get, set_stake, apply_reputation_penalty}

abbrev pub suspension_threshold : ℕ
suspension_threshold = 100_000

pub data SlashingReason : Type 0 where
  no_vote against_majority equivocation invalid_tx : SlashingReason

unfoldable pub reputation_penalty_for : SlashingReason → ℕ
reputation_penalty_for no_vote = wrapping_mul u64_mod score_scale 2 / 100
reputation_penalty_for against_majority = wrapping_mul u64_mod score_scale 3 / 100
reputation_penalty_for equivocation = wrapping_mul u64_mod score_scale 15 / 100
reputation_penalty_for invalid_tx = wrapping_mul u64_mod score_scale 10 / 100

unfoldable pub stake_slash_for : SlashingReason → ℕ
stake_slash_for no_vote = 1
stake_slash_for against_majority = 2
stake_slash_for equivocation = 100
stake_slash_for invalid_tx = 50

-- An error of the first write stops the second.
abbrev then_penalize :
    NodeRegistry × Result (Unit {0}) → NodeId → ℕ → ℕ → NodeRegistry × Result (Unit {0})
then_penalize (registry, ok _) node_id amount threshold =
    apply_reputation_penalty registry node_id amount threshold
then_penalize (registry, err e) node_id amount threshold = (registry, err e)

unfoldable pub apply_slash_with_threshold :
    NodeRegistry → NodeId → SlashingReason → ℕ → NodeRegistry × Result (Unit {0})
unfolding reputation_penalty_for stake_slash_for
apply_slash_with_threshold registry node_id reason threshold = elim (get registry node_id) [
  | none ↦ (registry, err (node_not_found node_id))
  | some node ↦
      then_penalize
        (set_stake registry node_id (saturating_sub node.stake (stake_slash_for reason))) node_id
        (reputation_penalty_for reason) threshold
]

unfoldable pub apply_slash :
    NodeRegistry → NodeId → SlashingReason → NodeRegistry × Result (Unit {0})
unfolding apply_slash_with_threshold
apply_slash registry node_id reason =
    apply_slash_with_threshold registry node_id reason suspension_threshold

-- Errors of single nodes are dropped.
unfoldable pub apply_slash_batch : NodeRegistry → List NodeId → SlashingReason → NodeRegistry
unfolding apply_slash
apply_slash_batch registry [] reason = registry
apply_slash_batch registry (node_id ∷ node_ids) reason =
    apply_slash_batch (apply_slash registry node_id reason).0 node_ids reason

unfoldable pub penalty_amounts : SlashingReason → ℕ × ℕ
unfolding reputation_penalty_for stake_slash_for
penalty_amounts reason = (reputation_penalty_for reason, stake_slash_for reason)
