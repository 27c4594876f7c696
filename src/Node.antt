-- ===== src/Node.antt =====
-- src/core/node_registry.rs: a validator node and its scores.
pub mod Registry
pub mod Scores
pub mod Invariant
pub mod Operations
pub mod Reach
pub mod Eligible
use Prim.Native.String.{String}
use platarium_core.Base.{
  ℕ, suc, ◌+◌, ◌*◌, ◌/◌, min, max, Bool, true, false, ltb, leb, ◌==◌, if◌then◌else◌, u64_mod,
  u128_mod, wrapping_mul, wrapping_add, saturating_sub,
}

abbrev pub score_scale : ℕ
score_scale = 1_000_000

abbrev pub weight_uptime : ℕ
weight_uptime = 300

abbrev pub weight_latency : ℕ
weight_latency = 200

abbrev pub weight_vote_accuracy : ℕ
weight_vote_accuracy = 300

abbrev pub weight_stake : ℕ
weight_stake = 200

pub data NodeStatus : Type 0 where
  active suspended : NodeStatus

abbrev pub is_active : NodeStatus → Bool
is_active active = true
is_active suspended = false

abbrev pub NodeId : Type 0
NodeId = String

pub record Node : Type 0 where
  pub node_id : NodeId
  pub public_key : String
  pub stake : ℕ
  pub reputation_score : ℕ
  pub uptime_score : ℕ
  pub latency_score : ℕ
  pub load_score : ℕ
  pub missed_votes : ℕ
  pub total_votes : ℕ
  pub current_tasks : ℕ
  pub max_capacity : ℕ
  pub status : NodeStatus

-- `Node::new`
unfoldable pub new_node : NodeId → String → ℕ → ℕ → Node
new_node node_id public_key stake max_capacity = record {
  node_id = node_id;
  public_key = public_key;
  stake = stake;
  reputation_score = score_scale;
  uptime_score = score_scale;
  latency_score = score_scale;
  load_score = 0;
  missed_votes = 0;
  total_votes = 0;
  current_tasks = 0;
  max_capacity = if max_capacity == 0 then 1 else max_capacity;
  status = active;
}

unfoldable pub vote_accuracy : Node → ℕ
vote_accuracy n =
    let correct = saturating_sub n.total_votes n.missed_votes in
    if n.total_votes == 0
    then score_scale
    else wrapping_mul u64_mod correct score_scale / n.total_votes

unfoldable pub recompute_load_score : Node → Node
recompute_load_score n =
    let cap = max n.max_capacity 1 in
    record n {
      load_score =
          if leb cap n.current_tasks
          then score_scale
          else wrapping_mul u64_mod n.current_tasks score_scale / cap;
    }

unfoldable pub stake_weight : ℕ → ℕ → ℕ
stake_weight stake max_stake =
    if max_stake == 0
    then score_scale
    else min (wrapping_mul u128_mod stake score_scale / max_stake) score_scale

-- The weighted sum of the four scores, over 1000.
unfoldable pub reputation : Node → ℕ → ℕ
unfolding vote_accuracy stake_weight
reputation n max_stake =
    wrapping_add u64_mod
      (wrapping_add u64_mod
        (wrapping_add u64_mod (wrapping_mul u64_mod n.uptime_score weight_uptime)
          (wrapping_mul u64_mod n.latency_score weight_latency))
        (wrapping_mul u64_mod (vote_accuracy n) weight_vote_accuracy))
      (wrapping_mul u64_mod (stake_weight n.stake max_stake) weight_stake)
    / 1000

unfoldable pub compute_reputation : Node → ℕ → Node
unfolding reputation
compute_reputation n max_stake = record n { reputation_score = reputation n max_stake }

unfoldable pub selection_weight : Node → ℕ
selection_weight n =
    wrapping_mul u64_mod n.reputation_score (saturating_sub score_scale n.load_score) / score_scale

unfoldable pub selection_weight_ratio : Node → ℕ
selection_weight_ratio n = wrapping_mul u64_mod n.reputation_score score_scale / max n.load_score 1
