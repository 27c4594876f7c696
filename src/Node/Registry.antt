-- ===== src/Node/Registry.antt =====
-- src/core/node_registry.rs: the registry of nodes.
use Prim.Native.String.{String}
use platarium_core.Base.{
  ℕ, max, Bool, Option, none, some, List, [], ◌∷◌, map, ltb, if◌then◌else◌, filter, length, u64_mod,
  saturating_add, saturating_sub, Result, ok, err, node_not_found, duplicate_node, invalid_score,
  invalid_vote_stats,
}
use platarium_core.Data.Ord.{string_eq, string_ord}
use platarium_core.Data.Map
use platarium_core.Data.Map.{HashMap, insert, contains_key, values}
use platarium_core.Data.Sort.{sort_by}
use platarium_core.Node.{
  Node, NodeId, NodeStatus, suspended, is_active, score_scale, new_node, compute_reputation,
  recompute_load_score, selection_weight,
}

abbrev pub NodeRegistry : Type 0
NodeRegistry = HashMap NodeId Node

-- `NodeRegistry::new`
abbrev pub new : NodeRegistry
new = []

abbrev pub max_of : List ℕ → ℕ
max_of [] = 0
max_of (x ∷ xs) = max x (max_of xs)

unfoldable pub max_stake : NodeRegistry → ℕ
max_stake nodes = max_of (map (λ (n : Node). n.stake) (values nodes))

-- `get_mut`, the missing node's error, and a write through the reference
unfoldable pub update : NodeRegistry → NodeId → (Node → Node) → NodeRegistry × Result (Unit {0})
update nodes node_id f = elim (Map.get nodes node_id) [
  | none ↦ (nodes, err (node_not_found node_id))
  | some n ↦ (insert nodes node_id (f n), ok tt)
]

-- A loop over `values_mut()`
abbrev pub for_each : (Node → Node) → NodeRegistry → NodeRegistry
for_each f [] = []
for_each f ((k, n) ∷ nodes) = (k, f n) ∷ for_each f nodes

unfoldable pub register : NodeRegistry → NodeId → String → ℕ → ℕ → NodeRegistry × Result (Unit {0})
unfolding max_stake
register nodes node_id public_key stake max_capacity =
    if contains_key nodes node_id
    then (nodes, err (duplicate_node node_id))
    else let node = new_node node_id public_key stake max_capacity in
      (insert nodes node_id (compute_reputation node (max (max_stake nodes) node.stake)), ok tt)

unfoldable pub unregister : NodeRegistry → NodeId → NodeRegistry × Result (Unit {0})
unregister nodes node_id =
    if contains_key nodes node_id
    then (Map.remove nodes node_id, ok tt)
    else (nodes, err (node_not_found node_id))

unfoldable pub get : NodeRegistry → NodeId → Option Node
get nodes node_id = Map.get nodes node_id

unfoldable pub get_all : NodeRegistry → List Node
get_all nodes = sort_by (λ (n : Node). n.node_id) (values nodes)

unfoldable pub recompute_all_reputations : NodeRegistry → NodeRegistry
recompute_all_reputations nodes =
    let top = max_stake nodes in for_each (λ n. compute_reputation n top) nodes

unfoldable pub set_uptime_score : NodeRegistry → NodeId → ℕ → NodeRegistry × Result (Unit {0})
unfolding update
set_uptime_score nodes node_id score =
    if ltb score_scale score
    then (nodes, err (invalid_score score_scale score))
    else update nodes node_id
        (λ n. compute_reputation (record n { uptime_score = score }) (max_stake nodes))

unfoldable pub set_latency_score : NodeRegistry → NodeId → ℕ → NodeRegistry × Result (Unit {0})
unfolding update
set_latency_score nodes node_id score =
    if ltb score_scale score
    then (nodes, err (invalid_score score_scale score))
    else update nodes node_id
        (λ n. compute_reputation (record n { latency_score = score }) (max_stake nodes))

unfoldable pub with_load : Node → ℕ → ℕ → Node
with_load n current_tasks max_capacity =
    recompute_load_score
      (record n { current_tasks = current_tasks; max_capacity = max max_capacity 1 })

abbrev pub with_optional_load : Node → Option (ℕ × ℕ) → Node
with_optional_load n none = n
with_optional_load n (some (current_tasks, max_capacity)) = with_load n current_tasks max_capacity

unfoldable pub set_scores :
    NodeRegistry → NodeId → ℕ → ℕ → Option (ℕ × ℕ) → NodeRegistry × Result (Unit {0})
unfolding update
set_scores nodes node_id uptime_score latency_score load =
    if ltb score_scale uptime_score
    then (nodes, err (invalid_score score_scale uptime_score))
    else if ltb score_scale latency_score
    then (nodes, err (invalid_score score_scale latency_score))
    else update nodes node_id (λ n.
      compute_reputation
        (with_optional_load
          (record n { uptime_score = uptime_score; latency_score = latency_score }) load)
        (max_stake nodes))

unfoldable pub set_vote_stats : NodeRegistry → NodeId → ℕ → ℕ → NodeRegistry × Result (Unit {0})
unfolding update
set_vote_stats nodes node_id missed_votes total_votes =
    if ltb total_votes missed_votes
    then (nodes, err (invalid_vote_stats total_votes missed_votes))
    else update nodes node_id (λ n.
      compute_reputation (record n { missed_votes = missed_votes; total_votes = total_votes })
        (max_stake nodes))

abbrev pub count_vote : Bool → Node → Node
count_vote missed n = record n {
  total_votes = saturating_add u64_mod n.total_votes 1;
  missed_votes = if missed then saturating_add u64_mod n.missed_votes 1 else n.missed_votes;
}

unfoldable pub record_vote : NodeRegistry → NodeId → Bool → NodeRegistry × Result (Unit {0})
unfolding update
record_vote nodes node_id missed =
    update nodes node_id (λ n. compute_reputation (count_vote missed n) (max_stake nodes))

unfoldable pub set_load : NodeRegistry → NodeId → ℕ → ℕ → NodeRegistry × Result (Unit {0})
unfolding update
set_load nodes node_id current_tasks max_capacity =
    update nodes node_id
      (λ n. compute_reputation (with_load n current_tasks max_capacity) (max_stake nodes))

-- The new maximum is taken after the write.
unfoldable pub set_stake : NodeRegistry → NodeId → ℕ → NodeRegistry × Result (Unit {0})
unfolding recompute_all_reputations
set_stake nodes node_id stake = elim (Map.get nodes node_id) [
  | none ↦ (nodes, err (node_not_found node_id))
  | some n ↦ (recompute_all_reputations (insert nodes node_id (record n { stake = stake })), ok tt)
]

unfoldable pub set_status : NodeRegistry → NodeId → NodeStatus → NodeRegistry × Result (Unit {0})
unfolding update
set_status nodes node_id status = update nodes node_id (λ n. record n { status = status })

abbrev pub penalize : ℕ → ℕ → Node → Node
penalize amount suspension_threshold n =
    let score = saturating_sub n.reputation_score amount in
    record n {
      reputation_score = score;
      status = if ltb score suspension_threshold then suspended else n.status;
    }

unfoldable pub apply_reputation_penalty :
    NodeRegistry → NodeId → ℕ → ℕ → NodeRegistry × Result (Unit {0})
unfolding update
apply_reputation_penalty nodes node_id amount suspension_threshold =
    update nodes node_id (penalize amount suspension_threshold)

unfoldable pub get_eligible : NodeRegistry → List Node
get_eligible nodes =
    sort_by (λ (n : Node). n.node_id) (filter (λ (n : Node). is_active n.status) (values nodes))

unfoldable pub get_eligible_with_weights : NodeRegistry → List (Node × ℕ)
unfolding get_eligible
get_eligible_with_weights nodes =
    sort_by (λ (e : Node × ℕ). e.0.node_id)
      (map (λ (n : Node). (n, selection_weight n)) (get_eligible nodes))

unfoldable pub len : NodeRegistry → ℕ
len nodes = length nodes
