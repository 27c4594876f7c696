-- ===== src/Node/Operations.antt =====
-- Every operation of the registry keeps its invariant.
use Prim.Native.String.{String}
use platarium_core.Base.{
  ℕ, max, ◌∙◌, refl, Bool, Option, none, some, arith, Bool-cases, Option-cases, inl, inr,
}
use platarium_core.Data.Ord.{string_eq}
use platarium_core.Data.Map
use platarium_core.Data.Map.{HashMap, insert, contains_key, IsMap, insert-IsMap, remove-IsMap}
use platarium_core.Data.Entries.{All-get, All-insert, All-remove}
use platarium_core.Node.{Node, NodeId, new_node, recompute_load_score}
use platarium_core.Node.Registry.{
  NodeRegistry, register, unregister, recompute_all_reputations, set_stake, with_load,
  with_optional_load, count_vote, penalize, max_stake,
}
use platarium_core.Node.Scores.{load_score-le}
use platarium_core.Node.Invariant.{
  NodeFits, IsValid, Keeps, compute_reputation-Keeps, for_each-IsValid,
}

-- Keeping is closed under composition.
pub then-Keeps : (f g : Node → Node) → Keeps f → Keeps g → Keeps (λ n. g (f n))
then-Keeps f g k l n h = let a = k n h in let b = l (f n) a.1 in (a.0 ∙ b.0, b.1)

pub with_load-Keeps : (tasks capacity : ℕ) → Keeps (λ n. with_load n tasks capacity)
unfolding with_load recompute_load_score
with_load-Keeps tasks capacity n h = (
  refl,
  record {
    reputation_fits = h.reputation_fits;
    uptime_fits = h.uptime_fits;
    latency_fits = h.latency_fits;
    load_fits = load_score-le (record n { current_tasks = tasks; max_capacity = max capacity 1 });
    has_capacity = omega arith;
    votes_fit = h.votes_fit;
    votes_bounded = h.votes_bounded;
  },
)

pub with_optional_load-Keeps : (load : Option (ℕ × ℕ)) → Keeps (λ n. with_optional_load n load)
with_optional_load-Keeps none n h = (refl, h)
with_optional_load-Keeps (some (tasks, capacity)) n h = with_load-Keeps tasks capacity n h

pub count_vote-Keeps : (missed : Bool) → Keeps (count_vote missed)
count_vote-Keeps missed n h = (refl, ground arith)

pub penalize-Keeps : (amount threshold : ℕ) → Keeps (penalize amount threshold)
penalize-Keeps amount threshold n h = (refl, ground arith)

pub register-IsValid :
    (nodes : NodeRegistry) (id : NodeId) (key : String) (stake capacity : ℕ)
    → IsValid nodes
    → IsValid (register nodes id key stake capacity).0
unfolding register new_node
register-IsValid nodes id key stake capacity h = elim (Bool-cases (contains_key nodes id)) [
  | inl known ↦ rw known h
  | inr fresh ↦ rw fresh (
      let node = new_node id key stake capacity in
      let kept = compute_reputation-Keeps (max (max_stake nodes) stake) node (ground arith) in
      (insert-IsMap nodes id _ h.0, All-insert NodeFits nodes id _ (kept.0, kept.1) h.1))
]

pub unregister-IsValid :
    (nodes : NodeRegistry) (id : NodeId) → IsValid nodes → IsValid (unregister nodes id).0
unfolding unregister
unregister-IsValid nodes id h = elim (Bool-cases (contains_key nodes id)) [
  | inl known ↦ rw known (remove-IsMap nodes id h.0, All-remove NodeFits nodes id h.1)
  | inr fresh ↦ rw fresh h
]

pub recompute_all_reputations-IsValid :
    (nodes : NodeRegistry) → IsValid nodes → IsValid (recompute_all_reputations nodes)
unfolding recompute_all_reputations
recompute_all_reputations-IsValid nodes h =
    for_each-IsValid _ nodes (compute_reputation-Keeps (max_stake nodes)) h

pub set_stake-IsValid :
    (nodes : NodeRegistry) (id : NodeId) (stake : ℕ)
    → IsValid nodes
    → IsValid (set_stake nodes id stake).0
unfolding set_stake
set_stake-IsValid nodes id stake h = elim (Option-cases (Map.get nodes id)) [
  | inl missing ↦ rw (missing, set_stake) h
  | inr (n, found) ↦
      rw (found, set_stake)
        (let fits = All-get NodeFits nodes id n found h.1 in
          recompute_all_reputations-IsValid _ (
            insert-IsMap nodes id _ h.0,
            All-insert NodeFits nodes id (record n { stake = stake })
                (fits.0, ground (arith, fits.1)) h.1,
          ))
]
