-- ===== src/Node/Reach.antt =====
-- The registries that a node can come to hold, from a new one by any sequence of operations.
use Prim.Native.String.{String}
use platarium_core.Base.{
  ℕ, ◌<◌, refl, Bool, Option, List, [], ◌∷◌, arith, ltb, u64_mod, Bool-cases, inl, inr,
}
use platarium_core.Node.{NodeId, NodeStatus, score_scale, compute_reputation}
use platarium_core.Node.Registry.{
  NodeRegistry, new, register, unregister, recompute_all_reputations, set_uptime_score,
  set_latency_score, set_scores, set_vote_stats, record_vote, set_load, set_stake, set_status,
  apply_reputation_penalty, with_optional_load, max_stake, with_load, count_vote,
}
use platarium_core.Node.Invariant.{IsValid, compute_reputation-Keeps, update-IsValid}
use platarium_core.Node.Operations.{
  then-Keeps, with_load-Keeps, with_optional_load-Keeps, count_vote-Keeps, penalize-Keeps,
  register-IsValid, unregister-IsValid, recompute_all_reputations-IsValid, set_stake-IsValid,
}

pub data Operation : Type 0 where
  add : NodeId → String → ℕ → ℕ → Operation
  drop : NodeId → Operation
  uptime latency : NodeId → ℕ → Operation
  scores : NodeId → ℕ → ℕ → Option (ℕ × ℕ) → Operation
  vote_stats : NodeId → ℕ → (total : ℕ) → total < u64_mod → Operation
  vote : NodeId → Bool → Operation
  load : NodeId → ℕ → ℕ → Operation
  stake : NodeId → ℕ → Operation
  status : NodeId → NodeStatus → Operation
  penalty : NodeId → ℕ → ℕ → Operation
  recompute : Operation

abbrev pub perform : NodeRegistry → Operation → NodeRegistry
perform r (add id key s c) = (register r id key s c).0
perform r (drop id) = (unregister r id).0
perform r (uptime id s) = (set_uptime_score r id s).0
perform r (latency id s) = (set_latency_score r id s).0
perform r (scores id u l o) = (set_scores r id u l o).0
perform r (vote_stats id m t _) = (set_vote_stats r id m t).0
perform r (vote id m) = (record_vote r id m).0
perform r (load id t c) = (set_load r id t c).0
perform r (stake id s) = (set_stake r id s).0
perform r (status id s) = (set_status r id s).0
perform r (penalty id a t) = (apply_reputation_penalty r id a t).0
perform r recompute = recompute_all_reputations r

unfoldable pub run : NodeRegistry → List Operation → NodeRegistry
run r [] = r
run r (op ∷ ops) = run (perform r op) ops

set_uptime_score-IsValid :
    (r : NodeRegistry) (id : NodeId) (s : ℕ) → IsValid r → IsValid (set_uptime_score r id s).0
unfolding set_uptime_score
set_uptime_score-IsValid r id s h = elim (Bool-cases (ltb score_scale s)) [
  | inl out ↦ rw out h
  | inr fits ↦ rw fits (
      update-IsValid r id _
        (λ n k.
          compute_reputation-Keeps (max_stake r) (record n { uptime_score = s })
            (ground (arith, k, fits)))
        h)
]

set_latency_score-IsValid :
    (r : NodeRegistry) (id : NodeId) (s : ℕ) → IsValid r → IsValid (set_latency_score r id s).0
unfolding set_latency_score
set_latency_score-IsValid r id s h = elim (Bool-cases (ltb score_scale s)) [
  | inl out ↦ rw out h
  | inr fits ↦ rw fits (
      update-IsValid r id _
        (λ n k.
          compute_reputation-Keeps (max_stake r) (record n { latency_score = s })
            (ground (arith, k, fits)))
        h)
]

set_scores-IsValid :
    (r : NodeRegistry) (id : NodeId) (u l : ℕ) (o : Option (ℕ × ℕ))
    → IsValid r
    → IsValid (set_scores r id u l o).0
unfolding set_scores
set_scores-IsValid r id u l o h = elim (Bool-cases (ltb score_scale u)) [
  | inl out ↦ rw out h
  | inr fits_u ↦ elim (Bool-cases (ltb score_scale l)) [
    | inl out ↦ rw (fits_u, out) h
    | inr fits_l ↦
        rw (fits_u, fits_l)
          (update-IsValid r id _
            (λ n k.
              then-Keeps (λ m. with_optional_load m o) (λ m. compute_reputation m (max_stake r))
                (with_optional_load-Keeps o) (compute_reputation-Keeps (max_stake r))
                (record n { uptime_score = u; latency_score = l })
                (ground (arith, k, fits_u, fits_l)))
            h)
  ]
]

set_vote_stats-IsValid :
    (r : NodeRegistry) (id : NodeId) (m t : ℕ)
    → t < u64_mod
    → IsValid r
    → IsValid (set_vote_stats r id m t).0
unfolding set_vote_stats
set_vote_stats-IsValid r id m t small h = elim (Bool-cases (ltb t m)) [
  | inl out ↦ rw out h
  | inr fits ↦ rw fits (
      update-IsValid r id _
        (λ n k.
          compute_reputation-Keeps (max_stake r) (record n { missed_votes = m; total_votes = t })
            (ground (arith, k, fits, small)))
        h)
]

perform-IsValid : (r : NodeRegistry) (op : Operation) → IsValid r → IsValid (perform r op)
unfolding record_vote set_load set_status apply_reputation_penalty
perform-IsValid r (add id key s c) h = register-IsValid r id key s c h
perform-IsValid r (drop id) h = unregister-IsValid r id h
perform-IsValid r (uptime id s) h = set_uptime_score-IsValid r id s h
perform-IsValid r (latency id s) h = set_latency_score-IsValid r id s h
perform-IsValid r (scores id u l o) h = set_scores-IsValid r id u l o h
perform-IsValid r (vote_stats id m t small) h = set_vote_stats-IsValid r id m t small h
perform-IsValid r (vote id m) h =
    update-IsValid r id _
      (then-Keeps (count_vote m) (λ n. compute_reputation n (max_stake r)) (count_vote-Keeps m)
        (compute_reputation-Keeps (max_stake r)))
      h
perform-IsValid r (load id t c) h =
    update-IsValid r id _
      (then-Keeps (λ n. with_load n t c) (λ n. compute_reputation n (max_stake r))
        (with_load-Keeps t c) (compute_reputation-Keeps (max_stake r)))
      h
perform-IsValid r (stake id s) h = set_stake-IsValid r id s h
perform-IsValid r (status id s) h = update-IsValid r id _ (λ n k. (refl, ground (arith, k))) h
perform-IsValid r (penalty id a t) h = update-IsValid r id _ (penalize-Keeps a t) h
perform-IsValid r recompute h = recompute_all_reputations-IsValid r h

run-keeps : (r : NodeRegistry) (ops : List Operation) → IsValid r → IsValid (run r ops)
unfolding run
run-keeps r [] h = h
run-keeps r (op ∷ ops) h = run-keeps (perform r op) ops (perform-IsValid r op h)

-- Whatever operations are performed on a new registry, no id is registered twice, every node
-- stands under its own id, all four scores are at most 1 000 000, a node's capacity is at least 1,
-- and it has missed no more votes than there were.
pub run-IsValid : (ops : List Operation) → IsValid (run new ops)
run-IsValid ops = run-keeps new ops (tt, tt)
