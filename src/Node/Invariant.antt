-- ===== src/Node/Invariant.antt =====
-- The registry's invariant, under any sequence of its operations.
use platarium_core.Base.{
  ℕ, ◌≤◌, ◌<◌, ◌≡◌, ◌∙◌, refl, [], ◌∷◌, arith, All, Option-cases, inl, inr, u64_mod,
}
use platarium_core.Data.Ord.{string_eq}
use platarium_core.Data.Map
use platarium_core.Data.Map.{HashMap, insert, contains_key, IsMap, insert-IsMap, remove-IsMap}
use platarium_core.Data.Entries.{All-get, All-insert}
use platarium_core.Node.{Node, NodeId, score_scale, compute_reputation}
use platarium_core.Node.Registry.{NodeRegistry, update, for_each}
use platarium_core.Node.Scores.{reputation-le}

pub record IsScored (n : Node) : Type 0 where
  pub reputation_fits : n.reputation_score ≤ score_scale
  pub uptime_fits : n.uptime_score ≤ score_scale
  pub latency_fits : n.latency_score ≤ score_scale
  pub load_fits : n.load_score ≤ score_scale
  pub has_capacity : 1 ≤ n.max_capacity
  pub votes_fit : n.missed_votes ≤ n.total_votes
  pub votes_bounded : n.total_votes < u64_mod

-- A node stands under its own id, and its scores are on their scales.
abbrev pub NodeFits : NodeId × Node → Type 0
NodeFits e = (e.0 ≡ e.1.node_id) × IsScored e.1

abbrev pub IsValid : NodeRegistry → Type 0
IsValid nodes = IsMap nodes × All NodeFits nodes

-- A change of a node that respects its id and its scores.
abbrev pub Keeps : (Node → Node) → Type 0
Keeps f = (n : Node) → IsScored n → (n.node_id ≡ (f n).node_id) × IsScored (f n)

pub compute_reputation-Keeps : (top : ℕ) → Keeps (λ n. compute_reputation n top)
unfolding compute_reputation
compute_reputation-Keeps top n h = (
  refl,
  record {
    reputation_fits = reputation-le n top h.uptime_fits h.latency_fits;
    uptime_fits = h.uptime_fits;
    latency_fits = h.latency_fits;
    load_fits = h.load_fits;
    has_capacity = h.has_capacity;
    votes_fit = h.votes_fit;
    votes_bounded = h.votes_bounded;
  },
)

pub update-IsValid :
    (nodes : NodeRegistry) (id : NodeId) (f : Node → Node)
    → Keeps f
    → IsValid nodes
    → IsValid (update nodes id f).0
unfolding update
update-IsValid nodes id f k h = elim (Option-cases (Map.get nodes id)) [
  | inl missing ↦ rw (missing, update) h
  | inr (n, found) ↦
      rw (found, update)
        (let fits = All-get NodeFits nodes id n found h.1 in
          let kept = k n fits.1 in
          (
            insert-IsMap nodes id (f n) h.0,
            All-insert NodeFits nodes id (f n) (fits.0 ∙ kept.0, kept.1) h.1,
          ))
]

pub contains_key-for_each :
    (f : Node → Node) (nodes : NodeRegistry) (id : NodeId)
    → contains_key (for_each f nodes) id ≡ contains_key nodes id
contains_key-for_each f [] id = refl
contains_key-for_each f ((j, n) ∷ nodes) id = ground (arith, contains_key-for_each f nodes id)

pub for_each-IsValid :
    (f : Node → Node) (nodes : NodeRegistry) → Keeps f → IsValid nodes → IsValid (for_each f nodes)
for_each-IsValid f [] k h = (tt, tt)
for_each-IsValid f ((j, n) ∷ nodes) k h =
    let rest = for_each-IsValid f nodes k (h.0.1, h.1.1) in
    let kept = k n h.1.0.1 in
    ((contains_key-for_each f nodes j ∙ h.0.0, rest.0), ((h.1.0.0 ∙ kept.0, kept.1), rest.1))
