-- ===== src/Node/Eligible.antt =====
-- The lists of nodes that selection starts from.
use mathlib.Core.Path.{subst}
use mathlib.Core.List.{Permᴰ}
use mathlib.Core.List.Permᴰ
use text.Mathlib.TextEquality.{eq_iff}
use platarium_core.Base.{
  ◌≡◌, ◌≢◌, true, false, Bool, List, [], ◌∷◌, arith, All, filter, Bool-cases, inl, inr,
}
use platarium_core.Data.Ord.{string_eq, string_ord}
use platarium_core.Data.Map.{contains_key, values}
use platarium_core.Data.Perm.{map-perm, filter-perm}
use platarium_core.Data.Sort.Order.{
  HasDistinctKeys, IsAscending, sort_by-perm, sort_by-Perm, sort_by-IsAscending, All-perm,
}
use platarium_core.Node.{Node, NodeId, is_active}
use platarium_core.Node.Registry.{NodeRegistry, get_eligible}
use platarium_core.Node.Invariant.{IsValid, NodeFits}

fresh_id :
    (nodes : NodeRegistry) (id : NodeId) (p : Node → Bool)
    → contains_key nodes id ≡ false
    → All NodeFits nodes
    → All (λ (n : Node). id ≢ n.node_id) (filter p (values nodes))
fresh_id [] id p c h = tt
fresh_id ((j, n) ∷ nodes) id p c h = elim (Bool-cases (p n)) [
  | inl t ↦
      rw t (
        (λ q. ground (arith, eq_iff j id, h.0.0, q, c)),
        fresh_id nodes id p (ground (arith, c)) h.1,
      )
  | inr f ↦ rw f (fresh_id nodes id p (ground (arith, c)) h.1)
]

pub nodes-HasDistinctKeys :
    (nodes : NodeRegistry) (p : Node → Bool)
    → IsValid nodes
    → HasDistinctKeys (λ (n : Node). n.node_id) (filter p (values nodes))
nodes-HasDistinctKeys [] p h = tt
nodes-HasDistinctKeys ((j, n) ∷ nodes) p h = elim (Bool-cases (p n)) [
  | inl t ↦ rw t (
    fresh_id nodes n.node_id p (subst (λ k. contains_key nodes k ≡ false) h.1.0.0 h.0.0) h.1.1,
    nodes-HasDistinctKeys nodes p (h.0.1, h.1.1),
  )
  | inr f ↦ rw f (nodes-HasDistinctKeys nodes p (h.0.1, h.1.1))
]

All-filter : (p : Node → Bool) (l : List Node) → All (λ n. p n ≡ true) (filter p l)
All-filter p [] = tt
All-filter p (n ∷ l) = elim (Bool-cases (p n)) [
  | inl t ↦ rw t (t, All-filter p l)
  | inr f ↦ rw f (All-filter p l)
]

-- The eligible nodes are the active ones of the registry, each as often as it is registered, in
-- an order that does not depend on how the registry iterates: their ids ascend.
pub get_eligible_lem :
    (nodes nodes' : NodeRegistry)
    → IsValid nodes
    → Permᴰ nodes nodes'
    → (get_eligible nodes ≡ get_eligible nodes')
      × All (λ (n : Node). is_active n.status ≡ true) (get_eligible nodes)
      × IsAscending (λ (n : Node). n.node_id) (get_eligible nodes)
      × Permᴰ (get_eligible nodes) (filter (λ (n : Node). is_active n.status) (values nodes))
unfolding get_eligible
get_eligible_lem nodes nodes' h p = (
  sort_by-perm (λ (n : Node). n.node_id)
      (filter-perm (λ (n : Node). is_active n.status) (map-perm (λ (e : NodeId × Node). e.1) p))
      (nodes-HasDistinctKeys nodes (λ n. is_active n.status) h),
  All-perm (λ (n : Node). n.node_id) (λ n. is_active n.status ≡ true)
      (Permᴰ.symm (
        sort_by-Perm (λ (n : Node). n.node_id)
          (filter (λ (n : Node). is_active n.status) (values nodes))))
      (All-filter (λ n. is_active n.status) (values nodes)),
  sort_by-IsAscending (λ (n : Node). n.node_id)
      (filter (λ (n : Node). is_active n.status) (values nodes)),
  sort_by-Perm (λ (n : Node). n.node_id) (filter (λ (n : Node). is_active n.status) (values nodes)),
)
