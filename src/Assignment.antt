-- ===== src/Assignment.antt =====
-- src/core/tx_assignment.rs: groups of verifiers whose stake covers the transactions.
pub mod Covering
use Prim.Native.String.{String}
use platarium_core.Base.{
  ℕ, zero, suc, ◌+◌, ◌%◌, max, ◌≡◌, Bool, true, false, ◌&&◌, not, Option, none, some, List, [], ◌∷◌,
  arith, ltb, leb, if◌then◌else◌, filter, length, get_elem?, is_empty, u128_mod, wrapping_add,
  Result, ok, err, ◌>>=◌, insufficient_validators, other,
}
use platarium_core.Data.Ord.{Ord, leb_total, leb_trans}
use platarium_core.Data.Sort.{sort_by}
use platarium_core.Transaction.{Transaction}
use platarium_core.Node.{Node, NodeId, selection_weight_ratio}
use platarium_core.Node.Registry.{NodeRegistry, get, get_eligible}

unfoldable pub required_stake_for_amount : ℕ → ℕ
required_stake_for_amount amount = max amount 1

unfoldable pub required_stake_for_tx : Transaction → ℕ
unfolding required_stake_for_amount
required_stake_for_tx tx = required_stake_for_amount tx.amount

unfoldable pub min_validator_stake_for_amount : ℕ → ℕ
min_validator_stake_for_amount amount = max amount 1

unfoldable pub min_validator_stake_for_tx : Transaction → ℕ
unfolding min_validator_stake_for_amount
min_validator_stake_for_tx tx = min_validator_stake_for_amount tx.amount

-- `wb.cmp(&wa)`: a larger weight comes first.
pub record Descending : Type 0 where
  pub weight : ℕ

pub descending_antisymm :
    (a b : Descending) → leb b.weight a.weight ≡ true → leb a.weight b.weight ≡ true → a ≡ b
descending_antisymm a b h k = ground (arith, h, k)

instance abbrev descending_ord : Ord Descending
descending_ord = record {
  le = λ a b. leb b.weight a.weight;
  le_total = λ a b. leb_total b.weight a.weight;
  le_antisymm = descending_antisymm;
  le_trans = λ a b c h k. leb_trans c.weight b.weight a.weight k h;
}

abbrev pub by_weight : Node → Descending
by_weight n = record { weight = selection_weight_ratio n }

unfoldable pub eligible_sorted_by_weight : NodeRegistry → ℕ → List Node
eligible_sorted_by_weight registry min_stake =
    sort_by by_weight (filter (λ (n : Node). leb min_stake n.stake) (get_eligible registry))

-- `nodes.iter().map(|n| n.stake).sum()`
abbrev pub total_stake : List Node → ℕ
total_stake [] = 0
total_stake (n ∷ ns) = wrapping_add u128_mod n.stake (total_stake ns)

-- The inner loop over `used..nodes.len()`: the group, its stake and the nodes after the last used.
unfoldable pub fill_group : ℕ → ℕ → List Node → ℕ → List Node → List NodeId × (ℕ × List Node)
fill_group required min_stake [] group_stake unused = ([], (group_stake, unused))
fill_group required min_stake (n ∷ ns) group_stake unused =
    let takes = leb min_stake n.stake in
    let rest =
      fill_group required min_stake ns
        (if takes then wrapping_add u128_mod group_stake n.stake else group_stake)
        (if takes then ns else unused) in
    if leb required group_stake
    then ([], (group_stake, unused))
    else (if takes then n.node_id ∷ rest.0 else rest.0, rest.1)

-- The loop over `0..max_groups`, for the nodes that are not used yet.
unfoldable pub form_groups : ℕ → ℕ → ℕ → List Node → List (List NodeId)
unfolding fill_group
form_groups zero required min_stake nodes = []
form_groups (suc max_groups) required min_stake nodes =
    let filled = fill_group required min_stake nodes 0 nodes in
    let others = form_groups max_groups required min_stake filled.1.1 in
    if is_empty filled.0 then [] else if leb required filled.1.0 then filled.0 ∷ others else []

unfoldable pub form_verifier_groups : NodeRegistry → ℕ → ℕ → ℕ → Result (List (List NodeId))
unfolding eligible_sorted_by_weight form_groups
form_verifier_groups registry required_total_stake min_validator_stake max_groups =
    let nodes = eligible_sorted_by_weight registry min_validator_stake in
    if is_empty nodes
    then err (insufficient_validators min_validator_stake 0)
    else if ltb (total_stake nodes) required_total_stake
    then err (insufficient_validators required_total_stake (total_stake nodes))
    else ok (form_groups max_groups required_total_stake min_validator_stake nodes)

pub record TxGroupAssignment : Type 0 where
  pub tx_hash : String
  pub group_index : ℕ
  pub verifier_ids : List NodeId

-- The two loops that find the largest requirements.
unfoldable pub largest : (Transaction → ℕ) → List Transaction → ℕ → ℕ
largest f [] best = best
largest f (tx ∷ txs) best = largest f txs (if ltb best (f tx) then f tx else best)

abbrev pub has_stake : NodeRegistry → ℕ → NodeId → Bool
has_stake registry min_stake id = elim (get registry id) [
  | none ↦ false
  | some n ↦ leb min_stake n.stake
]

-- `iter().filter_map(|id| registry.get(id).map(|n| n.stake)).sum()`
abbrev pub stake_of : NodeRegistry → List NodeId → ℕ
stake_of registry [] = 0
stake_of registry (id ∷ ids) = elim (get registry id) [
  | none ↦ stake_of registry ids
  | some n ↦ wrapping_add u128_mod n.stake (stake_of registry ids)
]

-- `filtered_stake >= req && !group_filtered.is_empty()`
abbrev pub covers : NodeRegistry → ℕ → List NodeId → Bool
covers registry req verifiers = leb req (stake_of registry verifiers) && not (is_empty verifiers)

abbrev pub filtered : NodeRegistry → Transaction → List NodeId → List NodeId
unfolding min_validator_stake_for_tx
filtered registry tx group = filter (has_stake registry (min_validator_stake_for_tx tx)) group

-- The first group from the given index on that covers the transaction.
unfoldable pub fallback :
    NodeRegistry → Transaction → ℕ → List (List NodeId) → Option (ℕ × List NodeId)
unfolding filtered required_stake_for_tx
fallback registry tx gidx [] = none
fallback registry tx gidx (g ∷ groups) =
    let later = fallback registry tx (suc gidx) groups in
    if covers registry (required_stake_for_tx tx) (filtered registry tx g)
    then some (gidx, filtered registry tx g)
    else later

abbrev pub group_at : List (List NodeId) → ℕ → List NodeId
group_at groups i = elim (get_elem? groups i) [ none ↦ [] | some g ↦ g ]

unfoldable pub assign :
    NodeRegistry → List (List NodeId) → ℕ → Transaction → Result TxGroupAssignment
unfolding fallback filtered required_stake_for_tx
assign registry groups tx_idx tx =
    let group_index = tx_idx % length groups in
    let group_filtered = filtered registry tx (group_at groups group_index) in
    if covers registry (required_stake_for_tx tx) group_filtered
    then ok (record { tx_hash = tx.hash; group_index = group_index; verifier_ids = group_filtered })
    else elim (fallback registry tx 0 groups) [
      | none ↦ err (insufficient_validators (required_stake_for_tx tx) 0)
      | some (gidx, ids) ↦ ok (record { tx_hash = tx.hash; group_index = gidx; verifier_ids = ids })
    ]

-- The loop over the transactions; the first failure stops it.
unfoldable pub assign_all :
    NodeRegistry → List (List NodeId) → ℕ → List Transaction → Result (List TxGroupAssignment)
unfolding assign
assign_all registry groups tx_idx [] = ok []
assign_all registry groups tx_idx (tx ∷ txs) = do
  assignment ← assign registry groups tx_idx tx
  assignments ← assign_all registry groups (suc tx_idx) txs
  ok (assignment ∷ assignments)

unfoldable pub assign_transactions_to_groups :
    List Transaction → NodeRegistry → ℕ → Result (List TxGroupAssignment)
unfolding largest form_verifier_groups assign_all
assign_transactions_to_groups txs registry max_groups = if is_empty txs then ok [] else do
  groups ←
      form_verifier_groups registry (largest required_stake_for_tx txs 0)
        (largest min_validator_stake_for_tx txs 0) max_groups
  (if is_empty groups
      then err (other "No verifier groups formed")
      else assign_all registry groups 0 txs)
