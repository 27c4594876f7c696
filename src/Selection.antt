-- ===== src/Selection.antt =====
-- src/core/validator_selection.rs: how many validators are selected, and which.
pub mod Sampling
pub mod Tiers
pub mod Halving
pub mod Committees
use Prim.Native.String.{String}
use platarium_core.Base.{
  ℕ, zero, suc, ◌+◌, ◌-◌, ◌*◌, ◌/◌, ◌%◌, min, max, Bool, true, false, not, ◌||◌, none, some, List,
  [], ◌∷◌, ◌++◌, map, ltb, leb, ◌==◌, if◌then◌else◌, filter, any, length, get_elem?, is_empty,
  u64_mod, wrapping_add, wrapping_mul, saturating_sub, Result, ok, err, ◌>>=◌, zero_capacity, other,
  panic,
}
use platarium_core.Data.Ord.{◌==◌ as same, string_eq, string_ord}
use platarium_core.Data.Sort.{sort_by}
use platarium_core.Data.Sort.Plain.{sort}
use platarium_core.Data.Bytes.{as_bytes, to_le_bytes}
use platarium_core.Node.{Node, NodeId, selection_weight_ratio}
use platarium_core.Node.Registry.{NodeRegistry, get_eligible}

abbrev pub min_committee_for_consensus : ℕ
min_committee_for_consensus = 3

unfoldable pub selection_percent_from_load : ℕ → ℕ → Result ℕ
selection_percent_from_load current_tps system_capacity =
    if system_capacity == 0
    then err zero_capacity
    else let load_pct = wrapping_mul u64_mod current_tps 100 / system_capacity in
      ok (
        if load_pct == 0
        then 50
        else if ltb load_pct 20
        then 30
        else if ltb load_pct 30
        then 25
        else if ltb load_pct 60
        then 20
        else if ltb load_pct 85
        then 15
        else 10)

unfoldable pub selection_percent_from_load_pct : ℕ → Result ℕ
unfolding selection_percent_from_load
selection_percent_from_load_pct load_pct = selection_percent_from_load load_pct 100

abbrev unwrap_or : Result ℕ → ℕ → ℕ
unwrap_or (ok v) d = v
unwrap_or (err e) d = d

unfoldable pub committee_count : ℕ → ℕ → ℕ
unfolding selection_percent_from_load_pct
committee_count candidate_count load_pct =
    if candidate_count == 0
    then 0
    else let percent = unwrap_or (selection_percent_from_load_pct load_pct) 10 in
      let share = wrapping_mul u64_mod candidate_count percent / 100 in
      let count = if ltb share 1 then 1 else share in
      let raised =
        if leb min_committee_for_consensus candidate_count
        then (if ltb count min_committee_for_consensus then min_committee_for_consensus else count)
        else count in
      min raised candidate_count

unfoldable pub selection_percent_from_load_l2 : ℕ → ℕ → Result ℕ
selection_percent_from_load_l2 current_tps system_capacity =
    if system_capacity == 0
    then err zero_capacity
    else let load_pct = wrapping_mul u64_mod current_tps 100 / system_capacity in
      ok (
        if ltb load_pct 30
        then 20
        else if ltb load_pct 60
        then 15
        else if ltb load_pct 85
        then 12
        else 10)

unfoldable pub select_count : ℕ → ℕ → ℕ
select_count eligible_count percent =
    if eligible_count == 0
    then 0
    else let n = wrapping_mul u64_mod eligible_count percent / 100 in
      if n == 0 then 1 else min n eligible_count

pub record WeightedNode : Type 0 where
  pub node_id : NodeId
  pub weight : ℕ

-- `iter().map(|w| w.weight).sum()`
abbrev pub total_weight_of : List WeightedNode → ℕ
total_weight_of [] = 0
total_weight_of (w ∷ ws) = wrapping_add u64_mod w.weight (total_weight_of ws)

-- The cumulative weights.
abbrev pub cumulative : ℕ → List WeightedNode → List ℕ
cumulative sum [] = []
cumulative sum (w ∷ ws) = let next = wrapping_add u64_mod sum w.weight in next ∷ cumulative next ws

-- `binary_search_by`, whose two results are merged, as the standard library halves the range of
-- `size` elements from `base` on. A list that does not ascend, where the sums wrapped, is halved too.
abbrev pub element_at : List ℕ → ℕ → ℕ
element_at [] i = 0
element_at (c ∷ cs) zero = c
element_at (c ∷ cs) (suc i) = element_at cs i

unfoldable pub halve : ℕ → List ℕ → ℕ → ℕ → ℕ → ℕ
halve target list zero base size = base
halve target list (suc fuel) base size =
    let half = size / 2 in
    let mid = base + half in
    let next = if ltb target (element_at list mid) then base else mid in
    let rest = halve target list fuel next (size - half) in if leb size 1 then base else rest

unfoldable pub search : ℕ → List ℕ → ℕ
unfolding halve
search target list =
    let base = halve target list (length list) 0 (length list) in
    if is_empty list then 0 else if ltb (element_at list base) target then base + 1 else base

-- `Vec::remove`
abbrev pub remove_at : ℕ → List WeightedNode → List WeightedNode
remove_at i [] = []
remove_at zero (w ∷ ws) = ws
remove_at (suc i) (w ∷ ws) = w ∷ remove_at i ws

abbrev pub weighted_of : List Node → List WeightedNode
weighted_of =
    map (λ (n : Node). record { node_id = n.node_id; weight = max (selection_weight_ratio n) 1 })

abbrev pub from_le_bytes : ℕ → List ℕ → ℕ
from_le_bytes zero bytes = 0
from_le_bytes (suc n) [] = 0
from_le_bytes (suc n) (b ∷ bs) = b + 256 * from_le_bytes n bs

-- A remainder by zero is a panic.
abbrev pub panicked : Result (List NodeId)
panicked = err (panic "attempt to calculate the remainder with a divisor of zero")

-- `!exclude_set.contains(&n.node_id)`
abbrev pub excludes : List NodeId → Node → Bool
excludes exclude n = not (any (λ id. same id n.node_id) exclude)

-- SHA-256 is the external sha2's.
module _ (sha256 : List ℕ → List ℕ) where
  unfoldable pub compute_seed : ℕ → List ℕ → List ℕ
  compute_seed block_number global_entropy = sha256 (to_le_bytes 8 block_number ++ global_entropy)

  unfoldable pub compute_seed_l2 : ℕ → List ℕ → List ℕ
  compute_seed_l2 block_number global_entropy =
      sha256 (as_bytes "L2" ++ (to_le_bytes 8 block_number ++ global_entropy))

  unfoldable pub hash_for_round : List ℕ → ℕ → ℕ
  hash_for_round seed round = from_le_bytes 8 (sha256 (seed ++ to_le_bytes 4 round))

  -- The index that a round picks of a list that is not empty.
  unfoldable pub pick_index : List ℕ → ℕ → List WeightedNode → ℕ → ℕ
  unfolding hash_for_round
  pick_index seed round list current_total =
      let slot = hash_for_round seed round % current_total in
      min (search (wrapping_add u64_mod slot 1) (cumulative 0 list))
        (saturating_sub (length list) 1)

  -- The rounds of `weighted_select_n`: `n` are left.
  unfoldable pub select_rounds : List ℕ → ℕ → ℕ → List WeightedNode → ℕ → Result (List NodeId)
  unfolding pick_index
  select_rounds seed round zero list current_total = ok []
  select_rounds seed round (suc n) [] current_total = ok []
  select_rounds seed round (suc n) (w ∷ ws) current_total =
      let idx = pick_index seed round (w ∷ ws) current_total in
      elim (get_elem? (w ∷ ws) idx) [
        | none ↦ panicked
        | some picked ↦
            let rest =
              select_rounds seed (suc round) n (remove_at idx (w ∷ ws))
                (saturating_sub current_total picked.weight) in
            if current_total == 0
            then panicked
            else rest >>= λ selected. ok (picked.node_id ∷ selected)
      ]

  unfoldable pub weighted_select_n : List WeightedNode → ℕ → ℕ → List ℕ → Result (List NodeId)
  unfolding select_rounds
  weighted_select_n weighted total_weight n seed =
      if n == 0 || (total_weight == 0 || is_empty weighted)
      then ok []
      else (select_rounds seed 0 n weighted total_weight >>= λ selected. ok (sort selected))

  -- The common end of the two selections.
  unfoldable pub select_from : List Node → ℕ → List ℕ → Result (List NodeId)
  unfolding weighted_select_n select_count
  select_from eligible percent seed =
      let count = select_count (length eligible) percent in
      let weighted = sort_by (λ (w : WeightedNode). w.node_id) (weighted_of eligible) in
      let total_weight = total_weight_of weighted in
      if count == 0 || is_empty eligible
      then ok []
      else if total_weight == 0
      then ok []
      else weighted_select_n weighted total_weight count seed

  unfoldable pub select_validators_with_percent : NodeRegistry → List ℕ → ℕ → Result (List NodeId)
  unfolding select_from
  select_validators_with_percent registry seed percent =
      select_from (get_eligible registry) percent seed

  unfoldable pub select_validators : NodeRegistry → ℕ → ℕ → ℕ → List ℕ → Result (List NodeId)
  unfolding select_validators_with_percent compute_seed
  select_validators registry current_tps system_capacity block_number global_entropy = do
    percent ← selection_percent_from_load current_tps system_capacity
    select_validators_with_percent registry (compute_seed block_number global_entropy) percent

  unfoldable pub select_validators_l2 :
      NodeRegistry → ℕ → ℕ → ℕ → List ℕ → List NodeId → Result (List NodeId)
  unfolding select_from compute_seed_l2
  select_validators_l2 registry current_tps system_capacity block_number global_entropy exclude = do
    percent ← selection_percent_from_load_l2 current_tps system_capacity
    select_from (filter (excludes exclude) (get_eligible registry)) percent
        (compute_seed_l2 block_number global_entropy)

  unfoldable pub select_l1_l2_validators :
      NodeRegistry → ℕ → List ℕ → ℕ → ℕ → Result (List NodeId × List NodeId)
  unfolding select_validators select_validators_l2
  select_l1_l2_validators registry block_number prev_finalized_hash current_tps capacity = do
    l1 ← select_validators registry current_tps capacity block_number prev_finalized_hash
    l2 ← select_validators_l2 registry current_tps capacity block_number prev_finalized_hash l1
    ok (l1, l2)

  unfoldable pub select_n_by_weight : List (NodeId × ℕ) → List ℕ → ℕ → Result (List NodeId)
  unfolding weighted_select_n
  select_n_by_weight candidates seed n =
      let weighted =
        map (λ (e : NodeId × ℕ). record { node_id = e.0; weight = max e.1 1 }) candidates in
      let total_weight = total_weight_of weighted in
      let count = min n (length weighted) in
      let raised =
        if leb min_committee_for_consensus (length weighted)
        then (if ltb count min_committee_for_consensus
            then min min_committee_for_consensus (length weighted)
            else count)
        else count in
      if n == 0 || is_empty candidates
      then ok []
      else if total_weight == 0
      then ok []
      else weighted_select_n weighted total_weight raised seed
