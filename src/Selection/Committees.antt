-- ===== src/Selection/Committees.antt =====
-- The committees: members are eligible, nobody is selected twice, and the two levels are disjoint.
use mathlib.Core.List.{Permᴰ}
use mathlib.Core.List.Permᴰ
use mathlib.Core.Path.{subst}
use platarium_core.Base.{
  ℕ, zero, suc, ◌≤◌, ◌<◌, ◌≡◌, ◌∙◌, refl, arith, Bool, false, ◌||◌, List, [], ◌∷◌, map,
  if◌then◌else◌, length, All, any, filter, u64_mod, Result, ok, ◌==◌, Bool-cases, inl, inr,
}
use platarium_core.Data.Ord.{◌==◌ as same, string_eq, string_ord}
use platarium_core.Data.Sort.{sort_by}
use platarium_core.Data.Sort.Plain.{sort, sort-length, sort-Perm}
use platarium_core.Data.Sort.Order.{sort_by-Perm, All-perm}
use platarium_core.Data.Perm.{map-perm, append-perm, All-prefix, sum_by-perm, perm-length}
use platarium_core.Node.{Node, NodeId}
use platarium_core.Node.Registry.{NodeRegistry, get_eligible}
use platarium_core.Selection.{
  WeightedNode, total_weight_of, weighted_of, select_count, weighted_select_n, select_from,
  excludes, selection_percent_from_load, selection_percent_from_load_l2, compute_seed,
  compute_seed_l2, select_validators, select_validators_with_percent, select_validators_l2,
  select_l1_l2_validators,
}
use platarium_core.Selection.Sampling.{ids, exact_weight, IsHeavy, IsSelection, select_rounds_lem}

total_weight_of-exact :
    (l : List WeightedNode) → exact_weight l < u64_mod → total_weight_of l ≡ exact_weight l
total_weight_of-exact [] h = refl
total_weight_of-exact (w ∷ l) h = let e = total_weight_of-exact l (omega arith) in omega (arith, e)

node_ids : List Node → List NodeId
node_ids = map (λ (n : Node). n.node_id)

ids-weighted_of : (ns : List Node) → ids (weighted_of ns) ≡ map (λ (n : Node). n.node_id) ns
ids-weighted_of [] = refl
ids-weighted_of (n ∷ ns) = cc (ids-weighted_of ns)

weighted_of-IsHeavy : (ns : List Node) → IsHeavy (weighted_of ns)
weighted_of-IsHeavy [] = tt
weighted_of-IsHeavy (n ∷ ns) = (omega arith, weighted_of-IsHeavy ns)

exact_weight-heavy :
    (w : WeightedNode) (l : List WeightedNode)
    → IsHeavy (w ∷ l)
    → (exact_weight (w ∷ l) == 0) ≡ false
exact_weight-heavy w l h = ground (arith, h.0)

IsSelection-perm :
    (n : ℕ) (c c' selected : List NodeId)
    → length c ≡ length c'
    → Permᴰ c c'
    → IsSelection n c selected
    → IsSelection n c' selected
IsSelection-perm n c c' selected same_length p (counts, (rest, all)) =
    (omega (arith, counts, same_length), (rest, Permᴰ.trans all p))

suc-ne-zero : (n : ℕ) → (suc n == 0) ≡ false
suc-ne-zero n = ground arith

select_count-pos : (n percent : ℕ) → (select_count (suc n) percent == 0) ≡ false
unfolding select_count
select_count-pos n percent = ground arith

pass_guards :
    (a b : Bool) (x : Result (List NodeId))
    → a ≡ false
    → b ≡ false
    → (if a || false then ok [] else if b then ok [] else x) ≡ x
pass_guards a b x p q = ground arith

module _ (sha256 : List ℕ → List ℕ) where
  -- Of nodes whose weights are positive, and sum up to a 64-bit number, the sampling selects as many as it is
  -- asked for, or all of them, none of them twice; it never divides by zero.
  pub weighted_select_n_lem :
      (l : List WeightedNode) (n : ℕ) (seed : List ℕ)
      → IsHeavy l
      → exact_weight l < u64_mod
      → (selected : List NodeId) × (weighted_select_n sha256 l (total_weight_of l) n seed
          ≡ ok selected)
        × IsSelection n (ids l) selected
  unfolding weighted_select_n
  weighted_select_n_lem [] n seed h small = ([], ground arith, (omega arith, ([], Permᴰ.nil)))
  weighted_select_n_lem (w ∷ l) zero seed h small =
      ([], refl, (omega arith, (ids (w ∷ l), Permᴰ.refl _)))
  weighted_select_n_lem (w ∷ l) (suc n) seed h small =
      let (selected, runs, (counts, (rest, all))) =
        select_rounds_lem sha256 seed 0 (suc n) (w ∷ l) h in
      let exact = total_weight_of-exact (w ∷ l) small in
      (
        sort selected,
        rw exact (rw (exact_weight-heavy w l h) (rw (runs, suc-ne-zero n) refl)),
        (
          omega (arith, counts, sort-length selected),
          (rest, Permᴰ.trans (append-perm (sort-Perm selected) rest) all),
        ),
      )

  empty_selection : (percent : ℕ) (seed : List ℕ) → select_from sha256 [] percent seed ≡ ok []
  unfolding select_from
  empty_selection percent seed = ground arith

  select_from_lem :
      (eligible : List Node) (percent : ℕ) (seed : List ℕ)
      → exact_weight (weighted_of eligible) < u64_mod
      → (selected : List NodeId) × (select_from sha256 eligible percent seed ≡ ok selected)
        × IsSelection
            (select_count (length eligible) percent)
            (map (λ (n : Node). n.node_id) eligible)
            selected
  unfolding select_from
  select_from_lem [] percent seed small =
      ([], empty_selection percent seed, (omega arith, ([], Permᴰ.nil)))
  select_from_lem (n ∷ ns) percent seed small =
      let sorted = sort_by (λ (w : WeightedNode). w.node_id) (weighted_of (n ∷ ns)) in
      let p = sort_by-Perm (λ (w : WeightedNode). w.node_id) (weighted_of (n ∷ ns)) in
      let count = select_count (length (n ∷ ns)) percent in
      let same_weight = sum_by-perm (λ (w : WeightedNode). w.weight) p in
      let fits : exact_weight sorted < u64_mod = omega (arith, same_weight, small) in
      let heavy =
        All-perm (λ (w : WeightedNode). w.node_id) (λ w. 1 ≤ w.weight) (Permᴰ.symm p)
          (weighted_of-IsHeavy (n ∷ ns)) in
      let (selected, runs, chosen) = weighted_select_n_lem sorted count seed heavy fits in
      let exact = total_weight_of-exact sorted fits in
      let positive : (total_weight_of sorted == 0) ≡ false = ground (
        arith,
        exact,
        same_weight,
        exact_weight-heavy _ (weighted_of ns) (weighted_of-IsHeavy (n ∷ ns)),
      ) in
      let names = ids-weighted_of (n ∷ ns) in
      let kept = map-perm (λ (w : WeightedNode). w.node_id) p in
      (
        selected,
        pass_guards _ _ _ (select_count-pos (length ns) percent) positive ∙ runs,
        subst (λ c. IsSelection count c selected) names
            (IsSelection-perm count (ids sorted) (ids (weighted_of (n ∷ ns))) selected
              (perm-length kept) kept chosen),
      )

  excluded :
      (l1 : List NodeId) (ns : List Node)
      → All
          (λ id. any (λ k. same k id) l1 ≡ false)
          (map (λ (n : Node). n.node_id) (filter (excludes l1) ns))
  excluded l1 [] = tt
  excluded l1 (n ∷ ns) = elim (Bool-cases (any (λ k. same k n.node_id) l1)) [
    | inl known ↦ rw known (excluded l1 ns)
    | inr fresh ↦ rw fresh (fresh, excluded l1 ns)
  ]

  filter-weight :
      (l1 : List NodeId) (ns : List Node)
      → exact_weight (weighted_of (filter (excludes l1) ns)) ≤ exact_weight (weighted_of ns)
  filter-weight l1 [] = omega arith
  filter-weight l1 (n ∷ ns) = elim (Bool-cases (any (λ k. same k n.node_id) l1)) [
    | inl known ↦ rw known (omega (arith, filter-weight l1 ns))
    | inr fresh ↦ rw fresh (omega (arith, filter-weight l1 ns))
  ]

  both_selected :
      (registry : NodeRegistry) (block_number : ℕ) (entropy : List ℕ) (tps capacity p q : ℕ)
      (l1 l2 : List NodeId)
      → selection_percent_from_load tps capacity ≡ ok p
      → selection_percent_from_load_l2 tps capacity ≡ ok q
      → select_from sha256 (get_eligible registry) p (compute_seed sha256 block_number entropy)
        ≡ ok l1
      → select_from sha256
          (filter (excludes l1) (get_eligible registry))
          q
          (compute_seed_l2 sha256 block_number entropy)
        ≡ ok l2
      → select_l1_l2_validators sha256 registry block_number entropy tps capacity ≡ ok (l1, l2)
  unfolding select_l1_l2_validators select_validators select_validators_l2
      select_validators_with_percent
  both_selected registry block_number entropy tps capacity p q l1 l2 some_p some_q runs1 runs2 =
      rw some_p (rw runs1 (rw some_q (rw runs2 refl)))

  -- For a capacity that gives the percentages p and q, and eligible nodes whose selection weights
  -- sum up to a 64-bit number: the selection succeeds. The first committee has as many members as
  -- `select_count` says for p, all eligible and none twice; the second as many as it says for q of the
  -- eligible nodes outside the first, all of them from there and none twice. No member of the
  -- second is in the first.
  pub select_l1_l2_validators_lem :
      (registry : NodeRegistry) (block_number : ℕ) (entropy : List ℕ) (tps capacity p q : ℕ)
      → selection_percent_from_load tps capacity ≡ ok p
      → selection_percent_from_load_l2 tps capacity ≡ ok q
      → exact_weight (weighted_of (get_eligible registry)) < u64_mod
      → (l1 : List NodeId) × (l2 : List NodeId) × (select_l1_l2_validators sha256 registry
            block_number entropy tps capacity
          ≡ ok (l1, l2))
        × IsSelection
            (select_count (length (get_eligible registry)) p)
            (map (λ (n : Node). n.node_id) (get_eligible registry))
            l1
        × IsSelection
            (select_count (length (filter (excludes l1) (get_eligible registry))) q)
            (map (λ (n : Node). n.node_id) (filter (excludes l1) (get_eligible registry)))
            l2
        × All (λ id. any (λ k. same k id) l1 ≡ false) l2
  unfolding select_l1_l2_validators
  select_l1_l2_validators_lem registry block_number entropy tps capacity p q some_p some_q small =
      let eligible = get_eligible registry in
      let (l1, runs1, chosen1) =
        select_from_lem eligible p (compute_seed sha256 block_number entropy) small in
      let rest = filter (excludes l1) eligible in
      let (l2, runs2, chosen2) =
        select_from_lem rest q (compute_seed_l2 sha256 block_number entropy)
          (omega (arith, small, filter-weight l1 eligible)) in
      (
        l1,
        l2,
        both_selected registry block_number entropy tps capacity p q l1 l2 some_p some_q runs1
            runs2,
        chosen1,
        chosen2,
        All-prefix (λ id. any (λ k. same k id) l1 ≡ false) l2 chosen2.1.0
            (All-perm (λ id. id) (λ id. any (λ k. same k id) l1 ≡ false) (Permᴰ.symm chosen2.1.1)
              (excluded l1 eligible)),
      )
