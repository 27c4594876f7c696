-- ===== src/Selection/Sampling.antt =====
-- The weighted sampling: what it returns, and that no remainder by zero stops it.
use mathlib.Core.List.{Permᴰ}
use mathlib.Core.List.Permᴰ
use mathlib.Core.Path.{subst}
use platarium_core.Base.{
  ℕ, zero, suc, ◌+◌, ◌-◌, ◌≤◌, ◌<◌, min, ◌≡◌, refl, sym, arith, false, some, List, [], ◌∷◌, ◌++◌,
  map, length, get_elem?, sum_by, All, ok, ◌==◌,
}
use platarium_core.Data.Ord.{string_ord}
use platarium_core.Node.{NodeId}
use platarium_core.Selection.{WeightedNode, pick_index, remove_at, select_rounds}

abbrev pub ids : List WeightedNode → List NodeId
ids = map (λ (w : WeightedNode). w.node_id)

abbrev pub exact_weight : List WeightedNode → ℕ
exact_weight = sum_by (λ (w : WeightedNode). w.weight)

-- Every weight is positive.
abbrev pub IsHeavy : List WeightedNode → Type 0
IsHeavy = All (λ (w : WeightedNode). 1 ≤ w.weight)

-- What is removed is the element at the index, and nothing else.
remove_at_lem :
    (i : ℕ) (l : List WeightedNode)
    → i < length l
    → IsHeavy l
    → (w : WeightedNode) × (get_elem? l i ≡ some w)
      × (w.weight + exact_weight (remove_at i l) ≡ exact_weight l)
      × (suc (length (remove_at i l)) ≡ length l)
      × IsHeavy (remove_at i l)
      × (1 ≤ w.weight)
      × Permᴰ (w.node_id ∷ ids (remove_at i l)) (ids l)
remove_at_lem i [] p h = ground arith
remove_at_lem zero (w ∷ l) p h = (w, refl, refl, refl, h.1, h.0, Permᴰ.refl _)
remove_at_lem (suc i) (v ∷ l) p h =
    let (w, found, weighs, shorter, heavy, positive, perm) = remove_at_lem i l (omega arith) h.1 in
    (
      w,
      found,
      omega (arith, weighs),
      omega (arith, shorter),
      (h.0, heavy),
      positive,
      Permᴰ.trans (Permᴰ.swap refl refl) (Permᴰ.cons refl perm),
    )

-- As many ids are selected as asked for, or all of them; they and the others make up the list.
abbrev pub IsSelection : ℕ → List NodeId → List NodeId → Type 0
IsSelection n candidates selected =
    (length selected ≡ min n (length candidates))
    × ((rest : List NodeId) × Permᴰ (selected ++ rest) candidates)

pub length-ids : (l : List WeightedNode) → length (ids l) ≡ length l
length-ids [] = refl
length-ids (w ∷ l) = omega (arith, length-ids l)

suc-min :
    (n k : ℕ) (l l' : List WeightedNode)
    → suc (length l) ≡ length l'
    → k ≡ min n (length (ids l))
    → suc k ≡ min (suc n) (length (ids l'))
suc-min n k l l' shorter counts = omega (arith, length-ids l, length-ids l')

module _ (sha256 : List ℕ → List ℕ) where
  pick_index-lt :
      (seed : List ℕ) (round : ℕ) (l : List WeightedNode) (total : ℕ)
      → 1 ≤ length l
      → pick_index sha256 seed round l total < length l
  unfolding pick_index
  pick_index-lt seed round l total h = omega arith

  round_step :
      (seed : List ℕ) (round n : ℕ) (v w : WeightedNode) (l : List WeightedNode) (total : ℕ)
      (selected : List NodeId)
      → get_elem? (v ∷ l) (pick_index sha256 seed round (v ∷ l) total) ≡ some w
      → (total == 0) ≡ false
      → select_rounds sha256 seed
          (suc round)
          n
          (remove_at (pick_index sha256 seed round (v ∷ l) total) (v ∷ l))
          (total - w.weight)
        ≡ ok selected
      → select_rounds sha256 seed round (suc n) (v ∷ l) total ≡ ok (w.node_id ∷ selected)
  unfolding select_rounds
  round_step seed round n v w l total selected found nonzero runs =
      rw (found, select_rounds) (rw nonzero (rw runs refl))

  pub select_rounds_lem :
      (seed : List ℕ) (round n : ℕ) (l : List WeightedNode)
      → IsHeavy l
      → (selected : List NodeId) × (select_rounds sha256 seed round n l (exact_weight l)
          ≡ ok selected)
        × IsSelection n (ids l) selected
  unfolding select_rounds
  select_rounds_lem seed round zero l h = ([], refl, (omega arith, (ids l, Permᴰ.refl _)))
  select_rounds_lem seed round (suc n) [] h = ([], refl, (omega arith, ([], Permᴰ.nil)))
  select_rounds_lem seed round (suc n) (v ∷ l) h =
      let idx = pick_index sha256 seed round (v ∷ l) (exact_weight (v ∷ l)) in
      let (w, found, weighs, shorter, heavy, positive, perm) =
        remove_at_lem idx (v ∷ l)
          (pick_index-lt seed round (v ∷ l) (exact_weight (v ∷ l)) (omega arith)) h in
      let (selected, runs, (counts, (rest, all))) =
        select_rounds_lem seed (suc round) n (remove_at idx (v ∷ l)) heavy in
      let left : exact_weight (v ∷ l) - w.weight ≡ exact_weight (remove_at idx (v ∷ l)) =
        omega (arith, weighs) in
      let positive_total : (exact_weight (v ∷ l) == 0) ≡ false = ground (arith, weighs, positive) in
      (
        w.node_id ∷ selected,
        round_step seed round n v w l (exact_weight (v ∷ l)) selected found positive_total (
            subst
              (λ total.
                select_rounds sha256 seed (suc round) n (remove_at idx (v ∷ l)) total ≡ ok selected)
              (sym left) runs),
        (
          suc-min n (length selected) (remove_at idx (v ∷ l)) (v ∷ l) shorter counts,
          (rest, Permᴰ.trans (Permᴰ.cons refl all) perm),
        ),
      )
