-- ===== src/Node/Scores.antt =====
-- Every score stays on its scale, whatever the arithmetic wraps.
use platarium_core.Base.{
  ℕ, ◌+◌, ◌-◌, ◌*◌, ◌/◌, ◌%◌, ◌≤◌, ◌<◌, max, ◌≡◌, arith, leb, ◌==◌, Bool-cases, inl, inr, u64_mod,
}
use platarium_core.Node.{
  Node, score_scale, vote_accuracy, stake_weight, reputation, recompute_load_score,
  selection_weight, selection_weight_ratio,
}

-- A product that may wrap, over a divisor that its factor does not exceed, is at most the scale.
scaled-le : (a b m : ℕ) → a ≤ b → 0 < b → 0 < m → (a * score_scale) % m / b ≤ score_scale
scaled-le a b m h p q = grind arith

pub vote_accuracy-le : (n : Node) → vote_accuracy n ≤ score_scale
unfolding vote_accuracy
vote_accuracy-le n = elim (Bool-cases (n.total_votes == 0)) [
  | inl none_yet ↦ rw none_yet (omega arith)
  | inr some_votes ↦ rw some_votes (
      scaled-le (n.total_votes - n.missed_votes) n.total_votes u64_mod (omega arith)
        (ground (arith, some_votes)) (omega arith))
]

pub load_score-le : (n : Node) → (recompute_load_score n).load_score ≤ score_scale
unfolding recompute_load_score
load_score-le n = elim (Bool-cases (leb (max n.max_capacity 1) n.current_tasks)) [
  | inl full ↦ rw full (omega arith)
  | inr room ↦ rw room (
      scaled-le n.current_tasks (max n.max_capacity 1) u64_mod (ground (arith, room)) (omega arith)
        (omega arith))
]

stake_weight-le : (stake top : ℕ) → stake_weight stake top ≤ score_scale
unfolding stake_weight
stake_weight-le stake top = ground arith

pub reputation-le :
    (n : Node) (top : ℕ)
    → n.uptime_score ≤ score_scale
    → n.latency_score ≤ score_scale
    → reputation n top ≤ score_scale
unfolding reputation
reputation-le n top u l = omega (arith, vote_accuracy-le n, stake_weight-le n.stake top)

-- The reputation is the weighted mean of the four scores, in exact arithmetic.
pub reputation_exact :
    (n : Node) (top : ℕ)
    → n.uptime_score ≤ score_scale
    → n.latency_score ≤ score_scale
    → reputation n top
      ≡ (n.uptime_score * 300
          + n.latency_score * 200
          + vote_accuracy n * 300
          + stake_weight n.stake top * 200)
        / 1000
unfolding reputation
reputation_exact n top u l = omega (arith, vote_accuracy-le n, stake_weight-le n.stake top)

quotient-le : (a b c : ℕ) → 0 < b → b ≤ c → a / c ≤ a / b
quotient-le a b c p h = grind arith

product-le : (r x : ℕ) → r ≤ score_scale → x ≤ score_scale → r * x ≤ r * score_scale
product-le r x h k = grind arith

-- The weight for selection is at most the reputation, and among nodes of one reputation a higher
-- load gives no higher weight.
pub selection_weight_antitone :
    (n n' : Node)
    → n.reputation_score ≤ score_scale
    → n'.reputation_score ≡ n.reputation_score
    → n.load_score ≤ n'.load_score
    → (selection_weight n ≤ n.reputation_score) × (selection_weight n' ≤ selection_weight n)
unfolding selection_weight
selection_weight_antitone n n' r same h =
    let x = score_scale - n.load_score in
    let y = score_scale - n'.load_score in
    let b = product-le n.reputation_score x r (omega arith) in
    let m : n.reputation_score * y ≤ n.reputation_score * x = grind arith in
    (omega (arith, b), rw same (omega (arith, b, m)))

-- The weight of the dynamic selection is a division by the load: among nodes of one reputation
-- a higher load gives no higher weight.
pub selection_weight_ratio_antitone :
    (n n' : Node)
    → n.reputation_score ≤ score_scale
    → n'.reputation_score ≡ n.reputation_score
    → n.load_score ≤ n'.load_score
    → selection_weight_ratio n' ≤ selection_weight_ratio n
unfolding selection_weight_ratio
selection_weight_ratio_antitone n n' r same h = rw same (
    quotient-le (n.reputation_score * score_scale % u64_mod) (max n.load_score 1)
      (max n'.load_score 1) (omega arith) (omega arith))
