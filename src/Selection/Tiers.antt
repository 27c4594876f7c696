-- ===== src/Selection/Tiers.antt =====
-- The share of the validators that is selected, by load.
use platarium_core.Base.{ℕ, ◌*◌, ◌/◌, ◌≤◌, ◌<◌, min, ◌≡◌, arith, if◌then◌else◌, leb, u64_mod, ok}
use platarium_core.Selection.{selection_percent_from_load, committee_count}

-- A committee is never larger than the candidates. It has at least one member where there is a
-- candidate, and at least three where there are three.
pub committee_count_lem :
    (candidates load_pct : ℕ)
    → (committee_count candidates load_pct ≤ candidates)
      × ((if leb 3 candidates then 3 else min 1 candidates) ≤ committee_count candidates load_pct)
unfolding committee_count
committee_count_lem candidates load_pct = ground arith

quotient_mono : (a b c : ℕ) → a ≤ b → a / c ≤ b / c
quotient_mono a b c h = grind arith

-- Where 100 times the throughput fits 64 bits: a higher throughput selects no larger percentage,
-- which lies between 10 and 50.
pub selection_percent_from_load_antitone :
    (low high capacity p q : ℕ)
    → low ≤ high
    → high * 100 < u64_mod
    → selection_percent_from_load low capacity ≡ ok p
    → selection_percent_from_load high capacity ≡ ok q
    → (q ≤ p) × (10 ≤ q) × (p ≤ 50)
unfolding selection_percent_from_load
selection_percent_from_load_antitone low high capacity p q h small at_low at_high =
    let m = quotient_mono (low * 100) (high * 100) capacity (omega arith) in
    ground (arith, at_low, at_high, m)
