-- ===== src/Assembly/Rotation.antt =====
-- The leaders' rotation, and the limits of a block.
use platarium_core.Base.{
  ℕ, zero, suc, ◌+◌, ◌%◌, ◌≤◌, ◌<◌, ◌≡◌, refl, arith, false, some, List, [], ◌∷◌, length, get_elem?,
  ◌==◌,
}
use native.Mathlib.Nat.{add-mod_right}
use platarium_core.Node.{NodeId}
use platarium_core.Assembly.{
  block_leader_for_height, block_leader_index_for_height, max_block_size_bytes, max_block_time_sec,
}

get_elem?-lt : (xs : List NodeId) (i : ℕ) → i < length xs → (x : NodeId) × (get_elem? xs i ≡ some x)
get_elem?-lt [] i h = ground arith
get_elem?-lt (x ∷ xs) zero h = (x, refl)
get_elem?-lt (x ∷ xs) (suc i) h = get_elem?-lt xs i (omega arith)

-- In a validator group that is not empty, every height has a leader, who is a member, at the index that
-- `block_leader_index_for_height` reports, and leads again as many heights later as there are
-- members.
pub block_leader_for_height_lem :
    (height : ℕ) (validators : List NodeId)
    → 0 < length validators
    → (leader : NodeId) × ((block_leader_for_height height validators ≡ some leader)
        × ((get_elem? validators (block_leader_index_for_height height (length validators))
              ≡ some leader)
            × (block_leader_for_height (height + length validators) validators ≡ some leader)))
unfolding block_leader_for_height block_leader_index_for_height
block_leader_for_height_lem height [] h = ground arith
block_leader_for_height_lem height (v ∷ vs) h =
    let n = length (v ∷ vs) in
    let f = get_elem?-lt (v ∷ vs) (height % n) (grind arith) in
    let e : (height + n) % n ≡ height % n = add-mod_right height n in
    let nonzero : (n == 0) ≡ false = ground arith in (f.0, (f.1, (rw nonzero f.1, rw e f.1)))

-- Under a higher load a block has neither a longer window nor a larger size; the window has 2 to 5
-- seconds, and the size is from half the default to the default.
pub block_limits_antitone :
    (pool tps low high : ℕ)
    → low ≤ high
    → ((max_block_time_sec high ≤ max_block_time_sec low)
        × ((2 ≤ max_block_time_sec high) × (max_block_time_sec low ≤ 5)))
      × ((max_block_size_bytes pool tps high ≤ max_block_size_bytes pool tps low)
          × ((131_072 ≤ max_block_size_bytes pool tps high)
              × (max_block_size_bytes pool tps low ≤ 262_144)))
unfolding max_block_time_sec max_block_size_bytes
block_limits_antitone pool tps low high h = ground arith
