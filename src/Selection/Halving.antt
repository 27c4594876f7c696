-- ===== src/Selection/Halving.antt =====
-- src/core/validator_selection.rs: the halving of a binary search ends within its fuel.
use platarium_core.Base.{
  ℕ, zero, suc, ◌+◌, ◌-◌, ◌/◌, ◌≤◌, ◌≡◌, refl, List, arith, ltb, leb, if◌then◌else◌, inl, inr, true,
  false, Bool-cases,
}
use platarium_core.Selection.{halve, element_at}

halves :
    (size : ℕ)
    → leb size 1 ≡ false
    → (fuel : ℕ) → size ≤ suc (suc fuel)
    → size - size / 2 ≤ suc fuel
halves size more fuel h = let more' : 2 ≤ size = ground (arith, more) in omega (arith, more', h)

-- Fuel for one step more than the range has elements changes nothing.
pub halve-fuel :
    (target : ℕ) (list : List ℕ) (fuel base size : ℕ)
    → size ≤ suc fuel
    → halve target list (suc fuel) base size ≡ halve target list fuel base size
unfolding halve
halve-fuel target list zero base size h =
    let one : leb size 1 ≡ true = ground (arith, h) in rw one refl
halve-fuel target list (suc fuel) base size h = elim (Bool-cases (leb size 1)) [
  | inl one ↦ rw one refl
  | inr more ↦
      let next = if ltb target (element_at list (base + size / 2)) then base else base + size / 2 in
      rw more (halve-fuel target list fuel next (size - size / 2) (halves size more fuel h))
]
