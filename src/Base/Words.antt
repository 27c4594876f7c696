-- ===== src/Base/Words.antt =====
-- Rust's fixed-width unsigned arithmetic. `+`, `-` and `*` wrap, as they do in a release build:
-- Cargo.toml sets no `overflow-checks`. The saturating methods stop at the bounds.
use Prim.Native.Nat.{ℕ, ◌+◌, ◌-◌, ◌*◌, ◌%◌, min}

abbrev pub u64_mod : ℕ
u64_mod = 18_446_744_073_709_551_616

abbrev pub u128_mod : ℕ
u128_mod = 340_282_366_920_938_463_463_374_607_431_768_211_456

module _ (w : ℕ) where
  abbrev pub wrapping_add : ℕ → ℕ → ℕ
  wrapping_add a b = (a + b) % w

  abbrev pub wrapping_sub : ℕ → ℕ → ℕ
  wrapping_sub a b = (a + w - b) % w

  abbrev pub wrapping_mul : ℕ → ℕ → ℕ
  wrapping_mul a b = (a * b) % w

  abbrev pub saturating_add : ℕ → ℕ → ℕ
  saturating_add a b = min (a + b) (w - 1)

  abbrev pub saturating_mul : ℕ → ℕ → ℕ
  saturating_mul a b = min (a * b) (w - 1)

-- The natural numbers' `-` stops at 0, as `saturating_sub` does.
abbrev pub saturating_sub : ℕ → ℕ → ℕ
saturating_sub a b = a - b
