-- ===== src/Asset.antt =====
-- src/core/asset.rs: the asset of a transaction's amount.
use Prim.Native.String.{String, ◌++◌}
use Prim.Native.String.append
use Prim.Native.String.compare
use text.Mathlib.Text.{◌==◌ as str_eq}
use text.Mathlib.TextEquality.{eq_iff}
use text.Mathlib.TextLemmas.{append_cancel_left}
use platarium_core.Base.{◌≡◌, ◌≢◌, refl, sym, ap, Bool, true, false, arith}

pub data Asset : Type 0 where
  plp : Asset
  token : String → Asset

-- `Asset::as_canonical`
unfoldable pub as_canonical : Asset → String
as_canonical plp = "PLP"
as_canonical (token s) = "Token:" ++ s

-- `*asset == Asset::PLP`
abbrev pub is_plp : Asset → Bool
is_plp plp = true
is_plp (token s) = false

-- No token shares its canonical text with PLP: the first letters differ.
pub token-ne-plp : (s : String) → "Token:" ++ s ≢ "PLP"
token-ne-plp s h = ground (
  arith,
  append.cons "T" "oken:" s,
  compare.cons-cons "T" "P" ("oken:" ++ s) "LP",
  (eq_iff ("Token:" ++ s) "PLP").1 h,
)

-- The canonical text tells any two assets apart.
pub as_canonical_inj : (a b : Asset) → as_canonical a ≡ as_canonical b → a ≡ b
unfolding as_canonical
as_canonical_inj plp plp h = refl
as_canonical_inj plp (token t) h = absurd (token-ne-plp t (sym h))
as_canonical_inj (token s) plp h = absurd (token-ne-plp s h)
as_canonical_inj (token s) (token t) h = ap token (append_cancel_left "Token:" s t h)

pub is_plp-canonical : (a : Asset) → str_eq (as_canonical a) (as_canonical plp) ≡ is_plp a
unfolding as_canonical
is_plp-canonical plp = refl
is_plp-canonical (token s) = ground (arith, (eq_iff ("Token:" ++ s) "PLP").0, token-ne-plp s)
