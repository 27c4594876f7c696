-- ===== src/Keys/Text.antt =====
-- src/key_generator.rs and src/mnemonic.rs: the random part of an account's secret.
use Prim.Native.Char.{Char}
use Prim.Native.String.{String, ◌∷◌ as str_cons, [] as str_nil, count}
use text.Mathlib.TextLemmas.{length-cons, length-nil}
use mathlib.Core.List.{Mem, mem-cons_self, mem-cons_of_mem}
use platarium_core.Base.{
  ℕ, zero, suc, ◌+◌, ◌<◌, ◌≡◌, refl, false, ◌==◌, List, [], ◌∷◌, length, All, ok, arith,
}
use platarium_core.Keys.{Random, chars, character_set, char_at, draw, generate_alphanumeric_part}

char_at-lt :
    (cs : List Char) (i : ℕ) → i < length cs → (c : Char) × (char_at cs i ≡ ok c) × Mem c cs
char_at-lt [] i h = absurd (omega arith)
char_at-lt (c ∷ cs) zero h = (c, refl, mem-cons_self)
char_at-lt (c ∷ cs) (suc i) h =
    let (d, found, member) = char_at-lt cs i (omega arith) in (d, found, mem-cons_of_mem c member)

-- The generator's numbers are below the bound, as the library documents.
abbrev pub IsBelow : Random → Type 0
IsBelow r = (bound i : ℕ) → 0 < bound → r.gen_range bound i < bound

draw_total :
    (r : Random)
    → IsBelow r
    → (drawn left : ℕ)
    → (text : String) × (draw r drawn left ≡ ok text)
      × (count text ≡ left)
      × All (λ c. Mem c (chars character_set)) (chars text)
unfolding draw
draw_total r below drawn zero = (str_nil, refl, length-nil, tt)
draw_total r below drawn (suc left) =
    let (c, found, member) =
      char_at-lt (chars character_set) (r.gen_range (length (chars character_set)) drawn)
        (below (length (chars character_set)) drawn (omega arith)) in
    let (rest, drawn_rest, len, letters) = draw_total r below (drawn + 1) left in
    (
      str_cons c rest,
      rw (found, drawn_rest) refl,
      omega (arith, length-cons c rest, len),
      (member, letters),
    )

-- The random text is produced for every length but zero: it has that length, and its characters are
-- those of the set.
pub generate_alphanumeric_part_lem :
    (r : Random) (n : ℕ)
    → IsBelow r
    → 0 < n
    → (text : String) × (generate_alphanumeric_part r n ≡ ok text)
      × (count text ≡ n)
      × All (λ c. Mem c (chars character_set)) (chars text)
unfolding generate_alphanumeric_part
generate_alphanumeric_part_lem r n below positive =
    let nonzero : (n == 0) ≡ false = ground (arith, positive) in rw nonzero (draw_total r below 0 n)
