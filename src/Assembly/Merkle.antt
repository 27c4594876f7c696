-- ===== src/Assembly/Merkle.antt =====
-- The Merkle root of a block's transactions.
use Prim.Native.String.{String}
use mathlib.Core.List.{Permᴰ}
use mathlib.Core.List.Permᴰ
use mathlib.Core.Path.{subst, subst₂}
use platarium_core.Base.{
  ℕ, zero, suc, ◌*◌, ◌≤◌, ◌≡◌, ◌∙◌, refl, sym, ap, arith, List, [], ◌∷◌, length, ◌==◌, Bool-cases,
  Option-cases, inl, inr, ◌⊎◌,
}
use platarium_core.Data.Sort.Plain.{sort, sort-perm, sort-length, bytes_ord}
use platarium_core.Assembly.{Hasher, leaves, parents, merkle_loop, compute_merkle_root}

module _ (h : Hasher) where
  -- A hash is dropped, or is one leaf.
  leaf_cases :
      (s : String)
      → ((l : List String) → leaves h (s ∷ l) ≡ leaves h l)
        ⊎ ((v : List ℕ) × ((l : List String) → leaves h (s ∷ l) ≡ v ∷ leaves h l))
  leaf_cases s = elim (Option-cases (h.hex_decode s)) [
    | inl bad ↦ inl (λ l. rw (bad, leaves) refl)
    | inr (v, good) ↦ elim (Bool-cases (length v == 32)) [
      | inl fits ↦ inr (v, λ l. rw (good, leaves, fits) refl)
      | inr short ↦ inl (λ l. rw (good, leaves, short) refl)
    ]
  ]

  leaves-swap :
      (a b : String) (l : List String) → Permᴰ (leaves h (a ∷ b ∷ l)) (leaves h (b ∷ a ∷ l))
  leaves-swap a b l = elim (leaf_cases a) [
    | inl drop_a ↦ elim (leaf_cases b) [
      | inl drop_b ↦
          subst₂ Permᴰ (sym (drop_a (b ∷ l) ∙ drop_b l)) (sym (drop_b (a ∷ l) ∙ drop_a l))
            (Permᴰ.refl _)
      | inr (w, keep_b) ↦
          subst₂ Permᴰ (sym (drop_a (b ∷ l) ∙ keep_b l))
            (sym (keep_b (a ∷ l) ∙ ap (w ∷◌) (drop_a l))) (Permᴰ.refl _)
    ]
    | inr (v, keep_a) ↦ elim (leaf_cases b) [
      | inl drop_b ↦
          subst₂ Permᴰ (sym (keep_a (b ∷ l) ∙ ap (v ∷◌) (drop_b l)))
            (sym (drop_b (a ∷ l) ∙ keep_a l)) (Permᴰ.refl _)
      | inr (w, keep_b) ↦
          subst₂ Permᴰ (sym (keep_a (b ∷ l) ∙ ap (v ∷◌) (keep_b l)))
            (sym (keep_b (a ∷ l) ∙ ap (w ∷◌) (keep_a l))) (Permᴰ.swap refl refl)
    ]
  ]

  leaves-perm : {l l' : List String} → Permᴰ l l' → Permᴰ (leaves h l) (leaves h l')
  leaves-perm Permᴰ.nil = Permᴰ.nil
  leaves-perm (Permᴰ.cons {a = a} {b = b} {l₁ = l₁} {l₂ = l₂} e p) =
      subst (λ c. Permᴰ (leaves h (a ∷ l₁)) (leaves h (c ∷ l₂))) e
        (elim (leaf_cases a) [
          | inl drop_a ↦ subst₂ Permᴰ (sym (drop_a l₁)) (sym (drop_a l₂)) (leaves-perm p)
          | inr (v, keep_a) ↦
              subst₂ Permᴰ (sym (keep_a l₁)) (sym (keep_a l₂)) (Permᴰ.cons refl (leaves-perm p))
        ])
  leaves-perm (Permᴰ.swap {a = a} {b = b} {l = l} e f) =
      subst₂ (λ c d. Permᴰ (leaves h (a ∷ b ∷ l)) (leaves h (c ∷ d ∷ l))) f e (leaves-swap a b l)
  leaves-perm (Permᴰ.trans p q) = Permᴰ.trans (leaves-perm p) (leaves-perm q)

  parents-length : (layer : List (List ℕ)) → 2 * length (parents h layer) ≤ suc (length layer)
  parents-length [] = omega arith
  parents-length (a ∷ []) = omega arith
  parents-length (a ∷ b ∷ rest) = omega (arith, parents-length rest)

  -- The number of hashes in a layer is fuel enough for the loop to end with at most one hash, and
  -- with any fuel that is enough it ends with the same.
  pub merkle_loop_lem :
      (fuel fuel' : ℕ) (layer : List (List ℕ))
      → length layer ≤ fuel
      → length layer ≤ fuel'
      → (length (merkle_loop h fuel layer) ≤ 1)
        × (merkle_loop h fuel' layer ≡ merkle_loop h fuel layer)
  unfolding merkle_loop
  merkle_loop_lem fuel fuel' [] p q = (omega arith, refl)
  merkle_loop_lem fuel fuel' (a ∷ []) p q = (omega arith, refl)
  merkle_loop_lem zero fuel' (a ∷ b ∷ rest) p q = ground arith
  merkle_loop_lem (suc fuel) zero (a ∷ b ∷ rest) p q = ground arith
  merkle_loop_lem (suc fuel) (suc fuel') (a ∷ b ∷ rest) p q =
      let shorter = parents-length (a ∷ b ∷ rest) in
      let same = sort-length (parents h (a ∷ b ∷ rest)) in
      merkle_loop_lem fuel fuel' (sort (parents h (a ∷ b ∷ rest))) (omega (arith, shorter, same))
        (omega (arith, shorter, same))

  -- The root does not depend on the order in which the transactions are listed.
  pub compute_merkle_root-perm :
      {l l' : List String} → Permᴰ l l' → compute_merkle_root h l ≡ compute_merkle_root h l'
  unfolding compute_merkle_root
  compute_merkle_root-perm p = cc (sort-perm (leaves-perm p))
