-- ===== src/Mempool/Block.antt =====
-- The hashes that a block is built from: forced ones first, then in order of arrival.
use Prim.Native.String.{String}
use text.Mathlib.TextEquality.{eq_iff}
use platarium_core.Base.{
  ℕ, ◌≤◌, ◌<◌, max, ◌≡◌, ◌∙◌, sym, true, List, [], ◌∷◌, ◌++◌, arith, length, All, All-push, leb,
  length-append, Bool-cases, inl, inr,
}
use mathlib.Core.Path.{subst}
use mathlib.Core.List.{append-nil, append_assoc}
use platarium_core.Data.Ord.{string_eq}
use platarium_core.Transaction.{Transaction}
use platarium_core.Mempool.{fill_block, holds}
use platarium_core.Mempool.Invariant.{IsDistinct, IsDistinct-append, holds-append}

module _ (n : ℕ) where
  pub fill_block-extends :
      (txs : List Transaction) (r : List String)
      → (rest : List String) × (fill_block n txs r ≡ r ++ rest)
  unfolding fill_block
  fill_block-extends [] r = ([], sym (append-nil r))
  fill_block-extends (tx ∷ txs) r = elim (Bool-cases (leb n (length r))) [
    | inl full ↦ ([], rw full (sym (append-nil r)))
    | inr more ↦ elim (Bool-cases (holds r tx.hash)) [
      | inl old ↦ rw (more, old) (fill_block-extends txs r)
      | inr new ↦
          let (rest, e) = fill_block-extends txs (r ++ tx.hash ∷ []) in
          (tx.hash ∷ rest, rw (more, new) (e ∙ append_assoc r (tx.hash ∷ []) rest))
    ]
  ]

  pub fill_block-IsDistinct :
      (txs : List Transaction) (r : List String) → IsDistinct r → IsDistinct (fill_block n txs r)
  unfolding fill_block
  fill_block-IsDistinct [] r d = d
  fill_block-IsDistinct (tx ∷ txs) r d = elim (Bool-cases (leb n (length r))) [
    | inl full ↦ rw full d
    | inr more ↦ elim (Bool-cases (holds r tx.hash)) [
      | inl old ↦ rw (more, old) (fill_block-IsDistinct txs r d)
      | inr new ↦
          rw (more, new)
            (fill_block-IsDistinct txs (r ++ tx.hash ∷ []) (IsDistinct-append r tx.hash new d))
    ]
  ]

  pub length-fill_block :
      (txs : List Transaction) (r : List String) → length (fill_block n txs r) ≤ max n (length r)
  unfolding fill_block
  length-fill_block [] r = omega arith
  length-fill_block (tx ∷ txs) r = ground (
    arith,
    length-fill_block txs r,
    length-fill_block txs (r ++ tx.hash ∷ []),
    length-append r (tx.hash ∷ []),
  )

  fill_block-keeps :
      (txs : List Transaction) (r : List String) (h : String)
      → holds r h ≡ true
      → holds (fill_block n txs r) h ≡ true
  unfolding fill_block
  fill_block-keeps [] r h d = d
  fill_block-keeps (tx ∷ txs) r h d = ground (
    arith,
    fill_block-keeps txs r h,
    fill_block-keeps txs (r ++ tx.hash ∷ []) h,
    holds-append r h tx.hash,
  )

  pub fill_block_complete :
      (txs : List Transaction) (r : List String)
      → length (fill_block n txs r) < n
      → All (λ (tx : Transaction). holds (fill_block n txs r) tx.hash ≡ true) txs
  unfolding fill_block
  fill_block_complete [] r room = tt
  fill_block_complete (tx ∷ txs) r room = elim (Bool-cases (leb n (length r))) [
    | inl full ↦ absurd (ground (arith, room, full))
    | inr more ↦ elim (Bool-cases (holds r tx.hash)) [
      | inl old ↦
          subst
            (λ b. (holds b tx.hash ≡ true) × All (λ (t : Transaction). holds b t.hash ≡ true) txs)
            (sym (let e : fill_block n (tx ∷ txs) r ≡ fill_block n txs r = rw (more, old) in e))
            (fill_block-keeps txs r tx.hash old, fill_block_complete txs r (rw (more, old) at room))
      | inr new ↦
          let r' = r ++ tx.hash ∷ [] in
          subst
            (λ b. (holds b tx.hash ≡ true) × All (λ (t : Transaction). holds b t.hash ≡ true) txs)
            (sym (let e : fill_block n (tx ∷ txs) r ≡ fill_block n txs r' = rw (more, new) in e))
            (
              fill_block-keeps txs r' tx.hash
                  (ground (arith, holds-append r tx.hash tx.hash, eq_iff tx.hash tx.hash)),
              fill_block_complete txs r' (rw (more, new) at room),
            )
    ]
  ]

  pub fill_block-All :
      (P : String → Type 0) (txs : List Transaction) (r : List String)
      → All P r
      → All (λ (tx : Transaction). P tx.hash) txs
      → All P (fill_block n txs r)
  unfolding fill_block
  fill_block-All P [] r a b = a
  fill_block-All P (tx ∷ txs) r a b = elim (Bool-cases (leb n (length r))) [
    | inl full ↦ rw full a
    | inr more ↦ elim (Bool-cases (holds r tx.hash)) [
      | inl old ↦ rw (more, old) (fill_block-All P txs r a b.1)
      | inr new ↦
          rw (more, new) (fill_block-All P txs (r ++ tx.hash ∷ []) (All-push P tx.hash b.0 r a) b.1)
    ]
  ]
