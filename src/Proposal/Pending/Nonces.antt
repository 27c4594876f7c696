-- ===== src/Proposal/Pending/Nonces.antt =====
-- src/core/block_proposal.rs: the next nonce that a block can take of a sender.
use Prim.Native.String.{String}
use mathlib.Core.Path.{subst}
use platarium_core.Base.{
  sym, ==_iff, ltb→lt, ℕ, zero, suc, ◌+◌, ◌<◌, ◌≤◌, ◌≡◌, refl, ◌⊎◌, inl, inr, Bool, true, false,
  ◌&&◌, List, [], ◌∷◌, length, ltb, leb, ◌==◌, u64_mod, wrapping_add, arith, count_by,
  count_by-le-length, Bool-cases,
}
use platarium_core.Data.Ord.{◌==◌ as same, string_eq}
use platarium_core.Proposal.{MempoolSnapshotEntry}
use platarium_core.Proposal.Pending.{nonce_already_pending, contiguous_loop, contiguous_next_nonce}

module _ {Value : Type 0} (from : String) where
  -- the sender's entries with a nonce from `a` up to below `b`
  within : ℕ → ℕ → MempoolSnapshotEntry Value → Bool
  within a b e = same e.tx.from from && (leb a e.tx.nonce && ltb e.tx.nonce b)

  abbrev hits : List (MempoolSnapshotEntry Value) → ℕ → ℕ → ℕ
  hits pool a b = count_by (within a b) pool

  hits_mono :
      (pool : List (MempoolSnapshotEntry Value)) (a b : ℕ) → hits pool a b ≤ hits pool a (suc b)
  unfolding within
  hits_mono [] a b = omega arith
  hits_mono (e ∷ es) a b = ground (arith, hits_mono es a b)

  -- A nonce that is pending is counted.
  hits-suc :
      (pool : List (MempoolSnapshotEntry Value)) (a b : ℕ)
      → a ≤ b
      → nonce_already_pending pool from b ≡ true
      → suc (hits pool a b) ≤ hits pool a (suc b)
  unfolding nonce_already_pending within
  hits-suc [] a b h p = ground arith
  hits-suc (e ∷ es) a b h p = ground (arith, hits-suc es a b h, hits_mono es a b)

  -- the nonces between the chain's and the loop's are pending
  abbrev AllPending : List (MempoolSnapshotEntry Value) → ℕ → ℕ → Type 0
  AllPending pool a b = (n : ℕ) → (n < a) ⊎ ((b ≤ n) ⊎ (nonce_already_pending pool from n ≡ true))

  extend :
      (pool : List (MempoolSnapshotEntry Value)) (a next : ℕ)
      → nonce_already_pending pool from next ≡ true
      → AllPending pool a next
      → AllPending pool a (suc next)
  extend pool a next h below n = elim (below n) [
    | inl l ↦ inl l
    | inr (inr p) ↦ inr (inr p)
    | inr (inl g) ↦ elim (Bool-cases (n == next)) [
      | inl e ↦ inr (
          inr (subst (λ m. nonce_already_pending pool from m ≡ true) (sym ((==_iff n next).0 e)) h))
      | inr e ↦ inr (inl (ground (arith, e, g)))
    ]
  ]

  loop_lem :
      (fuel : ℕ) (pool : List (MempoolSnapshotEntry Value)) (a next : ℕ)
      → a ≤ next
      → a + length pool < u64_mod
      → fuel + next ≡ suc (length pool) + a
      → next ≤ hits pool a next + a
      → AllPending pool a next
      → let r = contiguous_loop fuel pool from next in
        (nonce_already_pending pool from r ≡ false)
        × (a ≤ r)
        × (r ≤ a + length pool)
        × AllPending pool a r
  unfolding contiguous_loop
  loop_lem zero pool a next le small fuel hit below =
      absurd (omega (arith, count_by-le-length (within a next) pool))
  loop_lem (suc fuel) pool a next le small enough hit below =
      elim (Bool-cases (nonce_already_pending pool from next)) [
        | inr free ↦
            rw free (free, le, omega (arith, count_by-le-length (within a next) pool), below)
        | inl pending ↦
            let step : wrapping_add u64_mod next 1 ≡ suc next = omega (
              arith,
              hits-suc pool a next le pending,
              count_by-le-length (within a (suc next)) pool,
            ) in
            rw (pending, step)
              (loop_lem fuel pool a (suc next) (omega arith) small (omega arith)
                (omega (arith, hits-suc pool a next le pending)) (extend pool a next pending below))
      ]

-- The search ends: below 2^64 it returns a nonce that is not pending, from the chain's nonce up,
-- past at most as many nonces as the pool has entries, and every nonce before it is pending.
pub contiguous_next_nonce_lem :
    {Value : Type 0} (pool : List (MempoolSnapshotEntry Value)) (from : String) (chain : ℕ)
    → chain + length pool < u64_mod
    → let r = contiguous_next_nonce pool from chain in
      (nonce_already_pending pool from r ≡ false)
      × (chain ≤ r)
      × (r ≤ chain + length pool)
      × ((n : ℕ) → (n < chain) ⊎ ((r ≤ n) ⊎ (nonce_already_pending pool from n ≡ true)))
unfolding contiguous_next_nonce
contiguous_next_nonce_lem pool from chain small =
    loop_lem from (suc (length pool)) pool chain chain (omega arith) small refl (omega arith) (λ n.
      elim (Bool-cases (ltb n chain)) [
        | inl l ↦ inl (ltb→lt n chain l)
        | inr g ↦ inr (inl (ground (arith, g)))
      ])
