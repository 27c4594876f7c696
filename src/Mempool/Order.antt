-- ===== src/Mempool/Order.antt =====
-- What the mempool hands to the block builder: the whole pool in an order that every node with the
-- same entries computes, and a block's hashes, forced ones first.
use mathlib.Core.Path.{subst, fun_ext}
use mathlib.Core.List.{Permᴰ}
use Prim.Native.String.{String}
use text.Mathlib.TextEquality.{eq_iff}
use platarium_core.Base.{
  ℕ, ◌≤◌, ◌<◌, max, ◌≡◌, ◌≢◌, ◌∙◌, refl, sym, ap, Bool, true, false, List, [], ◌∷◌, ◌++◌, arith,
  length, All, All-imp, filter, map, Bool-cases, inl, inr,
}
use platarium_core.Data.Ord.{◌==◌, string_eq, nat_ord, string_ord, pair_ord}
use platarium_core.Data.Map.{HashMap, contains_key, values, IsMap}
use platarium_core.Data.Perm.{map-perm}
use platarium_core.Data.Sort.Order.{HasDistinctKeys, sort_by-perm, sort_by-Perm}
use platarium_core.Transaction.{Transaction}
use platarium_core.Mempool.{
  Mempool, MempoolEntry, arrival, fill_block, holds, contains, get_all_transactions,
  get_transaction_hashes_for_block,
}
use platarium_core.Mempool.Invariant.{IsValid, EntryFits, IsDistinct, IsDistinct-filter}
use platarium_core.Mempool.Block.{
  fill_block-extends, fill_block-IsDistinct, length-fill_block, fill_block-All, fill_block_complete,
}

fresh_hash :
    (n : ℕ) (m : HashMap String MempoolEntry) (e : MempoolEntry)
    → contains_key m e.tx.hash ≡ false
    → All (EntryFits n) m
    → All (λ f. arrival e ≢ arrival f) (values m)
fresh_hash n [] e c h = tt
fresh_hash n ((k, f) ∷ m) e c h = (
  (λ q. ground (arith, eq_iff k e.tx.hash, h.0.0, ap (λ (p : ℕ × String). p.1) q, c)),
  fresh_hash n m e (ground (arith, c)) h.1,
)

values-HasDistinctKeys :
    (n : ℕ) (m : HashMap String MempoolEntry)
    → IsMap m
    → All (EntryFits n) m
    → HasDistinctKeys arrival (values m)
values-HasDistinctKeys n [] k h = tt
values-HasDistinctKeys n ((j, e) ∷ m) k h = (
  fresh_hash n m e (subst (λ s. contains_key m s ≡ false) h.0.0 k.0) h.1,
  values-HasDistinctKeys n m k.1 h.1,
)

-- The pool is handed out in an order that does not depend on how its map iterates.
pub get_all_transactions-perm :
    (m m' : Mempool)
    → IsValid m
    → Permᴰ m.transactions m'.transactions
    → get_all_transactions m ≡ get_all_transactions m'
unfolding get_all_transactions
get_all_transactions-perm m m' v p = ap (map (λ (e : MempoolEntry). e.tx)) (
    sort_by-perm arrival (map-perm (λ (x : String × MempoolEntry). x.1) p)
      (values-HasDistinctKeys m.next_arrival_index m.transactions v.keyed v.entries))

holds-perm : {q q' : List String} (h : String) → Permᴰ q q' → holds q h ≡ holds q' h
holds-perm h Permᴰ.nil = refl
holds-perm h (Permᴰ.cons e p) = rw (e, holds-perm h p)
holds-perm h (Permᴰ.swap {a = a} {b = b} e e') = rw (← e, ← e') (ground arith)
holds-perm h (Permᴰ.trans p q) = holds-perm h p ∙ holds-perm h q

pooled :
    (n : ℕ) (m : HashMap String MempoolEntry) (h : String)
    → All (EntryFits n) m
    → holds (map (λ (t : Transaction). t.hash) (map (λ (e : MempoolEntry). e.tx) (values m))) h
      ≡ contains_key m h
pooled n [] h a = refl
pooled n ((k, e) ∷ m) h a = ground (arith, pooled n m h a.1, a.0.0)

abbrev pooled_hashes : Mempool → List String
pooled_hashes m = map (λ (t : Transaction). t.hash) (get_all_transactions m)

holds-pooled : (m : Mempool) (h : String) → IsValid m → holds (pooled_hashes m) h ≡ contains m h
unfolding get_all_transactions contains
holds-pooled m h v =
    holds-perm h (
      map-perm (λ (t : Transaction). t.hash)
        (map-perm (λ (e : MempoolEntry). e.tx) (sort_by-Perm arrival (values m.transactions))))
    ∙ pooled m.next_arrival_index m.transactions h v.entries

module _ (m : Mempool) (max_count : ℕ) (v : IsValid m) where
  -- The queued hashes that are still in the pool come first, all of them and in the queue's order.
  pub block_forced_first :
      (rest : List String) × (get_transaction_hashes_for_block m max_count
        ≡ filter (contains m) m.forced_inclusion ++ rest)
  unfolding get_transaction_hashes_for_block
  block_forced_first =
      let (rest, e) =
        fill_block-extends max_count (get_all_transactions m)
          (filter (holds (pooled_hashes m)) m.forced_inclusion) in
      (rest, e ∙ ap (λ p. filter p m.forced_inclusion ++ rest) (fun_ext (λ h. holds-pooled m h v)))

  -- No hash is handed out twice, and there are at most `max_count` of them, or, where that is
  -- more, as many as the queue forces.
  pub block_bounded :
      IsDistinct (get_transaction_hashes_for_block m max_count)
      × (length (get_transaction_hashes_for_block m max_count)
          ≤ max max_count (length (filter (contains m) m.forced_inclusion)))
  unfolding get_transaction_hashes_for_block
  block_bounded = (
    fill_block-IsDistinct max_count (get_all_transactions m) _
        (IsDistinct-filter (holds (pooled_hashes m)) m.forced_inclusion v.distinct),
    subst
        (λ p.
          length (
            fill_block max_count (get_all_transactions m)
              (filter (holds (pooled_hashes m)) m.forced_inclusion))
          ≤ max max_count (length (filter p m.forced_inclusion)))
        (fun_ext (λ h. holds-pooled m h v))
        (length-fill_block max_count (get_all_transactions m) _),
  )

  All-holds : (b : String → Bool) (q : List String) → All (λ h. b h ≡ true) (filter b q)
  All-holds b [] = tt
  All-holds b (h ∷ q) = elim (Bool-cases (b h)) [
    | inl t ↦ rw t (t, All-holds b q)
    | inr f ↦ rw f (All-holds b q)
  ]

  All-self :
      (txs : List Transaction) (b : String → Bool)
      → ((h : String) → holds (map (λ (t : Transaction). t.hash) txs) h ≡ true → b h ≡ true)
      → All (λ (t : Transaction). b t.hash ≡ true) txs
  All-self [] b f = tt
  All-self (t ∷ txs) b f = (
    f t.hash (ground (arith, eq_iff t.hash t.hash)),
    All-self txs b (λ h k. f h (ground (arith, k))),
  )

  -- Every hash that is handed out is that of a transaction in the pool.
  pub block_pooled : All (λ h. contains m h ≡ true) (get_transaction_hashes_for_block m max_count)
  unfolding get_transaction_hashes_for_block
  block_pooled =
      fill_block-All max_count (λ h. contains m h ≡ true) (get_all_transactions m) _
        (All-imp (λ h k. sym (holds-pooled m h v) ∙ k) _
          (All-holds (holds (pooled_hashes m)) m.forced_inclusion))
        (All-self (get_all_transactions m) (contains m) (λ h k. sym (holds-pooled m h v) ∙ k))

  holds-of_All :
      (txs : List Transaction) (b : List String) (h : String)
      → All (λ (t : Transaction). holds b t.hash ≡ true) txs
      → holds (map (λ (t : Transaction). t.hash) txs) h ≡ true
      → holds b h ≡ true
  holds-of_All [] b h a k = cc
  holds-of_All (t ∷ txs) b h a k = elim (Bool-cases (t.hash == h)) [
    | inl e ↦ subst (λ x. holds b x ≡ true) ((eq_iff t.hash h).0 e) a.0
    | inr ne ↦ holds-of_All txs b h a.1 (ground (arith, k, ne))
  ]

  -- A block that is not full leaves nothing in the pool behind.
  pub block_complete :
      (h : String)
      → length (get_transaction_hashes_for_block m max_count) < max_count
      → contains m h ≡ true
      → holds (get_transaction_hashes_for_block m max_count) h ≡ true
  unfolding get_transaction_hashes_for_block
  block_complete h room c =
      holds-of_All (get_all_transactions m) _ h
        (fill_block_complete max_count (get_all_transactions m) _ room) (holds-pooled m h v ∙ c)
