-- ===== src/Proposal/Packing/Senders.antt =====
-- src/core/block_proposal.rs: the senders' nonces that the selection starts from.
use Prim.Native.String.{String}
use platarium_core.Base.{
  ℕ, ◌≡◌, sym, ap, ◌∙◌, refl, ◌⊎◌, inl, inr, false, none, some, List, [], ◌∷◌, arith, All,
  Bool-cases, Option-cases,
}
use platarium_core.Data.Ord.{string_eq}
use platarium_core.Data.Map.{HashMap, get, get_or_zero, get-insert, contains_key, contains_key-get}
use platarium_core.State.{State, get_nonce}
use platarium_core.Proposal.{MempoolSnapshotEntry, is_ordinary}
use platarium_core.Proposal.Packing.{or_insert, chain_nonces, note_sender}

-- The nonces that a map holds are those of the state.
abbrev pub FromState : State → HashMap String ℕ → Type 0
FromState s m = (k : String) (n : ℕ) → get m k ≡ some n → n ≡ get_nonce s k

or_insert-keeps :
    (m : HashMap String ℕ) (k : String) (v : ℕ) (a : String) (n : ℕ)
    → get m a ≡ some n
    → get (or_insert m k v) a ≡ some n
or_insert-keeps m k v a n h =
    ground (arith, h, get-insert m k v a, contains_key-get m k, string_eq.same_iff k a)

or_insert-FromState :
    (s : State) (m : HashMap String ℕ) (k : String)
    → FromState s m
    → FromState s (or_insert m k (get_nonce s k))
or_insert-FromState s m k h a n e =
    ground (arith, h a n, e, get-insert m k (get_nonce s k) a, string_eq.same_iff k a)

get-contains_key : (m : HashMap String ℕ) (k : String) → get m k ≡ none → contains_key m k ≡ false
get-contains_key [] k h = refl
get-contains_key ((j, v) ∷ m) k h = ground (arith, get-contains_key m k)

or_insert_same :
    (s : State) (m : HashMap String ℕ) (k : String)
    → FromState s m
    → get (or_insert m k (get_nonce s k)) k ≡ some (get_nonce s k)
or_insert_same s m k h = elim (Option-cases (get m k)) [
  | inl e ↦
      ground
        (arith, e, get-contains_key m k e, get-insert m k (get_nonce s k) k, string_eq.same_iff k k)
  | inr (n, e) ↦ or_insert-keeps m k (get_nonce s k) k (get_nonce s k) (e ∙ ap some (h k n e))
]

get_or_zero-some :
    (m : HashMap String ℕ) (k : String) (n : ℕ) → get m k ≡ some n → get_or_zero m k ≡ n
get_or_zero-some m k n h = ground (arith, h)

module _ {Value : Type 0} where
  -- An ordinary sender's next nonce is in the map.
  abbrev pub Knows : HashMap String ℕ → (String → ℕ) → MempoolSnapshotEntry Value → Type 0
  Knows m next e = (is_ordinary e.tx.from ≡ false) ⊎ (get_or_zero m e.tx.from ≡ next e.tx.from)

module _ {Value : Type 0} (s : State) where
  note_sender-keeps :
      (m : HashMap String ℕ) (e : MempoolSnapshotEntry Value) (a : String) (n : ℕ)
      → get m a ≡ some n
      → get (note_sender s m e) a ≡ some n
  note_sender-keeps m e a n h = elim (Bool-cases (is_ordinary e.tx.from)) [
    | inl o ↦ rw o (or_insert-keeps m e.tx.from (get_nonce s e.tx.from) a n h)
    | inr o ↦ rw o h
  ]

  note_sender-FromState :
      (m : HashMap String ℕ) (e : MempoolSnapshotEntry Value)
      → FromState s m
      → FromState s (note_sender s m e)
  note_sender-FromState m e h = elim (Bool-cases (is_ordinary e.tx.from)) [
    | inl o ↦ rw o (or_insert-FromState s m e.tx.from h)
    | inr o ↦ rw o h
  ]

  chain_nonces-keeps :
      (pool : List (MempoolSnapshotEntry Value)) (m : HashMap String ℕ) (a : String) (n : ℕ)
      → get m a ≡ some n
      → get (chain_nonces s m pool) a ≡ some n
  unfolding chain_nonces
  chain_nonces-keeps [] m a n h = h
  chain_nonces-keeps (e ∷ es) m a n h =
      chain_nonces-keeps es (note_sender s m e) a n (note_sender-keeps m e a n h)

  pub chain_nonces-Knows :
      (pool : List (MempoolSnapshotEntry Value)) (m final : HashMap String ℕ)
      → FromState s m
      → chain_nonces s m pool ≡ final
      → All (Knows final (get_nonce s)) pool
  unfolding chain_nonces
  chain_nonces-Knows [] m final h eq = tt
  chain_nonces-Knows (e ∷ es) m final h eq = (
    elim (Bool-cases (is_ordinary e.tx.from)) [
      | inr o ↦ inl o
      | inl o ↦
          let here : get (note_sender s m e) e.tx.from ≡ some (get_nonce s e.tx.from) =
            rw o (or_insert_same s m e.tx.from h) in
          inr (
            get_or_zero-some final e.tx.from (get_nonce s e.tx.from) (
              ap (λ f. get f e.tx.from) (sym eq)
              ∙ chain_nonces-keeps es (note_sender s m e) e.tx.from (get_nonce s e.tx.from) here))
    ],
    chain_nonces-Knows es (note_sender s m e) final (note_sender-FromState m e h) eq,
  )
