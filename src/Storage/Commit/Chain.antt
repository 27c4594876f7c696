-- ===== src/Storage/Commit/Chain.antt =====
-- src/storage/commit.rs against the chain that a store stands for: a list of blocks.
use mathlib.Core.Path.{subst}
use platarium_core.Base.{
  Result-cases, some_inj, ℕ, zero, suc, ◌<◌, ◌≡◌, ◌≢◌, refl, sym, ap, ◌∙◌, ◌⊎◌, inl, inr, Option,
  none, some, List, [], ◌∷◌, ◌++◌, length, length-append, get_elem?, u64_mod, arith, Result, ok,
  err, ◌>>=◌, PlatariumError, Bool-cases,
}
use platarium_core.Data.BigEndian.{bytes_eq, bytes_same, bytes_same_iff}
use platarium_core.Data.Bytes.{as_bytes}
use platarium_core.Storage.{
  Bytes, WriteBatch, Database, Codecs, IsAtomic, IsFaithful, BlockCommit, BlockRecordStored,
  SnapshotMeta, or_error, last_put, overwrite,
}
use platarium_core.Storage.Schema.{
  key_block, key_state_root, key_meta_head, key_snapshot, encode_u64,
}
use platarium_core.Storage.Schema.Keys.{decode_u64-encode_u64, key_block_inj}
use platarium_core.Storage.Store.{get, head_height, height_of, unwrap_or_zero, write_batch}
use platarium_core.Storage.Snapshot.{create_snapshot_if_due, save_snapshot, snapshot_meta}
use platarium_core.Storage.Query.{get_block, decode_found}
use platarium_core.Storage.Commit.{block_puts}

pub err-ne-ok : {A : Type 0} {e : PlatariumError} {a : A} {r : Result A} → r ≡ err e → r ≢ ok a
err-ne-ok h k = ground (arith, h, k)

get_elem?-bound :
    {A : Type 0} (xs : List A) (i : ℕ) (x : A) → get_elem? xs i ≡ some x → i < length xs
get_elem?-bound [] i x h = absurd (ground (arith, h))
get_elem?-bound (y ∷ ys) zero x h = omega arith
get_elem?-bound (y ∷ ys) (suc i) x h = omega (arith, get_elem?-bound ys i x h)

get_elem?-append :
    {A : Type 0} (xs : List A) (y x : A) (i : ℕ)
    → get_elem? (xs ++ y ∷ []) i ≡ some x
    → (get_elem? xs i ≡ some x) ⊎ ((i ≡ length xs) × (y ≡ x))
get_elem?-append [] y x zero h = inr (refl, some_inj h)
get_elem?-append [] y x (suc i) h = absurd (ground (arith, h))
get_elem?-append (z ∷ xs) y x zero h = inl h
get_elem?-append (z ∷ xs) y x (suc i) h = elim (get_elem?-append xs y x i h) [
  | inl e ↦ inl e
  | inr (e, f) ↦ inr (ap suc e, f)
]

-- The three puts of a block, at the keys of the chain
module _ (commit : BlockCommit) (bytes : Bytes) where
  pub block_puts-block :
      last_put (block_puts commit bytes) (key_block commit.block.height) ≡ some bytes
  unfolding last_put key_block key_state_root
  block_puts-block =
      rw ((bytes_same_iff (key_block commit.block.height) (key_block commit.block.height)).1 refl)
        refl

  pub block_puts-root :
      last_put (block_puts commit bytes) (key_state_root commit.block.height)
      ≡ some (as_bytes commit.state_root)
  unfolding last_put key_block key_state_root
  block_puts-root =
      rw
        (
          (bytes_same_iff (key_state_root commit.block.height)
                (key_state_root commit.block.height)).1
              refl,
          last_put,
        )
        refl

  pub block_puts-head :
      last_put (block_puts commit bytes) key_meta_head ≡ some (encode_u64 commit.block.height)
  unfolding last_put key_block key_state_root
  block_puts-head = refl

  pub block_puts-other :
      (n : ℕ)
      → n < u64_mod
      → commit.block.height < u64_mod
      → n ≢ commit.block.height
      → last_put (block_puts commit bytes) (key_block n) ≡ none
  unfolding last_put key_block key_state_root
  block_puts-other n hn hc ne =
      elim (Bool-cases (bytes_same (key_block commit.block.height) (key_block n))) [
        | inr differ ↦ rw differ refl
        | inl equal ↦ absurd (
            ne (
              key_block_inj n commit.block.height hn hc
                (sym ((bytes_same_iff (key_block commit.block.height) (key_block n)).0 equal))))
      ]

module _ {Db : Type 0} (d : Database Db) (c : Codecs) where
  -- A key that no snapshot has
  abbrev pub NoSnapshot : Bytes → Type 0
  NoSnapshot k = (n : ℕ) (v : Bytes) → last_put ((key_snapshot n, v) ∷ []) k ≡ none

  -- A write that fails leaves the store, one of a snapshot leaves the other keys.
  save_snapshot-keeps :
      IsAtomic d
      → (db : Db) (meta : SnapshotMeta) (k : Bytes) → NoSnapshot k
      → d.get (save_snapshot d c db meta).0 k ≡ d.get db k
  unfolding save_snapshot write_batch
  save_snapshot-keeps atomic db meta k h =
      elim (Result-cases (or_error "encode snapshot" (c.snapshot.to_vec meta))) [
        | inr (e, failed) ↦ rw failed refl
        | inl (bytes, encoded) ↦
            let batch : WriteBatch = (key_snapshot meta.height, bytes) ∷ [] in
            rw encoded (elim (Result-cases (d.write db batch).1) [
              | inl (u, written) ↦
                  atomic.write-ok db batch written k
                  ∙ ap (λ o. overwrite o (d.get db k)) (h meta.height bytes)
              | inr (e, failed) ↦ ap (λ s. d.get s k) (atomic.write-err db batch (err-ne-ok failed))
            ])
      ]

  pub create_snapshot_if_due-keeps :
      IsAtomic d
      → (db : Db) (height : ℕ) (k : Bytes) → NoSnapshot k
      → d.get (create_snapshot_if_due d c db height).0 k ≡ d.get db k
  unfolding create_snapshot_if_due
  create_snapshot_if_due-keeps atomic db height k h =
      elim (Result-cases (snapshot_meta d c db height)) [
        | inr (e, failed) ↦ ground (arith, failed)
        | inl (meta, made) ↦ ground (arith, made, save_snapshot-keeps atomic db meta k h)
      ]

  -- A store stands for a chain: its head is the chain's length, and each block is at its height.
  pub record Represents (db : Db) (chain : List BlockRecordStored) : Type 0 where
    pub head : head_height d db ≡ ok (length chain)
    pub blocks :
        (i : ℕ) (b : BlockRecordStored)
        → get_elem? chain i ≡ some b
        → get_block d c db (suc i) ≡ ok (some b)

  get_block-at :
      (db : Db) (n : ℕ) (r : Result (Option Bytes))
      → d.get db (key_block n) ≡ r
      → get_block d c db n ≡ (r >>= decode_found c.block "decode block")
  unfolding get_block get
  get_block-at db n r h = rw h refl

  -- Only the head's key and the blocks' keys matter.
  pub Represents-keeps :
      (db db' : Db) (chain : List BlockRecordStored)
      → d.get db' key_meta_head ≡ d.get db key_meta_head
      → ((n : ℕ) → d.get db' (key_block n) ≡ d.get db (key_block n))
      → Represents db chain
      → Represents db' chain
  unfolding head_height get get_block
  Represents-keeps db db' chain head same r = record {
    head = ap (λ o. o >>= λ found. ok (height_of found)) head ∙ r.head;
    blocks = λ i b h.
        ap (λ o. o >>= decode_found c.block "decode block") (same (suc i)) ∙ r.blocks i b h;
  }

  -- What the batch of the next block leaves
  pub record Extends (db db' : Db) (commit : BlockCommit) (bytes : Bytes) : Type 0 where
    pub head : d.get db' key_meta_head ≡ ok (some (encode_u64 commit.block.height))
    pub block : d.get db' (key_block commit.block.height) ≡ ok (some bytes)
    pub others :
        (n : ℕ)
        → n < u64_mod
        → n ≢ commit.block.height
        → d.get db' (key_block n) ≡ d.get db (key_block n)

  pub Represents-extend :
      (db db' : Db) (commit : BlockCommit) (bytes : Bytes) (chain : List BlockRecordStored)
      → IsFaithful c commit
      → commit.block.height ≡ suc (length chain)
      → suc (length chain) < u64_mod
      → c.block.to_vec commit.block ≡ some bytes
      → Extends db db' commit bytes
      → Represents db chain
      → Represents db' (chain ++ commit.block ∷ [])
  unfolding head_height get get_block
  Represents-extend db db' commit bytes chain faithful next small encoded ext r = record {
    head =
        ap (λ o. o >>= λ found. ok (height_of found)) ext.head
        ∙ ap (λ o. ok (unwrap_or_zero o))
            (decode_u64-encode_u64 commit.block.height (omega (arith, next)))
        ∙ ap ok (omega (arith, next, length-append chain (commit.block ∷ [])));
    blocks = λ i b h. elim (get_elem?-append chain commit.block b i h) [
      | inl old ↦
          ap (λ o. o >>= decode_found c.block "decode block")
            (ext.others (suc i) (omega (arith, get_elem?-bound chain i b old))
              (λ e. absurd (omega (arith, get_elem?-bound chain i b old, e, next))))
          ∙ r.blocks i b old
      | inr (at_end, same) ↦
          let here : suc i ≡ commit.block.height = omega (arith, at_end, next) in
          subst (λ n. get_block d c db' n ≡ ok (some b)) (sym here)
            (get_block-at db' commit.block.height (ok (some bytes)) ext.block
              ∙ subst
                  (λ x.
                    (or_error "decode block" (c.block.from_slice bytes) >>= λ a. ok (some a))
                    ≡ ok (some x))
                  same (rw (faithful.block_roundtrip bytes encoded) refl))
    ];
  }
