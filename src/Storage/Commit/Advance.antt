-- ===== src/Storage/Commit/Advance.antt =====
-- src/storage/commit.rs: a commit is all or nothing, and advances the chain by its block.
use mathlib.Core.Path.{subst}
use text.Mathlib.Text.{◌==◌ as str_eq}
use platarium_core.Base.{
  Result-cases, guard, not, wrapping_add, other, invalid_height, ℕ, suc, ◌<◌, ◌≡◌, ◌≢◌, refl, sym,
  ap, ◌∙◌, ◌⊎◌, inl, inr, Bool, false, Option, none, some, List, [], ◌∷◌, ◌++◌, length,
  if◌then◌else◌, ◌==◌, u64_mod, arith, Result, ok, err, ◌>>=◌, ◌>>◌, PlatariumError, OnOk,
}
use platarium_core.Data.BigEndian.{bytes_eq}
use platarium_core.Data.Bytes.{as_bytes}
use platarium_core.Json.{Json}
use platarium_core.Storage.{
  Bytes, WriteBatch, Database, Codecs, IsAtomic, IsFaithful, BlockCommit, BlockRecordStored,
  last_put, overwrite,
}
use platarium_core.Storage.Schema.{key_block, key_state_root, key_meta_head, key_snapshot}
use platarium_core.Storage.Store.{get, head_height, write_batch}
use platarium_core.Storage.Snapshot.{create_snapshot_if_due}
use platarium_core.Storage.Query.{text_found, get_state_root}
use platarium_core.Storage.Commit.{
  block_puts, address_puts, check_commit, whole_batch, commit_block, then_write,
}
use platarium_core.Storage.Commit.Batch.{
  is_record_key, whole_batch-OnOk, address_puts-Records, LeavesHead,
}
use platarium_core.Storage.Commit.Chain.{
  err-ne-ok, Represents, Extends, create_snapshot_if_due-keeps, Represents-keeps, Represents-extend,
  block_puts-block, block_puts-root, block_puts-head, block_puts-other,
}

then_write-ok :
    {Db : Type 0} (p : Db × Result (Unit {0})) (k : Db → Db × Result (Unit {0}))
    → p.1 ≡ ok tt
    → then_write p k ≡ k p.0
then_write-ok (db, ok u) k h = refl
then_write-ok (db, err e) k h = absurd (ground (arith, h))

then_write-err :
    {Db : Type 0} (p : Db × Result (Unit {0})) (k : Db → Db × Result (Unit {0}))
    (e : PlatariumError)
    → p.1 ≡ err e
    → then_write p k ≡ (p.0, err e)
then_write-err (db, ok u) k e h = absurd (ground (arith, h))
then_write-err (db, err f) k e h = rw h refl

then-ok :
    {A : Type 0} (r : Result (Unit {0})) (s : Result A) (a : A)
    → (r >> s) ≡ ok a
    → (r ≡ ok tt) × (s ≡ ok a)
then-ok (ok u) s a h = (refl, h)
then-ok (err e) s a h = absurd (ground (arith, h))

guards_height :
    (b1 b2 : Bool) (e1 e2 : PlatariumError) (f : PlatariumError) (height expected : ℕ)
    → (guard b1 e1 >> (guard b2 e2 >> guard (not (height == expected)) f)) ≡ ok tt
    → height ≡ expected
guards_height b1 b2 e1 e2 f height expected h = ground (arith, h)

module _ {Db Value : Type 0} (d : Database Db) (c : Codecs) (j : Json Value) where
  -- The guards let only the next height pass.
  check_commit-height :
      (db : Db) (commit : BlockCommit) (n : ℕ)
      → head_height d db ≡ ok n
      → suc n < u64_mod
      → check_commit d db commit ≡ ok tt
      → commit.block.height ≡ suc n
  unfolding check_commit
  check_commit-height db commit n head small h =
      let expected = if n == 0 then 1 else wrapping_add u64_mod n 1 in
      let next : expected ≡ suc n = ground arith in
      guards_height (not (length commit.block.tx_hashes == length commit.tx_jsons))
        (not (str_eq commit.block.state_root commit.state_root))
        (other "tx_hashes and tx_jsons length mismatch")
        (other "block.state_root != commit.state_root")
        (invalid_height n expected commit.block.height) commit.block.height expected
        (sym (rw head refl) ∙ h)
      ∙ next

  written-Extends :
      IsAtomic d
      → (db : Db) (commit : BlockCommit) (batch : WriteBatch) → commit.block.height < u64_mod
      → (d.write db batch).1 ≡ ok tt
      → (leaves : LeavesHead (block_puts commit) (c.block.to_vec commit.block) batch)
      → Extends d c db (d.write db batch).0 commit leaves.0
        × (d.get (d.write db batch).0 (key_state_root commit.block.height)
            ≡ ok (some (as_bytes commit.state_root)))
  unfolding key_block key_state_root
  written-Extends atomic db commit batch small written (bytes, encoded, leaves) =
      let after : (k : Bytes) (o : Option Bytes)
          → is_record_key k ≡ false
          → last_put (block_puts commit bytes) k ≡ o
          → d.get (d.write db batch).0 k ≡ overwrite o (d.get db k) =
        λ k o plain put.
          atomic.write-ok db batch written k
          ∙ ap (λ p. overwrite p (d.get db k)) (leaves k plain ∙ put) in
      (
        record {
          head = after key_meta_head _ refl (block_puts-head commit bytes);
          block = after (key_block commit.block.height) _ refl (block_puts-block commit bytes);
          others = λ n hn ne.
              after (key_block n) none refl (block_puts-other commit bytes n hn small ne);
        },
        after (key_state_root commit.block.height) _ refl (block_puts-root commit bytes),
      )

  -- the snapshot that may follow the batch
  Represents-snapshot :
      IsAtomic d
      → (db : Db) (height : ℕ) (chain : List BlockRecordStored) → Represents d c db chain
      → Represents d c (create_snapshot_if_due d c db height).0 chain
  unfolding key_block key_snapshot last_put
  Represents-snapshot atomic db height chain r =
      Represents-keeps d c db (create_snapshot_if_due d c db height).0 chain
        (create_snapshot_if_due-keeps d c atomic db height key_meta_head (λ n v. refl))
        (λ n. create_snapshot_if_due-keeps d c atomic db height (key_block n) (λ m v. refl)) r

  snapshot-state_root :
      IsAtomic d
      → (db : Db) (height : ℕ)
      → d.get (create_snapshot_if_due d c db height).0 (key_state_root height)
        ≡ d.get db (key_state_root height)
  unfolding key_state_root key_snapshot last_put
  snapshot-state_root atomic db height =
      create_snapshot_if_due-keeps d c atomic db height (key_state_root height) (λ n v. refl)

  -- What a commit may lead to: nothing at all, or the chain with the block
  abbrev pub Outcome : Db → List BlockRecordStored → BlockCommit → Db × Result (Unit {0}) → Type 0
  Outcome db chain commit r =
      ((r.0 ≡ db) × (r.1 ≢ ok tt))
      ⊎ ((commit.block.height ≡ suc (length chain))
          × Represents d c r.0 (chain ++ commit.block ∷ [])
          × (get_state_root d c r.0 commit.block.height ≡ ok (some commit.state_root)))

  written-Outcome :
      IsAtomic d
      → (db : Db) (commit : BlockCommit) (batch : WriteBatch) (chain : List BlockRecordStored)
      → IsFaithful c commit
      → commit.block.height ≡ suc (length chain)
      → suc (length chain) < u64_mod
      → Represents d c db chain
      → (d.write db batch).1 ≡ ok tt
      → LeavesHead (block_puts commit) (c.block.to_vec commit.block) batch
      → Outcome db chain commit
          (create_snapshot_if_due d c (d.write db batch).0 commit.block.height)
  unfolding get_state_root get
  written-Outcome atomic db commit batch chain faithful next small r written leaves =
      let db1 = (d.write db batch).0 in
      let (ext, root) =
        written-Extends atomic db commit batch (omega (arith, next)) written leaves in
      inr (
        next,
        Represents-snapshot atomic db1 commit.block.height (chain ++ commit.block ∷ [])
            (Represents-extend d c db db1 commit leaves.0 chain faithful next small leaves.1 ext r),
        ap (λ o. o >>= λ found. ok (text_found d c found))
              (snapshot-state_root atomic db1 commit.block.height ∙ root)
            ∙ ap (λ s. ok (some s)) (faithful.text_roundtrip),
      )

  -- A store that stands for a chain: a commit either fails and leaves the store as it was, or its
  -- block is the next one, and the store stands for the chain with that block, whose state root can
  -- be read. The database writes a batch as a whole or not at all, and the block and the root decode
  -- to what was encoded.
  pub commit_block-Represents :
      IsAtomic d
      → (db : Db) (chain : List BlockRecordStored) (commit : BlockCommit) → IsFaithful c commit
      → suc (length chain) < u64_mod
      → Represents d c db chain
      → Outcome db chain commit (commit_block d c j db commit)
  unfolding commit_block write_batch
  commit_block-Represents atomic db chain commit faithful small r =
      let more = address_puts j commit.block.height in
      let after : Db → Db × Result (Unit {0}) =
        λ db'. create_snapshot_if_due d c db' commit.block.height in
      let run : WriteBatch → Db × Result (Unit {0}) =
        λ batch. then_write (d.write db batch) after in
      elim (Result-cases (check_commit d db commit >> whole_batch c more commit)) [
        | inr (e, failed) ↦ rw failed (inl (refl, λ h. absurd (ground (arith, h))))
        | inl (batch, made) ↦
            let (checked, built) = then-ok _ _ batch made in
            let leaves : LeavesHead (block_puts commit) (c.block.to_vec commit.block) batch =
              subst (OnOk (LeavesHead (block_puts commit) (c.block.to_vec commit.block))) built
                (whole_batch-OnOk c more commit (address_puts-Records j commit.block.height)) in
            let next = check_commit-height db commit (length chain) r.head small checked in
            rw made (elim (Result-cases (d.write db batch).1) [
              | inr (e, failed) ↦
                  subst (Outcome db chain commit)
                    (sym (then_write-err (d.write db batch) after e failed))
                    (inl (
                      atomic.write-err db batch (err-ne-ok failed),
                      λ h. absurd (ground (arith, h)),
                    ))
              | inl (u, written) ↦
                  subst (Outcome db chain commit)
                    (sym (then_write-ok (d.write db batch) after written))
                    (written-Outcome atomic db commit batch chain faithful next small r written
                      leaves)
            ])
      ]
