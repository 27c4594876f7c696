-- ===== src/Storage/Import/Sequence.antt =====
-- src/storage/rpc.rs: the import of blocks that follow the head, one after the other.
use mathlib.Core.Path.{subst}
use mathlib.Core.List.{append_assoc, append-nil}
use platarium_core.Base.{
  ℕ, suc, ◌+◌, ◌<◌, ◌≡◌, sym, ap, ◌∙◌, refl, inl, inr, true, List, [], ◌∷◌, ◌++◌, map, length,
  length-append, All, arith, u64_mod, wrapping_add, ◌==◌, Result, ok, err,
}
use platarium_core.Json.{Json}
use platarium_core.Storage.{Database, Codecs, BlockCommit, BlockRecordStored, IsAtomic, IsFaithful}
use platarium_core.Storage.Store.{head_height}
use platarium_core.Storage.Snapshot.{try_write}
use platarium_core.Storage.Commit.{commit_block, then_write}
use platarium_core.Storage.Commit.Chain.{Represents}
use platarium_core.Storage.Commit.Advance.{commit_block-Represents}
use platarium_core.Storage.Import.{force_head, import_one, import_all}

-- Each block is the next one after the height `n` and those before it.
abbrev pub FollowsHead : ℕ → List BlockCommit → Type 0
FollowsHead n [] = Unit
FollowsHead n (commit ∷ commits) = (commit.block.height ≡ suc n) × FollowsHead (suc n) commits

then_write-inv :
    {Db : Type 0} (p : Db × Result (Unit {0})) (k : Db → Db × Result (Unit {0}))
    → (then_write p k).1 ≡ ok tt
    → (p.1 ≡ ok tt) × (then_write p k ≡ k p.0)
then_write-inv (db, ok u) k h = (refl, refl)
then_write-inv (db, err e) k h = absurd (ground (arith, h))

module _ {Db Value : Type 0} (d : Database Db) (c : Codecs) (j : Json Value) where
  force_head-next :
      (db : Db) (n : ℕ) → suc n < u64_mod → force_head d c j db n (suc n) ≡ (db, ok tt)
  force_head-next db n small =
      let next : (wrapping_add u64_mod n 1 == suc n) ≡ true = ground arith in rw next refl

  -- A block that follows the head is committed without a change of the head.
  import_one-next :
      (db : Db) (commit : BlockCommit) (n : ℕ)
      → head_height d db ≡ ok n
      → suc n < u64_mod
      → commit.block.height ≡ suc n
      → import_one d c j db commit ≡ commit_block d c j db commit
  unfolding import_one
  import_one-next db commit n head small next =
      ap
        (λ r. try_write db r λ m.
          then_write (force_head d c j db m commit.block.height)
            λ db'. commit_block d c j db' commit)
        head
      ∙ ap (λ h. then_write (force_head d c j db n h) λ db'. commit_block d c j db' commit) next
      ∙ ap (λ p. then_write p λ db'. commit_block d c j db' commit) (force_head-next db n small)

  -- An import of blocks that follow the head of a store's chain, one after the other, that succeeds
  -- leaves a store for the chain with all of them. The database is atomic, and the blocks and roots
  -- decode to what was encoded.
  pub import_all-Represents :
      IsAtomic d
      → (commits : List BlockCommit) (db : Db) (chain : List BlockRecordStored)
      → All (IsFaithful c) commits
      → length chain + length commits < u64_mod
      → FollowsHead (length chain) commits
      → Represents d c db chain
      → (import_all d c j db commits).1 ≡ ok tt
      → Represents d c
          (import_all d c j db commits).0
          (chain ++ map (λ commit. commit.block) commits)
  unfolding import_all
  import_all-Represents atomic [] db chain faithful small follows r done =
      subst (Represents d c db) (sym (append-nil chain)) r
  import_all-Represents atomic (commit ∷ commits) db chain (f, faithful) small (next, follows) r
        done =
      let rest : Db → Db × Result (Unit {0}) = λ db'. import_all d c j db' commits in
      let one = import_one-next db commit (length chain) r.head (omega arith) next in
      let (committed, eq) = then_write-inv (import_one d c j db commit) rest done in
      let committed' : (commit_block d c j db commit).1 ≡ ok tt =
        ap (λ p. p.1) (sym one) ∙ committed in
      elim (commit_block-Represents d c j atomic db chain commit f (omega arith) r) [
        | inl (same, failed) ↦ absurd (failed committed')
        | inr (height, extended, root) ↦
            let db1 = (import_one d c j db commit).0 in
            let chain1 = chain ++ commit.block ∷ [] in
            let longer : length chain1 ≡ suc (length chain) =
              omega (arith, length-append chain (commit.block ∷ [])) in
            subst (λ p. Represents d c p.0 (chain ++ map (λ a. a.block) (commit ∷ commits)))
              (sym eq)
              (subst (Represents d c (rest db1).0)
                (append_assoc chain (commit.block ∷ []) (map (λ a. a.block) commits))
                (import_all-Represents atomic commits db1 chain1 faithful (omega (arith, longer))
                  (subst (λ n. FollowsHead n commits) (sym longer) follows)
                  (subst (λ p. Represents d c p.0 chain1) (sym one) extended)
                  (ap (λ p. p.1) (sym eq) ∙ done)))
      ]
