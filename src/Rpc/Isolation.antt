-- ===== src/Rpc/Isolation.antt =====
-- src/core/core_rpc.rs: the methods on a file, and what they leave as it was.
pub mod Files
pub mod Connection
use mathlib.Core.Path.{subst}
use Prim.Native.String.{String}
use platarium_core.Base.{
  ℕ, List, ◌≡◌, refl, sym, ap, ◌∙◌, ◌⊎◌, inl, inr, Bool, true, false, Option, none, some, Result,
  ok, err, ◌>>=◌, PlatariumError, if◌then◌else◌, is_ok, arith, >>=-eq-ok, ok_inj, Bool-cases,
  Result-cases, Option-cases,
}
use platarium_core.Data.Ord.{◌==◌, string_eq}
use platarium_core.Json.{Json}
use platarium_core.Rpc.{run, dispatch_rpc, validate_tx_method, read_file, pair_reply}
use platarium_core.Rpc.Effects.{
  World, Libraries, Reply, FileAction, on_file, on_store, keep_file, keep_store, reply_with,
}
use platarium_core.Rpc.Params.{RequestDecoder, param_str, param_opt_str, param_u64, param_i64}
use platarium_core.Rpc.Methods.{Method, method_of}
use platarium_core.StateFile.{
  StateFileData, state_validate_tx, state_root, state_credit, state_apply_tx, save_with,
  init_state_file,
}
use platarium_core.StateFile.Saving.{Paths, temp_path, save_state_file-other}
use platarium_core.State.{State}
use platarium_core.Crypto.{Crypto}
use platarium_core.Transaction.{TransactionHashData}
use platarium_core.Storage.Answers

-- An action that saves nothing, and one that saves nothing where it fails
abbrev pub IsReader : FileAction → Type 0
IsReader act = (file : Option StateFileData) → (act file).0 ≡ none

abbrev pub IsAtomic : FileAction → Type 0
IsAtomic act = (file : Option StateFileData) → (act file).0 ≡ none ⊎ (is_ok (act file).1 ≡ true)

-- Saving a path touches it and its temporary file.
abbrev pub Touches : Paths → String → String → Type 0
Touches p path other = (other ≡ path) ⊎ (other ≡ temp_path p path)

module _ {Db : Type 0} (p : Paths) (w : World Db) (path : String) where
  keep_file-none :
      (kept : Option StateFileData × Result Reply)
      → kept.0 ≡ none
      → (keep_file p w path kept).0.files ≡ w.files
  keep_file-none (none, r) h = refl
  keep_file-none (some saved, r) h = absurd (ground (arith, h))

  keep_file-Touches :
      (kept : Option StateFileData × Result Reply) (other : String)
      → (kept.0 ≡ none) ⊎ (is_ok kept.1 ≡ true)
      → let (w', r) = keep_file p w path kept in
        (w'.files other ≡ w.files other) ⊎ (Touches p path other × (is_ok r ≡ true))
  keep_file-Touches (none, r) other h = inl refl
  keep_file-Touches (some saved, r) other (inl h) = absurd (ground (arith, h))
  keep_file-Touches (some saved, r) other (inr done) =
      elim (save_state_file-other p w.files path saved other) [
        | inl same ↦ inl same
        | inr touched ↦ inr (touched, done)
      ]

module _ {Value Db : Type 0} (j : Json Value) (d : RequestDecoder Value) (p : Paths) (w : World Db)
    (params : Value) where
  pub on_store-files :
      (request : String → Result (Db → Db × Result Reply))
      → (on_store j d p w params request).0.files ≡ w.files
  unfolding on_store
  on_store-files request = elim (Result-cases (param_str j d params "db_path")) [
    | inr (e, missing) ↦ rw missing refl
    | inl (path, there) ↦ rw there (elim (Result-cases (request path)) [
      | inr (e, bad) ↦ rw bad refl
      | inl (act, fine) ↦ rw fine refl
    ])
  ]

  pub on_file-reads :
      (request : String → Result FileAction)
      → ((path : String) (act : FileAction) → request path ≡ ok act → IsReader act)
      → (other : String) → (on_file j d p w params request).0.files other ≡ w.files other
  unfolding on_file
  on_file-reads request reads other = elim (Result-cases (param_str j d params "state_file")) [
    | inr (e, missing) ↦ rw missing refl
    | inl (path, there) ↦ rw there (elim (Result-cases (request path)) [
      | inr (e, bad) ↦ rw bad refl
      | inl (act, fine) ↦ rw fine (
          ap (λ (files : String → Option StateFileData). files other)
            (keep_file-none p w path (act (w.files path)) (reads path act fine (w.files path))))
    ])
  ]

  -- A file that an answer may have changed
  abbrev pub IsWritten : String → Result Reply → Type 0
  IsWritten other r =
      (path : String) × (param_str j d params "state_file" ≡ ok path)
      × Touches p path other
      × (is_ok r ≡ true)

  pub on_file-writes :
      (request : String → Result FileAction)
      → ((path : String) (act : FileAction) → request path ≡ ok act → IsAtomic act)
      → (other : String)
      → let (w', r) = on_file j d p w params request in
        (w'.files other ≡ w.files other) ⊎ IsWritten other r
  unfolding on_file
  on_file-writes request atomic other = elim (Result-cases (param_str j d params "state_file")) [
    | inr (e, missing) ↦ rw missing (inl refl)
    | inl (path, there) ↦ rw there (elim (Result-cases (request path)) [
      | inr (e, bad) ↦ rw bad (inl refl)
      | inl (act, fine) ↦
          rw fine
            (elim (keep_file-Touches p w path (act (w.files path)) other
              (atomic path act fine (w.files path))) [
                | inl same ↦ inl same
                | inr (touched, done) ↦ inr (path, refl, touched, done)
              ])
    ])
  ]

save_with-IsAtomic :
    {A : Type 0} (f : A → Reply) (r : Result (State × A))
    → let saved = reply_with f (save_with r) in (saved.0 ≡ none) ⊎ (is_ok saved.1 ≡ true)
save_with-IsAtomic f (err e) = inl refl
save_with-IsAtomic f (ok (s, a)) = inr refl

pub state_credit-IsAtomic :
    (hash_hex : List ℕ → String) (address : String) (plp uplp : ℕ) (testnet : Bool)
    → IsAtomic
        (λ file. reply_with Reply.credited (state_credit hash_hex file address plp uplp testnet))
unfolding state_credit
state_credit-IsAtomic hash_hex address plp uplp false file = inl refl
state_credit-IsAtomic hash_hex address plp uplp true file = save_with-IsAtomic Reply.credited _

pub state_apply_tx-IsAtomic :
    {Value : Type 0} (j : Json Value) (c : Crypto TransactionHashData) (hash_hex : List ℕ → String)
    → (tx : String)
    → IsAtomic (λ file. reply_with (pair_reply Reply.applied) (state_apply_tx j c hash_hex file tx))
unfolding state_apply_tx
state_apply_tx-IsAtomic j c hash_hex tx file = save_with-IsAtomic (pair_reply Reply.applied) _

-- An action that reads is one that saves nothing; a `?` before it changes nothing.
pub reads-ok :
    (act' : FileAction) → IsReader act' → (act : FileAction) → ok act' ≡ ok act → IsReader act
reads-ok act' h act e = subst IsReader (ok_inj e) h

pub writes-ok :
    (act' : FileAction) → IsAtomic act' → (act : FileAction) → ok act' ≡ ok act → IsAtomic act
writes-ok act' h act e = subst IsAtomic (ok_inj e) h
