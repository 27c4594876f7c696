-- ===== src/StateFile/Saving.antt =====
-- src/core/state_file.rs: how a state file is saved, over the external std::path. A file is its
-- decoded contents. Writing and renaming succeed.
use Prim.Native.String.{String, ◌++◌ as text_append}
use platarium_core.Base.{◌≡◌, refl, ◌⊎◌, inl, inr, Option, none, some, if◌then◌else◌, Bool-cases}
use platarium_core.Data.Ord.{◌==◌, string_eq}
use platarium_core.StateFile.{StateFileData}

-- `Path::file_name`, where the name is a text, and `PathBuf::set_file_name`
pub record Paths : Type 0 where
  pub file_name : String → Option String
  pub set_file_name : String → String → String

abbrev pub update : {A : Type 0} → (String → A) → String → A → String → A
update f path a = λ other. if other == path then a else f other

abbrev pub name_or_default : Option String → String
name_or_default none = "state.json"
name_or_default (some name) = name

module _ (p : Paths) where
  unfoldable pub temp_path : String → String
  temp_path path = p.set_file_name path (text_append (name_or_default (p.file_name path)) ".tmp")

  -- `rename` moves what stands at the first path.
  abbrev pub rename :
      (String → Option StateFileData) → String → String → String → Option StateFileData
  rename files source target = update (update files source none) target (files source)

  -- The temporary file is written and renamed.
  unfoldable pub atomic_write :
      (String → Option StateFileData) → String → StateFileData → String → Option StateFileData
  unfolding temp_path
  atomic_write files path saved =
      rename (update files (temp_path path) (some saved)) (temp_path path) path

  unfoldable pub save_state_file :
      (String → Option StateFileData) → String → StateFileData → String → Option StateFileData
  unfolding atomic_write
  save_state_file = atomic_write

  -- Saving touches two files: the one that is saved, and its temporary file.
  pub save_state_file-other :
      (files : String → Option StateFileData) (path : String) (saved : StateFileData)
      (other : String)
      → (save_state_file files path saved other ≡ files other)
        ⊎ (other ≡ path)
        ⊎ (other ≡ temp_path path)
  unfolding save_state_file atomic_write
  save_state_file-other files path saved other = elim (Bool-cases (other == path)) [
    | inl t ↦ inr (inl ((string_eq.same_iff other path).0 t))
    | inr away ↦ elim (Bool-cases (other == temp_path path)) [
      | inl t ↦ inr (inr ((string_eq.same_iff other (temp_path path)).0 t))
      | inr far ↦ inl (rw (away, far) refl)
    ]
  ]

  -- The file that is saved has what was saved.
  pub save_state_file-same :
      (files : String → Option StateFileData) (path : String) (saved : StateFileData)
      → save_state_file files path saved path ≡ some saved
  unfolding save_state_file atomic_write
  save_state_file-same files path saved =
      rw
        (
          (string_eq.same_iff path path).1 refl,
          (string_eq.same_iff (temp_path path) (temp_path path)).1 refl,
        )
        refl
