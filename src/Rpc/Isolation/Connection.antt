-- ===== src/Rpc/Isolation/Connection.antt =====
-- src/core/core_rpc.rs: the state files that a connection leaves as they were.
use Prim.Native.String.{String}
use platarium_core.Base.{
  ◌≡◌, refl, ◌∙◌, inl, inr, some, List, [], ◌∷◌, All, is_empty, Option-cases, Bool-cases,
}
use platarium_core.Data.Ord.{◌==◌, string_eq}
use platarium_core.Data.Parse.{codes, trim}
use platarium_core.Rpc.Effects.{World, Libraries}
use platarium_core.Rpc.Serve.{handle_rpc_line, serve_line, serve_connection, method_name, params_of}
use platarium_core.Rpc.Isolation.Files.{Names, dispatch_rpc-files}

module _ {Value Db Mnemonic Node Key Secret Signature : Type 0}
    (l : Libraries Value Db Mnemonic Node Key Secret Signature) where
  open l use {json, requests, paths}

  -- The line is a request that writes at the path, if only a temporary file.
  abbrev pub Targets : String → String → Type 0
  Targets path line =
      (req : Value) × (json.from_str line ≡ some req)
      × Names json requests paths (params_of l req) (method_name l req) path

  handle_rpc_line-files :
      (w : World Db) (path line : String)
      → ¬ (Targets path line)
      → (handle_rpc_line l w line).0.files path ≡ w.files path
  unfolding handle_rpc_line
  handle_rpc_line-files w path line away = elim (Option-cases (json.from_str line)) [
    | inl bad ↦ rw (handle_rpc_line, bad) refl
    | inr (req, parsed) ↦ elim (Bool-cases (method_name l req == "")) [
      | inl missing ↦ rw (handle_rpc_line, parsed, missing) refl
      | inr named ↦
          rw (handle_rpc_line, parsed, named)
            (elim (dispatch_rpc-files l w (params_of l req) (method_name l req) path) [
              | inl same ↦ same
              | inr (names, fine) ↦ absurd (away (req, parsed, names))
            ])
    ]
  ]

  serve_line-files :
      (w : World Db) (path line : String)
      → ¬ (Targets path line)
      → (serve_line l w line).0.files path ≡ w.files path
  serve_line-files w path line away = elim (Bool-cases (is_empty (trim (codes line)))) [
    | inl blank ↦ rw blank refl
    | inr full ↦ rw full (handle_rpc_line-files w path line away)
  ]

  -- The lines of a connection leave the file at a path as it was, if none of them is a request of a
  -- method that writes with that path, or with one whose temporary file stands there: whatever else
  -- they ask for, in whatever order. Writing and renaming a file succeed.
  pub serve_connection-files :
      (w : World Db) (path : String) (lines : List String)
      → All (λ line. ¬ (Targets path line)) lines
      → (serve_connection l w lines).0.files path ≡ w.files path
  unfolding serve_connection
  serve_connection-files w path [] away = refl
  serve_connection-files w path (line ∷ lines) away =
      let first = serve_line-files w path line away.0 in
      elim (Option-cases (serve_line l w line).1) [
        | inl ended ↦ rw (serve_connection, ended) first
        | inr (responses, served) ↦
            rw (serve_connection, served)
              (serve_connection-files (serve_line l w line).0 path lines away.1 ∙ first)
      ]
