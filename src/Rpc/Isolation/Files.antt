-- ===== src/Rpc/Isolation/Files.antt =====
-- src/core/core_rpc.rs: the state files that a request leaves as they were.
use Prim.Native.String.{String}
use platarium_core.Base.{
  ℕ, List, ◌≡◌, refl, ap, ◌⊎◌, inl, inr, Bool, true, false, some, Result, ok, is_ok, arith,
  >>=-eq-ok, Bool-cases, Result-cases, Option-cases,
}
use platarium_core.Data.Ord.{string_eq}
use platarium_core.Json.{Json}
use platarium_core.Rpc.{run, dispatch_rpc, validate_tx_method, read_file}
use platarium_core.Rpc.Effects.{World, Libraries, Reply, reply_with}
use platarium_core.Rpc.Params.{RequestDecoder, param_str, param_opt_str, param_u64, param_i64}
use platarium_core.Rpc.Methods.{Method, method_of}
use platarium_core.StateFile.{state_validate_tx, state_root, init_state_file}
use platarium_core.StateFile.Saving.{Paths}
use platarium_core.Storage.Answers
use platarium_core.Rpc.Isolation.{
  IsWritten, Touches, on_store-files, on_file-reads, on_file-writes, reads-ok, writes-ok,
  state_credit-IsAtomic, state_apply_tx-IsAtomic,
}

-- The methods that may write a state file
abbrev pub writes_file : Method → Bool
writes_file Method.state_init = true
writes_file Method.state_apply_tx = true
writes_file Method.state_credit = true
writes_file _ = false

module _ {Value : Type 0} (json : Json Value) (requests : RequestDecoder Value) (paths : Paths)
    (params : Value) where
  -- The request is one that writes, and names the file, or one whose temporary file it is.
  abbrev pub Names : String → String → Type 0
  Names method other =
      (m : Method) × (method_of method ≡ some m)
      × (writes_file m ≡ true)
      × (path : String) × (param_str json requests params "state_file" ≡ ok path)
      × Touches paths path other

module _ {Value Db Mnemonic Node Key Secret Signature : Type 0}
    (l : Libraries Value Db Mnemonic Node Key Secret Signature) (w : World Db)
    (params : Value) where
  open l use {json, requests, paths}

  abbrev text : String → Result String
  text = param_str json requests params

  validate_tx_method-reads :
      (other : String) → (validate_tx_method l w params).0.files other ≡ w.files other
  unfolding validate_tx_method
  validate_tx_method-reads other = elim (Result-cases (text "tx")) [
    | inr (e, missing) ↦ rw (validate_tx_method, missing) refl
    | inl (tx, there) ↦
        rw (validate_tx_method, there)
          (elim (Option-cases (param_opt_str json requests params "state_file")) [
            | inl absent ↦ rw absent refl
            | inr (path, given) ↦ rw given (
                on_file-reads json requests paths w params _
                  (λ path.
                    reads-ok
                      (read_file Reply.validity
                        (λ file. state_validate_tx json l.transactions file tx))
                      (λ file. refl))
                  other)
          ])
  ]

  -- A method that does not write leaves every state file.
  run-reads :
      (m : Method)
      → writes_file m ≡ false
      → (other : String) → (run l w params m).0.files other ≡ w.files other
  unfolding run
  run-reads Method.state_init h other = absurd (ground (arith, h))
  run-reads Method.state_apply_tx h other = absurd (ground (arith, h))
  run-reads Method.state_credit h other = absurd (ground (arith, h))
  run-reads Method.validate_tx h other = validate_tx_method-reads other
  run-reads Method.state_query h other =
      on_file-reads json requests paths w params _
        (λ path. >>=-eq-ok (text "address") _ λ address _. reads-ok _ (λ file. refl)) other
  run-reads Method.state_validate_tx h other =
      on_file-reads json requests paths w params _
        (λ path. >>=-eq-ok (text "tx") _ λ tx _. reads-ok _ (λ file. refl)) other
  run-reads Method.state_root h other =
      let query = state_root (λ (bytes : List ℕ). l.hasher.hex_encode (l.hasher.sha256 bytes)) in
      on_file-reads json requests paths w params _
        (λ path. reads-ok (read_file Reply.rooted query) (λ file. refl)) other
  run-reads Method.l1_verify_txs h other =
      on_file-reads json requests paths w params _
        (λ path. >>=-eq-ok (text "txs") _ λ txs _. reads-ok _ (λ file. refl)) other
  run-reads Method.assemble_block h other =
      on_file-reads json requests paths w params _
        (λ path. >>=-eq-ok (param_u64 json requests params "block_number") _ λ block_number _.
          >>=-eq-ok (text "previous_hash") _ λ previous_hash _.
            >>=-eq-ok (param_i64 json requests params "timestamp") _ λ timestamp _.
              >>=-eq-ok (text "tx_hashes") _ λ tx_hashes _.
                >>=-eq-ok (text "producer_id") _ λ producer_id _. reads-ok _ (λ file. refl))
        other
  run-reads Method.mempool_admit h other =
      on_file-reads json requests paths w params _
        (λ path.
          >>=-eq-ok (text "tx") _
            λ tx _. >>=-eq-ok (text "mempool_txs") _ λ mempool_txs _. reads-ok _ (λ file. refl))
        other
  run-reads Method.select_block_txs h other =
      on_file-reads json requests paths w params _
        (λ path. >>=-eq-ok (text "mempool_txs") _ λ mempool_txs _. reads-ok _ (λ file. refl)) other
  run-reads Method.rocks_get_head h other =
      ap (λ files. files other)
        (on_store-files json requests paths w params λ path. ok (λ db.
          reply_with Reply.head (Answers.rocks_get_head l.database l.codecs (l.opened path) db)))
  run-reads Method.rocks_get_tx h other =
      ap (λ files. files other) (on_store-files json requests paths w params _)
  run-reads Method.rocks_get_block h other =
      ap (λ files. files other) (on_store-files json requests paths w params _)
  run-reads Method.rocks_get_account h other =
      ap (λ files. files other) (on_store-files json requests paths w params _)
  run-reads Method.rocks_list_address_txs h other =
      ap (λ files. files other) (on_store-files json requests paths w params _)
  run-reads Method.rocks_commit_block h other =
      ap (λ files. files other) (on_store-files json requests paths w params _)
  run-reads Method.rocks_list_snapshots h other =
      ap (λ files. files other)
        (on_store-files json requests paths w params λ path. ok (λ db.
          reply_with Reply.snapshots
            (Answers.rocks_list_snapshots l.database l.codecs (l.opened path) db)))
  run-reads Method.rocks_bootstrap_snapshot h other =
      ap (λ files. files other) (on_store-files json requests paths w params _)
  run-reads Method.migrate_json_to_rocks h other =
      ap (λ files. files other) (on_store-files json requests paths w params _)
  run-reads _ h other = refl

  run-writes :
      (m : Method)
      → writes_file m ≡ true
      → (other : String)
      → let (w', r) = run l w params m in
        (w'.files other ≡ w.files other) ⊎ IsWritten json requests paths w params other r
  unfolding run
  run-writes Method.state_init h other =
      on_file-writes json requests paths w params _
        (λ path.
          writes-ok (λ file. (some init_state_file, ok (Reply.initialized path)))
            (λ file. inr refl))
        other
  run-writes Method.state_apply_tx h other =
      on_file-writes json requests paths w params _
        (λ path.
          >>=-eq-ok (text "tx") _
            λ tx _. writes-ok _ (state_apply_tx-IsAtomic json l.transactions _ tx))
        other
  run-writes Method.state_credit h other =
      on_file-writes json requests paths w params _
        (λ path. >>=-eq-ok (text "address") _ λ address _.
          >>=-eq-ok (param_u64 json requests params "plp") _ λ plp _.
            >>=-eq-ok (param_u64 json requests params "uplp") _
              λ uplp _. writes-ok _ (state_credit-IsAtomic _ address plp uplp _))
        other
  run-writes _ h other = absurd (ground (arith, h))

  -- A method changes a state file only where it is one that writes, and answers without an error.
  run-files :
      (m : Method) (other : String)
      → let (w', r) = run l w params m in
        (w'.files other ≡ w.files other)
        ⊎ ((writes_file m ≡ true) × IsWritten json requests paths w params other r)
  run-files m other = elim (Bool-cases (writes_file m)) [
    | inr reader ↦ inl (run-reads m reader other)
    | inl writer ↦ elim (run-writes m writer other) [
      | inl same ↦ inl same
      | inr written ↦ inr (writer, written)
    ]
  ]

  -- A request changes the file at a path only where its method is state_init, state_apply_tx or
  -- state_credit, its parameter `state_file` is that path or one whose temporary file stands there,
  -- and the answer is no error: every other request, and every error, leaves every file as it was.
  -- Writing and renaming a file succeed.
  pub dispatch_rpc-files :
      (method path : String)
      → let (w', r) = dispatch_rpc l w params method in
        (w'.files path ≡ w.files path)
        ⊎ (Names json requests paths params method path × (is_ok r ≡ true))
  unfolding dispatch_rpc
  dispatch_rpc-files method path = elim (Option-cases (method_of method)) [
    | inl unknown ↦ rw (dispatch_rpc, unknown) (inl refl)
    | inr (m, known) ↦
        rw (dispatch_rpc, known)
          (elim (run-files m path) [
            | inl same ↦ inl same
            | inr (writer, (named, given, touched, done)) ↦
                inr ((m, refl, writer, named, given, touched), done)
          ])
  ]
