-- ===== src/Tests/Server.antt =====
-- The server and the command line at two state files.
use mathlib.Core.Path.{subst}
use Prim.Native.String.{String}
use text.Mathlib.Text.{◌==◌ as str_eq}
use platarium_core.Base.{
  Result, err, other, if◌then◌else◌, ℕ, ◌≡◌, refl, sym, ap, ◌⊎◌, true, false, none, some, List, [],
  ◌∷◌, ok, arith, some_inj, is_ok,
}
use platarium_core.Data.Ord.{string_eq}
use platarium_core.Data.Sort.{sort_by}
use platarium_core.State.Snapshot.{compute_state_root}
use platarium_core.Assembly.{Hasher}
use platarium_core.StateFile.{from_state, into_state, state_credit}
use platarium_core.Rpc.{dispatch_rpc}
use platarium_core.Rpc.Effects.{World, Libraries, Reply}
use platarium_core.Rpc.Params.{param_u64, param_str}
use platarium_core.Rpc.Isolation.Files.{Names, writes_file, dispatch_rpc-files}
use platarium_core.Rpc.Isolation.Connection.{Targets, serve_connection-files}
use platarium_core.Cli.{Commands, run_command}
use platarium_core.Cli.Arguments.{resolve_cli_json_arg}
use platarium_core.Cli.Requests.Agree.{run_command-eq-dispatch_rpc}
use platarium_core.Rpc.Serve.{serve_connection, params_of, method_name}
use platarium_core.StateFile.Saving.{Paths}
use platarium_core.Rpc.Serve.Order.{IsAnswered, serve_connection-ids}
use platarium_core.Storage.{WriteBatch}
use platarium_core.Rpc.Methods.{method_of, Method}
use platarium_core.Tests.Accounts.{key_libraries, random}
use platarium_core.Tests.Fixtures.{ledger, libraries}
use platarium_core.Tests.Storage.{puts_db, codecs}
use platarium_core.Tests.Wallet.{texts, decoder, wallet}

abbrev hasher : Hasher
hasher = record { sha256 = λ bytes. bytes; hex_encode = λ bytes. "root"; hex_decode = λ text. none }

-- Paths of one name
abbrev paths : Paths
paths = record { file_name = λ path. some path; set_file_name = λ path name. name }

abbrev server : Libraries String WriteBatch String ℕ ℕ ℕ (List ℕ)
server = record {
  json = texts;
  requests = decoder;
  imports = record {
    accounts_from_str = λ s. none;
    state_from_str = λ s. none;
    as_i64 = λ v. none;
    to_string = λ v. v;
  };
  pools = record { array_from_str = λ s. none; as_i64 = λ v. none; from_value = λ v. none };
  votes = record { array_from_str = λ s. none; as_bool = λ v. none };
  codecs = codecs;
  database = puts_db;
  opened = λ path. ok tt;
  hasher = hasher;
  transactions = libraries;
  messages = record {
    to_json = λ v. v;
    sha256 = λ bytes. bytes;
    hex_encode = λ bytes. "00";
    hex_decode = λ text. none;
    from_digest_slice = λ bytes. none;
    from_compact = λ bytes. none;
    from_der = λ bytes. none;
    from_slice = λ bytes. none;
    verify_ecdsa = λ digest signature key. false;
  };
  secp = wallet;
  keys = key_libraries;
  random = random;
  paths = paths;
}

-- Two files with the ledger
abbrev world : World WriteBatch
world = record { files = λ path. some (from_state ledger); stores = λ path. [] }

-- A credit is answered, and the file that it names has it.
credit_test :
    ((dispatch_rpc server world "five" "state_credit").1 ≡ ok (Reply.credited "root"))
    × ((dispatch_rpc server world "five" "state_credit").0.files "b.json"
        ≡ some (from_state ledger))
unfolding dispatch_rpc state_credit into_state from_state param_str param_u64 sort_by
    compute_state_root
credit_test = (refl, refl)

dispatch_rpc-files_example :
    let (w', r) = dispatch_rpc server world "five" "state_credit" in
    (w'.files "b.json" ≡ world.files "b.json")
    ⊎ (Names texts decoder paths "five" "state_credit" "b.json" × (is_ok r ≡ true))
dispatch_rpc-files_example = dispatch_rpc-files server world "five" "state_credit" "b.json"

query-away : ¬ (Targets server "a.json" "query")
unfolding method_of
query-away (req, read, names) =
    let (m, known, writes, path, given, touched) =
      subst (λ r. Names texts decoder paths (params_of server r) (method_name server r) "a.json")
        (sym (some_inj read)) names in
    let reader : Method.state_query ≡ m = some_inj known in
    ground (arith, sym (ap writes_file reader), writes)

bad-away : ¬ (Targets server "a.json" "bad")
bad-away (req, read, rest) = ground (arith, read)

serve_connection-files_example :
    (serve_connection server world ("query" ∷ "bad" ∷ [])).0.files "a.json"
    ≡ some (from_state ledger)
serve_connection-files_example =
    serve_connection-files server world "a.json" ("query" ∷ "bad" ∷ []) (query-away, (bad-away, tt))

serve_connection-ids_example : IsAnswered server world ("credit" ∷ " " ∷ "bad" ∷ [])
serve_connection-ids_example = serve_connection-ids server world ("credit" ∷ " " ∷ "bad" ∷ [])

-- A command whose transaction is in a file, and the request that carries it
abbrev read_payment : String → Result String
read_payment path = if str_eq path "tx.json" then ok "payment" else err (other "no such file")

resolved_payment : resolve_cli_json_arg read_payment " @tx.json" ≡ ok "payment"
unfolding resolve_cli_json_arg
resolved_payment = refl

run_command-eq-dispatch_rpc_example :
    run_command server read_payment world (Commands.state_validate_tx "a.json" " @tx.json")
    ≡ dispatch_rpc server world "validate" "state_validate_tx"
unfolding param_str method_of
run_command-eq-dispatch_rpc_example =
    run_command-eq-dispatch_rpc server read_payment "validate" world
      (Commands.state_validate_tx "a.json" " @tx.json") "state_validate_tx" refl
      (refl, ("payment", resolved_payment, refl))
