-- ===== src/Rpc/Serve.antt =====
-- src/core/core_rpc.rs: the lines of a connection and their responses.
pub mod Order
use Prim.Native.String.{String}
use platarium_core.Base.{
  Option, none, some, List, [], ◌∷◌, ◌++◌, is_empty, if◌then◌else◌, Result, ok, err, PlatariumError,
  other, panic,
}
use platarium_core.Data.Int.{ℤ, negsuc}
use platarium_core.Data.Ord.{◌==◌, string_eq}
use platarium_core.Data.Parse.{codes, trim}
use platarium_core.Rpc.{dispatch_rpc}
use platarium_core.Rpc.Effects.{World, Libraries, Reply}
use platarium_core.Rpc.Params.{and_then}
use platarium_core.Rpc.Wallet.{or_else}

-- A response of JSON-RPC 2.0: with a result, or with a code and an error.
pub data Response (Value : Type 0) : Type 0 where
  result : Value → Reply → Response Value
  error : Value → ℤ → PlatariumError → Response Value

-- -32700, -32600 and -32000
abbrev pub parse_error : ℤ
parse_error = negsuc 32_699

abbrev pub invalid_request : ℤ
invalid_request = negsuc 32_599

abbrev pub server_error : ℤ
server_error = negsuc 31_999

abbrev pub value_or : {Value : Type 0} → Option Value → Value → Value
value_or none d = d
value_or (some v) d = v

abbrev pub panic_message : {A : Type 0} → Result A → Option String
panic_message (ok a) = none
panic_message (err (panic message)) = some message
panic_message (err e) = none

abbrev pub response_of : {Value : Type 0} → Value → Result Reply → Response Value
response_of id (ok reply) = result id reply
response_of id (err e) = error id server_error e

-- A panic ends the thread before it responds.
abbrev pub respond :
    {Db Value : Type 0} → Value → World Db × Result Reply → World Db × Option (Response Value)
respond id done = (
  done.0,
  elim (panic_message done.1) [ none ↦ some (response_of id done.1) | some message ↦ none ],
)

module _ {Value Db Mnemonic Node Key Secret Signature : Type 0}
    (l : Libraries Value Db Mnemonic Node Key Secret Signature) where
  open l use {json, requests}

  abbrev pub id_of : Value → Value
  id_of req = value_or (json.get req "id") requests.null

  abbrev pub method_name : Value → String
  method_name req = or_else (and_then (json.get req "method") json.as_str) ""

  abbrev pub params_of : Value → Value
  params_of req = value_or (json.get req "params") requests.empty_object

  unfoldable pub handle_rpc_line : World Db → String → World Db × Option (Response Value)
  handle_rpc_line w line = elim (json.from_str line) [
    | none ↦ (w, some (error requests.null parse_error (other "parse error")))
    | some req ↦
        if method_name req == ""
        then (w, some (error (id_of req) invalid_request (other "missing method")))
        else respond (id_of req) (dispatch_rpc l w (params_of req) (method_name req))
  ]

  -- One round of the loop of `serve_connection`: a blank line has no response, and none stands for
  -- the end of the thread.
  abbrev pub serve_line : World Db → String → World Db × Option (List (Response Value))
  serve_line w line =
      let (w', response) = handle_rpc_line w line in
      if is_empty (trim (codes line))
      then (w, some [])
      else (w', elim response [ none ↦ none | some r ↦ some (r ∷ []) ])

  -- The lines that are read until the connection ends. A failure to write ends it too, so a shorter
  -- list of lines stands for that.
  unfoldable pub serve_connection : World Db → List String → World Db × List (Response Value)
  unfolding handle_rpc_line
  serve_connection w [] = (w, [])
  serve_connection w (line ∷ lines) =
      let (w', now) = serve_line w line in
      let (w'', later) = serve_connection w' lines in
      elim now [ none ↦ (w', []) | some responses ↦ (w'', responses ++ later) ]
