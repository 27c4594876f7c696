-- ===== src/Rpc/Serve/Order.antt =====
-- src/core/core_rpc.rs: the responses of a connection, against its lines.
use Prim.Native.String.{String}
use platarium_core.Base.{
  ◌≡◌, refl, ap, ◌∙◌, not, Bool, Option, other, none, some, List, [], ◌∷◌, map, filter, is_empty,
  ◌++◌, ◌⊎◌, Result, ok, err, inl, inr, Option-cases, Bool-cases,
}
use platarium_core.Data.Ord.{◌==◌, string_eq}
use platarium_core.Data.Parse.{codes, trim}
use platarium_core.Rpc.{dispatch_rpc}
use platarium_core.Rpc.Effects.{World, Libraries, Reply}
use platarium_core.Rpc.Serve.{
  Response, result, error, respond, response_of, panic_message, serve_line, parse_error,
  invalid_request, handle_rpc_line, serve_connection, id_of, method_name, params_of,
}

abbrev pub response_id : {Value : Type 0} → Response Value → Value
response_id (result id reply) = id
response_id (error id code e) = id

response_of-id :
    {Value : Type 0} (id : Value) (r : Result Reply) → response_id (response_of id r) ≡ id
response_of-id id (ok reply) = refl
response_of-id id (err e) = refl

respond-calm :
    {Db Value : Type 0} (id : Value) (done : World Db × Result Reply)
    → panic_message done.1 ≡ none
    → (respond id done).1 ≡ some (response_of id done.1)
respond-calm id done calm = rw (respond, calm) refl

respond-panic_message :
    {Db Value : Type 0} (id : Value) (done : World Db × Result Reply) (message : String)
    → panic_message done.1 ≡ some message
    → (respond id done).1 ≡ none
respond-panic_message id done message panicked = rw (respond, panicked) refl

abbrev pub is_request : String → Bool
is_request line = not (is_empty (trim (codes line)))

module _ {Value Db Mnemonic Node Key Secret Signature : Type 0}
    (l : Libraries Value Db Mnemonic Node Key Secret Signature) where
  open l use {json, requests}

  -- The identifier of a line's request: null, where the line cannot be read
  abbrev pub request_id : String → Value
  request_id line = elim (json.from_str line) [ none ↦ requests.null | some req ↦ id_of l req ]

  -- The line is a request whose method panics.
  abbrev pub Panics : World Db → String → Type 0
  Panics w line =
      (req : Value) × (json.from_str line ≡ some req)
      × (message : String) × (panic_message
            (dispatch_rpc l w (params_of l req) (method_name l req)).1
          ≡ some message)

  -- A line has a response with its identifier, or it panics.
  handle_rpc_line-id :
      (w : World Db) (line : String)
      → let response = (handle_rpc_line l w line).1 in
        ((r : Response Value) × (response ≡ some r) × (response_id r ≡ request_id line))
        ⊎ ((response ≡ none) × Panics w line)
  unfolding handle_rpc_line
  handle_rpc_line-id w line = elim (Option-cases (json.from_str line)) [
    | inl bad ↦ inl (
      error requests.null parse_error (other "parse error"),
      rw (handle_rpc_line, bad) refl,
      rw (request_id, bad) refl,
    )
    | inr (req, parsed) ↦ elim (Bool-cases (method_name l req == "")) [
      | inl missing ↦ inl (
        error (id_of l req) invalid_request (other "missing method"),
        rw (handle_rpc_line, parsed, missing) refl,
        rw (request_id, parsed) refl,
      )
      | inr named ↦
          let done = dispatch_rpc l w (params_of l req) (method_name l req) in
          elim (Option-cases (panic_message done.1)) [
            | inl calm ↦ inl (
              response_of (id_of l req) done.1,
              rw (handle_rpc_line, parsed, named) (respond-calm (id_of l req) done calm),
              rw (request_id, parsed) (response_of-id (id_of l req) done.1),
            )
            | inr (message, panicked) ↦ inr (
              rw (handle_rpc_line, parsed, named)
                  (respond-panic_message (id_of l req) done message panicked),
              (req, parsed, message, panicked),
            )
          ]
    ]
  ]

  -- What the loop does after a line
  abbrev after :
      List String → World Db × Option (List (Response Value)) → World Db × List (Response Value)
  after lines p =
      let rest = serve_connection l p.0 lines in
      elim p.1 [ none ↦ (p.0, []) | some responses ↦ (rest.0, responses ++ rest.1) ]

  serve_connection-after :
      (w : World Db) (line : String) (lines : List String)
      (p : World Db × Option (List (Response Value)))
      → serve_line l w line ≡ p
      → serve_connection l w (line ∷ lines) ≡ after lines p
  unfolding serve_connection
  serve_connection-after w line lines p h = ap (after lines) h

  -- The lines up to the end, or to a panic, and the responses to them
  abbrev pub IsAnswered : World Db → List String → Type 0
  IsAnswered w lines =
      (served : List String) × (rest : List String) × (lines ≡ served ++ rest)
      × (map response_id (serve_connection l w lines).1 ≡ map request_id (filter is_request served))
      × ((rest ≡ [])
          ⊎ ((line : String) × (others : List String) × (rest ≡ line ∷ others)
              × Panics (serve_connection l w served).0 line))

  -- A connection responds to its lines in their order, each line that is not blank once, with the
  -- identifier of its request, errors included: to all lines, or to those before the first whose
  -- method panics, in the state of the files and databases that those lead to.
  pub serve_connection-ids : (w : World Db) (lines : List String) → IsAnswered w lines
  unfolding serve_connection
  serve_connection-ids w [] = ([], [], refl, refl, inl refl)
  serve_connection-ids w (line ∷ lines) = elim (Bool-cases (is_empty (trim (codes line)))) [
    | inl blank ↦
        let (served, rest, split, ids, end) = serve_connection-ids w lines in
        let step =
          λ (ls : List String). serve_connection-after w line ls (w, some []) (rw blank refl) in
        (
          line ∷ served,
          rest,
          ap (λ ls. line ∷ ls) split,
          ap (λ p. map response_id p.1) (step lines) ∙ rw blank ids,
          rw (step served) end,
        )
    | inr full ↦
        let w' = (handle_rpc_line l w line).0 in
        elim (handle_rpc_line-id w line) [
          | inl (r, responded, same) ↦
              let (served, rest, split, ids, end) = serve_connection-ids w' lines in
              let step = λ (ls : List String).
                serve_connection-after w line ls (w', some (r ∷ [])) (rw (full, responded) refl) in
              (
                line ∷ served,
                rest,
                ap (λ ls. line ∷ ls) split,
                ap (λ p. map response_id p.1) (step lines)
                    ∙ rw full (
                        ap (λ id. id ∷ map response_id (serve_connection l w' lines).1) same
                        ∙ ap (λ others. request_id line ∷ others) ids),
                rw (step served) end,
              )
          | inr (silent, panics) ↦
              let step = serve_connection-after w line lines (w', none) (rw (full, silent) refl) in
              (
                [],
                line ∷ lines,
                refl,
                ap (λ p. map response_id p.1) step,
                inr (line, lines, refl, panics),
              )
        ]
  ]
