-- ===== src/Consensus/Replay.antt =====
-- src/core/consensus_cli.rs: a pack is valid exactly when its transactions can be applied in order.
use mathlib.Core.Path.{subst}
use Prim.Native.String.{String}
use platarium_core.Base.{
  Result-cases, ok_inj, ◌<◌, ◌≡◌, ◌↔◌, sym, ap, ◌∙◌, refl, inl, inr, ◌⊎◌, Bool, true, false, List,
  [], ◌∷◌, arith, u128_mod, Result, ok, err, is_ok, ◌>>=◌, PlatariumError,
}
use platarium_core.Crypto.{Crypto}
use platarium_core.Json.{Json}
use platarium_core.Execution.{apply_transaction, validate_transaction}
use platarium_core.Execution.Laws.{check_transaction_applicability-eq-apply_transfer}
use platarium_core.State.{State, apply_transfer}
use platarium_core.Transaction.{Transaction, TransactionHashData}
use platarium_core.Transaction.Gateway.{from_gateway_json}
use platarium_core.Votes.{verify_tx_for_l1}
use platarium_core.Consensus.{
  Verification, judge, note_success, verify_one, verify_read, verify_json, verify_loop, start,
}

abbrev pub state_after : State × Result (Unit {0}) → Result State
state_after (s, ok u) = ok s
state_after (s, err e) = err e

judge-ok :
    (v : Verification) (hash : String) (p : State × Result (Unit {0})) (s' : State)
    → state_after p ≡ ok s'
    → judge v hash (ok (is_ok p.1)) p ≡ note_success v s' hash
judge-ok v hash (s, ok u) s' h = ap (λ t. note_success v t hash) (ok_inj h)
judge-ok v hash (s, err e) s' h = absurd (ground (arith, h))

judge-err :
    (v : Verification) (hash : String) (p : State × Result (Unit {0})) (e : PlatariumError)
    → state_after p ≡ err e
    → (judge v hash (ok (is_ok p.1)) p).all_valid ≡ false
judge-err v hash (s, ok u) e h = absurd (ground (arith, h))
judge-err v hash (s, err e) e' h = refl

judge-all_valid :
    (v : Verification) (hash : String) (r : Result Bool) (p : State × Result (Unit {0}))
    → v.all_valid ≡ false
    → (judge v hash r p).all_valid ≡ false
judge-all_valid v hash (ok true) (s, ok u) h = h
judge-all_valid v hash (ok true) (s, err e) h = refl
judge-all_valid v hash (ok false) p h = refl
judge-all_valid v hash (err e) p h = refl

module _ {Value : Type 0} (j : Json Value) (c : Crypto TransactionHashData) where
  -- What a node does with a block: it reads each transaction and applies it, and stops at an error.
  unfoldable pub apply_json : State → String → Result State
  unfolding apply_transaction
  apply_json s tx_json =
      from_gateway_json j tx_json >>= λ tx. state_after (apply_transaction c s tx)

  unfoldable pub apply_all : State → List String → Result State
  unfolding apply_json
  apply_all s [] = ok s
  apply_all s (tx_json ∷ txs) = apply_json s tx_json >>= λ s'. apply_all s' txs

  -- The L1 check passes exactly when the transaction can be applied.
  verify_tx_for_l1-applies :
      (s : State) (tx : Transaction)
      → tx.amount < u128_mod
      → verify_tx_for_l1 c s tx ≡ ok (is_ok (apply_transaction c s tx).1)
  unfolding verify_tx_for_l1 apply_transaction validate_transaction apply_transfer
  verify_tx_for_l1-applies s tx small =
      ground (arith, check_transaction_applicability-eq-apply_transfer s tx small)

  -- The amounts of a gateway's transactions are 128-bit numbers.
  abbrev pub AmountsFit : Type 0
  AmountsFit =
      (tx_json : String) (tx : Transaction)
      → from_gateway_json j tx_json ≡ ok tx
      → tx.amount < u128_mod

  verify_json-ok :
      AmountsFit
      → (v : Verification) (tx_json : String) (s' : State) → apply_json v.state tx_json ≡ ok s'
      → ((verify_json j c v tx_json).all_valid ≡ v.all_valid)
        × ((verify_json j c v tx_json).state ≡ s')
  unfolding verify_json verify_read verify_one apply_json
  verify_json-ok fit v tx_json s' h = elim (Result-cases (from_gateway_json j tx_json)) [
    | inr (e, bad) ↦ absurd (ground (arith, h, bad))
    | inl (tx, read) ↦
        let p = apply_transaction c v.state tx in
        let applied : state_after p ≡ ok s' =
          sym (ap (λ r. r >>= λ t. state_after (apply_transaction c v.state t)) read) ∙ h in
        let verdict : judge v tx.hash (verify_tx_for_l1 c v.state tx) p
            ≡ note_success v s' tx.hash =
          ap (λ r. judge v tx.hash r p) (verify_tx_for_l1-applies v.state tx (fit tx_json tx read))
          ∙ judge-ok v tx.hash p s' applied in
        (
          ap (λ r. (verify_read j c v r).all_valid) read ∙ ap (λ w. w.all_valid) verdict,
          ap (λ r. (verify_read j c v r).state) read ∙ ap (λ w. w.state) verdict,
        )
  ]

  verify_json-err :
      AmountsFit
      → (v : Verification) (tx_json : String) (e : PlatariumError)
      → apply_json v.state tx_json ≡ err e
      → (verify_json j c v tx_json).all_valid ≡ false
  unfolding verify_json verify_read verify_one apply_json
  verify_json-err fit v tx_json e h = elim (Result-cases (from_gateway_json j tx_json)) [
    | inr (e', bad) ↦ ap (λ r. (verify_read j c v r).all_valid) bad
    | inl (tx, read) ↦
        let p = apply_transaction c v.state tx in
        let refused : state_after p ≡ err e =
          sym (ap (λ r. r >>= λ t. state_after (apply_transaction c v.state t)) read) ∙ h in
        ap (λ r. (verify_read j c v r).all_valid) read
        ∙ ap (λ r. (judge v tx.hash r p).all_valid)
            (verify_tx_for_l1-applies v.state tx (fit tx_json tx read))
        ∙ judge-err v tx.hash p e refused
  ]

  -- Once a transaction is not valid, the pack is not.
  verify_loop-all_valid :
      (txs : List String) (v : Verification)
      → v.all_valid ≡ false
      → (verify_loop j c v txs).all_valid ≡ false
  unfolding verify_loop verify_json verify_read verify_one
  verify_loop-all_valid [] v h = h
  verify_loop-all_valid (tx_json ∷ txs) v h =
      verify_loop-all_valid txs (verify_json j c v tx_json)
        (elim (Result-cases (from_gateway_json j tx_json)) [
          | inr (e, bad) ↦ ap (λ r. (verify_read j c v r).all_valid) bad
          | inl (tx, read) ↦
              ap (λ r. (verify_read j c v r).all_valid) read
              ∙ judge-all_valid v tx.hash (verify_tx_for_l1 c v.state tx)
                  (apply_transaction c v.state tx) h
        ])

  -- What the loop finds, and what applying the pack gives
  abbrev Agrees : Verification → Result State → Type 0
  Agrees v (ok s') = (v.all_valid ≡ true) × (v.state ≡ s')
  Agrees v (err e) = v.all_valid ≡ false

  verify_loop-Agrees :
      AmountsFit
      → (txs : List String) (v : Verification) → v.all_valid ≡ true
      → Agrees (verify_loop j c v txs) (apply_all v.state txs)
  unfolding verify_loop apply_all
  verify_loop-Agrees fit [] v h = (h, refl)
  verify_loop-Agrees fit (tx_json ∷ txs) v h = elim (Result-cases (apply_json v.state tx_json)) [
    | inr (e, refused) ↦ rw refused (
        verify_loop-all_valid txs (verify_json j c v tx_json)
          (verify_json-err fit v tx_json e refused))
    | inl (s', applied) ↦
        let (valid, moved) = verify_json-ok fit v tx_json s' applied in
        rw applied (
          subst (λ s. Agrees (verify_loop j c (verify_json j c v tx_json) txs) (apply_all s txs))
            moved (verify_loop-Agrees fit txs (verify_json j c v tx_json) (valid ∙ h)))
  ]

  -- A pack is valid exactly when its transactions can be read and applied to the state one after the
  -- other; the working state is then the one that they lead to. On the working state, whatever the
  -- pack, a further transaction passes the check exactly when applying it succeeds. The amounts that
  -- are read, and that of the further transaction, must be 128-bit numbers.
  pub l1_verify-replay :
      AmountsFit
      → (s : State) (txs : List String) (tx : Transaction) → tx.amount < u128_mod
      → let v = verify_loop j c (start j c s) txs in
        ((v.all_valid ≡ true) ↔ (is_ok (apply_all s txs) ≡ true))
        × ((v.all_valid ≡ false) ⊎ (apply_all s txs ≡ ok v.state))
        × (verify_tx_for_l1 c v.state tx ≡ ok (is_ok (apply_transaction c v.state tx).1))
  unfolding verify_loop
  l1_verify-replay fit s txs tx small =
      let checked = verify_tx_for_l1-applies (verify_loop j c (start j c s) txs).state tx small in
      let agrees = verify_loop-Agrees fit txs (start j c s) refl in
      elim (Result-cases (apply_all s txs)) [
        | inl (s', applied) ↦
            let (valid, moved) =
              subst (Agrees (verify_loop j c (start j c s) txs)) applied agrees in
            ((λ h. rw applied refl, λ h. valid), inr (applied ∙ ap ok (sym moved)), checked)
        | inr (e, refused) ↦
            let invalid = subst (Agrees (verify_loop j c (start j c s) txs)) refused agrees in
            (
              (
                λ h. absurd (ground (arith, h, invalid)),
                λ h. absurd (ground (arith, h, ap is_ok refused)),
              ),
              inl invalid,
              checked,
            )
      ]
