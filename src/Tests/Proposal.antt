-- ===== src/Tests/Proposal.antt =====
-- Block proposal at a pool of four entries and the ledger's state.
use Prim.Native.String.{String}
use text.Mathlib.TextEquality.{eq_iff}
use platarium_core.Base.{
  ok, err, Result, ap, ℕ, ◌+◌, ◌<◌, ◌≤◌, ◌≡◌, ◌≢◌, ◌⊎◌, ◌↔◌, refl, true, false, none, some, List,
  [], ◌∷◌, map, length, arith, sum_by, is_ok,
}
use platarium_core.Data.Int.{pos, negsuc}
use platarium_core.Data.Sublist.{IsSublist, done, keep, skip}
use platarium_core.Votes.{verify_tx_for_l1}
use platarium_core.Execution.{apply_transaction}
use platarium_core.Json.{Json}
use platarium_core.Asset.{as_canonical}
use platarium_core.Crypto.{verify_signature}
use platarium_core.State.{get_nonce, apply_transfer}
use platarium_core.Transaction.{Transaction, validate_basic}
use platarium_core.Proposal.{MempoolSnapshotEntry, fee_uplp_u64, faucet_address, block_max_tx_count}
use platarium_core.Proposal.Pending.{nonce_already_pending, contiguous_next_nonce}
use platarium_core.Proposal.Pending.Nonces.{contiguous_next_nonce_lem}
use platarium_core.Proposal.Packing.{select_block_txs}
use platarium_core.Proposal.Packing.Chosen.{IsGreedy, IsConsecutive, select_block_txs-IsConsecutive}
use platarium_core.Proposal.Status.{block_proposal_status}
use platarium_core.Proposal.Status.Progress.{proposal_progress}
use platarium_core.Proposal.Admission.{admit_transaction}
use platarium_core.Proposal.Admission.Accepted.{admit_transaction-applies}
use platarium_core.Transaction.Gateway.{from_gateway_json}
use platarium_core.Consensus.{verify_loop, start}
use platarium_core.Consensus.Replay.{AmountsFit, apply_all, l1_verify-replay}
use platarium_core.Tests.Fixtures.{ledger, libraries, payment}

-- Every JSON value is a number.
abbrev numbers : Json ℕ
numbers = record {
  from_str = λ s. none;
  index = λ v name. v;
  get = λ v name. none;
  is_null = λ v. false;
  as_str = λ v. none;
  as_u64 = λ v. some v;
  as_f64 = λ v. none;
  as_array = λ v. none;
}

abbrev entry : String → String → ℕ → ℕ → MempoolSnapshotEntry ℕ
entry hash from nonce fee = record {
  tx = record {
    hash = hash;
    from = from;
    to = "bob";
    asset = "PLP";
    amount = 1;
    fee_uplp = fee;
    fee = none;
    nonce = nonce;
    reads = [];
    writes = [];
    sig_main = "aa";
    sig_derived = "bb";
    pub_main = none;
    pub_derived = none;
    timestamp = pos 3;
  };
  arrival_index = 0;
  timestamp = negsuc 0;
}

-- The nonce of Alice is 7; her transaction with the nonce 8 came first.
abbrev pending : List (MempoolSnapshotEntry ℕ)
pending =
    entry "a8" "alice" 8 5
    ∷ entry "a7" "alice" 7 5
    ∷ entry "big" "bob" 0 600_000
    ∷ entry "f" "faucet" 9 2
    ∷ []

select_test :
    ((select_block_txs numbers ledger pending).hashes ≡ "a7" ∷ "f" ∷ [])
    × ((select_block_txs numbers ledger pending).gas_used ≡ 7)
unfolding select_block_txs get_nonce
select_test = (refl, refl)

contiguous_test : contiguous_next_nonce pending "alice" 7 ≡ 9
unfolding contiguous_next_nonce
contiguous_test = refl

abbrev a7 : MempoolSnapshotEntry ℕ
a7 = entry "a7" "alice" 7 5

a7-pending : IsSublist (a7 ∷ []) pending
a7-pending = skip (keep (skip (skip done)))

select_block_txs-IsConsecutive_example :
    let r = select_block_txs numbers ledger pending in
    (chosen : List (MempoolSnapshotEntry ℕ)) × IsSublist chosen pending
    × (r.hashes ≡ map (λ e. e.tx.hash) chosen)
    × (r.tx_count ≡ length r.hashes)
    × (r.tx_count ≤ block_max_tx_count)
    × (r.gas_used ≡ sum_by (λ e. fee_uplp_u64 numbers e.tx) chosen)
    × (r.gas_used ≤ r.gas_cap)
    × IsConsecutive (get_nonce ledger) chosen
    × IsGreedy numbers (get_nonce ledger) 0 0 pending chosen
select_block_txs-IsConsecutive_example = select_block_txs-IsConsecutive numbers ledger pending

proposal_progress_example :
    ((block_proposal_status numbers pending (negsuc 3)).should_propose ≡ true)
    × (0 < (select_block_txs numbers ledger pending).tx_count)
unfolding get_nonce fee_uplp_u64
proposal_progress_example =
    proposal_progress numbers ledger pending a7 (negsuc 3) a7-pending refl (omega arith)
      (omega arith) (omega arith)

contiguous_next_nonce_lem_example :
    let r = contiguous_next_nonce pending "alice" 7 in
    (nonce_already_pending pending "alice" r ≡ false)
    × (7 ≤ r)
    × (r ≤ 7 + length pending)
    × ((n : ℕ) → (n < 7) ⊎ ((r ≤ n) ⊎ (nonce_already_pending pending "alice" n ≡ true)))
contiguous_next_nonce_lem_example = contiguous_next_nonce_lem pending "alice" 7 (omega arith)

alice-ne-faucet : ◌≢◌ {A = String} "alice" faucet_address
alice-ne-faucet h = ground (arith, (eq_iff "alice" faucet_address).1 h)

abbrev others : List (MempoolSnapshotEntry ℕ)
others = entry "f" "faucet" 9 2 ∷ []

-- The payment has the next nonce and is covered; with the nonce 7 pending it is refused.
admitted_test :
    ((admit_transaction numbers libraries ledger others payment).accepted ≡ true)
    × ((admit_transaction numbers libraries ledger pending payment).accepted ≡ false)
unfolding admit_transaction as_canonical validate_basic verify_signature
admitted_test = (refl, refl)

admit_transaction-applies_example :
    is_ok (apply_transfer ledger "alice" "bob" payment.asset 100 6 (some 7)).1 ≡ true
unfolding get_nonce
admit_transaction-applies_example =
    admit_transaction-applies numbers libraries ledger others payment (omega arith) alice-ne-faucet
      refl admitted_test.0

-- Every JSON text is a payment of 100 by Alice, with the fee and the nonce 100.
abbrev gateway : Json ℕ
gateway = record numbers { from_str = λ s. some 100; as_str = λ v. some "alice" }

abbrev amount_of : Result Transaction → ℕ
amount_of (ok tx) = tx.amount
amount_of (err e) = 0

gateway-AmountsFit : AmountsFit gateway libraries
unfolding from_gateway_json
gateway-AmountsFit tx_json tx h = omega (arith, ap amount_of h)

l1_verify-replay_example :
    let v = verify_loop gateway libraries (start gateway libraries ledger) ("{}" ∷ []) in
    ((v.all_valid ≡ true) ↔ (is_ok (apply_all gateway libraries ledger ("{}" ∷ [])) ≡ true))
    × ((v.all_valid ≡ false) ⊎ (apply_all gateway libraries ledger ("{}" ∷ []) ≡ ok v.state))
    × (verify_tx_for_l1 libraries v.state payment
        ≡ ok (is_ok (apply_transaction libraries v.state payment).1))
l1_verify-replay_example =
    l1_verify-replay gateway libraries gateway-AmountsFit ledger ("{}" ∷ []) payment (omega arith)
