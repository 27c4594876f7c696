-- ===== src/Tests/Engine.antt =====
-- The theorems on transactions and their execution at a concrete payment.
use Prim.Native.String.{String}
use platarium_core.Base.{◌<◌, ◌≡◌, ◌↔◌, refl, arith, true, some, ok, err, is_ok, invalid_amount}
use platarium_core.Asset.{as_canonical}
use platarium_core.Crypto.{verify_signature}
use platarium_core.State.{apply_transfer, check_transfer}
use platarium_core.Transaction.{Transaction, verify_signatures, validate_basic}
use platarium_core.Crypto.{verify_signature}
use platarium_core.Transaction.{message}
use platarium_core.Transaction.Validation.{message_inj, validate_basic_iff}
use platarium_core.Execution.{production, execute_transaction, apply_transaction}
use platarium_core.Execution.Laws.{execute_transaction-eq-apply_transaction}
use platarium_core.Mempool
use platarium_core.Mempool.{add_transaction, get_transaction, remove_transaction}
use platarium_core.Core.{Core, submit_transaction}
use platarium_core.Core.Submit.{submit_transaction_err, submit_transaction_ok}
use platarium_core.Tests.Fixtures.{ledger, libraries, payment}

abbrev engine : Core
engine = record { state = ledger; mempool = Mempool.new }

abbrev free : Transaction
free = record payment { amount = 0 }

payment_test : validate_basic libraries payment ≡ ok tt
unfolding validate_basic verify_signatures verify_signature
payment_test = refl

submitted_test : (submit_transaction libraries engine payment).1 ≡ ok "h1"
unfolding submit_transaction validate_basic verify_signatures verify_signature apply_transaction
    apply_transfer check_transfer add_transaction as_canonical
submitted_test = refl

rejected_test : (submit_transaction libraries engine free).1 ≡ err invalid_amount
unfolding submit_transaction validate_basic
rejected_test = refl

execute_transaction-eq-apply_transaction_example :
    ((execute_transaction libraries ledger payment production).0
      ≡ (apply_transaction libraries ledger payment).0)
    × (is_ok (execute_transaction libraries ledger payment production).1
        ≡ is_ok (apply_transaction libraries ledger payment).1)
execute_transaction-eq-apply_transaction_example =
    execute_transaction-eq-apply_transaction libraries ledger payment production (omega arith)

submit_transaction_ok_example :
    let core' = (submit_transaction libraries engine payment).0 in
    (◌≡◌ {A = String} "h1" "h1")
    × (apply_transaction libraries ledger payment ≡ (core'.state, ok tt))
    × (get_transaction core'.mempool "h1" ≡ some payment)
submit_transaction_ok_example = submit_transaction_ok libraries engine payment "h1" submitted_test

submit_transaction_err_example :
    let core' = (submit_transaction libraries engine free).0 in
    (core'.state ≡ ledger) × (get_transaction core'.mempool "h1" ≡ get_transaction Mempool.new "h1")
submit_transaction_err_example =
    submit_transaction_err libraries engine free invalid_amount "h1" tt rejected_test

validate_basic_iff_example : (validate_basic libraries payment ≡ ok tt) ↔ (
    (0 < payment.amount)
    × (0 < payment.fee_uplp)
    × (verify_signature libraries (message payment) "aa" "alice-key" ≡ ok true)
    × (verify_signature libraries (message payment) "bb" "alice-key" ≡ ok true))
validate_basic_iff_example = validate_basic_iff libraries payment

abbrev resigned : Transaction
resigned = record payment { sig_main = "cc"; hash = "h2" }

message_inj_example :
    (payment.from ≡ resigned.from)
    × (payment.to ≡ resigned.to)
    × (payment.asset ≡ resigned.asset)
    × (payment.amount ≡ resigned.amount)
    × (payment.fee_uplp ≡ resigned.fee_uplp)
    × (payment.nonce ≡ resigned.nonce)
unfolding message
message_inj_example = message_inj payment resigned refl
