-- ===== src/Rpc/Methods.antt =====
-- src/core/core_rpc.rs: the names of the methods.
use Prim.Native.String.{String}
use platarium_core.Base.{Option, [], ◌∷◌}
use platarium_core.Data.Map.{HashMap, get}
use platarium_core.Data.Ord.{string_eq}

pub data Method : Type 0 where
  ping state_init state_query state_validate_tx state_apply_tx state_credit state_root : Method
  validate_tx l1_verify_txs l1_process_votes l2_process_votes assemble_block : Method
  min_fee_from_load mempool_admit block_proposal_status select_block_txs : Method
  rocks_get_head rocks_get_tx rocks_get_block rocks_get_account rocks_list_address_txs : Method
  rocks_commit_block rocks_list_snapshots rocks_bootstrap_snapshot migrate_json_to_rocks : Method
  selection_percent_from_load committee_count select_committee generate_mnemonic : Method
  generate_keys verify_signature sign_message sign_transaction : Method

abbrev pub methods : HashMap String Method
methods =
    ("ping", ping)
    ∷ ("state_init", state_init)
    ∷ ("state_query", state_query)
    ∷ ("state_validate_tx", state_validate_tx)
    ∷ ("state_apply_tx", state_apply_tx)
    ∷ ("state_credit", state_credit)
    ∷ ("state_root", state_root)
    ∷ ("validate_tx", validate_tx)
    ∷ ("l1_verify_txs", l1_verify_txs)
    ∷ ("l1_process_votes", l1_process_votes)
    ∷ ("l2_process_votes", l2_process_votes)
    ∷ ("assemble_block", assemble_block)
    ∷ ("min_fee_from_load", min_fee_from_load)
    ∷ ("mempool_admit", mempool_admit)
    ∷ ("block_proposal_status", block_proposal_status)
    ∷ ("select_block_txs", select_block_txs)
    ∷ ("rocks_get_head", rocks_get_head)
    ∷ ("rocks_get_tx", rocks_get_tx)
    ∷ ("rocks_get_block", rocks_get_block)
    ∷ ("rocks_get_account", rocks_get_account)
    ∷ ("rocks_list_address_txs", rocks_list_address_txs)
    ∷ ("rocks_commit_block", rocks_commit_block)
    ∷ ("rocks_list_snapshots", rocks_list_snapshots)
    ∷ ("rocks_bootstrap_snapshot", rocks_bootstrap_snapshot)
    ∷ ("migrate_json_to_rocks", migrate_json_to_rocks)
    ∷ ("selection_percent_from_load", selection_percent_from_load)
    ∷ ("committee_count", committee_count)
    ∷ ("select_committee", select_committee)
    ∷ ("generate_mnemonic", generate_mnemonic)
    ∷ ("generate_keys", generate_keys)
    ∷ ("verify_signature", verify_signature)
    ∷ ("sign_message", sign_message)
    ∷ ("sign_transaction", sign_transaction)
    ∷ []

-- The `match` on the method's name
unfoldable pub method_of : String → Option Method
method_of name = get methods name
