-- ===== src/Tests/Validators.antt =====
-- The theorems on nodes, penalties, votes and blocks at a concrete registry.
use Prim.Native.String.{count}
use platarium_core.Base.{
  ℕ, zero, suc, ◌+◌, ◌/◌, ◌*◌, ◌≤◌, ◌≡◌, ◌↔◌, refl, arith, true, false, some, List, [], ◌∷◌, length,
  filter, All, ok, map, any,
}
use platarium_core.Data.Ord.{string_ord, string_eq, ◌==◌}
use platarium_core.Node.{
  Node, NodeId, suspended, new_node, reputation, vote_accuracy, stake_weight,
  selection_weight_ratio,
}
use platarium_core.Node.Registry.{NodeRegistry, new, get, get_eligible}
use platarium_core.Node.Invariant.{IsValid}
use platarium_core.Node.Reach.{run, add, vote, penalty, run-IsValid}
use platarium_core.Node.Scores.{reputation_exact}
use platarium_core.Assignment.{
  TxGroupAssignment, assign_transactions_to_groups, form_verifier_groups, eligible_sorted_by_weight,
  form_groups, fill_group, largest, required_stake_for_tx, min_validator_stake_for_tx, assign_all,
  assign,
}
use platarium_core.Assignment.Covering.{AreCovered, assign_transactions_to_groups_lem}
use platarium_core.Tests.Fixtures.{payment}
use platarium_core.Data.Sort.{sort_by}
use platarium_core.Selection.{
  selection_percent_from_load, selection_percent_from_load_l2, select_count, excludes,
  select_l1_l2_validators,
}
use platarium_core.Selection.Sampling.{IsSelection}
use platarium_core.Selection.Committees.{select_l1_l2_validators_lem}
use platarium_core.Votes.{
  Ballot, confirm_count, confirm, reject, to_penalize, process_l1_confirmation, confirmed, rejected,
}
use platarium_core.Votes.Outcome.{
  voters, process_l1_confirmation_iff, process_l1_confirmation_split,
}
use platarium_core.Assembly.{
  Hasher, block_leader_for_height, block_leader_index_for_height, compute_merkle_root, merkle_loop,
  process_l2_block_votes,
}
use platarium_core.Assembly
use platarium_core.Assembly.Finality.{process_l2_block_votes_final}

abbrev node1 : Node
unfolding new_node
node1 = new_node "n1" "k1" 1_000 10

abbrev node2 : Node
unfolding new_node
node2 = record (new_node "n2" "k2" 500 10) { status = suspended; load_score = 400_000 }

abbrev registry : NodeRegistry
registry = ("n1", node1) ∷ ("n2", node2) ∷ []

run-IsValid_example :
    IsValid (run new (add "n1" "k1" 1_000 10 ∷ vote "n1" true ∷ penalty "n1" 950_000 100_000 ∷ []))
run-IsValid_example =
    run-IsValid (add "n1" "k1" 1_000 10 ∷ vote "n1" true ∷ penalty "n1" 950_000 100_000 ∷ [])

reputation_exact_example :
    reputation node2 1_000
    ≡ (node2.uptime_score * 300
        + node2.latency_score * 200
        + vote_accuracy node2 * 300
        + stake_weight node2.stake 1_000 * 200)
      / 1000
unfolding node2
reputation_exact_example = reputation_exact node2 1_000 (omega arith) (omega arith)

abbrev ballots : List Ballot
ballots = ("n1", confirm) ∷ ("n2", confirm) ∷ ("n3", reject) ∷ ("n4", confirm) ∷ ("n5", reject) ∷ []

-- Three of five votes confirm: the outcome is a rejection, and those who rejected are penalized.
split_test : process_l1_confirmation ballots ≡ ok (rejected, "n3" ∷ "n5" ∷ [])
unfolding process_l1_confirmation confirm_count
split_test = refl

process_l1_confirmation_iff_example :
    (process_l1_confirmation ballots ≡ ok (confirmed, to_penalize ballots))
    ↔ ((1 ≤ length ballots) × (67 * length ballots ≤ 100 * length (voters confirm ballots)))
process_l1_confirmation_iff_example = process_l1_confirmation_iff ballots (omega arith)

process_l1_confirmation_split_example :
    process_l1_confirmation ballots ≡ ok (rejected, voters reject ballots)
process_l1_confirmation_split_example =
    process_l1_confirmation_split ballots (omega arith) (omega arith) (omega arith)

abbrev agreed : List Ballot
agreed = ("n1", confirm) ∷ ("n2", confirm) ∷ ("n3", reject) ∷ ("n4", confirm) ∷ []

process_l2_block_votes_final_example :
    (process_l2_block_votes agreed ≡ ok (Assembly.confirmed, voters reject agreed))
    × (100 * length (voters reject agreed) ≤ 30 * length agreed)
process_l2_block_votes_final_example =
    process_l2_block_votes_final agreed (omega arith) (omega arith) (omega arith)

repeated : ℕ → ℕ → List ℕ
repeated zero b = []
repeated (suc n) b = b ∷ repeated n b

-- A text of n letters decodes to 32 times the byte n; a digest repeats the first byte, plus one.
abbrev hasher : Hasher
unfolding repeated
hasher = record {
  sha256 = λ bytes. elim bytes [ [] ↦ repeated 32 0 | b ∷ _ ↦ repeated 32 (b + 1) ];
  hex_encode = λ bytes. "digest";
  hex_decode = λ text. some (repeated 32 (count text));
}

abbrev echo : List ℕ → List ℕ
echo bytes = bytes

select_l1_l2_validators_lem_example :
    (l1 : List NodeId) × (l2 : List NodeId) × (select_l1_l2_validators echo registry 5 [] 40 100
      ≡ ok (l1, l2))
    × IsSelection
        (select_count (length (get_eligible registry)) 20)
        (map (λ (n : Node). n.node_id) (get_eligible registry))
        l1
    × IsSelection
        (select_count (length (filter (excludes l1) (get_eligible registry))) 15)
        (map (λ (n : Node). n.node_id) (filter (excludes l1) (get_eligible registry)))
        l2
    × All (λ id. any (λ k. k == id) l1 ≡ false) l2
unfolding selection_percent_from_load selection_percent_from_load_l2 get_eligible sort_by node1
    node2 selection_weight_ratio
select_l1_l2_validators_lem_example =
    select_l1_l2_validators_lem echo registry 5 [] 40 100 20 15 refl refl (omega arith)

-- One validator with a stake of 1000 covers the payment of 100.
abbrev assigned : TxGroupAssignment
assigned = record { tx_hash = "h1"; group_index = 0; verifier_ids = "n1" ∷ [] }

assigned_test : assign_transactions_to_groups (payment ∷ []) registry 2 ≡ ok (assigned ∷ [])
unfolding assign_transactions_to_groups form_verifier_groups eligible_sorted_by_weight get_eligible
    sort_by form_groups fill_group largest required_stake_for_tx min_validator_stake_for_tx
    assign_all assign get node1 node2 selection_weight_ratio
assigned_test = refl

assign_transactions_to_groups_lem_example : AreCovered registry (payment ∷ []) (assigned ∷ [])
assign_transactions_to_groups_lem_example =
    assign_transactions_to_groups_lem (payment ∷ []) registry 2 (assigned ∷ []) assigned_test
