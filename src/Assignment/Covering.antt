-- ===== src/Assignment/Covering.antt =====
-- Every assignment covers its transaction.
use mathlib.Core.Path.{subst}
use platarium_core.Base.{
  ◌<◌, ◌≤◌, max, leb, All-imp, Result-cases, ℕ, suc, ◌%◌, ◌≡◌, ◌∙◌, refl, sym, ap, Bool, true,
  false, Option, none, some, List, [], ◌∷◌, arith, if◌then◌else◌, filter, All, length, is_empty,
  Result, ok, err, ◌>>=◌, Bool-cases, Option-cases, insufficient_validators, other, inl, inr,
}
use platarium_core.Transaction.{Transaction}
use platarium_core.Node.{Node, NodeId}
use platarium_core.Node.Registry.{NodeRegistry, get}
use platarium_core.Assignment.{
  TxGroupAssignment, required_stake_for_tx, min_validator_stake_for_tx, has_stake, covers, stake_of,
  required_stake_for_amount, min_validator_stake_for_amount, filtered, fallback, group_at, assign,
  assign_all, assign_transactions_to_groups, form_verifier_groups, largest,
}

if_true {ℓ} : {A : Type ℓ} (b : Bool) (x y : A) → b ≡ true → (if b then x else y) ≡ x
if_true b x y h = rw h refl

if_false {ℓ} : {A : Type ℓ} (b : Bool) (x y : A) → b ≡ false → (if b then x else y) ≡ y
if_false b x y h = rw h refl

filter-All : (p : NodeId → Bool) (xs : List NodeId) → All (λ x. p x ≡ true) (filter p xs)
filter-All p [] = tt
filter-All p (x ∷ xs) = elim (Bool-cases (p x)) [
  | inl t ↦ rw t (t, filter-All p xs)
  | inr f ↦ rw f (filter-All p xs)
]

-- The node is registered, with the amount at stake.
abbrev pub HasAtStake : NodeRegistry → ℕ → NodeId → Type 0
HasAtStake registry amount id =
    (n : Node) × (get registry id ≡ some n) × (amount ≤ n.stake) × (0 < n.stake)

-- The verifiers each have the transaction's amount at stake, and together too.
abbrev pub IsCovered : NodeRegistry → Transaction → List NodeId → Type 0
IsCovered registry tx ids =
    (is_empty ids ≡ false)
    × (tx.amount ≤ stake_of registry ids)
    × All (HasAtStake registry tx.amount) ids

HasAtStake-has_stake :
    (registry : NodeRegistry) (tx : Transaction) (id : NodeId)
    → has_stake registry (min_validator_stake_for_tx tx) id ≡ true
    → HasAtStake registry tx.amount id
unfolding min_validator_stake_for_tx min_validator_stake_for_amount
HasAtStake-has_stake registry tx id h = elim (Option-cases (get registry id)) [
  | inl missing ↦ absurd (ground (arith, h, missing))
  | inr (n, found) ↦
      let enough : leb (max tx.amount 1) n.stake ≡ true =
        subst
          (λ (o : Option Node).
            elim o [ none ↦ false | some m ↦ leb (max tx.amount 1) m.stake ] ≡ true)
          found h in
      (n, found, ground (arith, enough), ground (arith, enough))
]

filtered-IsCovered :
    (registry : NodeRegistry) (tx : Transaction) (group : List NodeId)
    → covers registry (required_stake_for_tx tx) (filtered registry tx group) ≡ true
    → IsCovered registry tx (filtered registry tx group)
unfolding filtered required_stake_for_tx required_stake_for_amount
filtered-IsCovered registry tx group h = (
  ground (arith, h),
  ground (arith, h),
  All-imp (λ id. HasAtStake-has_stake registry tx id) (filtered registry tx group)
      (filter-All (has_stake registry (min_validator_stake_for_tx tx)) group),
)

some_pair :
    (g g' : ℕ) (x x' : List NodeId)
    → ◌≡◌ {A = Option (ℕ × List NodeId)} (some (g, x)) (some (g', x'))
    → x ≡ x'
some_pair g g' x x' h = ground (arith, h)

fallback-IsCovered :
    (registry : NodeRegistry) (tx : Transaction) (gidx : ℕ) (groups : List (List NodeId)) (g : ℕ)
    (ids : List NodeId)
    → fallback registry tx gidx groups ≡ some (g, ids)
    → IsCovered registry tx ids
unfolding fallback
fallback-IsCovered registry tx gidx [] g ids h = ground (arith, h)
fallback-IsCovered registry tx gidx (group ∷ groups) g ids h =
    elim (Bool-cases (covers registry (required_stake_for_tx tx) (filtered registry tx group))) [
      | inl enough ↦
          subst (IsCovered registry tx) (some_pair gidx g _ _ (sym (if_true _ _ _ enough) ∙ h))
            (filtered-IsCovered registry tx group enough)
      | inr short ↦
          fallback-IsCovered registry tx (suc gidx) groups g ids (sym (if_false _ _ _ short) ∙ h)
    ]

abbrev assigned : Transaction → Option (ℕ × List NodeId) → Result TxGroupAssignment
assigned tx none = err (insufficient_validators (required_stake_for_tx tx) 0)
assigned tx (some (gidx, ids)) =
    ok (record { tx_hash = tx.hash; group_index = gidx; verifier_ids = ids })

ok_ids :
    (a a' : TxGroupAssignment)
    → ok a ≡ ok a'
    → (a.tx_hash ≡ a'.tx_hash) × (a.verifier_ids ≡ a'.verifier_ids)
ok_ids a a' h = ground (arith, h)

assign-IsCovered :
    (registry : NodeRegistry) (groups : List (List NodeId)) (i : ℕ) (tx : Transaction)
    (a : TxGroupAssignment)
    → assign registry groups i tx ≡ ok a
    → (a.tx_hash ≡ tx.hash) × IsCovered registry tx a.verifier_ids
unfolding assign
assign-IsCovered registry groups i tx a h =
    let group = group_at groups (i % length groups) in
    elim (Bool-cases (covers registry (required_stake_for_tx tx) (filtered registry tx group))) [
      | inl enough ↦
          let same = ok_ids _ a (sym (if_true _ _ _ enough) ∙ h) in
          (
            sym same.0,
            subst (IsCovered registry tx) same.1 (filtered-IsCovered registry tx group enough),
          )
      | inr short ↦ elim (Option-cases (fallback registry tx 0 groups)) [
        | inl missing ↦ ground (arith, h, short, missing)
        | inr ((g, ids), found) ↦
            let same = ok_ids _ a (sym (if_false _ _ _ short ∙ ap (assigned tx) found) ∙ h) in
            (
              sym same.0,
              subst (IsCovered registry tx) same.1
                  (fallback-IsCovered registry tx 0 groups g ids found),
            )
      ]
    ]

ok_list : (l l' : List TxGroupAssignment) → ok l ≡ ok l' → l ≡ l'
ok_list l l' h = ground (arith, h)

both_ok :
    (r : Result TxGroupAssignment) (rs : Result (List TxGroupAssignment)) (a : TxGroupAssignment)
    (rest assignments : List TxGroupAssignment)
    → r ≡ ok a
    → rs ≡ ok rest
    → (r >>= λ x. rs >>= λ xs. ok (x ∷ xs)) ≡ ok assignments
    → ok (a ∷ rest) ≡ ok assignments
both_ok r rs a rest assignments one all h = ground (arith, one, all, h)

-- The assignments are the transactions', in order, and each is covered.
abbrev pub AreCovered : NodeRegistry → List Transaction → List TxGroupAssignment → Type 0
AreCovered registry [] [] = Unit
AreCovered registry [] (a ∷ rest) = true ≡ false
AreCovered registry (tx ∷ txs) [] = true ≡ false
AreCovered registry (tx ∷ txs) (a ∷ rest) =
    ((a.tx_hash ≡ tx.hash) × IsCovered registry tx a.verifier_ids) × AreCovered registry txs rest

assign_all-AreCovered :
    (registry : NodeRegistry) (groups : List (List NodeId)) (i : ℕ) (txs : List Transaction)
    (assignments : List TxGroupAssignment)
    → assign_all registry groups i txs ≡ ok assignments
    → AreCovered registry txs assignments
unfolding assign_all
assign_all-AreCovered registry groups i [] assignments h =
    subst (AreCovered registry []) (ok_list [] assignments h) tt
assign_all-AreCovered registry groups i (tx ∷ txs) assignments h =
    elim (Result-cases (assign registry groups i tx)) [
      | inl (a, one) ↦ elim (Result-cases (assign_all registry groups (suc i) txs)) [
        | inl (rest, all) ↦
            subst (AreCovered registry (tx ∷ txs))
              (ok_list (a ∷ rest) assignments (both_ok _ _ a rest assignments one all h))
              (
                assign-IsCovered registry groups i tx a one,
                assign_all-AreCovered registry groups (suc i) txs rest all,
              )
        | inr (e, failed) ↦ ground (arith, h, one, failed)
      ]
      | inr (e, failed) ↦ ground (arith, h, failed)
    ]

nonempty_ok :
    (formed : Result (List (List NodeId))) (groups : List (List NodeId))
    (rest : List (List NodeId) → Result (List TxGroupAssignment))
    (assignments : List TxGroupAssignment)
    → formed ≡ ok groups
    → (formed >>= λ gs. if is_empty gs then err (other "No verifier groups formed") else rest gs)
      ≡ ok assignments
    → rest groups ≡ ok assignments
nonempty_ok formed [] rest assignments e h = ground (arith, e, h)
nonempty_ok formed (g ∷ gs) rest assignments e h =
    subst
      (λ r.
        (r >>= λ l. if is_empty l then err (other "No verifier groups formed") else rest l)
        ≡ ok assignments)
      e h

-- Where transactions are assigned, each gets one assignment, in their order, with a verifier or more:
-- each of them is registered and has at least the amount of the transaction at stake, and more than
-- nothing. Their stakes, summed up in 128-bit arithmetic, are at least the amount too.
pub assign_transactions_to_groups_lem :
    (txs : List Transaction) (registry : NodeRegistry) (max_groups : ℕ)
    (assignments : List TxGroupAssignment)
    → assign_transactions_to_groups txs registry max_groups ≡ ok assignments
    → AreCovered registry txs assignments
unfolding assign_transactions_to_groups
assign_transactions_to_groups_lem [] registry max_groups assignments h =
    subst (AreCovered registry []) (ok_list [] assignments h) tt
assign_transactions_to_groups_lem (tx ∷ txs) registry max_groups assignments h =
    elim (Result-cases (
      form_verifier_groups registry (largest required_stake_for_tx (tx ∷ txs) 0)
        (largest min_validator_stake_for_tx (tx ∷ txs) 0) max_groups)) [
          | inl (groups, formed) ↦
              assign_all-AreCovered registry groups 0 (tx ∷ txs) assignments
                (nonempty_ok _ groups _ assignments formed h)
          | inr (e, failed) ↦ ground (arith, h, failed)
        ]
