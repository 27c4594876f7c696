-- ===== src/Base/Results.antt =====
-- `Result<T>` and the `?` operator.
use mathlib.Core.Path.{◌≡◌, refl}
use mathlib.Core.Logic.{◌⊎◌, inl, inr}
use native.Mathlib.Omega.{arith}
use mathlib.Core.Bool.{Bool, true, false}
use Prim.Native.Nat.{ℕ}
use Prim.Native.String.{String}

-- The errors of the core modules. The source formats each into the message of a `PlatariumError`;
-- the model keeps the values that are formatted. `panic` is no error of the program: it ends the
-- thread, with the message given.
pub data PlatariumError : Type 0 where
  insufficient_balance : ℕ → ℕ → PlatariumError
  invalid_nonce : ℕ → ℕ → PlatariumError
  insufficient_fee : ℕ → ℕ → PlatariumError
  invalid_amount : PlatariumError
  invalid_fee : ℕ → ℕ → PlatariumError
  invalid_signature : String → PlatariumError
  commit_not_allowed_in_simulation : PlatariumError
  duplicate_transaction : String → PlatariumError
  duplicate_node : String → PlatariumError
  node_not_found : String → PlatariumError
  invalid_score : ℕ → ℕ → PlatariumError
  invalid_vote_stats : ℕ → ℕ → PlatariumError
  no_votes : PlatariumError
  zero_capacity : PlatariumError
  insufficient_validators : ℕ → ℕ → PlatariumError
  missing_value : PlatariumError
  unsupported_number : PlatariumError
  fee_below_minimum : ℕ → PlatariumError
  stale_nonce : ℕ → ℕ → PlatariumError
  nonce_pending : ℕ → String → PlatariumError
  nonce_gap : ℕ → ℕ → PlatariumError
  insufficient_fee_budget : ℕ → ℕ → PlatariumError
  invalid_height : ℕ → ℕ → ℕ → PlatariumError
  unsupported_version : ℕ → PlatariumError
  other : String → PlatariumError
  panic : String → PlatariumError

pub data Result {ℓ} (T : Type ℓ) : Type ℓ where
  err : PlatariumError → Result T
  ok : T → Result T

-- `?` after an expression: an error is returned at once.
infixl 6 ◌>>=◌
abbrev pub ◌>>=◌ {κ ℓ} : {S : Type κ} {T : Type ℓ} → Result S → (S → Result T) → Result T
err problem >>= rest = err problem
ok value >>= rest = rest value

infixl 6 ◌>>◌
abbrev pub ◌>>◌ {κ ℓ} : {S : Type κ} {T : Type ℓ} → Result S → Result T → Result T
err problem >> rest = err problem
ok value >> rest = rest

-- `if cond { return Err(e) }`
abbrev pub guard : Bool → PlatariumError → Result (Unit {0})
guard true e = err e
guard false e = ok tt

abbrev pub is_ok {ℓ} : {A : Type ℓ} → Result A → Bool
is_ok (ok a) = true
is_ok (err e) = false

-- A predicate of the value, if there is one.
abbrev pub OnOk {ℓ κ} : {A : Type ℓ} → (A → Type κ) → Result A → Type κ
OnOk P (ok a) = P a
OnOk P (err e) = Unit

-- To split on a computed result and keep the equation.
pub Result-cases {ℓ} :
    {A : Type ℓ} (r : Result A) → ((a : A) × (r ≡ ok a)) ⊎ ((e : PlatariumError) × (r ≡ err e))
Result-cases (ok a) = inl (a, refl)
Result-cases (err e) = inr (e, refl)

pub ok_inj {ℓ} : {A : Type ℓ} {a b : A} → ok a ≡ ok b → a ≡ b
ok_inj h = ground (arith, h)

-- Inversion of a successful `?`, for whatever is proved of the value.
pub >>=-eq-ok {ℓ κ μ} :
    {A : Type ℓ} {B : Type κ} {P : B → Type μ} (m : Result A) (f : A → Result B)
    → ((a : A) → m ≡ ok a → (b : B) → f a ≡ ok b → P b)
    → (b : B) → (m >>= f) ≡ ok b
    → P b
>>=-eq-ok (err e) f h b p = absurd (ground (arith, p))
>>=-eq-ok (ok a) f h b p = h a refl b p

pub >>-eq-ok {ℓ κ} :
    {A : Type ℓ} {B : Type κ} (m : Result A) (rest : Result B) {b : B}
    → (m >> rest) ≡ ok b
    → rest ≡ ok b
>>-eq-ok (err e) rest p = absurd (ground (arith, p))
>>-eq-ok (ok a) rest p = p
