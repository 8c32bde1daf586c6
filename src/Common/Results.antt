-- ===== src/Common/Results.antt =====
-- Go's (value, error) pairs: exactly one of the two is there.
use mathlib.Core.Path.{◌≡◌, refl}
use mathlib.Core.Bool.{Bool, true, false}
use mathlib.Core.Option.{Option, none, some}
use mathlib.Core.Logic.{◌⊎◌, inl, inr}

pub data Result {ℓ} (Err : Type 0) (Value : Type ℓ) : Type ℓ where
  err : Err → Result Err Value
  ok : Value → Result Err Value

-- `if !test { return failure }`.
abbrev pub guard : {Err : Type 0} → Bool → Err → Result Err (Unit {0})
guard false failure = err failure
guard true failure = ok tt

infixl 5 ◌>>=◌
abbrev pub ◌>>=◌ {ℓ κ} :
    {Err : Type 0} {Value : Type ℓ} {Next : Type κ}
    → Result Err Value
    → (Value → Result Err Next)
    → Result Err Next
err failure >>= behind = err failure
ok value >>= behind = behind value

-- A call whose only result is an error, and the statements behind it.
infixl 5 ◌>>◌
abbrev pub ◌>>◌ {ℓ} :
    {Err : Type 0} {Value : Type ℓ} → Result Err (Unit {0}) → Result Err Value → Result Err Value
first >> behind = first >>= (λ done. behind)

-- The error that a guard or a call leaves, as Go's `error` value.
abbrev pub error_of {ℓ} : {Err : Type 0} {Value : Type ℓ} → Result Err Value → Option Err
error_of (err failure) = some failure
error_of (ok value) = none

pub Result-cases {ℓ} :
    {Err : Type 0} {Value : Type ℓ} (r : Result Err Value)
    → ((value : Value) × (r ≡ ok value)) ⊎ ((failure : Err) × (r ≡ err failure))
Result-cases (err failure) = inr (failure, refl)
Result-cases (ok value) = inl (value, refl)

pub ok-injective {ℓ} :
    {Err : Type 0} {Value : Type ℓ} {v w : Value} → ◌≡◌ {A = Result Err Value} (ok v) (ok w) → v ≡ w
ok-injective same = cc

-- A chain succeeds only if its first call and its rest do.
pub >>=-eq-ok {ℓ κ} :
    {Err : Type 0} {Value : Type ℓ} {Next : Type κ} (first : Result Err Value)
    (behind : Value → Result Err Next) {result : Next}
    → (first >>= behind) ≡ ok result
    → (value : Value) × (first ≡ ok value) × (behind value ≡ ok result)
>>=-eq-ok (err failure) behind same = cc
>>=-eq-ok (ok value) behind same = (value, refl, same)

pub guard-eq-ok :
    {Err : Type 0} (test : Bool) (failure : Err) {u : Unit {0}}
    → guard test failure ≡ ok u
    → test ≡ true
guard-eq-ok false failure same = cc
guard-eq-ok true failure same = refl

pub guard->>-eq-ok {ℓ} :
    {Err : Type 0} {Value : Type ℓ} (test : Bool) (failure : Err) (behind : Result Err Value)
    {result : Value}
    → (guard test failure >> behind) ≡ ok result
    → (test ≡ true) × (behind ≡ ok result)
guard->>-eq-ok false failure behind same = cc
guard->>-eq-ok true failure behind same = (refl, same)
