-- ===== src/Prelude/Results.antt =====
-- The pair of results of a fallible Go function, of which exactly one counts.
use mathlib.Core.Path.{◌≡◌, refl}
use mathlib.Core.Bool.{Bool, true, false}
use integration_console.Prelude.Tests.{if◌then◌else◌}
use mathlib.Core.Logic.{◌⊎◌, inl, inr}

pub data Result {ℓ κ} (Reason : Type ℓ) (Value : Type κ) : Type (ℓ ⊔ κ) where
  err : Reason → Result Reason Value
  ok : Value → Result Reason Value

-- The early return of `if err != nil`.
infixl 5 ◌>>=◌
abbrev pub ◌>>=◌ {ℓ κ μ} :
    {Reason : Type ℓ} {Value : Type κ} {Next : Type μ}
    → Result Reason Value
    → (Value → Result Reason Next)
    → Result Reason Next
err reason >>= next = err reason
ok value >>= next = next value

-- Where a chain succeeds, its first step did, and the rest did from there.
pub >>=-eq-ok {ℓ κ μ} :
    {Reason : Type ℓ} {Value : Type κ} {Next : Type μ} (first : Result Reason Value)
    (next : Value → Result Reason Next) {last : Next}
    → (first >>= next) ≡ ok last
    → (middle : Value) × (first ≡ ok middle) × (next middle ≡ ok last)
>>=-eq-ok (err reason) next done = cc
>>=-eq-ok (ok middle) next done = (middle, refl, done)

-- To split on a computed result and keep the equation.
pub Result-cases {ℓ κ} :
    {Reason : Type ℓ} {Value : Type κ} (r : Result Reason Value)
    → ((reason : Reason) × (r ≡ err reason)) ⊎ ((value : Value) × (r ≡ ok value))
Result-cases (err reason) = inl (reason, refl)
Result-cases (ok value) = inr (value, refl)

-- `if test { return err }`
abbrev pub fail_if {ℓ κ} :
    {Reason : Type ℓ} {Value : Type κ} → Bool → Reason → Value → Result Reason Value
fail_if test reason value = if test then err reason else ok value

pub fail_if-ok {ℓ κ} :
    {Reason : Type ℓ} {Value : Type κ} (test : Bool) (reason : Reason) (v w : Value)
    → fail_if test reason v ≡ ok w
    → (test ≡ false) × (v ≡ w)
fail_if-ok true reason v w h = cc
fail_if-ok false reason v w h = (refl, cc)

-- A chain that goes on past a check has passed it.
pub >>=-fail_if {ℓ κ μ} :
    {Reason : Type ℓ} {Value : Type κ} {Next : Type μ} (test : Bool) (reason : Reason) (v : Value)
    (next : Value → Result Reason Next) {w : Next}
    → (fail_if test reason v >>= next) ≡ ok w
    → (test ≡ false) × (next v ≡ ok w)
>>=-fail_if true reason v next h = cc
>>=-fail_if false reason v next h = (refl, h)
