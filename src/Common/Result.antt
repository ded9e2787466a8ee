-- ===== src/Common/Result.antt =====
-- Results with an error value, for the source's `Result` and its `?` operator.
use mathlib.Core.Path.{◌≡◌, refl}
use mathlib.Core.Logic.{◌⊎◌, inl, inr}
use mathlib.Core.Bool.{Bool, true, false}
use mathlib.Core.Option.{Option, none, some}

pub data Result {ℓ κ} (Failure : Type κ) (Value : Type ℓ) : Type (ℓ ⊔ κ) where
  err : Failure → Result Failure Value
  ok : Value → Result Failure Value

-- The `?` operator: what follows runs on the value, and an error is returned at once.
infixl 5 ◌>>=◌ ◌>>◌
abbrev pub ◌>>=◌ {ℓ κ μ} :
    {Failure : Type κ} {V : Type ℓ} {W : Type μ}
    → Result Failure V
    → (V → Result Failure W)
    → Result Failure W
err failure >>= next = err failure
ok value >>= next = next value

abbrev pub ◌>>◌ {ℓ κ} :
    {Failure : Type κ} {W : Type ℓ}
    → Result Failure (Unit {0})
    → Result Failure W
    → Result Failure W
checked >> next = checked >>= λ done. next

-- `if test { return Err(e); }`
abbrev pub reject_if {κ} : {E : Type κ} → Bool → E → Result E (Unit {0})
reject_if true e = err e
reject_if false e = ok tt

-- `ok_or`
abbrev pub ok_or {ℓ κ} : {E : Type κ} {A : Type ℓ} → Option A → E → Result E A
ok_or none e = err e
ok_or (some a) e = ok a

-- A chain that succeeds has succeeded up to its last part.
pub >>=-eq-ok {ℓ κ μ} :
    {Failure : Type κ} {V : Type ℓ} {W : Type μ} (first : Result Failure V)
    (next : V → Result Failure W) {result : W}
    → (first >>= next) ≡ ok result
    → (value : V) × (first ≡ ok value) × (next value ≡ ok result)
>>=-eq-ok (err failure) next succeeds = cc
>>=-eq-ok (ok value) next succeeds = (value, refl, succeeds)

-- A chain that fails has failed in its first part or after it.
pub >>=-eq-err {ℓ κ μ} :
    {Failure : Type κ} {V : Type ℓ} {W : Type μ} (first : Result Failure V)
    (next : V → Result Failure W) {failure : Failure}
    → (first >>= next) ≡ err failure
    → (first ≡ err failure) ⊎ ((value : V) × (first ≡ ok value) × (next value ≡ err failure))
>>=-eq-err (err failure) next fails = inl (cc)
>>=-eq-err (ok value) next fails = inr (value, refl, fails)
