-- ===== src/Prelude/Results.antt =====
-- Go's (value, error) pairs. Each constructor of `Error` stands for the messages of one shape.
use Prim.Native.Nat.{ℕ}
use Prim.Native.String.{String}
use mathlib.Core.Path.{◌≡◌, refl, ap}
use mathlib.Core.Logic.{◌⊎◌, inl, inr}
use mathlib.Core.Option.{Option, none, some}
use mathlib.Core.Bool.{Bool, true, false}

pub data Error : Type 0 where
  -- "lorawan: %d bytes of data are expected"
  bytes_expected : ℕ → Error
  -- "lorawan: at least %d bytes ..."
  bytes_at_least : ℕ → Error
  -- "lorawan: max length is %d bytes"
  bytes_at_most : ℕ → Error
  -- "lorawan: max value of FIELD is %d"
  max_value : String → ℕ → Error
  -- "lorawan: min value of FIELD is ..."
  min_value : String → Error
  -- "lorawan: FIELD must be a multiple of %d"
  multiple_of : String → ℕ → Error
  -- any other message, by its text
  message : String → Error

pub data Result {ℓ} (A : Type ℓ) : Type ℓ where
  err : Error → Result A
  ok : A → Result A

infixl 5 ◌>>=◌
abbrev pub ◌>>=◌ {ℓ₁ ℓ₂} :
    {From : Type ℓ₁} {To : Type ℓ₂} → Result From → (From → Result To) → Result To
err e >>= next = err e
ok value >>= next = next value

infixl 5 ◌>>◌
abbrev pub ◌>>◌ {ℓ₂} : {To : Type ℓ₂} → Result (Unit {0}) → Result To → Result To
checked >> next = checked >>= λ done. next

-- `if bad { return err }`
abbrev pub fail_if : Bool → Error → Result (Unit {0})
fail_if false e = ok tt
fail_if true e = err e

-- A chain that succeeds has succeeded at both steps.
pub >>=-eq-ok {ℓ₁ ℓ₂} :
    {From : Type ℓ₁} {To : Type ℓ₂} (first : Result From) (next : From → Result To) {value : To}
    → (first >>= next) ≡ ok value
    → (between : From) × (first ≡ ok between) × (next between ≡ ok value)
>>=-eq-ok (err e) next whole = cc
>>=-eq-ok (ok between) next whole = (between, refl, whole)

pub Result-cases {ℓ} :
    {A : Type ℓ} (r : Result A) → ((a : A) × (r ≡ ok a)) ⊎ ((e : Error) × (r ≡ err e))
Result-cases (ok a) = inl (a, refl)
Result-cases (err e) = inr (e, refl)

pub ok_injective {ℓ} : {A : Type ℓ} {a b : A} → ok a ≡ ok b → a ≡ b
ok_injective {A} {a} {b} h = ap (value a) h
  where
    value : A → Result A → A
    value d (ok x) = x
    value d (err e) = d

pub fail_if-eq-ok : (b : Bool) (e : Error) {u : Unit {0}} → fail_if b e ≡ ok u → b ≡ false
fail_if-eq-ok true e h = cc
fail_if-eq-ok false e h = refl

-- `if !ok { return err }`
abbrev pub found {ℓ} : {A : Type ℓ} → Error → Option A → Result A
found e none = err e
found e (some a) = ok a

pub found-eq-ok {ℓ} :
    {A : Type ℓ} (e : Error) (o : Option A) {a : A} → found e o ≡ ok a → o ≡ some a
found-eq-ok e none h = cc
found-eq-ok e (some a) h = ap some (ok_injective h)
