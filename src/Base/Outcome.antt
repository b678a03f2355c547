-- ===== src/Base/Outcome.antt =====
-- The error kinds of internal/application/service.go, and results that carry one. A reason text
-- (`ReasonError.Reason`) is for the reader of the answer only and is left out.
use mathlib.Core.Path.{◌≡◌, refl, subst}
use mathlib.Core.Bool.{Bool, true, false}
use mathlib.Core.Logic.{◌⊎◌, inl, inr}

pub data AppError : Type 0 where
  not_found validation conflict already_applied forbidden precondition resource_conflict : AppError
  -- an error of the database that no layer translates
  storage : AppError
  -- `ErrImportConflict` of contract_import.go
  import_conflict : AppError

pub data Result {ℓ} (A : Type ℓ) : Type ℓ where
  ok : A → Result A
  err : AppError → Result A

-- A check that returns nothing but its error.
abbrev pub Check : Type 0
Check = Result (Unit {0})

-- `if bad { return reason }`
abbrev pub refuse_if : Bool → AppError → Check
refuse_if false reason = ok tt
refuse_if true reason = err reason

-- `x, err := first; if err != nil { return err }`
infixr 5 ◌>>=◌
abbrev pub ◌>>=◌ {ℓ κ} : {X : Type ℓ} {Y : Type κ} → Result X → (X → Result Y) → Result Y
err reason >>= continue = err reason
ok x >>= continue = continue x

infixr 5 ◌>>◌
abbrev pub ◌>>◌ {ℓ} : {Y : Type ℓ} → Check → Result Y → Result Y
check >> continue = check >>= λ _. continue

-- An accepted answer of a chain comes from an accepted answer of its first part.
pub >>=-eq-ok {ℓ κ} :
    {X : Type ℓ} {Y : Type κ} (first : Result X) (continue : X → Result Y) {y : Y}
    → (first >>= continue) ≡ ok y
    → (x : X) × (first ≡ ok x) × (continue x ≡ ok y)
>>=-eq-ok (err reason) continue accepted = cc
>>=-eq-ok (ok x) continue accepted = (x, refl, accepted)

pub ok_injective {ℓ} : {A : Type ℓ} {a b : A} → ok a ≡ ok b → a ≡ b
ok_injective h = cc

pub refused {ℓ κ} : {A : Type ℓ} {X : Type κ} {e : AppError} {a : A} → err e ≡ ok a → X
refused h = cc

-- What an accepted answer says of a guard in front of it.
pub guarded {ℓ} :
    {A : Type ℓ} {b : Bool} (e : AppError) {m : Result A} {a : A}
    → (refuse_if b e >> m) ≡ ok a
    → (b ≡ false) × (m ≡ ok a)
guarded {b = true} e h = cc
guarded {b = false} e h = (refl, h)

-- `P` holds of the answer, if there is one.
abbrev pub Answers {ℓ κ} : {A : Type ℓ} → (A → Type κ) → Result A → Type κ
Answers P (ok a) = P a
Answers P (err e) = Unit

pub guard {ℓ κ} :
    {A : Type ℓ} (P : A → Type κ) (b : Bool) (e : AppError) (m : Result A)
    → (b ≡ false → Answers P m)
    → Answers P (refuse_if b e >> m)
guard P true e m k = tt
guard P false e m k = k refl

pub after {ℓ κ μ} :
    {A : Type ℓ} {B : Type κ} (P : B → Type μ) (m : Result A) (f : A → Result B)
    → ((a : A) → m ≡ ok a → Answers P (f a))
    → Answers P (m >>= f)
after P (ok a) f k = k a refl
after P (err e) f k = tt

pub Answers-ok {ℓ κ} :
    {A : Type ℓ} (P : A → Type κ) (m : Result A) {a : A} → m ≡ ok a → Answers P m → P a
Answers-ok P (ok b) e p = subst P (ok_injective e) p
Answers-ok P (err _) e p = refused e

pub Result-cases {ℓ} :
    {A : Type ℓ} (m : Result A) → ((a : A) × (m ≡ ok a)) ⊎ ((e : AppError) × (m ≡ err e))
Result-cases (ok a) = inl (a, refl)
Result-cases (err e) = inr (e, refl)
