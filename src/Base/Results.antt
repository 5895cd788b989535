-- ===== src/Base/Results.antt =====
-- What a Rust call that can fail or panic comes to: a value (`Ok`), an error (`Err`), or a panic,
-- which unwinds the task and is not caught by the code modelled here.
use mathlib.Core.Path.{◌≡◌, refl}
use mathlib.Core.Option.{Option, none, some}

pub data Outcome {ℓ κ} (E : Type ℓ) (A : Type κ) : Type (ℓ ⊔ κ) where
  ok : A → Outcome E A
  err : E → Outcome E A
  panic : Outcome E A

infixl 5 ◌>>=◌ ◌>>◌
abbrev pub ◌>>=◌ {ℓ κ μ} :
    {E : Type ℓ} {A : Type κ} {B : Type μ} → Outcome E A → (A → Outcome E B) → Outcome E B
ok a >>= f = f a
err e >>= f = err e
panic >>= f = panic

abbrev pub ◌>>◌ {ℓ κ μ} :
    {E : Type ℓ} {A : Type κ} {B : Type μ} → Outcome E A → Outcome E B → Outcome E B
m >> k = m >>= λ _. k

-- `map_err`.
abbrev pub map_err {ℓ κ μ} :
    {E : Type ℓ} {F : Type κ} {A : Type μ} → (E → F) → Outcome E A → Outcome F A
map_err f (ok a) = ok a
map_err f (err e) = err (f e)
map_err f panic = panic

-- `unwrap`, `expect`, or an index: a panic where there is no value.
abbrev pub or_panic {ℓ κ} : {E : Type ℓ} {A : Type κ} → Option A → Outcome E A
or_panic none = panic
or_panic (some a) = ok a

-- `ok_or`.
abbrev pub ok_or {ℓ κ} : {E : Type ℓ} {A : Type κ} → Option A → E → Outcome E A
ok_or none e = err e
ok_or (some a) e = ok a

-- A split on an outcome that keeps the equation.
pub data IsOutcome {ℓ κ} {E : Type ℓ} {A : Type κ} (o : Outcome E A) : Type (ℓ ⊔ κ) where
  is_ok : (a : A) → o ≡ ok a → IsOutcome o
  is_err : (e : E) → o ≡ err e → IsOutcome o
  is_panic : o ≡ panic → IsOutcome o

pub Outcome-cases {ℓ κ} : {E : Type ℓ} {A : Type κ} (o : Outcome E A) → IsOutcome o
Outcome-cases (ok a) = is_ok a refl
Outcome-cases (err e) = is_err e refl
Outcome-cases panic = is_panic refl
