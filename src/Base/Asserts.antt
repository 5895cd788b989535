-- ===== src/Base/Asserts.antt =====
-- What the unit tests of the crates are written with: a test passes where it returns, and a failed
-- assertion or `unwrap` is a panic.
use mathlib.Core.Bool.{Bool, true, false}
use mathlib.Core.Option.{Option, none, some}
use braidpool.Base.Tests.{if◌then◌else◌}
use braidpool.Base.Results.{Outcome, ok, err, panic}

abbrev pub UnitTest : Type 0
UnitTest = Outcome ⊥ (Unit {0})

-- `assert!`
abbrev pub assert : Bool → UnitTest
assert b = if b then ok tt else panic

-- `Result::unwrap`
abbrev pub unwrap {ℓ κ} : {E : Type ℓ} {A : Type κ} → Outcome E A → Outcome ⊥ A
unwrap (ok a) = ok a
unwrap (err e) = panic
unwrap panic = panic

-- `Result::has_err`
abbrev pub has_err {ℓ κ} : {E : Type ℓ} {A : Type κ} → Outcome E A → Outcome ⊥ Bool
has_err (ok a) = ok false
has_err (err e) = ok true
has_err panic = panic

-- `Option::is_some` and `Option::is_none`
abbrev pub is_some {ℓ} : {A : Type ℓ} → Option A → Bool
is_some none = false
is_some (some a) = true

abbrev pub is_none {ℓ} : {A : Type ℓ} → Option A → Bool
is_none none = true
is_none (some a) = false
