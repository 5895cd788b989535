-- ===== src/Base/Items.antt =====
-- A property of all elements, and a map over them, under a change at one place.
use Prim.Native.Nat.{ℕ, zero, suc}
use mathlib.Core.Path.{◌≡◌, refl, ap, sym, subst}
use mathlib.Core.List.{List, [], ◌∷◌, ◌++◌, map}
use mathlib.Core.Option.{none, some, some-injective}
use braidpool.Base.Lists.{All, get_elem?, set, remove_at}

module _ {ℓ κ} {A : Type ℓ} (P : A → Type κ) where
  pub All-get : (xs : List A) (i : ℕ) {x : A} → All P xs → get_elem? xs i ≡ some x → P x
  All-get [] i a h = absurd (cc)
  All-get (y ∷ xs) zero {x} a h = subst P (some-injective y x h) a.0
  All-get (y ∷ xs) (suc i) a h = All-get xs i a.1 h

  pub All-set : (xs : List A) (i : ℕ) (y : A) → All P xs → P y → All P (set xs i y)
  All-set [] i y a k = tt
  All-set (x ∷ xs) zero y a k = (k, a.1)
  All-set (x ∷ xs) (suc i) y a k = (a.0, All-set xs i y a.1 k)

  pub All-remove_at : (xs : List A) (i : ℕ) → All P xs → All P (remove_at xs i)
  All-remove_at [] i a = tt
  All-remove_at (x ∷ xs) zero a = a.1
  All-remove_at (x ∷ xs) (suc i) a = (a.0, All-remove_at xs i a.1)

  pub All-append : (xs : List A) (y : A) → All P xs → P y → All P (xs ++ (y ∷ []))
  All-append [] y a k = (k, tt)
  All-append (x ∷ xs) y a k = (a.0, All-append xs y a.1 k)

  pub All-map : (f : A → A) (xs : List A) → ((x : A) → P x → P (f x)) → All P xs → All P (map f xs)
  All-map f [] k a = tt
  All-map f (x ∷ xs) k a = (k x a.0, All-map f xs k a.1)

module _ {ℓ κ} {A : Type ℓ} {B : Type κ} (f : A → B) where
  pub get_elem?-map :
      (xs : List A) (i : ℕ) {x : A} → get_elem? xs i ≡ some x → get_elem? (map f xs) i ≡ some (f x)
  get_elem?-map [] i h = absurd (cc)
  get_elem?-map (y ∷ xs) zero {x} h = ap (λ z. some (f z)) (some-injective y x h)
  get_elem?-map (y ∷ xs) (suc i) h = get_elem?-map xs i h

  pub get_elem?-map-none :
      (xs : List A) (i : ℕ) → get_elem? xs i ≡ none → get_elem? (map f xs) i ≡ none
  get_elem?-map-none [] i h = refl
  get_elem?-map-none (y ∷ xs) zero h = absurd (cc)
  get_elem?-map-none (y ∷ xs) (suc i) h = get_elem?-map-none xs i h

  pub map-set : (xs : List A) (i : ℕ) (v : A) → map f (set xs i v) ≡ set (map f xs) i (f v)
  map-set [] i v = refl
  map-set (x ∷ xs) zero v = refl
  map-set (x ∷ xs) (suc i) v = ap (λ l. f x ∷ l) (map-set xs i v)

  pub map-remove_at : (xs : List A) (i : ℕ) → map f (remove_at xs i) ≡ remove_at (map f xs) i
  map-remove_at [] i = refl
  map-remove_at (x ∷ xs) zero = refl
  map-remove_at (x ∷ xs) (suc i) = ap (λ l. f x ∷ l) (map-remove_at xs i)

module _ {ℓ} {A : Type ℓ} where
  -- A write of what is there already.
  pub set-same : (xs : List A) (i : ℕ) {x : A} → get_elem? xs i ≡ some x → set xs i x ≡ xs
  set-same [] i h = refl
  set-same (y ∷ xs) zero {x} h = ap (λ z. z ∷ xs) (sym (some-injective y x h))
  set-same (y ∷ xs) (suc i) h = ap (λ l. y ∷ l) (set-same xs i h)
