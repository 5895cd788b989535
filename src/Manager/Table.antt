-- ===== src/Manager/Table.antt =====
-- The operations of `std::collections::HashMap` that node/connection/src/connection_manager.rs
-- calls: an association list in which no key is listed twice. The order of its entries is never
-- observed.
use braidpool.Base.{ℕ, ◌+◌, ◌≡◌, refl, ◌≢◌, Option, none, some, List, [], ◌∷◌, arith, length}
use mathlib.Core.Logic.{ite}

abbrev pub Table : Type 0 → Type 0 → Type 0
Table K V = List (K × V)

module _ {K V : Type 0} (dec : Discrete K) where
  -- `get`
  abbrev pub lookup : K → Table K V → Option V
  lookup k [] = none
  lookup k ((j, v) ∷ t) = ite (dec j k) (some v) (lookup k t)

  -- `insert`: the value of a key that is there is replaced.
  abbrev pub insert : K → V → Table K V → Table K V
  insert k v [] = (k, v) ∷ []
  insert k v ((j, w) ∷ t) = ite (dec j k) ((j, v) ∷ t) ((j, w) ∷ insert k v t)

  -- `remove`
  abbrev pub erase : K → Table K V → Table K V
  erase k [] = []
  erase k ((j, w) ∷ t) = ite (dec j k) t ((j, w) ∷ erase k t)

  abbrev pub NodupKeys : Table K V → Type 0
  NodupKeys [] = Unit
  NodupKeys ((k, _) ∷ t) = (lookup k t ≡ none) × NodupKeys t

  -- How many entries a key has.
  abbrev pub entries : Option V → ℕ
  entries none = 0
  entries (some _) = 1

  pub lookup-insert :
      (k j : K) (v : V) (t : Table K V)
      → lookup j (insert k v t) ≡ ite (dec k j) (some v) (lookup j t)
  lookup-insert k j v [] = refl
  lookup-insert k j v ((i, w) ∷ t) = ground (arith, lookup-insert k j v t)

  pub lookup-erase_ne : (k j : K) (t : Table K V) → k ≢ j → lookup j (erase k t) ≡ lookup j t
  lookup-erase_ne k j [] h = refl
  lookup-erase_ne k j ((i, w) ∷ t) h = ground (arith, lookup-erase_ne k j t h)

  pub lookup-erase_self : (k : K) (t : Table K V) → NodupKeys t → lookup k (erase k t) ≡ none
  lookup-erase_self k [] u = refl
  lookup-erase_self k ((i, w) ∷ t) u = ground (arith, lookup-erase_self k t u.1)

  pub insert-NodupKeys : (k : K) (v : V) (t : Table K V) → NodupKeys t → NodupKeys (insert k v t)
  insert-NodupKeys k v [] u = (refl, tt)
  insert-NodupKeys k v ((i, w) ∷ t) u =
      ground (arith, insert-NodupKeys k v t u.1, lookup-insert k i v t)

  pub erase-NodupKeys : (k : K) (t : Table K V) → NodupKeys t → NodupKeys (erase k t)
  erase-NodupKeys k [] u = tt
  erase-NodupKeys k ((i, w) ∷ t) u = ground (arith, erase-NodupKeys k t u.1, lookup-erase_ne k i t)

  pub length-insert :
      (k : K) (v : V) (t : Table K V) → length (insert k v t) + entries (lookup k t) ≡ length t + 1
  length-insert k v [] = omega arith
  length-insert k v ((i, w) ∷ t) = ground (arith, length-insert k v t)

  pub length-erase : (k : K) (t : Table K V) → length (erase k t) + entries (lookup k t) ≡ length t
  length-erase k [] = omega arith
  length-erase k ((i, w) ∷ t) = ground (arith, length-erase k t)

  -- A fresh entry goes to the end, and taking it out again leaves the table as it was.
  pub erase-insert :
      (k : K) (v : V) (t : Table K V) → lookup k t ≡ none → erase k (insert k v t) ≡ t
  erase-insert k v [] h = ground arith
  erase-insert k v ((i, w) ∷ t) h = ground (arith, erase-insert k v t)
