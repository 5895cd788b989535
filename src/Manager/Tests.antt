-- ===== src/Manager/Tests.antt =====
-- The table of connections (node/connection/src/connection_manager.rs) on small inputs.
use braidpool.Base.{ℕ, ◌≤◌, ◌≡◌, refl, List, [], ◌∷◌, ℕ_discrete}
use mathlib.Core.Quot
use mathlib.Core.Path.{subst, fun_ext}
use native.Mathlib.Omega.{arith}
use braidpool.Manager.Table.{NodupKeys}
use braidpool.Manager.{
  Metadata, ConnectionManager, Call, inserts, removes, gets, counts, num_connections, new, get, run,
}
use braidpool.Manager.Invariant.{IsValid, run-new-IsValid, new-IsValid}
use braidpool.Manager.Registry.{view, ask_all, run-refines}
use braidpool.Manager.Unordered.{Unordered, look, call_unordered, calls_commute}

abbrev at : ℕ → Metadata
at now = record { created_at = now }

-- Two peers, one of them twice, a third that meets the limit, and a removal.
abbrev calls : List (Call ℕ)
calls =
    inserts 7 (at 1)
    ∷ inserts 8 (at 2)
    ∷ inserts 9 (at 3)
    ∷ removes 7
    ∷ inserts 8 (at 4)
    ∷ gets 8
    ∷ counts
    ∷ []

abbrev two : ConnectionManager ℕ
two = record { capacity = 3; shared_state = (7, at 1) ∷ (8, at 2) ∷ [] }

abbrev swapped : ConnectionManager ℕ
swapped = record { capacity = 3; shared_state = (8, at 2) ∷ (7, at 1) ∷ [] }

two-IsValid : IsValid ℕ_discrete two
unfolding ℕ_discrete
two-IsValid = record { distinct = (refl, (refl, tt)); bounded = omega arith }

swapped-IsValid : IsValid ℕ_discrete swapped
unfolding ℕ_discrete
swapped-IsValid = record { distinct = (refl, (refl, tt)); bounded = omega arith }

seven : get ℕ_discrete two 7 ≡ get ℕ_discrete swapped 7
unfolding get ℕ_discrete
seven = refl

same_entry : (a : ℕ) → get ℕ_discrete two a ≡ get ℕ_discrete swapped a
unfolding get
same_entry a = elim (ℕ_discrete 7 a) [
  | yes e ↦ subst (λ b. get ℕ_discrete two b ≡ get ℕ_discrete swapped b) e seven
  | no n ↦ ground arith
]

same_view : view ℕ_discrete two ≡ view ℕ_discrete swapped
unfolding get
same_view = λ i. record {
  limit = 3;
  entry = fun_ext {f = λ a. get ℕ_discrete two a} {g = λ a. get ℕ_discrete swapped a} same_entry i;
  size = 2;
}

run-refines_example :
    ask_all ℕ_discrete (view ℕ_discrete (new 2)) calls
    ≡ ((run ℕ_discrete (new 2) calls).0, view ℕ_discrete (run ℕ_discrete (new 2) calls).1)
run-refines_example = run-refines ℕ_discrete (new 2) calls (new-IsValid ℕ_discrete 2)

run-new-IsValid_example :
    NodupKeys ℕ_discrete (run ℕ_discrete (new 2) calls).1.shared_state
    × (num_connections (run ℕ_discrete (new 2) calls).1 ≤ 2)
run-new-IsValid_example = run-new-IsValid ℕ_discrete 2 calls

abbrev roomy : ConnectionManager ℕ
roomy = record { capacity = 4; shared_state = (7, at 1) ∷ (8, at 2) ∷ [] }

roomy-IsValid : IsValid ℕ_discrete roomy
unfolding ℕ_discrete
roomy-IsValid = record { distinct = (refl, (refl, tt)); bounded = omega arith }

abbrev unordered : Unordered ℕ_discrete
unordered = Quot.mk (roomy, roomy-IsValid)

-- A peer leaves while another joins.
calls_commute_example :
    let (x, u1) = call_unordered ℕ_discrete (removes 7) unordered in
    let (y, u2) = call_unordered ℕ_discrete (inserts 9 (at 3)) u1 in
    let (y', v1) = call_unordered ℕ_discrete (inserts 9 (at 3)) unordered in
    let (x', v2) = call_unordered ℕ_discrete (removes 7) v1 in (x ≡ x') × (y ≡ y') × (u2 ≡ v2)
unfolding look
calls_commute_example =
    calls_commute ℕ_discrete (removes 7) (inserts 9 (at 3)) 7 9 unordered refl refl (omega arith)
      (omega arith)
