-- ===== src/Manager/Unordered.antt =====
-- The table of connections (node/connection/src/connection_manager.rs) with the order of its
-- entries forgotten, as the `HashMap` behind it forgets it: a quotient of the valid tables.
use braidpool.Base.{◌+◌, ◌≤◌, ◌≡◌, ◌≢◌, some}
use native.Mathlib.Nat.{ℕ_set}
use native.Mathlib.Bridge.{le_prop}
use text.Mathlib.TextEquality.{IsScalar-prop}
use mathlib.Core.Quot
use mathlib.Core.Quot.{Quot, Quot-set}
use braidpool.Manager.{ConnectionManager, Answer, Call, call}
use braidpool.Manager.Table.{entries}
use braidpool.Manager.Commuting.{peer, two_entries, ask_comm}
use braidpool.Manager.Invariant.{IsValid, call-IsValid}
use braidpool.Manager.Registry.{Registry, view, ask, view-call}

module _ {Addr : Type 0} (dec : Discrete Addr) where
  abbrev pub ValidTable : Type 0
  ValidTable = (m : ConnectionManager Addr) × IsValid dec m

  abbrev SameView : ValidTable → ValidTable → Type 0
  SameView p r = view dec p.0 ≡ view dec r.0

  -- Tables, up to what can be seen of them.
  abbrev pub Unordered : Type 0
  Unordered = Quot SameView

  pub Registry-IsSet : IsSet (Registry Addr)
  Registry-IsSet = hlevel (ℕ_set)

  Answer-IsSet : IsSet Answer
  Answer-IsSet = hlevel (ℕ_set, IsScalar-prop)

  unfoldable pub look : Unordered → Registry Addr
  look = Quot.lift Registry-IsSet (λ p. view dec p.0) (λ p r h. h)

  after : ValidTable → Call Addr → ValidTable
  after (m, v) c = ((call dec m c).1, call-IsValid dec m c v)

  after-SameView :
      (p r : ValidTable) (c : Call Addr) → SameView p r → SameView (after p c) (after r c)
  unfolding after
  after-SameView (m, v) (n, w) c h = cc (view-call dec m c v, view-call dec n c w)

  answer-SameView :
      (p r : ValidTable) (c : Call Addr) → SameView p r → (call dec p.0 c).0 ≡ (call dec r.0 c).0
  answer-SameView (m, v) (n, w) c h = cc (view-call dec m c v, view-call dec n c w)

  Answer×Unordered-IsSet : IsSet (Answer × Unordered)
  Answer×Unordered-IsSet = hlevel (Answer-IsSet, Quot-set)

  -- A call on a table of which no order is known.
  pub call_unordered : Call Addr → Unordered → Answer × Unordered
  call_unordered c =
      Quot.lift Answer×Unordered-IsSet (λ p. ((call dec p.0 c).0, Quot.mk (after p c)))
        (λ p r h i. (
          answer-SameView p r c h i,
          Quot.sound {a = after p c} {b = after r c} (after-SameView p r c h) i,
        ))

  -- What can be seen of a table is all there is to it.
  pub look-inj : (u v : Unordered) → look u ≡ look v → u ≡ v
  unfolding look
  look-inj =
      Quot.ind (λ u. hlevel (Quot-set))
        (λ p. Quot.ind (λ v. hlevel (Quot-set)) (λ r h. Quot.sound {a = p} {b = r} h))

  -- A call answers, and leaves behind, what the contract says.
  pub look-call :
      (c : Call Addr) (u : Unordered)
      → let (a, u') = call_unordered c u in ask dec (look u) c ≡ (a, look u')
  unfolding look call_unordered after
  look-call c = Quot.ind (λ u. hlevel (Answer-IsSet, Registry-IsSet)) (λ p. view-call dec p.0 c p.1)

  look-entries :
      (u : Unordered) (a b : Addr)
      → a ≢ b
      → entries dec ((look u).entry a) + entries dec ((look u).entry b) ≤ (look u).size
  unfolding look
  look-entries = Quot.ind (λ u. hlevel (le_prop)) (λ p. two_entries dec p.0.shared_state)

  -- Calls about two different peers, to insert, remove or get, can be made in either order where
  -- there is room for two more connections: each has the same answer, and the same table is left,
  -- once the order of the entries is forgotten.
  pub calls_commute :
      (c d : Call Addr) (a b : Addr) (u : Unordered)
      → peer dec c ≡ some a
      → peer dec d ≡ some b
      → a ≢ b
      → (look u).size + 2 ≤ (look u).limit
      → let (x, u1) = call_unordered c u in
        let (y, u2) = call_unordered d u1 in
        let (y', v1) = call_unordered d u in
        let (x', v2) = call_unordered c v1 in (x ≡ x') × (y ≡ y') × (u2 ≡ v2)
  calls_commute c d a b u p p' ne room =
      let both = ask_comm dec (look u) c d a b p p' ne room (look-entries u a b ne) in
      let (x, u1) = call_unordered c u in
      let (y, v1) = call_unordered d u in
      let seen = rw (look-call c u, look-call d u, look-call d u1, look-call c v1) at both in
      (seen.0, seen.1, look-inj _ _ seen.2)
