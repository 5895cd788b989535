-- ===== src/Manager/Registry.antt =====
-- The contract of node/connection/src/connection_manager.rs: a partial map from addresses to
-- metadata, with a limit and a count, and no order of entries.
use braidpool.Base.{
  ℕ, ◌+◌, ◌-◌, ◌≡◌, refl, String, Option, none, some, List, [], ◌∷◌, Outcome, ok, err, sym, arith,
  length, leb, if◌then◌else◌, ap, Bool-cases, inl, inr,
}
use mathlib.Core.Path.{fun_ext}
use mathlib.Core.Logic.{ite}
use braidpool.Manager.Table.{
  Table, lookup, insert as put, erase, entries, NodupKeys, lookup-insert, lookup-erase_ne,
  lookup-erase_self, length-insert, length-erase,
}
use braidpool.Manager.{
  Metadata, ConnectionManager, Answer, inserted, found, counted, num_connections, insert, remove,
  get, Call, inserts, removes, gets, counts, call, run,
}
use braidpool.Manager.Invariant.{IsValid, call-IsValid}

pub record Registry (Addr : Type 0) : Type 0 where
  pub limit : ℕ
  pub entry : Addr → Option Metadata
  pub size : ℕ

module _ {Addr : Type 0} (dec : Discrete Addr) where
  -- A change of one address of the map.
  abbrev pub update : (Addr → Option Metadata) → Addr → Option Metadata → Addr → Option Metadata
  update f a o b = ite (dec a b) o (f b)

  unfoldable pub register :
      Registry Addr → Addr → Metadata → Outcome String (Option Metadata) × Registry Addr
  register r a s = if leb r.limit r.size then (err "Connection limit reached", r) else (
    ok (r.entry a),
    record r { entry = update r.entry a (some s); size = r.size + 1 - entries dec (r.entry a) },
  )

  unfoldable pub deregister : Registry Addr → Addr → Option Metadata × Registry Addr
  deregister r a = (
    r.entry a,
    record r { entry = update r.entry a none; size = r.size - entries dec (r.entry a) },
  )

  unfoldable pub ask : Registry Addr → Call Addr → Answer × Registry Addr
  unfolding register deregister
  ask r (inserts a s) = let (o, r') = register r a s in (inserted o, r')
  ask r (removes a) = let (o, r') = deregister r a in (found o, r')
  ask r (gets a) = (found (r.entry a), r)
  ask r counts = (counted r.size, r)

  pub ask_all : Registry Addr → List (Call Addr) → List Answer × Registry Addr
  ask_all r [] = ([], r)
  ask_all r (c ∷ cs) = let (a, r') = ask r c in let (as', r'') = ask_all r' cs in (a ∷ as', r'')

  -- What the contract sees of a table of connections.
  abbrev pub view : ConnectionManager Addr → Registry Addr
  view m = record {
    limit = m.capacity;
    entry = λ a. lookup dec a m.shared_state;
    size = length m.shared_state;
  }

  lookup-insert_update :
      (a : Addr) (s : Metadata) (t : Table Addr Metadata)
      → ◌≡◌ {A = Addr → Option Metadata}
          (λ b. lookup dec b (put dec a s t))
          (update (λ b. lookup dec b t) a (some s))
  lookup-insert_update a s t = fun_ext λ b. lookup-insert dec a b s t

  lookup-erase_update :
      (a : Addr) (t : Table Addr Metadata)
      → NodupKeys dec t
      → ◌≡◌ {A = Addr → Option Metadata}
          (λ b. lookup dec b (erase dec a t))
          (update (λ b. lookup dec b t) a none)
  lookup-erase_update a t u =
      fun_ext λ b. ground (arith, lookup-erase_ne dec a b t, lookup-erase_self dec a t u)

  view-insert :
      (m : ConnectionManager Addr) (a : Addr) (s : Metadata)
      → let (o, m') = insert dec m a s in register (view m) a s ≡ (o, view m')
  unfolding register insert
  view-insert m a s = elim (Bool-cases (leb m.capacity (length m.shared_state))) [
    | inl full ↦ rw full
    | inr room ↦ rw room (λ i. (
      ok (lookup dec a m.shared_state),
      record {
        limit = m.capacity;
        entry = sym (lookup-insert_update a s m.shared_state) i;
        size = size_eq i;
      },
    ))
  ]
    where
      size_eq :
          length m.shared_state + 1 - entries dec (lookup dec a m.shared_state)
          ≡ length (put dec a s m.shared_state)
      size_eq = omega (arith, length-insert dec a s m.shared_state)

  view-remove :
      (m : ConnectionManager Addr) (a : Addr)
      → NodupKeys dec m.shared_state
      → let (o, m') = remove dec m a in deregister (view m) a ≡ (o, view m')
  unfolding deregister remove
  view-remove m a u = λ i. (
    lookup dec a m.shared_state,
    record {
      limit = m.capacity;
      entry = sym (lookup-erase_update a m.shared_state u) i;
      size = size_eq i;
    },
  )
    where
      size_eq :
          length m.shared_state - entries dec (lookup dec a m.shared_state)
          ≡ length (erase dec a m.shared_state)
      size_eq = omega (arith, length-erase dec a m.shared_state)

  pub view-call :
      (m : ConnectionManager Addr) (c : Call Addr)
      → IsValid dec m
      → let (a, m') = call dec m c in ask (view m) c ≡ (a, view m')
  unfolding call ask get num_connections
  view-call m (inserts a s) v = rw (view-insert m a s)
  view-call m (removes a) v =
      ap {A = Option Metadata × Registry Addr} (λ p. (found p.0, p.1)) (view-remove m a v.distinct)
  view-call m (gets a) v = refl
  view-call m counts v = refl

  -- Whatever is asked of a valid table, in any order, the answers and the map, limit and count
  -- left behind are those of the contract.
  pub run-refines :
      (m : ConnectionManager Addr) (cs : List (Call Addr))
      → IsValid dec m
      → let (as', m') = run dec m cs in ask_all (view m) cs ≡ (as', view m')
  unfolding run ask_all
  run-refines m [] v = refl
  run-refines m (c ∷ cs) v =
      rw (view-call m c v, run-refines (call dec m c).1 cs (call-IsValid dec m c v))

  -- The order in which a table holds its entries is never seen: two valid tables with one limit,
  -- one count and one map answer every sequence of calls alike.
  pub run-answers :
      (m n : ConnectionManager Addr) (cs : List (Call Addr))
      → IsValid dec m
      → IsValid dec n
      → view m ≡ view n
      → (run dec m cs).0 ≡ (run dec n cs).0
  run-answers m n cs v w e = cc (run-refines m cs v, run-refines n cs w)
