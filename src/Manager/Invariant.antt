-- ===== src/Manager/Invariant.antt =====
-- What every table of connections satisfies, and what each method does to it
-- (node/connection/src/connection_manager.rs).
use braidpool.Base.{ℕ, ◌≤◌, ◌≡◌, refl, List, [], ◌∷◌, arith, length}
use braidpool.Manager.Table.{
  NodupKeys, insert-NodupKeys, erase-NodupKeys, length-insert, length-erase,
}
use braidpool.Manager.{
  Metadata, ConnectionManager, new, num_connections, insert, remove, Call, inserts, removes, gets,
  counts, call, run,
}

module _ {Addr : Type 0} (dec : Discrete Addr) where
  -- No address is listed twice, and the limit on the connections is kept.
  pub record IsValid (m : ConnectionManager Addr) : Type 0 where
    pub distinct : NodupKeys dec m.shared_state
    pub bounded : length m.shared_state ≤ m.capacity

  pub new-IsValid : (capacity : ℕ) → IsValid (new capacity)
  unfolding new
  new-IsValid capacity = record { distinct = tt; bounded = omega arith }

  pub insert-IsValid :
      (m : ConnectionManager Addr) (a : Addr) (s : Metadata)
      → IsValid m
      → IsValid (insert dec m a s).1
  unfolding insert
  insert-IsValid m a s v = ground (
    arith,
    insert-NodupKeys dec a s m.shared_state v.distinct,
    length-insert dec a s m.shared_state,
  )

  pub remove-IsValid :
      (m : ConnectionManager Addr) (a : Addr) → IsValid m → IsValid (remove dec m a).1
  unfolding remove
  remove-IsValid m a v = record {
    distinct = erase-NodupKeys dec a m.shared_state v.distinct;
    bounded = omega (arith, length-erase dec a m.shared_state, v.bounded);
  }

  pub call-IsValid :
      (m : ConnectionManager Addr) (c : Call Addr) → IsValid m → IsValid (call dec m c).1
  unfolding call
  call-IsValid m (inserts a s) v = insert-IsValid m a s v
  call-IsValid m (removes a) v = remove-IsValid m a v
  call-IsValid m (gets a) v = v
  call-IsValid m counts v = v

  pub run-IsValid :
      (m : ConnectionManager Addr) (cs : List (Call Addr)) → IsValid m → IsValid (run dec m cs).1
  unfolding run
  run-IsValid m [] v = v
  run-IsValid m (c ∷ cs) v = run-IsValid (call dec m c).1 cs (call-IsValid m c v)

  new-capacity : (capacity : ℕ) → (new {Addr = Addr} capacity).capacity ≡ capacity
  unfolding new
  new-capacity capacity = refl

  call-capacity :
      (m : ConnectionManager Addr) (c : Call Addr) → (call dec m c).1.capacity ≡ m.capacity
  unfolding call
  call-capacity m (inserts a s) = ground arith
  call-capacity m (removes a) = refl
  call-capacity m (gets a) = refl
  call-capacity m counts = refl

  run-capacity :
      (m : ConnectionManager Addr) (cs : List (Call Addr)) → (run dec m cs).1.capacity ≡ m.capacity
  unfolding run
  run-capacity m [] = refl
  run-capacity m (c ∷ cs) = omega (arith, run-capacity (call dec m c).1 cs, call-capacity m c)

  -- After any calls on a new table, no address is listed twice and at most `capacity` are there.
  pub run-new-IsValid :
      (capacity : ℕ) (cs : List (Call Addr))
      → NodupKeys dec (run dec (new capacity) cs).1.shared_state
        × (num_connections (run dec (new capacity) cs).1 ≤ capacity)
  unfolding num_connections
  run-new-IsValid capacity cs =
      let v = run-IsValid (new capacity) cs (new-IsValid capacity) in
      (v.distinct, omega (arith, v.bounded, run-capacity (new capacity) cs, new-capacity capacity))
