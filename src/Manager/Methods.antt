-- ===== src/Manager/Methods.antt =====
-- Each method of node/connection/src/connection_manager.rs, on all its branches.
use braidpool.Base.{ℕ, [], ◌∷◌, ◌+◌, ◌≤◌, ◌<◌, ◌≡◌, none, some, ok, err, arith}
use mathlib.Core.Logic.{ite}
use braidpool.Manager.Table.{
  entries, lookup-insert, lookup-erase_ne, lookup-erase_self, length-insert, length-erase,
  erase-insert,
}
use braidpool.Manager.{Metadata, ConnectionManager, new, num_connections, insert, remove, get}
use braidpool.Manager.Invariant.{IsValid}

module _ {Addr : Type 0} (dec : Discrete Addr) where
  -- At the limit an insertion is refused and changes nothing, also where the address is already
  -- listed and the table would not grow.
  pub insert_full :
      (m : ConnectionManager Addr) (a : Addr) (s : Metadata)
      → m.capacity ≤ num_connections m
      → insert dec m a s ≡ (err "Connection limit reached", m)
  unfolding insert num_connections
  insert_full m a s h = ground arith

  -- Below the limit an insertion returns what the address had, gives the address the new
  -- metadata, leaves every other address and the limit alone, and raises the count by one just
  -- if the address is new.
  pub insert_room :
      (m : ConnectionManager Addr) (a b : Addr) (s : Metadata)
      → num_connections m < m.capacity
      → let (r, m') = insert dec m a s in
        (r ≡ ok (get dec m a))
        × (get dec m' b ≡ ite (dec a b) (some s) (get dec m b))
        × (num_connections m' + entries dec (get dec m a) ≡ num_connections m + 1)
        × (m'.capacity ≡ m.capacity)
  unfolding insert num_connections get
  insert_room m a b s h =
      ground (arith, lookup-insert dec a b s m.shared_state, length-insert dec a s m.shared_state)

  -- On a valid table a removal returns what the address had; the address is gone, every other
  -- one and the limit are left alone, and the count falls by one just if the address was listed.
  pub remove_lem :
      (m : ConnectionManager Addr) (a b : Addr)
      → IsValid dec m
      → let (r, m') = remove dec m a in
        (r ≡ get dec m a)
        × (get dec m' b ≡ ite (dec a b) none (get dec m b))
        × (num_connections m' + entries dec (get dec m a) ≡ num_connections m)
        × (m'.capacity ≡ m.capacity)
  unfolding remove num_connections get
  remove_lem m a b v = ground (
    arith,
    lookup-erase_ne dec a b m.shared_state,
    lookup-erase_self dec a m.shared_state v.distinct,
    length-erase dec a m.shared_state,
  )

  -- Registering a new address below the limit and removing it again gives back the same table.
  pub remove-insert :
      (m : ConnectionManager Addr) (a : Addr) (s : Metadata)
      → num_connections m < m.capacity
      → get dec m a ≡ none
      → remove dec (insert dec m a s).1 a ≡ (some s, m)
  unfolding remove insert num_connections get
  remove-insert m a s h e =
      ground (arith, lookup-insert dec a a s m.shared_state, erase-insert dec a s m.shared_state)

  -- The first insertion into a new table.
  pub insert-new :
      (capacity : ℕ) (a : Addr) (s : Metadata)
      → 0 < capacity
      → insert dec (new capacity) a s
        ≡ (ok none, record { capacity = capacity; shared_state = (a, s) ∷ [] })
  unfolding insert new
  insert-new capacity a s h = ground arith
