-- ===== src/Node/Duplicates.antt =====
-- Several connections to one address, as when one seed is configured twice: the table of
-- node/connection/src/connection_manager.rs has one entry for an address, and `start` of
-- node/connection/src/lib.rs does not look at the entry that it replaces.
use braidpool.Base.{
  ℕ, zero, suc, ◌<◌, ◌≡◌, ◌≢◌, refl, sym, ◌∙◌, subst, none, List, [], ◌∷◌, ◌++◌, arith, length,
  replicate, get_elem?-append_end, set-append_end, length-append,
}
use mathlib.Core.List.{append-nil, append_assoc}
use braidpool.Manager.{Metadata, num_connections, insert, get}
use braidpool.Manager.Methods.{insert_room}
use braidpool.Connection.Heartbeat.{Broadcast, Timer}
use braidpool.Node.{
  waiting, serving, Peer, Node, Event, joins, registers, after_insert, register, on_peer, step, run,
}

module _ {Bytes Addr : Type 0} (dec : Discrete Addr) (b : Broadcast Bytes) (t : Timer) where
  -- `k` connections to one address that are taken up one after the other, as peers `i` onwards.
  abbrev pub dials : Addr → ℕ → ℕ → ℕ → List (Event Addr)
  dials a now i zero = []
  dials a now i (suc k) = joins a ∷ registers i now ∷ dials a now (suc i) k

  abbrev pub served : Addr → Peer Addr
  served a = record { addr = a; phase = serving }

  dialled_once : Node Addr b t → Addr → ℕ → Node Addr b t
  dialled_once n a now = record n {
    manager = (insert dec n.manager a (record { created_at = now })).1;
    sender = b.subscribe n.sender;
    peers = n.peers ++ (served a ∷ []);
  }

  one_dial :
      (n : Node Addr b t) (a : Addr) (now : ℕ)
      → num_connections n.manager < n.manager.capacity
      → step dec b t (step dec b t n (joins a)) (registers (length n.peers) now)
        ≡ dialled_once n a now
  unfolding step register on_peer after_insert dialled_once
  one_dial n a now room =
      let y : Peer Addr = record { addr = a; phase = waiting } in
      let s : Metadata = record { created_at = now } in
      rw (
        get_elem?-append_end n.peers y,
        on_peer,
        register,
        (insert_room dec n.manager a a s room).0,
        after_insert,
        set-append_end n.peers y (served a),
      )

  -- The table after such a connection has the same room, and still lists the address.
  after_dial :
      (n : Node Addr b t) (a : Addr) (now : ℕ)
      → num_connections n.manager < n.manager.capacity
      → get dec n.manager a ≢ none
      → let m' = (dialled_once n a now).manager in
        (num_connections m' < m'.capacity)
        × (get dec m' a ≢ none)
        × (num_connections m' ≡ num_connections n.manager)
  unfolding dialled_once
  after_dial n a now room known =
      let facts = insert_room dec n.manager a a (record { created_at = now }) room in
      (ground (arith, facts), ground (arith, facts), ground (arith, facts))

  -- While the table is below its limit and lists an address, any number of further connections
  -- to that address is served, and the count of connections does not move.
  pub dials_uncounted :
      (n : Node Addr b t) (a : Addr) (now k : ℕ)
      → num_connections n.manager < n.manager.capacity
      → get dec n.manager a ≢ none
      → let n' = run dec b t n (dials a now (length n.peers) k) in
        (n'.peers ≡ n.peers ++ replicate k (served a))
        × (num_connections n'.manager ≡ num_connections n.manager)
  unfolding run dialled_once
  dials_uncounted n a now zero room known = (sym (append-nil n.peers), refl)
  dials_uncounted n a now (suc k) room known =
      let (room', known', same) = after_dial n a now room known in
      let next : length (n.peers ++ (served a ∷ [])) ≡ suc (length n.peers) =
        omega (arith, length-append n.peers (served a ∷ [])) in
      let (peers, count') =
        rw next at (dials_uncounted (dialled_once n a now) a now k room' known') in
      subst
        (λ m.
          let n' = run dec b t m (dials a now (suc (length n.peers)) k) in
          (n'.peers ≡ n.peers ++ (served a ∷ replicate k (served a)))
          × (num_connections n'.manager ≡ num_connections n.manager))
        (sym (one_dial n a now room))
        (peers ∙ append_assoc n.peers (served a ∷ []) (replicate k (served a)), count' ∙ same)
