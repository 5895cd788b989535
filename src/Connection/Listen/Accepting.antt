-- ===== src/Connection/Listen/Accepting.antt =====
-- What the accept loop of node/connection/src/lib.rs starts.
use braidpool.Base.{
  All-append, ℕ, suc, ◌≡◌, refl, sym, ◌∙◌, true, false, Option, none, some, List, [], ◌∷◌, ◌++◌,
  map, All,
}
use mathlib.Core.List.{append-nil, append_assoc, map-append}
use braidpool.Connection.Io.{Mpsc, IsMpsc, going, crashed}
use braidpool.Connection.Listen.{Spawned, Listener, accept_round, accept_loop, start_listen}

module _ {Bytes Addr Stream : Type 0} {q : Mpsc Bytes} (L : IsMpsc q) where
  -- The connections that `accept` gave, without its errors.
  abbrev pub arrivals : List (Option (Stream × Addr)) → List (Stream × Addr)
  arrivals [] = []
  arrivals (some a ∷ rest) = a ∷ arrivals rest
  arrivals (none ∷ rest) = arrivals rest

  abbrev pub peer_of : Spawned Bytes q Addr Stream → Stream × Addr
  peer_of s = (s.stream, s.addr)

  -- A fresh channel of the given capacity.
  abbrev pub IsFresh : ℕ → Spawned Bytes q Addr Stream → Type 0
  IsFresh n s = L.look s.chan ≡ record { queue = []; limit = n; shut = false }

  accept_loop-spawns :
      (n : ℕ) (l : Listener Bytes q Addr Stream) (accepts : List (Option (Stream × Addr)))
      → All (IsFresh (suc n)) l.spawned
      → (l' : Listener Bytes q Addr Stream) × (accept_loop q (suc n) l accepts ≡ going l')
        × (map peer_of l'.spawned ≡ map peer_of l.spawned ++ arrivals accepts)
        × All (IsFresh (suc n)) l'.spawned
        × (l'.permit ≡ true)
  unfolding accept_loop accept_round
  accept_loop-spawns n l [] f = (_, refl, sym (append-nil _), f, refl)
  accept_loop-spawns n l (none ∷ rest) f = accept_loop-spawns n (record l { permit = true }) rest f
  accept_loop-spawns n l (some (stream, addr) ∷ rest) f =
      let (ch, made, fresh) = L.channel_suc n in
      let s : Spawned Bytes q Addr Stream = record { addr = addr; stream = stream; chan = ch } in
      let (l', e, peers, fresh', permit) =
        accept_loop-spawns n (record { spawned = l.spawned ++ (s ∷ []); permit = true }) rest
          (All-append (IsFresh (suc n)) l.spawned s f fresh) in
      (l', rw (made, accept_loop) e, peers ∙ rw (map-append, append_assoc), fresh', permit)

  -- With room for at least one pending message, a listener that is bound starts every connection
  -- that it accepts, in order and each on a fresh channel of that capacity; errors of `accept` are
  -- skipped, and the notifier holds a permit at the end.
  pub start_listen-spawns :
      (n : ℕ) (l : Listener Bytes q Addr Stream) (accepts : List (Option (Stream × Addr)))
      → All (IsFresh (suc n)) l.spawned
      → (l' : Listener Bytes q Addr Stream) × (start_listen q (suc n) true l accepts ≡ going l')
        × (map peer_of l'.spawned ≡ map peer_of l.spawned ++ arrivals accepts)
        × All (IsFresh (suc n)) l'.spawned
        × (l'.permit ≡ true)
  unfolding start_listen
  start_listen-spawns n l accepts f = accept_loop-spawns n l accepts f

  -- With room for no pending message, a listener that is bound panics at the first connection
  -- that it accepts, and has started none.
  pub start_listen_zero :
      (l : Listener Bytes q Addr Stream) (errors : List (Option (Stream × Addr)))
      (a : Stream × Addr) (rest : List (Option (Stream × Addr)))
      → arrivals errors ≡ []
      → (l' : Listener Bytes q Addr Stream) × (start_listen q 0 true l (errors ++ (some a ∷ rest))
          ≡ crashed l')
        × (l'.spawned ≡ l.spawned)
  unfolding start_listen accept_loop accept_round
  start_listen_zero l [] a rest h =
      (record l { permit = true }, rw (L.channel_zero, accept_loop), refl)
  start_listen_zero l (none ∷ errors) a rest h =
      start_listen_zero (record l { permit = true }) errors a rest h
  start_listen_zero l (some b ∷ errors) a rest h = absurd (cc)
