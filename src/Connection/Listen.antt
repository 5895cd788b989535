-- ===== src/Connection/Listen.antt =====
-- `start_connection`, `connect` and `start_listen` of node/connection/src/lib.rs. Dialling,
-- resolving, binding and accepting are the system's, and are given by their results.
pub mod Accepting
use braidpool.Base.{
  ℕ, String, Bool, true, Option, none, some, List, [], ◌∷◌, ◌++◌, Outcome, ok, err, panic, or_panic,
  ◌>>=◌, if◌then◌else◌,
}
use braidpool.Connection.Io.{Mpsc, Progress, going, returned, crashed}

-- The task that `start_connection` spawns: `start` over a stream and a fresh channel.
pub record Spawned (Bytes : Type 0) (q : Mpsc Bytes) (Addr Stream : Type 0) : Type 0 where
  pub addr : Addr
  pub stream : Stream
  pub chan : q.Chan

-- What the listener has done: the tasks that it spawned, oldest first, and whether the notifier
-- holds a permit.
pub record Listener (Bytes : Type 0) (q : Mpsc Bytes) (Addr Stream : Type 0) : Type 0 where
  pub spawned : List (Spawned Bytes q Addr Stream)
  pub permit : Bool

module _ {Bytes Addr Stream : Type 0} (q : Mpsc Bytes) (max_pending_messages : ℕ) where
  unfoldable pub start_connection : Stream → Addr → Outcome ⊥ (Spawned Bytes q Addr Stream)
  start_connection stream addr = do
    chan ← or_panic (q.channel max_pending_messages)
    ok (record { addr = addr; stream = stream; chan = chan })

  dialled : Stream → Option (List Addr) → Outcome ⊥ (Option (Spawned Bytes q Addr Stream))
  unfolding start_connection
  dialled stream (some (addr ∷ _)) = do s ← start_connection stream addr; ok (some s)
  dialled stream (some []) = ok none
  dialled stream none = ok none

  -- The task of `connect`; a failure to connect panics.
  unfoldable pub connect :
      (String → Option Stream)
      → (String → Option (List Addr))
      → String
      → Outcome ⊥ (Option (Spawned Bytes q Addr Stream))
  unfolding dialled
  connect dial resolve peer = do stream ← or_panic (dial peer); dialled stream (resolve peer)

  accepted :
      Listener Bytes q Addr Stream
      → Outcome ⊥ (Spawned Bytes q Addr Stream)
      → Progress (Listener Bytes q Addr Stream)
  accepted l (ok s) = going (record l { spawned = l.spawned ++ (s ∷ []) })
  accepted l (err e) = absurd e
  accepted l panic = crashed l

  -- One round of the accept loop; `none` is an error of `accept`, which is logged.
  unfoldable pub accept_round :
      Listener Bytes q Addr Stream
      → Option (Stream × Addr)
      → Progress (Listener Bytes q Addr Stream)
  unfolding accepted start_connection
  accept_round l (some (stream, peer_address)) =
      accepted (record l { permit = true }) (start_connection stream peer_address)
  accept_round l none = going (record l { permit = true })

  accept_loop :
      Listener Bytes q Addr Stream
      → List (Option (Stream × Addr))
      → Progress (Listener Bytes q Addr Stream)
  unfolding accept_round
  accept_loop l [] = going (record l { permit = true })
  accept_loop l (a ∷ as') = elim (accept_round l a) [
    | going l' ↦ accept_loop l' as'
    | returned e l' ↦ returned e l'
    | crashed l' ↦ crashed l'
  ]

  -- `start_listen`, over the results of `accept`; a failure to bind is logged and ends it.
  unfoldable pub start_listen :
      Bool
      → Listener Bytes q Addr Stream
      → List (Option (Stream × Addr))
      → Progress (Listener Bytes q Addr Stream)
  unfolding accept_loop
  start_listen bound l accepts =
      if bound then accept_loop l accepts else returned "Failed to listen" l
