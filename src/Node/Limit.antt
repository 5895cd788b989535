-- ===== src/Node/Limit.antt =====
-- What the limit of the table of connections (node/connection/src/connection_manager.rs) says of
-- the connections that a node serves (node/connection/src/lib.rs).
use braidpool.Base.{
  ℕ, ◌≤◌, ◌<◌, ◌≡◌, refl, ◌∙◌, ◌⊎◌, inl, inr, some, List, [], ◌∷◌, arith, All, Option-cases,
  get_elem?, count,
}
use braidpool.Manager.{Metadata, ConnectionManager, num_connections, get}
use braidpool.Manager.Invariant.{new-IsValid}
use braidpool.Manager.Methods.{insert_full, insert_room, remove_lem}
use braidpool.Connection.Io.{Progress, going, returned, crashed}
use braidpool.Connection.Heartbeat.{Broadcast, Timer, Heart, Pulse}
use braidpool.Node.Peers.{Differs}
use braidpool.Node.Entries.{
  is_listed, Tracks, admit-Tracks, leave-Tracks, refuse-Tracks, clean-Tracks, join-Tracks,
}
use braidpool.Node.{
  Phase, waiting, serving, leaving, Peer, Node, Event, joins, registers, gives_up, ends, cleans_up,
  beats, boot, after_insert, register, give_up, end_select, clean, beat, on_peer, step, run,
}

module _ {Bytes Addr : Type 0} (dec : Discrete Addr) (b : Broadcast Bytes) (t : Timer)
    (capacity : ℕ) where
  -- The table tracks the peers, and its limit is the configured one.
  pub record Keeps (n : Node Addr b t) : Type 0 where
    pub tracks : Tracks dec n.manager n.peers
    pub limit : n.manager.capacity ≡ capacity

  -- A connection comes from an address that no present peer has.
  abbrev pub IsFresh : Node Addr b t → Event Addr → Type 0
  IsFresh n (joins addr) = All (Differs addr) n.peers
  IsFresh n (registers i now) = Unit
  IsFresh n (gives_up i) = Unit
  IsFresh n (ends i) = Unit
  IsFresh n (cleans_up i) = Unit
  IsFresh n (beats p) = Unit

  abbrev pub AllFresh : Node Addr b t → List (Event Addr) → Type 0
  AllFresh n [] = Unit
  AllFresh n (e ∷ es) = IsFresh n e × AllFresh (step dec b t n e) es

  register-Keeps :
      (n : Node Addr b t) (i now : ℕ) (p : Peer Addr) (ph : Phase)
      → p.phase ≡ ph
      → get_elem? n.peers i ≡ some p
      → Keeps n
      → Keeps (register dec b t n i now p.addr ph)
  unfolding register after_insert
  register-Keeps n i now p waiting e h v = elim (limit_cases n.manager) [
    | inl full ↦
        rw (insert_full dec n.manager p.addr s full) (record {
          tracks = refuse-Tracks dec n.manager n.peers i p e h v.tracks;
          limit = v.limit;
        })
    | inr room ↦
        let (r, _, _, limit) = insert_room dec n.manager p.addr p.addr s room in
        rw r (record {
          tracks = admit-Tracks dec n.manager n.peers i p s e h v.tracks room;
          limit = limit ∙ v.limit;
        })
  ]
    where
      s : Metadata
      s = record { created_at = now }

      limit_cases :
          (m : ConnectionManager Addr)
          → (m.capacity ≤ num_connections m) ⊎ (num_connections m < m.capacity)
      limit_cases m = omega arith
  register-Keeps n i now p _ e h v = v

  give_up-Keeps :
      (n : Node Addr b t) (i : ℕ) (p : Peer Addr) (ph : Phase)
      → p.phase ≡ ph
      → get_elem? n.peers i ≡ some p
      → Keeps n
      → Keeps (give_up dec b t n i p.addr ph)
  unfolding give_up
  give_up-Keeps n i p waiting e h v = record {
    tracks = refuse-Tracks dec n.manager n.peers i p e h v.tracks;
    limit = v.limit;
  }
  give_up-Keeps n i p _ e h v = v

  end_select-Keeps :
      (n : Node Addr b t) (i : ℕ) (p : Peer Addr) (ph : Phase)
      → p.phase ≡ ph
      → get_elem? n.peers i ≡ some p
      → Keeps n
      → Keeps (end_select dec b t n i p.addr ph)
  unfolding end_select
  end_select-Keeps n i p serving e h v = record {
    tracks = leave-Tracks dec n.manager n.peers i p e h v.tracks;
    limit = v.limit;
  }
  end_select-Keeps n i p _ e h v = v

  clean-Keeps :
      (n : Node Addr b t) (i : ℕ) (p : Peer Addr) (ph : Phase)
      → p.phase ≡ ph
      → get_elem? n.peers i ≡ some p
      → Keeps n
      → Keeps (clean dec b t n i p.addr ph)
  unfolding clean
  clean-Keeps n i p leaving e h v = record {
    tracks = clean-Tracks dec n.manager n.peers i p e h v.tracks;
    limit = (remove_lem dec n.manager p.addr p.addr v.tracks.valid).3 ∙ v.limit;
  }
  clean-Keeps n i p _ e h v = v

  beat-Keeps :
      (n : Node Addr b t) (p : Pulse) (h : Progress (Heart Bytes t))
      → Keeps n
      → Keeps (beat dec b t n p h)
  unfolding beat
  beat-Keeps n p (going h) v = record { tracks = v.tracks; limit = v.limit }
  beat-Keeps n p (returned _ _) v = v
  beat-Keeps n p (crashed _) v = v

  on_peer-Keeps :
      (n : Node Addr b t) (i : ℕ) (f : Addr → Phase → Node Addr b t)
      → ((p : Peer Addr) → get_elem? n.peers i ≡ some p → Keeps (f p.addr p.phase))
      → Keeps n
      → Keeps (on_peer dec b t n (get_elem? n.peers i) f)
  unfolding on_peer
  on_peer-Keeps n i f keep v = elim (Option-cases (get_elem? n.peers i)) [
    | inl e ↦ rw (e, on_peer) v
    | inr (p, e) ↦ rw (e, on_peer) (keep p e)
  ]

  step-Keeps :
      (n : Node Addr b t) (e : Event Addr) → IsFresh n e → Keeps n → Keeps (step dec b t n e)
  unfolding step
  step-Keeps n (joins addr) f v = record {
    tracks = join-Tracks dec n.manager n.peers addr f v.tracks;
    limit = v.limit;
  }
  step-Keeps n (registers i now) f v =
      on_peer-Keeps n i _ (λ p h. register-Keeps n i now p p.phase refl h v) v
  step-Keeps n (gives_up i) f v =
      on_peer-Keeps n i _ (λ p h. give_up-Keeps n i p p.phase refl h v) v
  step-Keeps n (ends i) f v = on_peer-Keeps n i _ (λ p h. end_select-Keeps n i p p.phase refl h v) v
  step-Keeps n (cleans_up i) f v = on_peer-Keeps n i _ (λ p h. clean-Keeps n i p p.phase refl h v) v
  step-Keeps n (beats p) f v = beat-Keeps n p n.heart v

  run-Keeps :
      (n : Node Addr b t) (es : List (Event Addr))
      → AllFresh n es
      → Keeps n
      → Keeps (run dec b t n es)
  unfolding run
  run-Keeps n [] f v = v
  run-Keeps n (e ∷ es) f v = run-Keeps (step dec b t n e) es f.1 (step-Keeps n e f.0 v)

  boot-Keeps : (sender : b.Sender) (h : Heart Bytes t) → Keeps (boot dec b t capacity sender h)
  unfolding boot num_connections get
  boot-Keeps sender h = record {
    tracks = record {
      valid = new-IsValid dec capacity;
      distinct = tt;
      entered = tt;
      only = λ a f. refl;
      counted = refl;
    };
    limit = refl;
  }

  -- If every connection comes from an address that no present peer has, the table counts exactly
  -- the peers that are being served or are leaving, and these are never more than the limit.
  pub limit_kept :
      (sender : b.Sender) (h : Heart Bytes t) (es : List (Event Addr))
      → AllFresh (boot dec b t capacity sender h) es
      → let n = run dec b t (boot dec b t capacity sender h) es in
        (num_connections n.manager ≡ count is_listed n.peers) × (count is_listed n.peers ≤ capacity)
  unfolding num_connections
  limit_kept sender h es f =
      let v = run-Keeps (boot dec b t capacity sender h) es f (boot-Keeps sender h) in
      (v.tracks.counted, omega (arith, v.tracks.counted, v.tracks.valid.bounded, v.limit))
