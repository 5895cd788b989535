-- ===== src/Connection/Session/Registration.antt =====
-- A connection and its entry in the table of connections, through `start` of
-- node/connection/src/lib.rs.
use braidpool.Base.{
  ℕ, ◌≡◌, ◌≢◌, ◌≤◌, ◌<◌, refl, sym, ap, ◌∙◌, ◌⊎◌, inl, inr, true, none, some, List, arith,
  Option-cases,
}
use mathlib.Core.Logic.{ite}
use braidpool.Protocol.Message.{Message}
use braidpool.Protocol.Handshake.{handshake_of}
use braidpool.Protocol.Wire.{Codec}
use braidpool.Manager.{Metadata, ConnectionManager, num_connections, insert, remove, get}
use braidpool.Manager.Invariant.{IsValid, insert-IsValid}
use braidpool.Manager.Methods.{insert_full, insert_room, remove_lem, remove-insert}
use braidpool.Connection.Io.{Mpsc, IsMpsc, Sink, Progress, going, returned, crashed}
use braidpool.Connection.Session.{
  Session, Turn, Stage, turned_away, serving, closed, died, hello, greet, wind_up, clean_up, start,
}
use braidpool.Connection.Liveness.{IsSound, Survives, select-Survives}

module _ {Bytes : Type 0} (q : Mpsc Bytes) (c : Codec Bytes) (w : Sink Bytes) {Addr : Type 0}
    (dec : Discrete Addr) where
  -- What the table says of an address `b` when `start` for `addr` has come to a stage.
  abbrev pub Registers :
      ConnectionManager Addr
      → Addr
      → ℕ
      → Addr
      → Stage (Session Bytes q w) × ConnectionManager Addr
      → Type 0
  Registers m addr now b (turned_away, m') = (m' ≡ m) × (m.capacity ≤ num_connections m)
  Registers m addr now b (serving _, m') =
      (num_connections m < m.capacity)
      × (get dec m' b ≡ ite (dec addr b) (some (record { created_at = now })) (get dec m b))
  Registers m addr now b (closed _, m') =
      (num_connections m < m.capacity) × (get dec m' b ≡ ite (dec addr b) none (get dec m b))
  Registers m addr now b (died _, m') =
      (num_connections m < m.capacity)
      × (get dec m' b ≡ ite (dec addr b) (some (record { created_at = now })) (get dec m b))

  clean_up-Registers :
      (m m1 : ConnectionManager Addr) (addr : Addr) (now : ℕ) (b : Addr)
      (p : Progress (Session Bytes q w))
      → IsValid dec m1
      → num_connections m < m.capacity
      → get dec m1 b ≡ ite (dec addr b) (some (record { created_at = now })) (get dec m b)
      → Registers m addr now b (clean_up q c w dec m1 addr p)
  unfolding clean_up
  clean_up-Registers m m1 addr now b (going s) v room g = (room, g)
  clean_up-Registers m m1 addr now b (returned e s) v room g =
      (room, ground (arith, remove_lem dec m1 addr b v))
  clean_up-Registers m m1 addr now b (crashed s) v room g = (room, g)

  abbrev stamp : ℕ → Metadata
  stamp now = record { created_at = now }

  start_full :
      (m : ConnectionManager Addr) (addr : Addr) (now : ℕ) (s : Session Bytes q w) (ts : List Turn)
      → m.capacity ≤ num_connections m
      → start q c w dec m addr now s ts ≡ (turned_away, m)
  unfolding start
  start_full m addr now s ts h = rw (insert_full dec m addr (stamp now) h)

  start_room :
      (m : ConnectionManager Addr) (addr : Addr) (now : ℕ) (s : Session Bytes q w) (ts : List Turn)
      → num_connections m < m.capacity
      → start q c w dec m addr now s ts
        ≡ clean_up q c w dec
            (insert dec m addr (stamp now)).1
            addr
            (greet q c w s ts (hello c addr now))
  unfolding start
  start_room m addr now s ts h = rw ((insert_room dec m addr addr (stamp now) h).0)

  limit_cases :
      (m : ConnectionManager Addr)
      → (m.capacity ≤ num_connections m) ⊎ (num_connections m < m.capacity)
  limit_cases m = omega arith

  -- On a valid table: the connection is turned away exactly at the limit, and then the table is
  -- left alone. Below the limit its address is listed with the time of its start as long as it is
  -- served or where its task has panicked, and when it has been closed the address is gone; every
  -- other address keeps what it had.
  pub start-Registers :
      (m : ConnectionManager Addr) (addr : Addr) (now : ℕ) (s : Session Bytes q w) (ts : List Turn)
      (b : Addr)
      → IsValid dec m
      → Registers m addr now b (start q c w dec m addr now s ts)
  start-Registers m addr now s ts b v = elim (limit_cases m) [
    | inl h ↦ rw (start_full m addr now s ts h) (refl, h)
    | inr h ↦ rw (start_room m addr now s ts h) (
        clean_up-Registers m _ addr now b (greet q c w s ts (hello c addr now))
          (insert-IsValid dec m addr (stamp now) v) h ((insert_room dec m addr b (stamp now) h).1))
  ]

  clean_up-restores :
      (m m1 : ConnectionManager Addr) (addr : Addr) (p : Progress (Session Bytes q w))
      {s' : Session Bytes q w} {m' : ConnectionManager Addr}
      → (remove dec m1 addr).1 ≡ m
      → clean_up q c w dec m1 addr p ≡ (closed s', m')
      → m' ≡ m
  unfolding clean_up
  clean_up-restores m m1 addr p e h = ground arith

  -- A connection to a new address that has been closed leaves the very table that it found.
  pub start_restores :
      (m : ConnectionManager Addr) (addr : Addr) (now : ℕ) (s : Session Bytes q w) (ts : List Turn)
      {s' : Session Bytes q w} {m' : ConnectionManager Addr}
      → get dec m addr ≡ none
      → start q c w dec m addr now s ts ≡ (closed s', m')
      → m' ≡ m
  start_restores m addr now s ts {s'} {m'} fresh h = elim (limit_cases m) [
    | inl full' ↦ cc (start_full m addr now s ts full')
    | inr room ↦
        clean_up-restores m _ addr (greet q c w s ts (hello c addr now))
          (ap (λ r. r.1) (remove-insert dec m addr (stamp now) room fresh))
          (sym (start_room m addr now s ts room) ∙ h)
  ]

module _ {Bytes : Type 0} {q : Mpsc Bytes} (L : IsMpsc q) (c : Codec Bytes) (w : Sink Bytes)
    (total : (m : Message) → c.serialize m ≢ none) {Addr : Type 0} (dec : Discrete Addr) where
  -- The stage of a connection that has not panicked, and whose channel was closed at its end.
  abbrev pub IsOrderly : Stage (Session Bytes q w) → Type 0
  IsOrderly turned_away = Unit
  IsOrderly (serving s) = IsSound L c w total s
  IsOrderly (closed s) = (L.look s.handler.chan).shut ≡ true
  IsOrderly (died _) = ⊥

  clean_up-IsOrderly :
      (m : ConnectionManager Addr) (addr : Addr) (p : Progress (Session Bytes q w))
      → Survives L c w total p
      → IsOrderly (clean_up q c w dec m addr p).0
  unfolding clean_up wind_up
  clean_up-IsOrderly m addr (going s) v = v
  clean_up-IsOrderly m addr (returned e s) v = ap (λ r. r.shut) (L.close_lem s.handler.chan)
  clean_up-IsOrderly m addr (crashed s) v = v

  pub greet-Survives :
      (addr : Addr) (now : ℕ) (s : Session Bytes q w) (ts : List Turn)
      → IsSound L c w total s
      → Survives L c w total (greet q c w s ts (hello c addr now))
  unfolding greet hello
  greet-Survives addr now s ts v = elim (Option-cases (c.serialize helo)) [
    | inl none' ↦ absurd (total helo none')
    | inr (b, e) ↦
        rw (e, greet) (select-Survives L c w total _ ts (record { is_open = v.is_open; on = v.on }))
  ]
    where
      helo : Message
      helo = Message.handshake (handshake_of "helo" "0.1.0")

  -- If every message can be written, a connection whose channel is open and read at the start
  -- never panics, whatever the turns of its two futures; as long as it is served its channel
  -- stays open and read, and once it has been closed its channel is closed.
  pub start-IsOrderly :
      (m : ConnectionManager Addr) (addr : Addr) (now : ℕ) (s : Session Bytes q w) (ts : List Turn)
      → IsSound L c w total s
      → IsOrderly (start q c w dec m addr now s ts).0
  start-IsOrderly m addr now s ts v = elim (limit_cases q c w dec m) [
    | inl full' ↦ rw (start_full q c w dec m addr now s ts full') tt
    | inr room ↦
        rw (start_room q c w dec m addr now s ts room)
          (clean_up-IsOrderly _ addr _ (greet-Survives addr now s ts v))
  ]
