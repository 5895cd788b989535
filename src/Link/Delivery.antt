-- ===== src/Link/Delivery.antt =====
-- What one end of a link (node/connection/src/lib.rs) writes and the other end handles, under every
-- order of the moves.
use braidpool.Base.{ℕ, ◌≤◌, ◌≡◌, refl, List, [], ◌∷◌, ◌++◌, length, take, arith}
use mathlib.Core.List.{append-nil, append_assoc}
use braidpool.Protocol.Wire.{Codec}
use braidpool.Connection.Io.{Mpsc, IsMpsc, Sink, Progress, going, returned, crashed}
use braidpool.Connection.Answers.{IsReliable}
use braidpool.Connection.Flow.{queued, took}
use braidpool.Connection.Session.{Session, handles}
use braidpool.Link.{
  Link, LinkMove, a_reads, b_reads, a_handles, b_handles, with_a, with_b, step, run,
}
use braidpool.Link.Flow.{sent_by, Flows, If, read_on, handle_on, grows}

module _ {Bytes : Type 0} {q : Mpsc Bytes} (L : IsMpsc q) (c : Codec Bytes) {w : Sink Bytes}
    (R : IsReliable w) where
  -- The messages that a move takes out of the channel of an end.
  abbrev took_a : Link q w → LinkMove → List Bytes
  took_a l (a_handles br) = took L c w l.a (handles br)
  took_a l a_reads = []
  took_a l b_reads = []
  took_a l (b_handles br) = []

  abbrev took_b : Link q w → LinkMove → List Bytes
  took_b l (b_handles br) = took L c w l.b (handles br)
  took_b l a_reads = []
  took_b l b_reads = []
  took_b l (a_handles br) = []

  abbrev pub taken_a : Link q w → List LinkMove → List Bytes
  taken_a l [] = []
  taken_a l (m ∷ ms) =
      took_a l m
      ++ elim (step q c R l m) [ going l' ↦ taken_a l' ms | returned _ _ ↦ [] | crashed _ ↦ [] ]

  abbrev pub taken_b : Link q w → List LinkMove → List Bytes
  taken_b l [] = []
  taken_b l (m ∷ ms) =
      took_b l m
      ++ elim (step q c R l m) [ going l' ↦ taken_b l' ms | returned _ _ ↦ [] | crashed _ ↦ [] ]

  record BothFlow (log_a log_b : List Bytes) (l : Link q w) : Type 0 where
    to_a : Flows L c R log_a l.read_a (sent_by L c R l.b) l.a
    to_b : Flows L c R log_b l.read_b (sent_by L c R l.a) l.b

  abbrev IfLinked : (Link q w → Type 0) → Progress (Link q w) → Type 0
  IfLinked P (going l) = P l
  IfLinked P (returned _ _) = Unit
  IfLinked P (crashed _) = Unit

  moved_a :
      (log_a log_b more : List Bytes) (l : Link q w) (n : ℕ) (p : Progress (Session Bytes q w))
      → Flows L c R log_b l.read_b (sent_by L c R l.a) l.b
      → If L c R
          (λ s'.
            Flows L c R log_a n (sent_by L c R l.b) s'
            × (sent_by L c R s' ≡ sent_by L c R l.a ++ more))
          p
      → IfLinked (BothFlow log_a log_b) (with_a q c R l n p)
  unfolding with_a
  moved_a log_a log_b more l n (going s') v h = record {
    to_a = h.0;
    to_b = rw (h.1) (grows L c R log_b l.read_b (sent_by L c R l.a) more l.b v);
  }
  moved_a log_a log_b more l n (returned e s') v h = tt
  moved_a log_a log_b more l n (crashed s') v h = tt

  moved_b :
      (log_a log_b more : List Bytes) (l : Link q w) (n : ℕ) (p : Progress (Session Bytes q w))
      → Flows L c R log_a l.read_a (sent_by L c R l.b) l.a
      → If L c R
          (λ s'.
            Flows L c R log_b n (sent_by L c R l.a) s'
            × (sent_by L c R s' ≡ sent_by L c R l.b ++ more))
          p
      → IfLinked (BothFlow log_a log_b) (with_b q c R l n p)
  unfolding with_b
  moved_b log_a log_b more l n (going s') v h = record {
    to_a = rw (h.1) (grows L c R log_a l.read_a (sent_by L c R l.b) more l.a v);
    to_b = h.0;
  }
  moved_b log_a log_b more l n (returned e s') v h = tt
  moved_b log_a log_b more l n (crashed s') v h = tt

  step-BothFlow :
      (log_a log_b : List Bytes) (l : Link q w) (m : LinkMove)
      → BothFlow log_a log_b l
      → IfLinked (BothFlow (log_a ++ took_a l m) (log_b ++ took_b l m)) (step q c R l m)
  unfolding step
  step-BothFlow log_a log_b l a_reads v =
      rw (append-nil log_a, append-nil log_b)
        (moved_a log_a log_b [] l _ _ v.to_b
          (read_on L c R log_a l.read_a (sent_by L c R l.b) l.a _ refl v.to_a))
  step-BothFlow log_a log_b l b_reads v =
      rw (append-nil log_a, append-nil log_b)
        (moved_b log_a log_b [] l _ _ v.to_a
          (read_on L c R log_b l.read_b (sent_by L c R l.a) l.b _ refl v.to_b))
  step-BothFlow log_a log_b l (a_handles br) v = rw (append-nil log_b) (
      moved_a _ log_b _ l _ _ v.to_b
        (handle_on L c R log_a l.read_a (sent_by L c R l.b) l.a br v.to_a))
  step-BothFlow log_a log_b l (b_handles br) v = rw (append-nil log_a) (
      moved_b log_a _ _ l _ _ v.to_a
        (handle_on L c R log_b l.read_b (sent_by L c R l.a) l.b br v.to_b))

  first_step-BothFlow :
      (log_a log_b : List Bytes) (l : Link q w) (m : LinkMove) (ms : List LinkMove)
      (p : Progress (Link q w))
      → step q c R l m ≡ p
      → IfLinked (BothFlow (log_a ++ took_a l m) (log_b ++ took_b l m)) p
      → ((l' : Link q w)
          → BothFlow (log_a ++ took_a l m) (log_b ++ took_b l m) l'
          → IfLinked
              (BothFlow
                ((log_a ++ took_a l m) ++ taken_a l' ms)
                ((log_b ++ took_b l m) ++ taken_b l' ms))
              (run q c R l' ms))
      → IfLinked
          (BothFlow (log_a ++ taken_a l (m ∷ ms)) (log_b ++ taken_b l (m ∷ ms)))
          (run q c R l (m ∷ ms))
  unfolding run
  first_step-BothFlow log_a log_b l m ms (going l') e v ih =
      rw
        (
          e,
          run,
          ← append_assoc log_a (took_a l m) (taken_a l' ms),
          ← append_assoc log_b (took_b l m) (taken_b l' ms),
        )
        (ih l' v)
  first_step-BothFlow log_a log_b l m ms (returned x l') e v ih = rw (e, run) tt
  first_step-BothFlow log_a log_b l m ms (crashed l') e v ih = rw (e, run) tt

  run-BothFlow :
      (log_a log_b : List Bytes) (l : Link q w) (ms : List LinkMove)
      → BothFlow log_a log_b l
      → IfLinked (BothFlow (log_a ++ taken_a l ms) (log_b ++ taken_b l ms)) (run q c R l ms)
  unfolding run
  run-BothFlow log_a log_b l [] v = rw (append-nil log_a, append-nil log_b) v
  run-BothFlow log_a log_b l (m ∷ ms) v =
      first_step-BothFlow log_a log_b l m ms (step q c R l m) refl (step-BothFlow log_a log_b l m v)
        (λ l' v'. run-BothFlow (log_a ++ took_a l m) (log_b ++ took_b l m) l' ms v')

  -- Over channels as tokio documents them, writers that take everything and a stream that loses
  -- nothing, with both channels empty and nothing read at the start: whatever the order of the
  -- moves, as long as neither end has returned or panicked, what each end's handler has taken,
  -- followed by what waits in its channel, is exactly the messages that it has read, and these are
  -- the first messages that the other end has written: in order, once each, none left out.
  pub link_delivers :
      (a b : Session Bytes q w) (ms : List LinkMove) (l : Link q w)
      → queued L c w a ≡ []
      → queued L c w b ≡ []
      → run q c R (record { a = a; b = b; read_a = 0; read_b = 0 }) ms ≡ going l
      → let start : Link q w = record { a = a; b = b; read_a = 0; read_b = 0 } in
        (taken_a start ms ++ queued L c w l.a ≡ take l.read_a (R.sent l.b.handler.out))
        × (l.read_a ≤ length (R.sent l.b.handler.out))
        × (taken_b start ms ++ queued L c w l.b ≡ take l.read_b (R.sent l.a.handler.out))
        × (l.read_b ≤ length (R.sent l.a.handler.out))
  link_delivers a b ms l empty_a empty_b e =
      let start : Link q w = record { a = a; b = b; read_a = 0; read_b = 0 } in
      let at_first : BothFlow [] [] start = record {
        to_a = record { order = empty_a; short = omega arith };
        to_b = record { order = empty_b; short = omega arith };
      } in
      let v : BothFlow (taken_a start ms) (taken_b start ms) l =
        rw e at (run-BothFlow [] [] start ms at_first) in
      (v.to_a.order, v.to_a.short, v.to_b.order, v.to_b.short)
