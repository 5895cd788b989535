-- ===== src/Connection/Backpressure.antt =====
-- What the read loop of node/connection/src/lib.rs does with a stream when nobody takes messages
-- from the channel.
use braidpool.Base.{
  ◌+◌, ◌≤◌, ◌≡◌, refl, ap, ◌∙◌, String, true, false, Option, none, some, List, [], ◌∷◌, ◌++◌, map,
  ok, err, length, length-append, arith, inl, inr, ◌⊎◌,
}
use mathlib.Core.List.{append-nil, append_assoc}
use braidpool.Connection.Io.{full, closed, Mpsc, returned, IsMpsc}
use braidpool.Connection.Channels.{try_send_lem}
use braidpool.Connection.ReadLoop.{read_round, start_read_loop}

module _ {Bytes : Type 0} {q : Mpsc Bytes} (L : IsMpsc q) where
  -- One round on a message, by what `try_send` reports.
  read_sent :
      (ch : q.Chan) (b : Bytes) (items : List (Option Bytes))
      → (q.try_send ch b).0 ≡ ok tt
      → start_read_loop q ch (some b ∷ items) ≡ start_read_loop q (q.try_send ch b).1 items
  unfolding start_read_loop read_round
  read_sent ch b items r = rw (r, start_read_loop)

  read_refused :
      (ch : q.Chan) (b : Bytes) (items : List (Option Bytes))
      → ((q.try_send ch b).0 ≡ err full
          → start_read_loop q ch (some b ∷ items)
            ≡ returned "Sender flooding channel" (q.try_send ch b).1)
        × ((q.try_send ch b).0 ≡ err closed
            → start_read_loop q ch (some b ∷ items)
              ≡ returned "Receiver closed for channel" (q.try_send ch b).1)
  unfolding start_read_loop read_round
  read_refused ch b items = (λ r. rw (r, start_read_loop), λ r. rw (r, start_read_loop))

  -- Messages that fit are queued in order, and the loop goes on.
  feed :
      (bs : List Bytes) (tail : List (Option Bytes)) (ch : q.Chan)
      → (L.look ch).shut ≡ false
      → length (L.look ch).queue + length bs ≤ (L.look ch).limit
      → (ch' : q.Chan) × (start_read_loop q ch (map some bs ++ tail) ≡ start_read_loop q ch' tail)
        × (L.look ch' ≡ record (L.look ch) { queue = (L.look ch).queue ++ bs })
  unfolding start_read_loop read_round
  feed [] tail ch open' fits = (ch, refl, rw append-nil)
  feed (b ∷ bs) tail ch open' fits =
      let (r, after) = L.try_send_room ch b open' (omega arith) in
      let ch1 = (q.try_send ch b).1 in
      let (ch', e, l) =
        feed bs tail ch1 (rw after open')
          (rw after (omega (arith, length-append (L.look ch).queue (b ∷ [])))) in
      (ch', read_sent ch b (map some bs ++ tail) r ∙ e, l ∙ rw (after, append_assoc))

  -- While nobody takes from an open channel, messages that fit are queued in order and then the
  -- loop ends with the stream.
  pub read_loop_fits :
      (bs : List Bytes) (ch : q.Chan)
      → (L.look ch).shut ≡ false
      → length (L.look ch).queue + length bs ≤ (L.look ch).limit
      → (ch' : q.Chan) × (start_read_loop q ch (map some bs)
          ≡ returned "Receive: peer closed connection" ch')
        × (L.look ch' ≡ record (L.look ch) { queue = (L.look ch).queue ++ bs })
  unfolding start_read_loop read_round
  read_loop_fits bs ch open' fits =
      let (ch', e, l) = feed bs [] ch open' fits in (ch', rw (← append-nil (map some bs)) e, l)

  -- While nobody takes from an open channel, a peer that sends one message more than the channel
  -- has room for is given up: what fits is queued in order, the message after it and all that
  -- would follow are dropped.
  pub read_loop_flooded :
      (bs : List Bytes) (b : Bytes) (tail : List (Option Bytes)) (ch : q.Chan)
      → (L.look ch).shut ≡ false
      → length (L.look ch).queue + length bs ≡ (L.look ch).limit
      → (ch' : q.Chan) × (start_read_loop q ch (map some bs ++ (some b ∷ tail))
          ≡ returned "Sender flooding channel" ch')
        × (L.look ch' ≡ record (L.look ch) { queue = (L.look ch).queue ++ bs })
  unfolding start_read_loop read_round
  read_loop_flooded bs b tail ch open' fits =
      let (ch', e, l) = feed bs (some b ∷ tail) ch open' (omega arith) in
      let full' =
        L.try_send_full ch' b (rw l open')
          (rw l (omega (arith, length-append (L.look ch).queue bs))) in
      (
        ch',
        e
            ∙ (read_refused ch' b tail).0 (ap (λ r. r.0) full')
            ∙ ap (returned "Sender flooding channel") (ap (λ r. r.1) full'),
        l,
      )

  -- On a closed channel the first message ends the loop, and the channel is left alone.
  pub read_loop_closed :
      (b : Bytes) (tail : List (Option Bytes)) (ch : q.Chan)
      → (L.look ch).shut ≡ true
      → start_read_loop q ch (some b ∷ tail) ≡ returned "Receiver closed for channel" ch
  unfolding start_read_loop read_round
  read_loop_closed b tail ch shut =
      let shut' = L.try_send_shut ch b shut in
      (read_refused ch b tail).1 (ap (λ r. r.0) shut')
      ∙ ap (returned "Receiver closed for channel") (ap (λ r. r.1) shut')

  -- The three things that `try_send` reports.
  report_cases :
      (ch : q.Chan) (b : Bytes)
      → ((q.try_send ch b).0 ≡ ok tt)
        ⊎ ((q.try_send ch b).0 ≡ err full)
        ⊎ ((q.try_send ch b).0 ≡ err closed)
  report_cases ch b = grind (arith, try_send_lem L ch b)

  -- On a channel that holds no more than its capacity, the loop always returns an error,
  -- whatever the stream gives, and the channel still holds no more than that.
  pub read_loop_returns :
      (items : List (Option Bytes)) (ch : q.Chan)
      → length (L.look ch).queue ≤ (L.look ch).limit
      → (e : String) × (ch' : q.Chan) × (start_read_loop q ch items ≡ returned e ch')
        × (length (L.look ch').queue ≤ (L.look ch).limit)
  unfolding start_read_loop read_round
  read_loop_returns [] ch h = (_, ch, refl, h)
  read_loop_returns (none ∷ items) ch h = (_, ch, refl, h)
  read_loop_returns (some b ∷ items) ch h =
      let (_, limit, _, bounded, _) = try_send_lem L ch b in
      let (e, ch', same, within) = read_loop_returns items (q.try_send ch b).1 (bounded h) in
      elim (report_cases ch b) [
        | inl sent ↦ (e, ch', read_sent ch b items sent ∙ same, omega arith)
        | inr (inl no_room) ↦ (_, _, (read_refused ch b items).0 no_room, omega (arith, bounded h))
        | inr (inr shut) ↦ (_, _, (read_refused ch b items).1 shut, omega (arith, bounded h))
      ]
