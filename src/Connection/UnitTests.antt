-- ===== src/Connection/UnitTests.antt =====
-- The unit tests of node/connection/src/lib.rs that need no socket, over any channel, codec, writer
-- and address, and that they pass.
mod Starts
mod Beats
mod Connects
use braidpool.Base.{
  ℕ, ◌≡◌, ◌≢◌, refl, sym, ap, ◌∙◌, ◌==◌, Bool, true, false, String, Option, none, some, List, [],
  ◌∷◌, ◌++◌, Outcome, ok, err, panic, ◌>>=◌, ◌>>◌, arith, UnitTest, assert, unwrap, or_panic,
  is_none, str_eq, length, if◌then◌else◌,
}
use braidpool.Protocol.Handshake
use braidpool.Protocol.Message.{Message}
use braidpool.Protocol.Wire.{Codec, as_bytes}
use braidpool.Connection.Io.{
  Poll, ready, pending, Mpsc, IsMpsc, Sink, Progress, going, returned, crashed,
}
use braidpool.Connection.ReadLoop.{read_round, start_read_loop}
use braidpool.Connection.Flow.{reached}
use braidpool.Link.Side.{helo}

-- `receiver.recv().await.unwrap()`, where the message has come.
abbrev received {ℓ} : {A : Type ℓ} → Poll (Option A) → Outcome ⊥ A
received (ready (some b)) = ok b
received (ready none) = panic
received pending = panic

-- `is_err` of a loop that has returned.
abbrev stopped {ℓ} : {S : Type ℓ} → Progress S → Bool
stopped (going s) = false
stopped (returned e s) = true
stopped (crashed s) = false

module _ {Bytes Addr : Type 0} (q : Mpsc Bytes) (c : Codec Bytes) (eq : Bytes → Bytes → Bool)
    (addr : Addr) (now : ℕ) where
  -- The bytes of the greeting, which most of the tests begin with.
  abbrev greeting : Outcome ⊥ Bytes
  greeting = do message ← or_panic (Handshake.start addr now); b ← as_bytes c message; or_panic b

  abbrev it_should_read_message_from_stream_and_send_to_channel_sender : UnitTest
  it_should_read_message_from_stream_and_send_to_channel_sender = do
    msg_bytes ← greeting
    channel ← or_panic (q.channel 3)
    b ← received (q.recv (reached (start_read_loop q channel (some msg_bytes ∷ [])))).0
    assert (eq b msg_bytes)

  abbrev it_should_read_message_from_stream_and_handle_error_when_sending_to_channel_fails :
      UnitTest
  it_should_read_message_from_stream_and_handle_error_when_sending_to_channel_fails = do
    msg_bytes ← greeting
    channel ← or_panic (q.channel 3)
    assert (stopped (start_read_loop q (q.close channel) (some msg_bytes ∷ [])))

  abbrev it_should_stop_loop_if_message_is_an_error : UnitTest
  it_should_stop_loop_if_message_is_an_error = do
    msg_bytes ← greeting
    channel ← or_panic (q.channel 3)
    assert (stopped (start_read_loop q (q.close channel) (none ∷ [])))

  abbrev it_should_stop_loop_when_stream_returns_none : UnitTest
  it_should_stop_loop_when_stream_returns_none = do
    msg_bytes ← greeting
    channel ← or_panic (q.channel 3)
    assert (stopped (start_read_loop q (q.close channel) []))

  module _ (L : IsMpsc q) (b : Bytes) (g : c.serialize helo ≡ some b) where
    it_should_read_message_from_stream_and_send_to_channel_sender_lem :
        eq b b ≡ true → it_should_read_message_from_stream_and_send_to_channel_sender ≡ ok tt
    unfolding Handshake.start as_bytes start_read_loop read_round
    it_should_read_message_from_stream_and_send_to_channel_sender_lem same =
        let (ch, made, seen) = L.channel_suc 2 in
        let (sent, after) = L.try_send_room ch b (ap (λ l. l.shut) seen) (rw seen (omega arith)) in
        let (got, _) =
          L.recv_some (q.try_send ch b).1 b []
            (ap (λ l. l.queue) after ∙ ap (λ l. l.queue ++ (b ∷ [])) seen) in
        rw (g, made, start_read_loop, sent, got, same) refl

    it_should_read_message_from_stream_and_handle_error_when_sending_to_channel_fails_lem :
        it_should_read_message_from_stream_and_handle_error_when_sending_to_channel_fails ≡ ok tt
    unfolding Handshake.start as_bytes start_read_loop read_round
    it_should_read_message_from_stream_and_handle_error_when_sending_to_channel_fails_lem =
        let (ch, made, _) = L.channel_suc 2 in
        let shut = L.try_send_shut (q.close ch) b (ap (λ l. l.shut) (L.close_lem ch)) in
        rw (g, made, start_read_loop, shut) refl

    it_should_stop_loop_if_message_is_an_error_lem :
        it_should_stop_loop_if_message_is_an_error ≡ ok tt
    unfolding Handshake.start as_bytes start_read_loop read_round
    it_should_stop_loop_if_message_is_an_error_lem =
        let (ch, made, _) = L.channel_suc 2 in rw (g, made) refl

    it_should_stop_loop_when_stream_returns_none_lem :
        it_should_stop_loop_when_stream_returns_none ≡ ok tt
    unfolding Handshake.start as_bytes start_read_loop read_round
    it_should_stop_loop_when_stream_returns_none_lem =
        let (ch, made, _) = L.channel_suc 2 in rw (g, made) refl
