-- ===== src/Connection/Answers.antt =====
-- What `handle_received` and `start_message_handler` of node/connection/src/lib.rs write and
-- return.
use braidpool.Base.{
  ℕ, ◌≡◌, ◌≢◌, refl, inl, inr, String, true, Option, none, some, List, [], ◌∷◌, ◌++◌, Outcome, ok,
  err, panic, arith, Option-cases, Bool-cases, false,
}
use braidpool.Protocol.Message.{Message}
use braidpool.Protocol.Handshake.{handshake_of}
use braidpool.Protocol.Wire.{Codec, IsRoundTrip, as_bytes, response_for_received}
use braidpool.Protocol.Replies.{oleh}
use braidpool.Connection.Io.{Sink}
use braidpool.Connection.Handler.{transmit, handle_received}
use braidpool.Connection.Session.{hello}

-- A writer that takes everything it is given, with the log of what it took.
pub record IsReliable {Bytes : Type 0} (w : Sink Bytes) : Type 0 where
  pub sent : w.Out → List Bytes
  pub send_ok : (out : w.Out) (b : Bytes) → (w.send out b).0 ≡ true
  pub sent-send : (out : w.Out) (b : Bytes) → sent (w.send out b).1 ≡ sent out ++ (b ∷ [])

module _ {Bytes : Type 0} (c : Codec Bytes) (w : Sink Bytes) where
  -- The ways in which a message is dealt with, by what its bytes parse to.
  pub data Handled (out : w.Out) (p : Option Message) (r : Outcome String (Unit {0}) × w.Out)
      : Type 0 where
    unparsed : p ≡ none → r ≡ (err "Error parsing message", out) → Handled out p r
    rejected :
        {m : Message} {e : String}
        → p ≡ some m
        → response_for_received m ≡ err e
        → r ≡ (err "Error constructing response: Closing peer connection", out)
        → Handled out p r
    silent :
        {m : Message}
        → p ≡ some m
        → response_for_received m ≡ ok none
        → r ≡ (ok tt, out)
        → Handled out p r
    answered :
        {m reply : Message} {b : Bytes}
        → p ≡ some m
        → response_for_received m ≡ ok (some reply)
        → c.serialize reply ≡ some b
        → (w.send out b).0 ≡ true
        → r ≡ (ok tt, (w.send out b).1)
        → Handled out p r
    unwritten :
        {m reply : Message} {b : Bytes}
        → p ≡ some m
        → response_for_received m ≡ ok (some reply)
        → c.serialize reply ≡ some b
        → (w.send out b).0 ≡ false
        → r ≡ (err "Send failed: Closing peer connection", (w.send out b).1)
        → Handled out p r

  response-ne-panic : (m : Message) → response_for_received m ≢ panic
  unfolding response_for_received
  response-ne-panic (Message.ping m) h = ground arith
  response-ne-panic (Message.handshake m) h = ground arith
  response-ne-panic (Message.heartbeat m) h = ground arith

  respond-Handled :
      (out : w.Out) (msg : Bytes) (m : Message) (o : Outcome String (Option Message))
      → c.from_slice msg ≡ some m
      → response_for_received m ≡ o
      → ((m : Message) → c.serialize m ≢ none)
      → Handled out (c.from_slice msg) (handle_received c w out msg)
  unfolding handle_received as_bytes transmit
  respond-Handled out msg m (ok none) p e total = silent p e (rw (p, e))
  respond-Handled out msg m (ok (some reply)) p e total = elim (Option-cases (c.serialize reply)) [
    | inl none' ↦ absurd (total reply none')
    | inr (b, s) ↦ elim (Bool-cases (w.send out b).0) [
      | inl written ↦ answered p e s written (rw (p, e, s, written))
      | inr failed ↦ unwritten p e s failed (rw (p, e, s, failed))
    ]
  ]
  respond-Handled out msg m (err x) p e total = rejected p e (rw (p, e))
  respond-Handled out msg m panic p e total = absurd (response-ne-panic m e)

  -- Where the serializer never fails, a message is dealt with in one of five ways: if its bytes
  -- do not parse or the protocol refuses it, the error for that is returned and nothing is
  -- written; if it has no reply, nothing is written and there is no error; and a reply is given
  -- to the writer once, after which there is no error if the writer took it, and the error of
  -- the sending if it did not.
  pub handle_received-Handled :
      (out : w.Out) (msg : Bytes)
      → ((m : Message) → c.serialize m ≢ none)
      → Handled out (c.from_slice msg) (handle_received c w out msg)
  unfolding handle_received
  handle_received-Handled out msg total = elim (Option-cases (c.from_slice msg)) [
    | inl e ↦ unparsed e (rw e)
    | inr (m, e) ↦ respond-Handled out msg m (response_for_received m) e refl total
  ]

  -- So dealing with a message does not panic.
  pub handle_received-ne-panic :
      (out : w.Out) (msg : Bytes)
      → ((m : Message) → c.serialize m ≢ none)
      → (handle_received c w out msg).0 ≢ panic
  handle_received-ne-panic out msg total = elim (handle_received-Handled out msg total) [
    | unparsed p e ↦ rw e (λ h. cc)
    | rejected p x e ↦ rw e (λ h. cc)
    | silent p x e ↦ rw e (λ h. cc)
    | answered p x s y e ↦ rw e (λ h. cc)
    | unwritten p x s y e ↦ rw e (λ h. cc)
  ]

  -- If the codec reads back what it writes and both messages can be written, two nodes whose
  -- writers work complete the handshake in one exchange: the greeting is answered by exactly one
  -- message, and that one by none, and neither handler returns an error.
  pub handshake_completes {ℓ} :
      {Addr : Type ℓ} (a : Addr) (now : ℕ) (dialler listener : w.Out) (greeting answer : Bytes)
      (reliable : IsReliable w)
      → IsRoundTrip c
      → c.serialize (Message.handshake (handshake_of "helo" "0.1.0")) ≡ some greeting
      → c.serialize oleh ≡ some answer
      → let (r, listener') = handle_received c w listener greeting in
        (hello c a now ≡ ok greeting)
        × (r ≡ ok tt)
        × (reliable.sent listener' ≡ reliable.sent listener ++ (answer ∷ []))
        × (handle_received c w dialler answer ≡ (ok tt, dialler))
  unfolding handle_received hello as_bytes response_for_received transmit
  handshake_completes a now dialler listener greeting answer reliable codec g h =
      let helo = Message.handshake (handshake_of "helo" "0.1.0") in
      let heard = codec.from_slice-serialize helo greeting g in
      let answered' = codec.from_slice-serialize oleh answer h in
      let fine = reliable.send_ok listener answer in
      (rw g, rw (heard, h, fine), rw (heard, h) (reliable.sent-send listener answer), rw answered')
