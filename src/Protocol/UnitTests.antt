-- ===== src/Protocol/UnitTests.antt =====
-- The unit tests of node/protocol/src (lib.rs, handshake.rs, heartbeat.rs), over any codec that
-- reads back what it writes and any address, and that they pass.
use braidpool.Base.{
  ℕ, ◌≡◌, refl, ◌==◌, ◌&&◌, Bool, true, false, String, Option, none, some, Outcome, ok, err, ◌>>=◌,
  UnitTest, assert, unwrap, or_panic, str_eq,
}
use braidpool.Protocol.Message.{Message}
use braidpool.Protocol.Ping
use braidpool.Protocol.Ping.{ping_of}
use braidpool.Protocol.Handshake
use braidpool.Protocol.Handshake.{handshake_of}
use braidpool.Protocol.Heartbeat
use braidpool.Protocol.Wire.{Codec, IsRoundTrip, as_bytes, from_bytes, response_for_received}

-- `derive(PartialEq)`
abbrev eq : Message → Message → Bool
eq (Message.ping m) (Message.ping n) = str_eq m.message n.message
eq (Message.handshake m) (Message.handshake n) =
    str_eq m.message n.message && str_eq m.version n.version
eq (Message.heartbeat m) (Message.heartbeat n) = str_eq m.from n.from && (m.time == n.time)
eq _ _ = false

abbrev option_eq : Option Message → Option Message → Bool
option_eq none none = true
option_eq (some m) (some n) = eq m n
option_eq _ _ = false

abbrev result_eq : Outcome String (Option Message) → Outcome String (Option Message) → Bool
result_eq (ok m) (ok n) = option_eq m n
result_eq (err e) (err f) = str_eq e f
result_eq _ _ = false

module _ {Bytes : Type 0} (c : Codec Bytes) where
  -- `PingMessage` with "ping", through its own serializer.
  abbrev it_serialized_ping_message : UnitTest
  it_serialized_ping_message = do
    b ← or_panic (c.serialize (ping_of "ping"))
    msg ← unwrap (from_bytes c b)
    assert (eq msg (ping_of "ping"))

  abbrev it_invoked_received_message_after_deseralization : UnitTest
  it_invoked_received_message_after_deseralization = do
    bytes ← as_bytes c (ping_of "ping")
    b ← or_panic bytes
    msg ← unwrap (from_bytes c b)
    response ← unwrap (response_for_received msg)
    assert (option_eq response (some (ping_of "pong")))

  it_serialized_ping_message_lem :
      (b : Bytes)
      → IsRoundTrip c
      → c.serialize (ping_of "ping") ≡ some b
      → it_serialized_ping_message ≡ ok tt
  unfolding from_bytes
  it_serialized_ping_message_lem b r e = rw (e, r.from_slice-serialize (ping_of "ping") b e) refl

  it_invoked_received_message_after_deseralization_lem :
      (b : Bytes)
      → IsRoundTrip c
      → c.serialize (ping_of "ping") ≡ some b
      → it_invoked_received_message_after_deseralization ≡ ok tt
  unfolding from_bytes as_bytes response_for_received
  it_invoked_received_message_after_deseralization_lem b r e =
      rw (e, r.from_slice-serialize (ping_of "ping") b e) refl

-- The address is "127.0.0.1:6680" there, and the handshake does not look at it.
module _ {Addr : Type 0} (addr : Addr) (now : ℕ) where
  abbrev it_matches_start_message_for_ping : UnitTest
  it_matches_start_message_for_ping = do
    start_message ← or_panic (Ping.start addr now)
    assert (eq start_message (ping_of "ping"))

  abbrev it_matches_start_message_for_handshake : UnitTest
  it_matches_start_message_for_handshake = do
    start_message ← or_panic (Handshake.start addr now)
    assert (eq start_message (Message.handshake (handshake_of "helo" "0.1.0")))

  abbrev it_matches_response_message_for_correct_handshake_start : UnitTest
  it_matches_response_message_for_correct_handshake_start = do
    start_message ← or_panic (Handshake.start addr now)
    response ← unwrap (response_for_received start_message)
    assert (option_eq response (some (Message.handshake (handshake_of "oleh" "0.1.0"))))

  abbrev it_matches_response_message_for_correct_heartbeat_start : (Addr → String) → UnitTest
  it_matches_response_message_for_correct_heartbeat_start to_string = do
    start_message ← or_panic (Heartbeat.start to_string addr now)
    response ← unwrap (response_for_received start_message)
    assert (option_eq response none)

  abbrev asserts_from : Option Message → UnitTest
  asserts_from (some (Message.heartbeat m)) = assert (str_eq m.from "127.0.0.1:6680")
  asserts_from _ = ok tt

  abbrev it_matches_start_message_for_heartbeat : (Addr → String) → UnitTest
  it_matches_start_message_for_heartbeat to_string =
      asserts_from (Heartbeat.start to_string addr now)

  it_matches_start_message_for_ping_lem : it_matches_start_message_for_ping ≡ ok tt
  unfolding Ping.start
  it_matches_start_message_for_ping_lem = refl

  it_matches_start_message_for_handshake_lem : it_matches_start_message_for_handshake ≡ ok tt
  unfolding Handshake.start
  it_matches_start_message_for_handshake_lem = refl

  it_matches_response_message_for_correct_handshake_start_lem :
      it_matches_response_message_for_correct_handshake_start ≡ ok tt
  unfolding Handshake.start response_for_received
  it_matches_response_message_for_correct_handshake_start_lem = refl

  it_matches_response_message_for_correct_heartbeat_start_lem :
      (to_string : Addr → String)
      → it_matches_response_message_for_correct_heartbeat_start to_string ≡ ok tt
  unfolding Heartbeat.start response_for_received
  it_matches_response_message_for_correct_heartbeat_start_lem to_string = refl

  it_matches_start_message_for_heartbeat_lem :
      (to_string : Addr → String)
      → to_string addr ≡ "127.0.0.1:6680"
      → it_matches_start_message_for_heartbeat to_string ≡ ok tt
  unfolding Heartbeat.start
  it_matches_start_message_for_heartbeat_lem to_string e = rw e refl

abbrev it_matches_error_response_message_for_incorrect_handshake_start : UnitTest
it_matches_error_response_message_for_incorrect_handshake_start =
    let start_message = Message.handshake (handshake_of "bad-message" "0.1.0") in
    assert (result_eq (response_for_received start_message) (err "Bad message"))

abbrev it_matches_error_response_message_for_incorrect_handshake_version : UnitTest
it_matches_error_response_message_for_incorrect_handshake_version =
    let start_message = Message.handshake (handshake_of "helo" "0.2.0") in
    assert (result_eq (response_for_received start_message) (err "Bad message"))

it_matches_error_response_message_for_incorrect_handshake_start_lem :
    it_matches_error_response_message_for_incorrect_handshake_start ≡ ok tt
unfolding response_for_received
it_matches_error_response_message_for_incorrect_handshake_start_lem = refl

it_matches_error_response_message_for_incorrect_handshake_version_lem :
    it_matches_error_response_message_for_incorrect_handshake_version ≡ ok tt
unfolding response_for_received
it_matches_error_response_message_for_incorrect_handshake_version_lem = refl
