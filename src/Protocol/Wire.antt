-- ===== src/Protocol/Wire.antt =====
-- `Message` of node/protocol/src/lib.rs: the dispatch of the replies, and the wire format. The
-- serializer is the crate flexbuffers behind serde's derive, which is not part of the repository:
-- a `Codec` stands for it.
use braidpool.Base.{◌≡◌, String, Option, some, Outcome, ok, or_panic, ok_or, ◌>>=◌}
use braidpool.Protocol.Message.{Message}
use braidpool.Protocol.Ping
use braidpool.Protocol.Handshake
use braidpool.Protocol.Heartbeat

pub record Codec (Bytes : Type 0) : Type 0 where
  -- `serialize`; `none` where it returns an error.
  pub serialize : Message → Option Bytes
  -- `flexbuffers::from_slice`; `none` where it returns an error.
  pub from_slice : Bytes → Option Message

-- What the crate documents: a message that was written is read back.
pub record IsRoundTrip {Bytes : Type 0} (c : Codec Bytes) : Type 0 where
  pub from_slice-serialize :
      (m : Message) (b : Bytes) → c.serialize m ≡ some b → c.from_slice b ≡ some m

-- The error of `from_bytes`, of which the callers read nothing.
pub data ParseError : Type 0 where
  parse_error : ParseError

module _ {Bytes : Type 0} (c : Codec Bytes) where
  -- The `unwrap` panics where the serializer fails, so the result is never `None`.
  unfoldable pub as_bytes {ℓ} : {E : Type ℓ} → Message → Outcome E (Option Bytes)
  as_bytes m = do b ← or_panic (c.serialize m); ok (some b)

  unfoldable pub from_bytes : Bytes → Outcome ParseError Message
  from_bytes b = do m ← ok_or (c.from_slice b) parse_error; ok m

unfoldable pub response_for_received : Message → Outcome String (Option Message)
unfolding Ping.response_for_received Handshake.response_for_received Heartbeat.response_for_received
response_for_received (Message.ping m) = Ping.response_for_received m
response_for_received (Message.handshake m) = Handshake.response_for_received m
response_for_received (Message.heartbeat m) = Heartbeat.response_for_received m
