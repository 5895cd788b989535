-- ===== src/Connection/Tests/Sessions.antt =====
-- `start` of node/connection/src/lib.rs on small inputs.
use braidpool.Base.{All, ℕ, ◌≡◌, refl, true, false, none, some, List, [], ◌∷◌, ◌++◌, ℕ_discrete}
use braidpool.Protocol.Message.{Message}
use braidpool.Protocol.Ping.{ping_of}
use braidpool.Protocol.Handshake.{handshake_of}
use braidpool.Manager.{ConnectionManager, new, insert, remove, get}
use braidpool.Manager.Invariant.{new-IsValid}
use braidpool.Sample.Tasks.{sink-IsReliable, Bytes, codec, codec_total, mpsc, mpsc-IsMpsc, sink}
use braidpool.Protocol.Replies.{oleh}
use braidpool.Protocol.Wire.{response_for_received}
use braidpool.Connection.Io.{going}
use braidpool.Connection.Backlog.{
  IsAcceptable, silent, answered, Serves, replies_to, backlog_answered,
}
use braidpool.Connection.Handler.{from_channel, from_broadcast, poll_handler}
use braidpool.Connection.Session.{Session, Turn, reads, handles, select, poll_session, start}
use braidpool.Connection.Session.Registration.{
  Registers, start-Registers, start_restores, IsOrderly, start-IsOrderly,
}
use braidpool.Connection.Flow.{reached, queued}
use braidpool.Connection.Delivery.{taken, select-delivers}
use braidpool.Connection.Writes.{all_due, select-writes}

abbrev ping : Bytes
ping = some (ping_of "ping")

-- A peer that sends two messages and leaves.
abbrev session : Session Bytes mpsc sink
session = record {
  reader = some ping ∷ some ping ∷ [];
  handler = record {
    chan = record { queue = []; limit = 2; shut = false };
    announcements = none ∷ some ping ∷ [];
    out = [];
    channel_on = true;
    announce_on = true;
  };
}

abbrev turns : List Turn
turns =
    reads
    ∷ handles from_broadcast
    ∷ reads
    ∷ handles from_channel
    ∷ handles from_channel
    ∷ handles from_broadcast
    ∷ reads
    ∷ []

start-Registers_example :
    Registers mpsc codec sink ℕ_discrete
      (new 10)
      7
      1
      7
      (start mpsc codec sink ℕ_discrete (new 10) 7 1 session turns)
start-Registers_example =
    start-Registers mpsc codec sink ℕ_discrete (new 10) 7 1 session turns 7
      (new-IsValid ℕ_discrete 10)

start-IsOrderly_example :
    IsOrderly mpsc-IsMpsc codec sink codec_total ℕ_discrete
      (start mpsc codec sink ℕ_discrete (new 10) 7 1 session turns).0
start-IsOrderly_example =
    start-IsOrderly mpsc-IsMpsc codec sink codec_total ℕ_discrete (new 10) 7 1 session turns
      (record { is_open = refl; on = refl })

-- The session at the end of its turns, with what was written to the peer.
abbrev ended : Session Bytes mpsc sink
ended = record {
  reader = [];
  handler = record {
    chan = record { queue = []; limit = 2; shut = true };
    announcements = [];
    out =
        some (Message.handshake (handshake_of "helo" "0.1.0"))
        ∷ some (ping_of "pong")
        ∷ some (ping_of "pong")
        ∷ ping
        ∷ [];
    channel_on = true;
    announce_on = true;
  };
}

start_restores_example : ◌≡◌ {A = ConnectionManager ℕ} (new 10) (new 10)
unfolding start get new insert remove poll_session poll_handler ℕ_discrete
start_restores_example =
    start_restores mpsc codec sink ℕ_discrete (new 10) 7 1 session turns {s' = ended} {m' = new 10}
      refl refl

select-delivers_example :
    (rest : List Bytes) × (taken mpsc-IsMpsc codec sink session turns
        ++ (queued mpsc-IsMpsc codec sink (reached (select mpsc codec sink session turns)) ++ rest)
      ≡ ping ∷ ping ∷ [])
select-delivers_example = select-delivers mpsc-IsMpsc codec sink session turns

select-writes_example :
    (reached (select mpsc codec sink session turns)).handler.out
    ≡ [] ++ all_due mpsc codec sink-IsReliable session turns
select-writes_example = select-writes mpsc codec sink-IsReliable session turns

-- A ping and the answer to a greeting wait to be handled.
abbrev busy : Session Bytes mpsc sink
busy = record session {
  handler = record (session.handler) {
    chan = record { queue = ping ∷ some oleh ∷ []; limit = 2; shut = false };
  };
}

busy-IsAcceptable : All (IsAcceptable mpsc-IsMpsc codec sink-IsReliable) (ping ∷ some oleh ∷ [])
unfolding response_for_received
busy-IsAcceptable = (answered refl refl refl, (silent refl refl, tt))

backlog_answered_example :
    (s' : Session Bytes mpsc sink) × (select mpsc codec sink busy
        (handles from_channel ∷ handles from_channel ∷ [])
      ≡ going s')
    × Serves mpsc-IsMpsc codec sink-IsReliable []
        ([] ++ replies_to mpsc-IsMpsc codec sink-IsReliable (ping ∷ some oleh ∷ []))
        s'
backlog_answered_example =
    backlog_answered mpsc-IsMpsc codec sink-IsReliable busy refl refl busy-IsAcceptable
