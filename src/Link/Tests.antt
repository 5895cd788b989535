-- ===== src/Link/Tests.antt =====
-- Two nodes that greet each other (node/connection/src/lib.rs) on small inputs.
use braidpool.Base.{ℕ, ◌≤◌, ◌≡◌, ◌⊎◌, refl, true, false, some, List, [], ◌∷◌, ◌++◌, arith}
use braidpool.Protocol.Wire.{as_bytes}
use braidpool.Protocol.Replies.{oleh}
use braidpool.Sample.Tasks.{
  Bytes, codec, codec-IsRoundTrip, mpsc, mpsc-IsMpsc, sink, sink-IsReliable,
}
use braidpool.Connection.Io.{going}
use braidpool.Connection.Handler.{poll_handler, from_channel, from_broadcast}
use braidpool.Connection.Session.{Session, poll_session, greet, hello}
use braidpool.Link.{Link, LinkMove, a_reads, b_reads, a_handles, b_handles, step, run}
use braidpool.Link.Side.{Words, helo}
use braidpool.Link.Delivery.{taken_a, taken_b, link_delivers}
use braidpool.Link.Handshakes.{
  IsNew, finish, handshakes_hold, handshake_when_quiet, handshake_finishes,
}

abbrev words : Words codec
words = record {
  first = some helo;
  second = some oleh;
  first_lem = refl;
  second_lem = refl;
  codec = codec-IsRoundTrip;
}

abbrev session : List Bytes → Session Bytes mpsc sink
session out = record {
  reader = [];
  handler = record {
    chan = record { queue = []; limit = 32; shut = false };
    announcements = [];
    out = out;
    channel_on = true;
    announce_on = true;
  };
}

session-IsNew : IsNew mpsc-IsMpsc sink-IsReliable words (session [])
session-IsNew = record {
  is_open = refl;
  room = omega arith;
  queued = refl;
  said = refl;
  channel_on = refl;
  silence = refl;
}

abbrev greeted : Session Bytes mpsc sink
greeted = session (some helo ∷ [])

session-greet :
    (addr now : ℕ) → greet mpsc codec sink (session []) [] (hello codec addr now) ≡ going greeted
unfolding greet hello as_bytes
session-greet addr now = refl

abbrev linked : Link mpsc sink
linked = record { a = greeted; b = greeted; read_a = 0; read_b = 0 }

-- The one end hears the other, answers, and is not heard yet.
abbrev moves : List LinkMove
moves = a_reads ∷ a_handles from_channel ∷ b_handles from_broadcast ∷ a_reads ∷ b_reads ∷ []

handshakes_hold_example :
    (l : Link mpsc sink) × (run mpsc codec sink-IsReliable linked moves ≡ going l)
    × ((l.a.handler.out ≡ some helo ∷ []) ⊎ (l.a.handler.out ≡ some helo ∷ some oleh ∷ []))
    × ((l.b.handler.out ≡ some helo ∷ []) ⊎ (l.b.handler.out ≡ some helo ∷ some oleh ∷ []))
handshakes_hold_example =
    handshakes_hold mpsc-IsMpsc sink-IsReliable words 7 8 1 2 (session []) (session []) greeted
      greeted session-IsNew session-IsNew (session-greet 7 1) (session-greet 8 2) moves

handshake_finishes_example :
    (l : Link mpsc sink) × (run mpsc codec sink-IsReliable linked (moves ++ finish) ≡ going l)
    × (l.a.handler.out ≡ some helo ∷ some oleh ∷ [])
    × (l.b.handler.out ≡ some helo ∷ some oleh ∷ [])
    × (l.a.handler.chan.queue ≡ [])
    × (l.b.handler.chan.queue ≡ [])
handshake_finishes_example =
    handshake_finishes mpsc-IsMpsc sink-IsReliable words 7 8 1 2 (session []) (session []) greeted
      greeted session-IsNew session-IsNew (session-greet 7 1) (session-greet 8 2) moves

abbrev all_moves : List LinkMove
all_moves =
    a_reads
    ∷ b_reads
    ∷ a_handles from_channel
    ∷ b_handles from_channel
    ∷ b_reads
    ∷ a_reads
    ∷ b_handles from_channel
    ∷ a_handles from_channel
    ∷ []

abbrev greeted_back : Session Bytes mpsc sink
greeted_back = session (some helo ∷ some oleh ∷ [])

abbrev quiet : Link mpsc sink
quiet = record { a = greeted_back; b = greeted_back; read_a = 2; read_b = 2 }

all_moves-quiet : run mpsc codec sink-IsReliable linked all_moves ≡ going quiet
unfolding run step poll_session poll_handler
all_moves-quiet = refl

handshake_when_quiet_example :
    (greeted_back.handler.out ≡ some helo ∷ some oleh ∷ [])
    × (greeted_back.handler.out ≡ some helo ∷ some oleh ∷ [])
handshake_when_quiet_example =
    handshake_when_quiet mpsc-IsMpsc sink-IsReliable words 7 8 1 2 (session []) (session []) greeted
      greeted session-IsNew session-IsNew (session-greet 7 1) (session-greet 8 2) all_moves quiet
      all_moves-quiet refl refl refl refl

link_delivers_example :
    (taken_a mpsc-IsMpsc codec sink-IsReliable linked all_moves ++ [] ≡ some helo ∷ some oleh ∷ [])
    × (2 ≤ 2)
    × (taken_b mpsc-IsMpsc codec sink-IsReliable linked all_moves ++ []
        ≡ some helo ∷ some oleh ∷ [])
    × (2 ≤ 2)
link_delivers_example =
    link_delivers mpsc-IsMpsc codec sink-IsReliable greeted greeted all_moves quiet refl refl
      all_moves-quiet
