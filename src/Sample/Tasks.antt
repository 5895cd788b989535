-- ===== src/Sample/Tasks.antt =====
-- A codec, channels, a writer, a broadcast channel and a timer, for node/connection/src.
use braidpool.Base.{
  ℕ, zero, suc, ◌+◌, ◌-◌, ◌≢◌, refl, true, false, Option, none, some, List, [], ◌∷◌, ◌++◌, Outcome,
  ok, err, arith, length, if◌then◌else◌, leb, ltb,
}
use braidpool.Protocol.Message.{Message}
use braidpool.Protocol.Wire.{Codec, IsRoundTrip}
use braidpool.Connection.Io.{
  Poll, ready, pending, TrySendError, full, closed, Mpsc, Backlog, IsMpsc, Sink,
}
use braidpool.Connection.Answers.{IsReliable}
use braidpool.Connection.Heartbeat.{Broadcast, Timer}
use braidpool.Connection.Pulse.{IsBroadcast}
use braidpool.Run.Startup.{IsTimer}

-- Bytes are a message, or `none` where they are none.
abbrev pub Bytes : Type 0
Bytes = Option Message

abbrev pub codec : Codec Bytes
codec = record { serialize = λ m. some (some m); from_slice = λ b. b }

abbrev pub codec-IsRoundTrip : IsRoundTrip codec
codec-IsRoundTrip = record { from_slice-serialize = λ m b h. ground arith }

abbrev pub codec_total : (m : Message) → codec.serialize m ≢ none
codec_total m h = ground arith

abbrev fresh : ℕ → Option (Backlog Bytes)
fresh zero = none
fresh (suc n) = some (record { queue = []; limit = suc n; shut = false })

abbrev offer : Backlog Bytes → Bytes → Outcome TrySendError (Unit {0}) × Backlog Bytes
offer ch b =
    if ch.shut
    then (err closed, ch)
    else if leb ch.limit (length ch.queue)
    then (err full, ch)
    else (ok tt, record ch { queue = ch.queue ++ (b ∷ []) })

abbrev take_from : Backlog Bytes → List Bytes → Poll (Option Bytes) × Backlog Bytes
take_from ch [] = (if ch.shut then ready none else pending, ch)
take_from ch (b ∷ rest) = (ready (some b), record ch { queue = rest })

abbrev pub mpsc : Mpsc Bytes
mpsc = record {
  Chan = Backlog Bytes;
  channel = fresh;
  try_send = offer;
  recv = λ ch. take_from ch ch.queue;
  close = λ ch. record ch { shut = true };
}

abbrev pub mpsc-IsMpsc : IsMpsc mpsc
mpsc-IsMpsc = record {
  look = λ ch. ch;
  channel_zero = refl;
  channel_suc = λ n. (record { queue = []; limit = suc n; shut = false }, refl, refl);
  try_send_shut = λ ch b h. ground arith;
  try_send_full = λ ch b h k. ground arith;
  try_send_room = λ ch b h k. ground arith;
  recv_some = λ ch b rest h. ground arith;
  recv_none = λ ch h k. ground arith;
  recv_pending = λ ch h k. ground arith;
  close_lem = λ ch. refl;
}

abbrev pub sink : Sink Bytes
sink = record {
  Out = List Bytes;
  send = λ out b. (true, out ++ (b ∷ []));
  close = λ out. (true, out);
}

abbrev pub sink-IsReliable : IsReliable sink
sink-IsReliable = record { sent = λ out. out; send_ok = λ out b. refl; sent-send = λ out b. refl }

abbrev hub : ℕ → Option ℕ
hub zero = none
hub (suc n) = some 0

-- A sender is the number of its subscribers.
abbrev pub broadcast : Broadcast Bytes
broadcast = record {
  Sender = ℕ;
  channel = hub;
  subscribe = λ s. s + 1;
  unsubscribe = λ s. s - 1;
  send = λ s m. (ltb 0 s, s);
}

abbrev pub broadcast-IsBroadcast : IsBroadcast broadcast
broadcast-IsBroadcast = record {
  receivers = λ s. s;
  channel_zero = refl;
  channel_suc = λ n. (0, refl, refl);
  receivers-subscribe = λ s. refl;
  receivers-unsubscribe = λ s h. omega arith;
  send_lem = λ s m. refl;
  receivers-send = λ s m. refl;
}

abbrev period : ℕ → Option ℕ
period zero = none
period (suc n) = some (suc n)

abbrev pub timer : Timer
timer = record { Interval = ℕ; interval = period; reset = λ i. i }

abbrev pub timer-IsTimer : IsTimer timer
timer-IsTimer = record { interval_zero = refl; interval_suc = λ n. (suc n, refl) }
