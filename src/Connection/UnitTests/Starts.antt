-- ===== src/Connection/UnitTests/Starts.antt =====
-- The unit tests of `start` and `start_message_handler` in node/connection/src/lib.rs, for any order
-- in which the two futures and the branches are polled.
use braidpool.Base.{
  ℕ, ℕ_discrete, ◌≡◌, ◌≢◌, refl, ap, ◌==◌, Bool, true, false, String, none, some, List, [], ◌∷◌,
  Outcome, ok, panic, ◌>>=◌, ◌>>◌, UnitTest, assert, or_panic, str_eq, length, replicate,
}
use braidpool.Protocol.Message.{Message}
use braidpool.Protocol.Wire.{Codec, as_bytes}
use braidpool.Protocol.Handshake
use braidpool.Manager.{insert, remove, new, num_connections, get, ConnectionManager}
use braidpool.Connection.Io.{Mpsc, IsMpsc, Sink, Progress, going, returned, crashed}
use braidpool.Connection.Handler.{
  Handler, Branch, from_channel, start_message_handler, poll_handler, handle_received,
}
use braidpool.Connection.Session.{
  Session, poll_session, Turn, reads, Stage, turned_away, serving, closed, died, start,
}
use braidpool.Connection.Session.Registration.{start_restores, start-IsOrderly}
use braidpool.Connection.UnitTests.{greeting}
use braidpool.Link.Side.{helo}
use braidpool.Sample.Tasks.{codec, mpsc, sink}

module _ {Bytes : Type 0} (q : Mpsc Bytes) (w : Sink Bytes) (out : w.Out) where
  -- The sender of the broadcasts is gone, so every poll of the receiver is an error.
  abbrev handler_on : q.Chan → ℕ → Handler Bytes q w
  handler_on channel polls = record {
    chan = channel;
    announcements = replicate polls none;
    out = out;
    channel_on = true;
    announce_on = true;
  }

  abbrev chan_of : Stage (Session Bytes q w) → Outcome ⊥ q.Chan
  chan_of turned_away = panic
  chan_of (serving s) = ok s.handler.chan
  chan_of (closed s) = ok s.handler.chan
  chan_of (died s) = ok s.handler.chan

  -- What the task with the handler asserts once the handler has returned.
  abbrev asserts_text : Progress (Handler Bytes q w) → String → UnitTest
  asserts_text (going h) text = ok tt
  asserts_text (returned e h) text = assert (str_eq e text)
  asserts_text (crashed h) text = panic

module _ {Bytes Addr : Type 0} (q : Mpsc Bytes) (c : Codec Bytes) (w : Sink Bytes)
    (dec : Discrete Addr) (eq : Bytes → Bytes → Bool) (addr : Addr) (now : ℕ) (out : w.Out)
    (hello_world : Bytes) (is_closed : q.Chan → Bool) where
  -- The two messages that the tests send, where both are sent before they are handled.
  abbrev with_both : q.Chan → Bytes → q.Chan
  with_both channel msg = (q.try_send (q.try_send channel msg).1 hello_world).1

  -- The task that the test spawns.
  abbrev message_handler_task : q.Chan → Bytes → List Branch → UnitTest
  message_handler_task channel msg bs =
      asserts_text q w out
        (start_message_handler q c w (handler_on q w out (with_both channel msg) (length bs)) bs)
        "Error parsing message"

  -- `let _ = spawn_handle.await`: a panic of the task is a value here, and is dropped.
  abbrev ignores : UnitTest → UnitTest
  ignores _ = ok tt

  abbrev it_should_handle_message_received_on_channel : List Branch → UnitTest
  it_should_handle_message_received_on_channel bs = do
    msg ← greeting q c eq addr now
    channel ← or_panic (q.channel 3)
    ignores (message_handler_task channel msg bs)

  abbrev idle_start :
      q.Chan → Bytes → List Turn → Stage (Session Bytes q w) × ConnectionManager Addr
  idle_start channel msg ts =
      start q c w dec (new 3) addr now
        (record { reader = []; handler = handler_on q w out (with_both channel msg) (length ts) })
        ts

  abbrev it_should_add_to_connection_manager_on_starting_connection : List Turn → UnitTest
  it_should_add_to_connection_manager_on_starting_connection ts = do
    msg ← greeting q c eq addr now
    channel ← or_panic (q.channel 3)
    assert (num_connections (idle_start channel msg ts).1 == 0)

  abbrev flooded_start :
      q.Chan → Bytes → List Turn → Stage (Session Bytes q w) × ConnectionManager Addr
  flooded_start channel msg ts =
      start q c w dec (new 3) addr now
        (record {
          reader = some msg ∷ some msg ∷ [];
          handler = handler_on q w out channel (length ts);
        })
        ts

  abbrev it_should_shutdown_connection_if_peer_is_flooding_it : List Turn → UnitTest
  it_should_shutdown_connection_if_peer_is_flooding_it ts = do
    msg ← greeting q c eq addr now
    channel ← or_panic (q.channel 1)
    ended ← chan_of q w out (flooded_start channel msg ts).0
    assert (is_closed ended)
    assert (num_connections (flooded_start channel msg ts).1 == 0)

  none_left : (m : ConnectionManager Addr) → m ≡ new 3 → num_connections m ≡ 0
  unfolding new num_connections
  none_left m e = rw e refl

  fresh : get dec (new 3) addr ≡ none
  unfolding new get
  fresh = refl

  module _ (L : IsMpsc q) (msg : Bytes) (g : c.serialize helo ≡ some msg) (ch : q.Chan)
      (ts : List Turn) where
    -- The test passes whatever its task finds.
    it_should_handle_message_received_on_channel_lem :
        (bs : List Branch)
        → q.channel 3 ≡ some ch
        → it_should_handle_message_received_on_channel bs ≡ ok tt
    unfolding Handshake.start as_bytes
    it_should_handle_message_received_on_channel_lem bs made = rw (g, made) refl

    -- If the connection has been closed when its turns are over, the test passes.
    it_should_add_to_connection_manager_on_starting_connection_lem :
        (s' : Session Bytes q w) (m' : ConnectionManager Addr)
        → q.channel 3 ≡ some ch
        → idle_start ch msg ts ≡ (closed s', m')
        → it_should_add_to_connection_manager_on_starting_connection ts ≡ ok tt
    unfolding Handshake.start as_bytes
    it_should_add_to_connection_manager_on_starting_connection_lem s' m' made ended =
        let idle : Session Bytes q w = record {
          reader = [];
          handler = handler_on q w out (with_both ch msg) (length ts);
        } in
        let none' = none_left m' (start_restores q c w dec (new 3) addr now idle ts fresh ended) in
        rw (g, made, ended, none') refl

    it_should_shutdown_connection_if_peer_is_flooding_it_lem :
        (total : (m : Message) → c.serialize m ≢ none) (s' : Session Bytes q w)
        (m' : ConnectionManager Addr)
        → ((ch' : q.Chan) → is_closed ch' ≡ (L.look ch').shut)
        → q.channel 1 ≡ some ch
        → (L.look ch).shut ≡ false
        → flooded_start ch msg ts ≡ (closed s', m')
        → it_should_shutdown_connection_if_peer_is_flooding_it ts ≡ ok tt
    unfolding Handshake.start as_bytes
    it_should_shutdown_connection_if_peer_is_flooding_it_lem total s' m' shows made open' ended =
        let flooded : Session Bytes q w = record {
          reader = some msg ∷ some msg ∷ [];
          handler = handler_on q w out ch (length ts);
        } in
        let none' =
          none_left m' (start_restores q c w dec (new 3) addr now flooded ts fresh ended) in
        let orderly =
          start-IsOrderly L c w total dec (new 3) addr now flooded ts
            (record { is_open = open'; on = refl }) in
        let shut = rw (ap (λ r. r.0) ended) at orderly in
        rw (g, made, ended, shows s'.handler.chan, shut, none') refl

-- The handler returns another text than the task names: its assertion fails, unnoticed.
message_handler_task_run :
    message_handler_task mpsc codec sink ℕ_discrete
      (λ a b. true)
      8080
      1
      []
      none
      (λ ch. ch.shut)
      (record { queue = []; limit = 3; shut = false })
      (some helo)
      (from_channel ∷ from_channel ∷ [])
    ≡ panic
unfolding start_message_handler poll_handler handle_received
message_handler_task_run = refl

it_should_add_to_connection_manager_on_starting_connection_run :
    it_should_add_to_connection_manager_on_starting_connection mpsc codec sink ℕ_discrete
      (λ a b. true)
      8080
      1
      []
      none
      (λ ch. ch.shut)
      (reads ∷ [])
    ≡ ok tt
unfolding Handshake.start as_bytes start new num_connections ℕ_discrete insert poll_session remove
it_should_add_to_connection_manager_on_starting_connection_run = refl

it_should_shutdown_connection_if_peer_is_flooding_it_run :
    it_should_shutdown_connection_if_peer_is_flooding_it mpsc codec sink ℕ_discrete
      (λ a b. true)
      8080
      1
      []
      none
      (λ ch. ch.shut)
      (reads ∷ reads ∷ [])
    ≡ ok tt
unfolding Handshake.start as_bytes start new num_connections ℕ_discrete insert poll_session remove
it_should_shutdown_connection_if_peer_is_flooding_it_run = refl
