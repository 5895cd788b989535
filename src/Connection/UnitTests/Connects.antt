-- ===== src/Connection/UnitTests/Connects.antt =====
-- The unit test of node/connection/src/lib.rs that has a node connect to another, over what the
-- system gives for the two ends of the socket. The assertions are made when both connections have
-- been started and neither has ended.
use braidpool.Base.{
  ℕ, ℕ_discrete, ◌≡◌, refl, ◌==◌, String, true, false, Option, some, List, [], ◌∷◌, ok, ◌>>=◌, ◌>>◌,
  UnitTest, assert, or_panic, get_elem?,
}
use braidpool.Protocol.Wire.{Codec}
use braidpool.Manager.{ConnectionManager, new, num_connections, insert}
use braidpool.Connection.Io.{Mpsc, Sink}
use braidpool.Connection.Listen.{Spawned, start_listen, connect}
use braidpool.Connection.Session.{start}
use braidpool.Connection.Flow.{reached}
use braidpool.Server.{Stream, session_of}
use braidpool.Sample.Tasks.{codec, mpsc, sink}

module _ {Bytes Addr : Type 0} (q : Mpsc Bytes) (c : Codec Bytes) (w : Sink Bytes)
    (dec : Discrete Addr) (dial : String → Option (Stream w))
    (resolve : String → Option (List Addr)) (accepted : Stream w × Addr) (now : ℕ) where
  -- What a spawned task has done to the table of its node.
  abbrev table_of : Spawned Bytes q Addr (Stream w) → ConnectionManager Addr
  table_of sp = (start q c w dec (new 3) sp.addr now (session_of sp) []).1

  abbrev it_should_run_connect_without_errors : UnitTest
  it_should_run_connect_without_errors = do
    let listener =
        start_listen q 32 true (record { spawned = []; permit = false }) (some accepted ∷ [])
    listened ← or_panic (get_elem? (reached listener).spawned 0)
    dialled ← connect q 32 dial resolve "localhost:6680"
    connected ← or_panic dialled
    assert (num_connections (table_of listened) == 1)
    assert (num_connections (table_of connected) == 1)

it_should_run_connect_without_errors_run :
    it_should_run_connect_without_errors mpsc codec sink ℕ_discrete
      (λ name. some ([], []))
      (λ name. some (6680 ∷ []))
      (([], []), 50000)
      1
    ≡ ok tt
unfolding start_listen connect start new insert num_connections
it_should_run_connect_without_errors_run = refl
