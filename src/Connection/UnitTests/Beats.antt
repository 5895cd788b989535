-- ===== src/Connection/UnitTests/Beats.antt =====
-- The unit test of `start_heartbeat` in node/connection/src/lib.rs. What the spawned tasks find is
-- not looked at there.
use braidpool.Base.{
  ℕ, ◌≡◌, refl, String, Option, some, List, ◌∷◌, ok, ◌>>=◌, ◌>>◌, UnitTest, assert, unwrap, is_none,
}
use braidpool.Protocol.Message.{Message}
use braidpool.Protocol.Heartbeat
use braidpool.Protocol.Wire.{Codec, as_bytes}
use braidpool.Manager.{new, insert}
use braidpool.Connection.Heartbeat.{Timer, start_heartbeat}

module _ {Bytes Addr : Type 0} (c : Codec Bytes) (t : Timer) (resolve : String → Option (List Addr))
    (to_string : Addr → String) (dec : Discrete Addr) (addr local : Addr) (now : ℕ) where
  abbrev it_should_start_heartbeat_without_errors_and_handle_ticks : UnitTest
  it_should_start_heartbeat_without_errors_and_handle_ticks = do
    let (inserted, start_manager) = insert dec (new 3) local (record { created_at = now })
    old ← unwrap inserted
    assert (is_none old)
    heart ← start_heartbeat c t resolve to_string (to_string addr) 1 now
    ok tt

  -- Where the address that was printed resolves to itself.
  it_should_start_heartbeat_without_errors_and_handle_ticks_lem :
      (rest : List Addr) (b : Bytes) (i : t.Interval)
      → resolve (to_string addr) ≡ some (addr ∷ rest)
      → c.serialize (Message.heartbeat (record { from = to_string addr; time = now })) ≡ some b
      → t.interval 1 ≡ some i
      → it_should_start_heartbeat_without_errors_and_handle_ticks ≡ ok tt
  unfolding start_heartbeat Heartbeat.start as_bytes insert new
  it_should_start_heartbeat_without_errors_and_handle_ticks_lem rest b i e h k = rw (e, h, k) refl
