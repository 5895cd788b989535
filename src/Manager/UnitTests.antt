-- ===== src/Manager/UnitTests.antt =====
-- The unit tests of node/connection/src/connection_manager.rs, over any two addresses and any
-- reading of the clock, and that they pass.
use braidpool.Base.{
  ℕ, ◌≡◌, ◌≢◌, refl, ◌==◌, ok, ◌>>=◌, ◌>>◌, length, arith, UnitTest, assert, unwrap, has_err,
  is_some, is_none,
}
use braidpool.Manager.{Metadata, new, num_connections, insert, remove, get}

module _ {Addr : Type 0} (dec : Discrete Addr) (local other : Addr) (now : ℕ) where
  abbrev s : Metadata
  s = record { created_at = now }

  abbrev it_should_create_connections_map : UnitTest
  it_should_create_connections_map =
      let conns = new {Addr = Addr} 10 in assert (length conns.shared_state == 0)

  abbrev it_should_insert_new_address : UnitTest
  it_should_insert_new_address =
      let (inserted, manager) = insert dec (new 10) local s in
      let (removed, manager') = remove dec manager local in
      do
        old ← unwrap inserted
        assert (is_none old)
        assert (num_connections manager == 1)
        assert (is_some (get dec manager local))
        assert (is_none (get dec manager other))
        assert (is_some removed)
        assert (num_connections manager' == 0)

  abbrev it_should_not_insert_new_address_when_limit_reached : UnitTest
  it_should_not_insert_new_address_when_limit_reached =
      let (inserted, manager) = insert dec (new 1) local s in
      let (refused, manager') = insert dec manager other s in
      do
        old ← unwrap inserted
        assert (is_none old)
        assert (num_connections manager == 1)
        failed ← has_err refused
        assert failed
        assert (num_connections manager' == 1)

  it_should_create_connections_map_lem : it_should_create_connections_map ≡ ok tt
  unfolding new
  it_should_create_connections_map_lem = refl

  it_should_insert_new_address_lem : local ≢ other → it_should_insert_new_address ≡ ok tt
  unfolding new insert remove get num_connections
  it_should_insert_new_address_lem ne = ground arith

  it_should_not_insert_new_address_when_limit_reached_lem :
      it_should_not_insert_new_address_when_limit_reached ≡ ok tt
  unfolding new insert num_connections
  it_should_not_insert_new_address_when_limit_reached_lem = ground arith
