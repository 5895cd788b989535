-- ===== src/Config/UnitTests.antt =====
-- The unit tests of node/config/src/lib.rs, over any parser of TOML and any file system, and that
-- they pass where these give what TOML and the files of the repository have.
use braidpool.Base.{
  ◌≡◌, refl, ◌==◌, ◌&&◌, Bool, true, false, String, Option, none, some, List, [], ◌∷◌, ok, ◌>>=◌,
  ◌>>◌, UnitTest, assert, or_panic, is_none, str_eq, length,
}
use braidpool.Config.{
  Config, NetworkTable, PeerTable, Document, Disk, network_default, peer_default, config_default,
  parse_config_from_string, load_config_from_file, get_bind_address, read_file, config_of,
}

-- The assertions that seven of the tests share.
abbrev asserts_defaults : Config → UnitTest
asserts_defaults conf = do
  assert (str_eq conf.network.bind "localhost")
  assert (conf.network.port == 6680)
  assert (length conf.peer.seeds == 0)
  assert (conf.peer.max_peer_count == 10)
  assert (conf.peer.max_pending_messages == 32)
  assert (conf.peer.max_pending_send_to_all == 128)
  assert (conf.peer.heartbeat_interval == 1000)

-- `assert_eq!` on the seeds.
abbrev texts_eq : List String → List String → Bool
texts_eq [] [] = true
texts_eq (s ∷ ss) (t ∷ ts) = str_eq s t && texts_eq ss ts
texts_eq _ _ = false

abbrev it_should_load_default_config_correctly : UnitTest
it_should_load_default_config_correctly = asserts_defaults config_default

-- The texts that the tests parse.
abbrev network_bind : String
network_bind = "\n    [network]\n    bind=\"localhost\""

abbrev network_only : String
network_only = "\n    [network]"

abbrev peer_only : String
peer_only = "\n    [peer]"

abbrev two_sections : String
two_sections =
    "\n    [network]\n    bind=\"localhost\"\n    [peer]\n    max_peer_count = 100\n    seeds = [\"1.2.3.4:8080\"]"

module _ (from_str : String → Option Document) where
  abbrev it_should_load_empty_config_for_empty_string : UnitTest
  it_should_load_empty_config_for_empty_string = do
    conf ← or_panic (parse_config_from_string from_str "")
    asserts_defaults conf

  abbrev it_should_return_error_for_bad_toml : UnitTest
  it_should_return_error_for_bad_toml = assert (is_none (parse_config_from_string from_str "abcd"))

  abbrev it_should_load_default_for_missing_fields : UnitTest
  it_should_load_default_for_missing_fields = do
    conf ← or_panic (parse_config_from_string from_str network_bind)
    asserts_defaults conf

  abbrev it_should_load_default_for_missing_fields_for_network : UnitTest
  it_should_load_default_for_missing_fields_for_network = do
    conf ← or_panic (parse_config_from_string from_str network_only)
    asserts_defaults conf

  abbrev it_should_load_default_for_missing_fields_for_peer : UnitTest
  it_should_load_default_for_missing_fields_for_peer = do
    conf ← or_panic (parse_config_from_string from_str peer_only)
    asserts_defaults conf

  abbrev it_should_load_default_for_missing_fields_in_multiple_sections : UnitTest
  it_should_load_default_for_missing_fields_in_multiple_sections = do
    conf ← or_panic (parse_config_from_string from_str two_sections)
    assert (str_eq conf.network.bind "localhost")
    assert (texts_eq conf.peer.seeds ("1.2.3.4:8080" ∷ []))
    assert (conf.peer.max_peer_count == 100)
    assert (conf.peer.max_pending_messages == 32)
    assert (conf.peer.max_pending_send_to_all == 128)
    assert (conf.peer.heartbeat_interval == 1000)

  module _ (d : Disk) where
    abbrev it_should_load_config_without_errors : UnitTest
    it_should_load_config_without_errors = do
      conf ← or_panic (load_config_from_file from_str d "config.toml")
      asserts_defaults conf

    abbrev it_should_load_default_config_when_file_not_found : UnitTest
    it_should_load_default_config_when_file_not_found = do
      conf ← or_panic (load_config_from_file from_str d "no_such_file.toml")
      asserts_defaults conf

    abbrev it_should_get_bind_address_from_config : UnitTest
    it_should_get_bind_address_from_config = do
      conf ← or_panic (load_config_from_file from_str d "config.toml")
      assert (str_eq (get_bind_address conf.network) "localhost:6680")

  -- What TOML gives for the texts.
  abbrev no_network : NetworkTable
  no_network = record { bind = none; port = none }

  abbrev no_peer : PeerTable
  no_peer = record {
    seeds = none;
    max_peer_count = none;
    max_pending_messages = none;
    max_pending_send_to_all = none;
    heartbeat_interval = none;
  }

  abbrev bound : NetworkTable
  bound = record no_network { bind = some "localhost" }

  it_should_load_empty_config_for_empty_string_lem :
      from_str "" ≡ some (record { network = none; peer = none })
      → it_should_load_empty_config_for_empty_string ≡ ok tt
  unfolding parse_config_from_string config_of network_default peer_default
  it_should_load_empty_config_for_empty_string_lem e = rw e refl

  it_should_return_error_for_bad_toml_lem :
      from_str "abcd" ≡ none → it_should_return_error_for_bad_toml ≡ ok tt
  unfolding parse_config_from_string
  it_should_return_error_for_bad_toml_lem e = rw e refl

  it_should_load_default_for_missing_fields_lem :
      from_str network_bind ≡ some (record { network = some bound; peer = none })
      → it_should_load_default_for_missing_fields ≡ ok tt
  unfolding parse_config_from_string config_of network_default peer_default
  it_should_load_default_for_missing_fields_lem e = rw e refl

  it_should_load_default_for_missing_fields_for_network_lem :
      from_str network_only ≡ some (record { network = some no_network; peer = none })
      → it_should_load_default_for_missing_fields_for_network ≡ ok tt
  unfolding parse_config_from_string config_of network_default peer_default
  it_should_load_default_for_missing_fields_for_network_lem e = rw e refl

  it_should_load_default_for_missing_fields_for_peer_lem :
      from_str peer_only ≡ some (record { network = none; peer = some no_peer })
      → it_should_load_default_for_missing_fields_for_peer ≡ ok tt
  unfolding parse_config_from_string config_of network_default peer_default
  it_should_load_default_for_missing_fields_for_peer_lem e = rw e refl

  it_should_load_default_for_missing_fields_in_multiple_sections_lem :
      from_str two_sections
        ≡ some (record {
          network = some bound;
          peer =
              some
                (record no_peer { max_peer_count = some 100; seeds = some ("1.2.3.4:8080" ∷ []) });
        })
      → it_should_load_default_for_missing_fields_in_multiple_sections ≡ ok tt
  unfolding parse_config_from_string config_of network_default peer_default
  it_should_load_default_for_missing_fields_in_multiple_sections_lem e = rw e refl

  -- The file node/config.toml.
  abbrev sample_file : Document
  sample_file = record {
    network = some (record { bind = some "localhost"; port = some 6680 });
    peer = some (record {
      seeds = some [];
      max_peer_count = some 10;
      max_pending_messages = some 32;
      max_pending_send_to_all = some 128;
      heartbeat_interval = some 1000;
    });
  }

  module _ (d : Disk) where
    it_should_load_config_without_errors_lem :
        (text : String)
        → read_file d "config.toml" ≡ some text
        → from_str text ≡ some sample_file
        → it_should_load_config_without_errors d ≡ ok tt
    unfolding load_config_from_file config_of
    it_should_load_config_without_errors_lem text e h = rw (e, h) refl

    it_should_get_bind_address_from_config_lem :
        (text : String)
        → read_file d "config.toml" ≡ some text
        → from_str text ≡ some sample_file
        → it_should_get_bind_address_from_config d ≡ ok tt
    unfolding load_config_from_file config_of get_bind_address
    it_should_get_bind_address_from_config_lem text e h = rw (e, h) refl

    it_should_load_default_config_when_file_not_found_lem :
        d.open_file "no_such_file.toml" ≡ none
        → it_should_load_default_config_when_file_not_found d ≡ ok tt
    unfolding load_config_from_file read_file config_default network_default peer_default
    it_should_load_default_config_when_file_not_found_lem e = rw e refl

it_should_load_default_config_correctly_lem : it_should_load_default_config_correctly ≡ ok tt
unfolding config_default network_default peer_default
it_should_load_default_config_correctly_lem = refl
