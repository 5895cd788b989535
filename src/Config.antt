-- ===== src/Config.antt =====
-- node/config/src/lib.rs: the configuration, its defaults and how it is loaded. The file system
-- and the crate toml are parameters.
pub mod Decimal
pub mod Defaults
pub mod Address
mod UnitTests
mod Tests
use braidpool.Base.{ℕ, String, ◌<>◌, Option, none, some, List, []}
use braidpool.Config.Decimal.{to_string}

pub record NetworkConfig : Type 0 where
  pub bind : String
  pub port : ℕ

pub record PeerConfig : Type 0 where
  pub seeds : List String
  pub max_peer_count : ℕ
  pub max_pending_messages : ℕ
  pub max_pending_send_to_all : ℕ
  pub heartbeat_interval : ℕ

pub record Config : Type 0 where
  pub network : NetworkConfig
  pub peer : PeerConfig

-- `NetworkConfig::default`
unfoldable pub network_default : NetworkConfig
network_default = record { bind = "localhost"; port = 6680 }

-- `PeerConfig::default`
unfoldable pub peer_default : PeerConfig
peer_default = record {
  seeds = [];
  max_peer_count = 10;
  max_pending_messages = 32;
  max_pending_send_to_all = 128;
  heartbeat_interval = 1000;
}

-- `Config::default`, which is derived.
unfoldable pub config_default : Config
config_default = record { network = network_default; peer = peer_default }

unfoldable pub default_bind : String
unfolding network_default
default_bind = network_default.bind

unfoldable pub default_port : ℕ
unfolding network_default
default_port = network_default.port

unfoldable pub default_seeds : List String
unfolding peer_default
default_seeds = peer_default.seeds

unfoldable pub default_max_peer_count : ℕ
unfolding peer_default
default_max_peer_count = peer_default.max_peer_count

unfoldable pub default_max_pending_messages : ℕ
unfolding peer_default
default_max_pending_messages = peer_default.max_pending_messages

unfoldable pub default_max_pending_send_to_all : ℕ
unfolding peer_default
default_max_pending_send_to_all = peer_default.max_pending_send_to_all

unfoldable pub default_heartbeat_interval : ℕ
unfolding peer_default
default_heartbeat_interval = peer_default.heartbeat_interval

-- The tables of a TOML file, with the keys that it has.
pub record NetworkTable : Type 0 where
  pub bind : Option String
  pub port : Option ℕ

pub record PeerTable : Type 0 where
  pub seeds : Option (List String)
  pub max_peer_count : Option ℕ
  pub max_pending_messages : Option ℕ
  pub max_pending_send_to_all : Option ℕ
  pub heartbeat_interval : Option ℕ

pub record Document : Type 0 where
  pub network : Option NetworkTable
  pub peer : Option PeerTable

-- `#[serde(default)]`: a missing key gets the default.
abbrev pub or_default {ℓ} : {A : Type ℓ} → Option A → A → A
or_default none d = d
or_default (some a) d = a

-- What `derive(Deserialize)` does by the attributes of the fields.
unfoldable pub network_of : NetworkTable → NetworkConfig
unfolding default_bind default_port
network_of t = record {
  bind = or_default t.bind default_bind;
  port = or_default t.port default_port;
}

unfoldable pub peer_of : PeerTable → PeerConfig
unfolding default_seeds default_max_peer_count default_max_pending_messages
    default_max_pending_send_to_all default_heartbeat_interval
peer_of t = record {
  seeds = or_default t.seeds default_seeds;
  max_peer_count = or_default t.max_peer_count default_max_peer_count;
  max_pending_messages = or_default t.max_pending_messages default_max_pending_messages;
  max_pending_send_to_all = or_default t.max_pending_send_to_all default_max_pending_send_to_all;
  heartbeat_interval = or_default t.heartbeat_interval default_heartbeat_interval;
}

network_section : Option NetworkTable → NetworkConfig
unfolding network_default network_of
network_section none = network_default
network_section (some t) = network_of t

peer_section : Option PeerTable → PeerConfig
unfolding peer_default peer_of
peer_section none = peer_default
peer_section (some t) = peer_of t

unfoldable pub config_of : Document → Config
unfolding network_section peer_section
config_of d = record { network = network_section d.network; peer = peer_section d.peer }

-- `File::open` and `read_to_string`; `none` is an error.
pub record Disk : Type 1 where
  pub File : Type 0
  pub open_file : String → Option File
  pub read_to_string : File → Option String

contents_of : (d : Disk) → Option d.File → Option String
contents_of d none = none
contents_of d (some file) = d.read_to_string file

-- Both errors come to `none`, as the caller does not look at them.
unfoldable pub read_file : Disk → String → Option String
unfolding contents_of
read_file d path = contents_of d (d.open_file path)

-- `none` where the text is not TOML of these types.
module _ (from_str : String → Option Document) where
  parsed : Option Document → Option Config
  unfolding config_of
  parsed none = none
  parsed (some d) = some (config_of d)

  unfoldable pub parse_config_from_string : String → Option Config
  unfolding parsed
  parse_config_from_string contents = parsed (from_str contents)

  module _ (d : Disk) where
    loaded : Option String → Option Config
    unfolding config_default parse_config_from_string
    loaded none = some config_default
    loaded (some contents) = parse_config_from_string contents

    unfoldable pub load_config_from_file : String → Option Config
    unfolding loaded read_file
    load_config_from_file path = loaded (read_file d path)

unfoldable pub get_bind_address : NetworkConfig → String
unfolding to_string
get_bind_address network_config = network_config.bind <> (":" <> to_string network_config.port)
