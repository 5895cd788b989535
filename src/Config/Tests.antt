-- ===== src/Config/Tests.antt =====
-- node/config/src/lib.rs on small inputs.
use braidpool.Base.{◌≡◌, refl, ◌↔◌, String, Option, none, some, [], ◌∷◌, arith}
use braidpool.Config.{
  Disk, read_file, Config, Document, network_default, load_config_from_file, get_bind_address,
}
use braidpool.Config.Defaults.{changes, IsBadFile, load-changes, load_fails_iff}
use braidpool.Config.Address.{port_of, port_of-get_bind_address}

abbrev seeded : Config
seeded = record {
  network = record { bind = "0.0.0.0"; port = 6680 };
  peer = record {
    seeds = "1.2.3.4:8080" ∷ [];
    max_peer_count = 100;
    max_pending_messages = 32;
    max_pending_send_to_all = 128;
    heartbeat_interval = 1000;
  };
}

abbrev disk : Disk
disk = record { File = String; open_file = λ path. some path; read_to_string = λ file. some file }

-- A parser that reads one text.
abbrev reads_seeded : String → Option Document
reads_seeded contents = some (changes seeded)

abbrev reads_nothing : String → Option Document
reads_nothing contents = none

load-changes_example : load_config_from_file reads_seeded disk "config.toml" ≡ some seeded
unfolding read_file
load-changes_example = load-changes reads_seeded disk "config.toml" "config.toml" seeded refl refl

load_fails_iff_example :
    (load_config_from_file reads_nothing disk "config.toml" ≡ none)
    ↔ IsBadFile reads_nothing disk "config.toml"
load_fails_iff_example = load_fails_iff reads_nothing disk "config.toml"

port_of-get_bind_address_example : port_of (get_bind_address seeded.network) ≡ 6680
port_of-get_bind_address_example = port_of-get_bind_address seeded.network (omega arith)

bind_address_text : get_bind_address network_default ≡ "localhost:6680"
unfolding get_bind_address network_default
bind_address_text = refl
