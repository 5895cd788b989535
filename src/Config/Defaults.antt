-- ===== src/Config/Defaults.antt =====
-- Loading a configuration (node/config/src/lib.rs): defaults and errors.
use braidpool.Base.{
  ℕ, String, ◌≡◌, refl, ap, ◌↔◌, Option, none, some, List, [], ◌∷◌, ◌==◌, str_eq, eq_iff, arith,
  if◌then◌else◌,
}
use braidpool.Config.{
  Disk, read_file, NetworkConfig, PeerConfig, Config, Document, network_default, peer_default,
  network_of, peer_of, config_of, load_config_from_file, or_default,
}

-- A key that is written only where its value differs from the default.
abbrev changed : ℕ → ℕ → Option ℕ
changed d v = if v == d then none else some v

abbrev changed_text : String → String → Option String
changed_text d v = if str_eq v d then none else some v

abbrev changed_list : List String → Option (List String)
changed_list [] = none
changed_list (s ∷ ss) = some (s ∷ ss)

-- The shortest file that gives a configuration.
unfoldable pub changes : Config → Document
unfolding network_default peer_default
changes c = record {
  network = some (record {
    bind = changed_text network_default.bind c.network.bind;
    port = changed network_default.port c.network.port;
  });
  peer = some (record {
    seeds = changed_list c.peer.seeds;
    max_peer_count = changed peer_default.max_peer_count c.peer.max_peer_count;
    max_pending_messages = changed peer_default.max_pending_messages c.peer.max_pending_messages;
    max_pending_send_to_all =
        changed peer_default.max_pending_send_to_all c.peer.max_pending_send_to_all;
    heartbeat_interval = changed peer_default.heartbeat_interval c.peer.heartbeat_interval;
  });
}

or_default-changed : (d v : ℕ) → or_default (changed d v) d ≡ v
or_default-changed d v = ground arith

or_default-changed_text : (d v : String) → or_default (changed_text d v) d ≡ v
or_default-changed_text d v = ground (arith, eq_iff v d)

or_default-changed_list : (v : List String) → or_default (changed_list v) [] ≡ v
or_default-changed_list [] = refl
or_default-changed_list (x ∷ v) = refl

network_of-changes :
    (c : NetworkConfig)
    → network_of (record { bind = changed_text "localhost" c.bind; port = changed 6680 c.port }) ≡ c
unfolding network_of
network_of-changes c =
    rw (or_default-changed_text "localhost" c.bind, or_default-changed 6680 c.port)

peer_of-changes :
    (c : PeerConfig)
    → peer_of (record {
      seeds = changed_list c.seeds;
      max_peer_count = changed 10 c.max_peer_count;
      max_pending_messages = changed 32 c.max_pending_messages;
      max_pending_send_to_all = changed 128 c.max_pending_send_to_all;
      heartbeat_interval = changed 1000 c.heartbeat_interval;
    })
      ≡ c
unfolding peer_of
peer_of-changes c = rw (
  or_default-changed_list c.seeds,
  or_default-changed 10 c.max_peer_count,
  or_default-changed 32 c.max_pending_messages,
  or_default-changed 128 c.max_pending_send_to_all,
  or_default-changed 1000 c.heartbeat_interval,
)

config_of-changes : (c : Config) → config_of (changes c) ≡ c
unfolding config_of changes
config_of-changes c =
    λ i. record { network = network_of-changes c.network i; peer = peer_of-changes c.peer i }

-- A configuration that fails to load is a file that is read and is no configuration in TOML.
abbrev pub IsBadFile : (String → Option Document) → Disk → String → Type 0
IsBadFile from_str d path =
    (contents : String) × (read_file d path ≡ some contents) × (from_str contents ≡ none)

module _ (from_str : String → Option Document) (d : Disk) where
  -- A file that is read as just the keys whose values differ from the defaults is loaded as the
  -- configuration itself.
  pub load-changes :
      (path contents : String) (c : Config)
      → read_file d path ≡ some contents
      → from_str contents ≡ some (changes c)
      → load_config_from_file from_str d path ≡ some c
  unfolding load_config_from_file read_file
  load-changes path contents c r p = rw (r, p) (ap some (config_of-changes c))

  load_cases :
      (path : String) (r : Option String)
      → read_file d path ≡ r
      → load_config_from_file from_str d path ≡ none
      → IsBadFile from_str d path
  unfolding load_config_from_file read_file
  load_cases path none e h = absurd (ground arith)
  load_cases path (some contents) e h = (contents, e, ground arith)

  -- Loading gives no configuration exactly where the file can be read and is not TOML of the
  -- expected types: a file that cannot be read gives the defaults.
  pub load_fails_iff :
      (path : String) → (load_config_from_file from_str d path ≡ none) ↔ IsBadFile from_str d path
  unfolding load_config_from_file read_file
  load_fails_iff path = (load_cases path (read_file d path) refl, λ (contents, r, p). rw (r, p))
