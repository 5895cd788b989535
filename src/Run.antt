-- ===== src/Run.antt =====
-- node/run/src/main.rs and cli.rs: how the node is put together. The command line is clap's, the
-- files, the resolver and the logging are the system's: they are parameters.
pub mod Startup
pub mod Launch
mod UnitTests
mod Tests
use braidpool.Base.{
  ℕ, String, Option, none, some, List, [], ◌∷◌, ◌++◌, Outcome, ok, err, panic, or_panic,
}
use braidpool.Config.{Disk, Config, Document, load_config_from_file, get_bind_address, or_default}
use braidpool.Manager.{ConnectionManager}
use braidpool.Manager
use braidpool.Protocol.Wire.{Codec}
use braidpool.Connection.Heartbeat.{Broadcast, Timer, Heart, start_heartbeat}

pub record Cli : Type 0 where
  pub config_file : String

-- `Cli::parse`, by the value of `--config-file`.
unfoldable pub parse : Option String → Cli
parse arg = record { config_file = or_default arg "config.toml" }

-- The node when `main` has come to the call of `start_listen`.
pub record Started (Bytes Addr : Type 0) (b : Broadcast Bytes) (t : Timer) : Type 0 where
  pub manager : ConnectionManager Addr
  pub sender : b.Sender
  pub heart : Heart Bytes t
  pub bind_address : String
  pub max_pending_messages : ℕ

-- What `main` does: a result, and the seeds that `connect` has been called with, first to last,
-- which stay called where it fails.
abbrev pub Dialling {ℓ} : Type ℓ → Type ℓ
Dialling A = List String → Outcome String A × List String

abbrev lift {ℓ} : {A : Type ℓ} → Outcome String A → Dialling A
lift r dials = (r, dials)

-- `connect`, whose task comes later: the call itself is kept.
abbrev connect : String → Dialling (Unit {0})
connect seed dials = (ok tt, dials ++ (seed ∷ []))

abbrev and_then {ℓ1 ℓ2} :
    {A : Type ℓ1} {B : Type ℓ2}
    → Outcome String A × List String
    → (A → Dialling B)
    → Outcome String B × List String
and_then (ok a, dials) f = f a dials
and_then (err e, dials) f = (err e, dials)
and_then (panic, dials) f = (panic, dials)

infixl 5 ◌>>=◌ ◌>>◌
abbrev ◌>>=◌ {ℓ1 ℓ2} : {A : Type ℓ1} {B : Type ℓ2} → Dialling A → (A → Dialling B) → Dialling B
◌>>=◌ m f dials = and_then (m dials) f

abbrev ◌>>◌ {ℓ1 ℓ2} : {A : Type ℓ1} {B : Type ℓ2} → Dialling A → Dialling B → Dialling B
m >> k = m >>= λ _. k

module _ {Bytes : Type 0} (b : Broadcast Bytes) where
  -- The loop over the seeds: a subscription and a task each.
  unfoldable pub dial_seeds : b.Sender → List String → Dialling b.Sender
  dial_seeds sender [] = lift (ok sender)
  dial_seeds sender (seed ∷ seeds) = do connect seed; dial_seeds (b.subscribe sender) seeds

-- A Rust call that cannot return an error.
abbrev infallible {ℓ} : {A : Type ℓ} → Outcome ⊥ A → Outcome String A
infallible (ok a) = ok a
infallible (err e) = absurd e
infallible panic = panic

-- What `main` takes from the system and the crates: the file system, the parser of TOML, the
-- resolver, the text of an address, and the calls that set up the logging.
pub record System (Addr : Type 0) : Type 1 where
  pub from_str : String → Option Document
  pub disk : Disk
  pub resolve : String → Option (List Addr)
  pub to_string : Addr → String
  -- `env_logger::init`, which can only panic, and `set_global_default`
  pub init : Outcome ⊥ (Unit {0})
  pub set_global_default : Outcome String (Unit {0})

module _ {Bytes Addr : Type 0} (c : Codec Bytes) (b : Broadcast Bytes) (t : Timer)
    (s : System Addr) where
  unfoldable pub setup_logging : Dialling (Unit {0})
  setup_logging = do lift (infallible s.init); lift (ok tt)

  unfoldable pub setup_tracing : Dialling (Unit {0})
  setup_tracing = do lift s.set_global_default; lift (ok tt)

  unfoldable pub main : Option String → ℕ → Dialling (Started Bytes Addr b t)
  unfolding setup_logging setup_tracing parse load_config_from_file get_bind_address Manager.new
      start_heartbeat dial_seeds
  main arg now = do
    config ← lift (or_panic (load_config_from_file s.from_str s.disk (parse arg).config_file))
    let bind_address = get_bind_address config.network
    setup_logging
    setup_tracing
    send_to_all_tx ← lift (or_panic (b.channel config.peer.max_pending_send_to_all))
    heart ← lift (
        infallible (
          start_heartbeat c t s.resolve s.to_string bind_address config.peer.heartbeat_interval
            now))
    sender ← dial_seeds b send_to_all_tx config.peer.seeds
    lift (
        ok (record {
          manager = Manager.new config.peer.max_peer_count;
          sender = sender;
          heart = heart;
          bind_address = bind_address;
          max_pending_messages = config.peer.max_pending_messages;
        }))
