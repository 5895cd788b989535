-- ===== src/Run/Tests.antt =====
-- `main` of node/run/src/main.rs on small inputs.
use braidpool.Base.{
  String, ℕ, ◌≡◌, refl, inr, none, some, List, [], ℕ_discrete, ◌∷◌, ok, panic, arith,
}
use braidpool.Config.{read_file, Config}
use braidpool.Config.Defaults.{changes, load-changes}
use braidpool.Connection.Pulse.{beat_of}
use braidpool.Sample.Tasks.{Bytes, codec, broadcast, broadcast-IsBroadcast, timer, timer-IsTimer}
use braidpool.Run.{parse, Started, System, main}
use braidpool.Run.Launch.{launch, launch-IsCounted}
use braidpool.Node
use braidpool.Node.{Event, registers, gives_up, beats}
use braidpool.Node.Receivers.{IsCounted}
use braidpool.Connection.Heartbeat.{tick}
use braidpool.Run.Startup.{CanStart, IsStarted, main-IsStarted, main_zero}

abbrev with_interval : ℕ → Config
with_interval n = record {
  network = record { bind = "localhost"; port = 6680 };
  peer = record {
    seeds = "1.2.3.4:8080" ∷ "5.6.7.8:8080" ∷ [];
    max_peer_count = 10;
    max_pending_messages = 32;
    max_pending_send_to_all = 128;
    heartbeat_interval = n;
  };
}

-- A system whose files all hold the configuration and whose addresses are numbers.
abbrev system : ℕ → System ℕ
system n = record {
  from_str = λ contents. some (changes (with_interval n));
  disk = record {
    File = String;
    open_file = λ path. some path;
    read_to_string = λ file. some file;
  };
  resolve = λ name. some (1 ∷ []);
  to_string = λ a. "127.0.0.1:6680";
  init = ok tt;
  set_global_default = ok tt;
}

abbrev beat : ℕ → Bytes
beat n = some (beat_of codec timer (system n).resolve (system n).to_string 1 17)

system-CanStart :
    (n : ℕ)
    → CanStart codec broadcast-IsBroadcast timer-IsTimer
        (system n)
        none
        17
        (with_interval n)
        1
        []
        (beat n)
unfolding read_file
system-CanStart n = record {
  loads =
      load-changes (system n).from_str (system n).disk (parse none).config_file
        (parse none).config_file (with_interval n) refl refl;
  logs = refl;
  traces = refl;
  resolves = refl;
  writes = refl;
}

main-IsStarted_example :
    (st : Started Bytes ℕ broadcast timer) × (main codec broadcast timer (system 1000) none 17 []
      ≡ (ok st, (with_interval 1000).peer.seeds))
    × IsStarted codec broadcast-IsBroadcast timer-IsTimer
        (system 1000)
        (with_interval 1000)
        (beat 1000)
        st
main-IsStarted_example =
    main-IsStarted codec broadcast-IsBroadcast timer-IsTimer (system 1000) none 17
      (with_interval 1000) 1 [] (beat 1000) (system-CanStart 1000) (omega arith) (omega arith)

main_zero_example : main codec broadcast timer (system 0) none 17 [] ≡ (panic, [])
main_zero_example =
    main_zero codec broadcast-IsBroadcast timer-IsTimer (system 0) none 17 (with_interval 0) 1 []
      (beat 0) (system-CanStart 0) (inr refl)

-- Both seeds are dialled, and one of them is reached.
abbrev dialled : List (Event ℕ)
dialled = registers 0 1 ∷ gives_up 1 ∷ beats tick ∷ []

launch-IsCounted_example :
    (st : Started Bytes ℕ broadcast timer) × (main codec broadcast timer (system 1000) none 17 []
      ≡ (ok st, (with_interval 1000).peer.seeds))
    × IsCounted ℕ_discrete broadcast-IsBroadcast timer
        (Node.run ℕ_discrete broadcast timer (launch st (1 ∷ 2 ∷ [])) dialled)
launch-IsCounted_example =
    launch-IsCounted ℕ_discrete codec broadcast-IsBroadcast timer-IsTimer (system 1000) none 17
      (with_interval 1000) 1 [] (beat 1000) (1 ∷ 2 ∷ []) dialled (system-CanStart 1000)
      (omega arith) (omega arith) refl
