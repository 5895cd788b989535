-- ===== src/Run/Startup.antt =====
-- How `main` of node/run/src/main.rs starts the node.
use braidpool.Base.{
  ℕ, zero, suc, ◌+◌, ◌<◌, ◌≡◌, refl, ap, ◌∙◌, ◌⊎◌, inl, inr, String, Option, none, some, List, [],
  sym, false, ◌∷◌, ◌++◌, length, ok, panic, arith, Option-cases,
}
use mathlib.Core.List.{append-nil, append_assoc}
use braidpool.Config.{Config, load_config_from_file, get_bind_address}
use braidpool.Manager.{num_connections}
use braidpool.Manager
use braidpool.Protocol.Wire.{Codec, as_bytes}
use braidpool.Connection.Heartbeat.{Broadcast, Timer, start_heartbeat}
use braidpool.Connection.Pulse.{IsBroadcast, beat_of}
use braidpool.Run.{parse, Started, dial_seeds, System, setup_logging, setup_tracing, main}

-- `tokio::time::interval` panics on no duration, and on nothing else.
pub record IsTimer (t : Timer) : Type 0 where
  pub interval_zero : t.interval 0 ≡ none
  pub interval_suc : (n : ℕ) → (i : t.Interval) × (t.interval (suc n) ≡ some i)

positive : (n : ℕ) → 0 < n → (m : ℕ) × (n ≡ suc m)
positive zero h = absurd (omega arith)
positive (suc n) h = (n, refl)

module _ {Bytes : Type 0} {b : Broadcast Bytes} (L : IsBroadcast b) where
  -- The loop calls `connect` for each seed in order, with a subscription each.
  dial_seeds_lem :
      (seeds : List String) (s : b.Sender) (dials : List String)
      → (s' : b.Sender) × (dial_seeds b s seeds dials ≡ (ok s', dials ++ seeds))
        × (L.receivers s' ≡ L.receivers s + length seeds)
  unfolding dial_seeds
  dial_seeds_lem [] s dials = (s, ap (λ l. (ok s, l)) (sym (append-nil dials)), omega arith)
  dial_seeds_lem (x ∷ seeds) s dials =
      let (s', e, n) = dial_seeds_lem seeds (b.subscribe s) (dials ++ (x ∷ [])) in
      (
        s',
        e ∙ ap (λ l. (ok s', l)) (append_assoc dials (x ∷ []) seeds),
        n ∙ omega (arith, L.receivers-subscribe s),
      )

module _ {Bytes Addr : Type 0} (c : Codec Bytes) {b : Broadcast Bytes} (L : IsBroadcast b)
    {t : Timer} (T : IsTimer t) (s : System Addr) where
  -- The file is read as the configuration, the logging is set up, the bind address resolves, and
  -- the heartbeat can be written.
  pub record CanStart (arg : Option String) (now : ℕ) (cfg : Config) (a : Addr) (rest : List Addr)
      (bytes : Bytes) : Type 0 where
    pub loads : load_config_from_file s.from_str s.disk (parse arg).config_file ≡ some cfg
    pub logs : s.init ≡ ok tt
    pub traces : s.set_global_default ≡ ok tt
    pub resolves : s.resolve (get_bind_address cfg.network) ≡ some (a ∷ rest)
    pub writes : c.serialize (beat_of c t s.resolve s.to_string a now) ≡ some bytes

  -- The table is empty and has the configured limit, and each seed has its subscription to the
  -- broadcasts.
  pub record IsStarted (cfg : Config) (bytes : Bytes) (st : Started Bytes Addr b t) : Type 0 where
    pub table : st.manager ≡ Manager.new cfg.peer.max_peer_count
    pub subscribed : L.receivers st.sender ≡ length cfg.peer.seeds
    pub beats : st.heart.message ≡ bytes
    pub idle : st.heart.due ≡ false
    pub address : st.bind_address ≡ get_bind_address cfg.network
    pub pending : st.max_pending_messages ≡ cfg.peer.max_pending_messages

  setup_logging_lem :
      (dials : List String) → s.init ≡ ok tt → setup_logging c b t s dials ≡ (ok tt, dials)
  unfolding setup_logging
  setup_logging_lem dials e = rw e

  setup_tracing_lem :
      (dials : List String)
      → s.set_global_default ≡ ok tt
      → setup_tracing c b t s dials ≡ (ok tt, dials)
  unfolding setup_tracing
  setup_tracing_lem dials e = rw e

  module _ (arg : Option String) (now : ℕ) (cfg : Config) (a : Addr) (rest : List Addr)
      (bytes : Bytes) (h : CanStart arg now cfg a rest bytes) where
    started_by :
        (m n : ℕ)
        → cfg.peer.max_pending_send_to_all ≡ suc m
        → cfg.peer.heartbeat_interval ≡ suc n
        → (st : Started Bytes Addr b t) × (main c b t s arg now [] ≡ (ok st, cfg.peer.seeds))
          × IsStarted cfg bytes st
    unfolding main start_heartbeat as_bytes
    started_by m n em en =
        let (sender, made, none_yet) = L.channel_suc m in
        let (i, ticking) = T.interval_suc n in
        let (sender', dialled, subscribed) = dial_seeds_lem L cfg.peer.seeds sender [] in
        let st : Started Bytes Addr b t = record {
          manager = Manager.new cfg.peer.max_peer_count;
          sender = sender';
          heart = record { message = bytes; interval = i; due = false };
          bind_address = get_bind_address cfg.network;
          max_pending_messages = cfg.peer.max_pending_messages;
        } in
        (
          st,
          rw (
            h.loads,
            setup_logging_lem [] h.logs,
            setup_tracing_lem [] h.traces,
            em,
            made,
            h.resolves,
            h.writes,
            en,
            ticking,
            dialled,
          ),
          record {
            table = refl;
            subscribed = subscribed ∙ omega (arith, none_yet);
            beats = refl;
            idle = refl;
            address = refl;
            pending = refl;
          },
        )

    -- If the configuration loads, the logging is set up, the bind address resolves, the
    -- heartbeat can be written, and neither the capacity of the broadcast channel nor the
    -- heartbeat interval is 0, then the node starts with an empty table of the configured limit,
    -- with each seed dialled once, in order and with its subscription, and with the heartbeat of
    -- its own address.
    pub main-IsStarted :
        0 < cfg.peer.max_pending_send_to_all
        → 0 < cfg.peer.heartbeat_interval
        → (st : Started Bytes Addr b t) × (main c b t s arg now [] ≡ (ok st, cfg.peer.seeds))
          × IsStarted cfg bytes st
    main-IsStarted p q =
        let (m, em) = positive _ p in let (n, en) = positive _ q in started_by m n em en

    -- If the configuration loads, the logging is set up, the bind address resolves and the
    -- heartbeat can be written, but the capacity of the broadcast channel or the heartbeat
    -- interval is 0, then `main` panics, and no seed has been dialled.
    pub main_zero :
        (cfg.peer.max_pending_send_to_all ≡ 0) ⊎ (cfg.peer.heartbeat_interval ≡ 0)
        → main c b t s arg now [] ≡ (panic, [])
    unfolding main start_heartbeat as_bytes
    main_zero (inl z) =
        rw (h.loads, setup_logging_lem [] h.logs, setup_tracing_lem [] h.traces, z, L.channel_zero)
    main_zero (inr z) = elim (Option-cases (b.channel cfg.peer.max_pending_send_to_all)) [
      | inl e ↦ rw (h.loads, setup_logging_lem [] h.logs, setup_tracing_lem [] h.traces, e)
      | inr (_, e) ↦ rw (
        h.loads,
        setup_logging_lem [] h.logs,
        setup_tracing_lem [] h.traces,
        e,
        h.resolves,
        h.writes,
        z,
        T.interval_zero,
      )
    ]
