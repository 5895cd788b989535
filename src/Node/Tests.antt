-- ===== src/Node/Tests.antt =====
-- A running node (node/connection/src/lib.rs) on small inputs.
use braidpool.Base.{
  ℕ, ◌≤◌, ◌<◌, ◌≡◌, ◌↔◌, refl, some, List, [], ◌∷◌, ◌++◌, arith, replicate, count, true, false,
  ℕ_discrete,
}
use braidpool.Protocol.Ping.{ping_of}
use braidpool.Manager.{num_connections, insert, get}
use braidpool.Sample.Tasks.{Bytes, broadcast, broadcast-IsBroadcast, timer}
use braidpool.Connection.Io.{going, crashed}
use braidpool.Connection.Heartbeat.{Heart, tick, sends}
use braidpool.Node.{serving, Node, Event, joins, registers, ends, cleans_up, beats, boot, step, run}
use braidpool.Node.Receivers.{has_receiver, IsCounted, run-IsCounted}
use braidpool.Node.Races.{tick_crash_iff}
use braidpool.Node.Entries.{is_listed}
use braidpool.Node.Limit.{AllFresh, limit_kept}
use braidpool.Node.Duplicates.{dials, served, dials_uncounted}

abbrev heart : Heart Bytes timer
heart = record { message = some (ping_of "ping"); interval = 1000; due = false }

abbrev booted : ℕ → Node ℕ broadcast timer
booted capacity = boot ℕ_discrete broadcast timer capacity 0 heart

-- Two peers connect at a limit of one, and the first leaves.
abbrev events : List (Event ℕ)
events =
    joins 7
    ∷ registers 0 1
    ∷ joins 8
    ∷ registers 1 2
    ∷ beats tick
    ∷ beats sends
    ∷ ends 0
    ∷ cleans_up 0
    ∷ beats tick
    ∷ beats sends
    ∷ []

run-IsCounted_example :
    IsCounted ℕ_discrete broadcast-IsBroadcast timer
      (run ℕ_discrete broadcast timer (booted 1) events)
unfolding boot
run-IsCounted_example = run-IsCounted ℕ_discrete broadcast-IsBroadcast timer (booted 1) events refl

abbrev busy : Node ℕ broadcast timer
busy = record {
  manager = record { capacity = 10; shared_state = (7, record { created_at = 1 }) ∷ [] };
  sender = 1;
  heart = going heart;
  peers = record { addr = 7; phase = serving } ∷ [];
}

-- Its only peer leaves its `select!` between the check and the send.
tick_crash_iff_example :
    let n' = run ℕ_discrete broadcast timer busy (beats tick ∷ ends 0 ∷ []) in
    ((step ℕ_discrete broadcast timer n' (beats sends)).heart
      ≡ crashed (record heart { due = true }))
    ↔ ((0 < num_connections busy.manager) × (count has_receiver n'.peers ≡ 0))
tick_crash_iff_example =
    tick_crash_iff ℕ_discrete broadcast-IsBroadcast timer busy heart (ends 0 ∷ []) refl refl refl
      (tt, tt)

events-AllFresh : AllFresh ℕ_discrete broadcast timer 1 (booted 1) events
unfolding boot step insert ℕ_discrete
events-AllFresh =
    (tt, (tt, ((λ e. ground arith, tt), (tt, (tt, (tt, (tt, (tt, (tt, (tt, tt))))))))))

limit_kept_example :
    let n = run ℕ_discrete broadcast timer (booted 1) events in
    (num_connections n.manager ≡ count is_listed n.peers) × (count is_listed n.peers ≤ 1)
limit_kept_example = limit_kept ℕ_discrete broadcast timer 1 0 heart events events-AllFresh

dials_uncounted_example :
    let n = run ℕ_discrete broadcast timer busy (dials ℕ_discrete broadcast timer 7 2 1 20) in
    (n.peers ≡ busy.peers ++ replicate 20 (served ℕ_discrete broadcast timer 7))
    × (num_connections n.manager ≡ 1)
unfolding num_connections get ℕ_discrete
dials_uncounted_example =
    dials_uncounted ℕ_discrete broadcast timer busy 7 2 20 (omega arith) (λ h. ground arith)
