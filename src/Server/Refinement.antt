-- ===== src/Server/Refinement.antt =====
-- The server and the node of many tasks over the same code (node/connection/src/lib.rs): the runs
-- of the one as runs of the other.
use braidpool.Base.{
  ℕ, ◌≡◌, ◌≢◌, refl, sym, ap, ◌∙◌, inl, inr, Option, none, some, List, [], ◌∷◌, ◌++◌, map,
  Option-cases, All, All-get, get_elem?, get_elem?-map, get_elem?-map-none, set-same,
}
use mathlib.Core.List.{map-append}
use braidpool.Protocol.Message.{Message}
use braidpool.Protocol.Wire.{Codec}
use braidpool.Connection.Io.{Mpsc, IsMpsc, Sink, Progress, going, returned, crashed}
use braidpool.Connection.Session.{Session, Turn, wind_up}
use braidpool.Connection.Heartbeat.{Broadcast, Timer}
use braidpool.Connection.Liveness.{Survives, turn-Survives}
use braidpool.Node
use braidpool.Node.{Phase, Peer, Node, Event}
use braidpool.Server.{
  Life, waiting, serving, leaving, Conn, Server, Move, joins, gives_up, registers, turns, cleans_up,
  beats, session_of, outcome, turn, on_conn, step, run,
}
use braidpool.Server.View.{
  phase_of, peer, view, events, all_events, progress_events, turn_events, found_events,
}
use braidpool.Server.Steps.{view-move_to, view-register, view-give_up, view-clean, view-beat}
use braidpool.Server.Fine.{IsSoundLife, IsSoundConn, IsFine, IsOpen, step-IsFine}

module _ {Bytes Addr : Type 0} (dec : Discrete Addr) {q : Mpsc Bytes} (L : IsMpsc q)
    (c : Codec Bytes) (w : Sink Bytes) (total : (m : Message) → c.serialize m ≢ none)
    (b : Broadcast Bytes) (t : Timer)
    (enqueue : List (Option Bytes) → Bytes → List (Option Bytes)) where
  -- What a future that was polled comes to in the node.
  view-outcome :
      (n : Server Addr q w b t) (i : ℕ) (addr : Addr) (p : Progress (Session Bytes q w))
      → Survives L c w total p
      → get_elem? (map peer n.conns) i ≡ some (record { addr = addr; phase = Phase.serving })
      → view (outcome dec q c w b t enqueue n i addr p)
        ≡ Node.run dec b t (view n) (progress_events i p)
  unfolding outcome Node.run Node.step Node.on_peer Node.end_select
  view-outcome n i addr (going s') v h =
      view-move_to dec L c w total b t enqueue n i addr (serving s')
      ∙ ap (λ l. record (view n) { peers = l }) (set-same (map peer n.conns) i h)
  view-outcome n i addr (returned x s') v h =
      view-move_to dec L c w total b t enqueue (record n { sender = b.unsubscribe n.sender }) i addr
        (leaving (wind_up q c w s'))
      ∙ rw (h, Node.on_peer)
  view-outcome n i addr (crashed s') v h = absurd v

  view-turn :
      (n : Server Addr q w b t) (i : ℕ) (t' : Turn) (addr : Addr) (life : Life (Session Bytes q w))
      → get_elem? n.conns i ≡ some (record { addr = addr; life = life })
      → IsSoundLife dec L c w total b t enqueue life
      → view (turn dec q c w b t enqueue n i t' addr life)
        ≡ Node.run dec b t (view n) (turn_events c i t' life)
  unfolding turn Node.run
  view-turn n i t' addr (waiting s) h v = refl
  view-turn n i t' addr (serving s) h v =
      view-outcome n i addr _ (turn-Survives L c w total s t' v) (get_elem?-map peer n.conns i h)
  view-turn n i t' addr (leaving s) h v = refl

  -- A step on the connection at a place, where its effect on the connection is that of the node.
  view-on_conn :
      (n : Server Addr q w b t) (i : ℕ) (f : Addr → Life (Session Bytes q w) → Server Addr q w b t)
      (g : Addr → Phase → Node Addr b t)
      → ((addr : Addr) (life : Life (Session Bytes q w))
          → view (f addr life) ≡ g addr (phase_of life))
      → view (on_conn dec q c w b t enqueue n (get_elem? n.conns i) f)
        ≡ Node.on_peer dec b t (view n) (get_elem? (map peer n.conns) i) g
  unfolding on_conn Node.on_peer
  view-on_conn n i f g same = elim (Option-cases (get_elem? n.conns i)) [
    | inl e ↦ rw (e, get_elem?-map-none peer n.conns i e) refl
    | inr (k, e) ↦ rw (e, get_elem?-map peer n.conns i e) (same k.addr k.life)
  ]

  view-turns :
      (n : Server Addr q w b t) (i : ℕ) (t' : Turn) (o : Option (Conn Addr q w))
      → get_elem? n.conns i ≡ o
      → IsFine dec L c w total b t enqueue n
      → view (on_conn dec q c w b t enqueue n o (turn dec q c w b t enqueue n i t'))
        ≡ Node.run dec b t (view n) (found_events c i t' o)
  unfolding on_conn Node.run
  view-turns n i t' none h v = refl
  view-turns n i t' (some k) h v =
      view-turn n i t' k.addr k.life h
        (All-get (IsSoundConn dec L c w total b t enqueue) n.conns i v h)

  -- Each step of a fine server is in the node one step, or none where the turn ends nothing.
  pub view-step :
      (n : Server Addr q w b t) (e : Move Addr q w)
      → IsFine dec L c w total b t enqueue n
      → view (step dec q c w b t enqueue n e) ≡ Node.run dec b t (view n) (events c n e)
  unfolding step Node.run Node.step
  view-step n (joins sp) v = λ j. record {
    manager = n.manager;
    sender = b.subscribe n.sender;
    heart = n.heart;
    peers =
        map-append peer n.conns (record { addr = sp.addr; life = waiting (session_of sp) } ∷ []) j;
  }
  view-step n (gives_up i) v = view-on_conn n i _ _ (view-give_up dec L c w total b t enqueue n i)
  view-step n (registers i now) v =
      view-on_conn n i _ _ (view-register dec L c w total b t enqueue n i now)
  view-step n (turns i t') v = view-turns n i t' _ refl v
  view-step n (cleans_up i) v = view-on_conn n i _ _ (view-clean dec L c w total b t enqueue n i)
  view-step n (beats p) v = view-beat dec L c w total b t enqueue n p n.heart

  run-append :
      (n : Node Addr b t) (xs ys : List (Event Addr))
      → Node.run dec b t n (xs ++ ys) ≡ Node.run dec b t (Node.run dec b t n xs) ys
  unfolding Node.run
  run-append n [] ys = refl
  run-append n (x ∷ xs) ys = run-append (Node.step dec b t n x) xs ys

  -- If every message can be written and every connection comes with an open channel, then any run
  -- of a server whose connections are sound is, in what the node keeps of it, the run of the node
  -- through the corresponding steps.
  pub view-run :
      (n : Server Addr q w b t) (es : List (Move Addr q w))
      → All (IsOpen dec L c w total b t enqueue) es
      → IsFine dec L c w total b t enqueue n
      → view (run dec q c w b t enqueue n es)
        ≡ Node.run dec b t (view n) (all_events dec q c w b t enqueue n es)
  unfolding run Node.run
  view-run n [] o v = refl
  view-run n (e ∷ es) o v =
      let n' = step dec q c w b t enqueue n e in
      view-run n' es o.1 (step-IsFine dec L c w total b t enqueue n e o.0 v)
      ∙ ap (λ m. Node.run dec b t m (all_events dec q c w b t enqueue n' es)) (view-step n e v)
      ∙ sym (run-append (view n) (events c n e) (all_events dec q c w b t enqueue n' es))
