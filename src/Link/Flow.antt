-- ===== src/Link/Flow.antt =====
-- What one end of a link (node/connection/src/lib.rs) reads, handles and writes in a turn.
use braidpool.Base.{
  ℕ, suc, ◌≤◌, ◌≡◌, sym, ap, ◌∙◌, Option, none, some, List, [], ◌∷◌, ◌++◌, length, length-append,
  get_elem?, lt-length_of_get_elem?, take, take-suc, take-append, arith,
}
use mathlib.Core.List.{append-nil, append_assoc}
use braidpool.Protocol.Wire.{Codec}
use braidpool.Connection.Io.{Mpsc, IsMpsc, Sink, Progress, going, returned, crashed}
use braidpool.Connection.Channels.{try_send_lem}
use braidpool.Connection.Handler.{Branch}
use braidpool.Connection.Answers.{IsReliable}
use braidpool.Connection.Flow.{reached, queued, took, turn-Flows}
use braidpool.Connection.Session.{Session, reads, handles, poll_session}
use braidpool.Connection.Writes.{turn-Writes, due}
use braidpool.Link.{read_next, advance}

module _ {Bytes : Type 0} {q : Mpsc Bytes} (L : IsMpsc q) (c : Codec Bytes) {w : Sink Bytes}
    (R : IsReliable w) where
  abbrev pub sent_by : Session Bytes q w → List Bytes
  sent_by s = R.sent s.handler.out

  -- What an end has handled, and then what waits in its channel, is what it has read of the other's
  -- messages.
  pub record Flows (log : List Bytes) (n : ℕ) (wire : List Bytes) (s : Session Bytes q w)
      : Type 0 where
    pub order : log ++ queued L c w s ≡ take n wire
    pub short : n ≤ length wire

  abbrev pub If : (Session Bytes q w → Type 0) → Progress (Session Bytes q w) → Type 0
  If P (going s) = P s
  If P (returned _ _) = Unit
  If P (crashed _) = Unit

  read_pushes :
      (s : Session Bytes q w) (m : Bytes)
      → If
          (λ s'. (queued L c w s' ≡ queued L c w s ++ (m ∷ [])) × (sent_by s' ≡ sent_by s))
          (poll_session q c w (record s { reader = some m ∷ [] }) reads)
  unfolding poll_session
  read_pushes s m = ground (arith, try_send_lem L s.handler.chan m)

  pub read_on :
      (log : List Bytes) (n : ℕ) (wire : List Bytes) (s : Session Bytes q w) (m : Option Bytes)
      → get_elem? wire n ≡ m
      → Flows log n wire s
      → If
          (λ s'. Flows log (advance q c R n m) wire s' × (sent_by s' ≡ sent_by s ++ []))
          (read_next q c R s m)
  unfolding read_next advance
  read_on log n wire s none e v = (v, sym (append-nil (sent_by s)))
  read_on log n wire s (some m) e v = pushed_on _ (read_pushes s m)
    where
      pushed_on :
          (p : Progress (Session Bytes q w))
          → If (λ s'. (queued L c w s' ≡ queued L c w s ++ (m ∷ [])) × (sent_by s' ≡ sent_by s)) p
          → If (λ s'. Flows log (suc n) wire s' × (sent_by s' ≡ sent_by s ++ [])) p
      pushed_on (going s') h = (
        record {
          order =
              ap (λ l. log ++ l) (h.0)
              ∙ sym (append_assoc log (queued L c w s) (m ∷ []))
              ∙ ap (λ l. l ++ (m ∷ [])) v.order
              ∙ sym (take-suc n wire e);
          short = lt-length_of_get_elem? wire n e;
        },
        h.1 ∙ sym (append-nil (sent_by s)),
      )
      pushed_on (returned x s') h = tt
      pushed_on (crashed s') h = tt

  -- A turn of the handler takes from its own channel, and adds to what the other will read.
  pub handle_on :
      (log : List Bytes) (n : ℕ) (wire : List Bytes) (s : Session Bytes q w) (br : Branch)
      → Flows log n wire s
      → If
          (λ s'.
            Flows (log ++ took L c w s (handles br)) n wire s'
            × (sent_by s' ≡ sent_by s ++ due q c R s (handles br)))
          (poll_session q c w s (handles br))
  handle_on log n wire s br v =
      taken_on _ (turn-Flows L c w s (handles br)).order (turn-Writes q c R s (handles br))
    where
      taken_on :
          (p : Progress (Session Bytes q w))
          → took L c w s (handles br) ++ queued L c w (reached p) ≡ queued L c w s ++ []
          → sent_by (reached p) ≡ sent_by s ++ due q c R s (handles br)
          → If
              (λ s'.
                Flows (log ++ took L c w s (handles br)) n wire s'
                × (sent_by s' ≡ sent_by s ++ due q c R s (handles br)))
              p
      taken_on (going s') h k = (
        record {
          order =
              append_assoc log (took L c w s (handles br)) (queued L c w s')
              ∙ ap (λ l. log ++ l) (h ∙ append-nil (queued L c w s))
              ∙ v.order;
          short = v.short;
        },
        k,
      )
      taken_on (returned x s') h k = tt
      taken_on (crashed s') h k = tt

  pub grows :
      (log : List Bytes) (n : ℕ) (wire more : List Bytes) (s : Session Bytes q w)
      → Flows log n wire s
      → Flows log n (wire ++ more) s
  grows log n wire more s v = record {
    order = v.order ∙ sym (take-append n wire more v.short);
    short = omega (arith, v.short, length-append wire more);
  }
