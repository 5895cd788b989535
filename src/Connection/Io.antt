-- ===== src/Connection/Io.antt =====
-- What node/connection/src/lib.rs takes from the crates tokio, tokio_util and futures, none of
-- which is part of the repository: bounded channels (`mpsc`) and the writing half of a stream
-- (`SinkExt`). Both are parameters; `IsMpsc` states what tokio documents of a bounded channel.
use braidpool.Base.{
  ℕ, suc, ◌≤◌, ◌<◌, ◌≡◌, Bool, true, false, Option, none, some, List, [], ◌∷◌, ◌++◌, Outcome, ok,
  err, length, String,
}

-- What an `await` finds.
pub data Poll {ℓ} (A : Type ℓ) : Type ℓ where
  ready : A → Poll A
  pending : Poll A

-- The message comes back in both variants, and the code drops it.
pub data TrySendError : Type 0 where
  full closed : TrySendError

-- The two ends of a channel over one state.
pub record Mpsc (Bytes : Type 0) : Type 1 where
  pub Chan : Type 0
  -- `mpsc::channel`; `none` is a panic.
  pub channel : ℕ → Option Chan
  -- `Sender::try_send`
  pub try_send : Chan → Bytes → Outcome TrySendError (Unit {0}) × Chan
  -- `Receiver::recv`, with `ready none` when the channel is closed and empty
  pub recv : Chan → Poll (Option Bytes) × Chan
  -- `Receiver::close`
  pub close : Chan → Chan

-- What a channel shows: the messages in it, oldest first, its capacity, and whether it is closed.
pub record Backlog (Bytes : Type 0) : Type 0 where
  pub queue : List Bytes
  pub limit : ℕ
  pub shut : Bool

pub record IsMpsc {Bytes : Type 0} (q : Mpsc Bytes) : Type 0 where
  pub look : q.Chan → Backlog Bytes
  pub channel_zero : q.channel 0 ≡ none
  pub channel_suc :
      (n : ℕ)
      → (ch : q.Chan) × (q.channel (suc n) ≡ some ch)
        × (look ch ≡ record { queue = []; limit = suc n; shut = false })
  pub try_send_shut :
      (ch : q.Chan) (b : Bytes) → (look ch).shut ≡ true → q.try_send ch b ≡ (err closed, ch)
  pub try_send_full :
      (ch : q.Chan) (b : Bytes)
      → (look ch).shut ≡ false
      → (look ch).limit ≤ length (look ch).queue
      → q.try_send ch b ≡ (err full, ch)
  pub try_send_room :
      (ch : q.Chan) (b : Bytes)
      → (look ch).shut ≡ false
      → length (look ch).queue < (look ch).limit
      → let (r, ch') = q.try_send ch b in
        (r ≡ ok tt) × (look ch' ≡ record (look ch) { queue = (look ch).queue ++ (b ∷ []) })
  pub recv_some :
      (ch : q.Chan) (b : Bytes) (rest : List Bytes)
      → (look ch).queue ≡ b ∷ rest
      → let (r, ch') = q.recv ch in
        (r ≡ ready (some b)) × (look ch' ≡ record (look ch) { queue = rest })
  pub recv_none :
      (ch : q.Chan) → (look ch).queue ≡ [] → (look ch).shut ≡ true → q.recv ch ≡ (ready none, ch)
  pub recv_pending :
      (ch : q.Chan) → (look ch).queue ≡ [] → (look ch).shut ≡ false → q.recv ch ≡ (pending, ch)
  pub close_lem : (ch : q.Chan) → look (q.close ch) ≡ record (look ch) { shut = true }

-- The writer: `send` and `close`, with `false` for an error.
pub record Sink (Bytes : Type 0) : Type 1 where
  pub Out : Type 0
  pub send : Out → Bytes → Bool × Out
  pub close : Out → Bool × Out

-- How far a task has come: it waits, it has returned an error, or it has panicked.
pub data Progress {ℓ} (S : Type ℓ) : Type ℓ where
  going : S → Progress S
  returned : String → S → Progress S
  crashed : S → Progress S
