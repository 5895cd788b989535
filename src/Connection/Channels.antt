-- ===== src/Connection/Channels.antt =====
-- What the laws of a bounded channel give for every state of it, full, empty or closed
-- (`try_send` and `recv` as node/connection/src/lib.rs calls them).
use braidpool.Base.{
  ◌≤◌, ◌≡◌, ◌≢◌, refl, sym, Option, none, some, List, [], ◌∷◌, ◌++◌, Outcome, ok, err, panic,
  length, length-append, arith, Bool-cases, false, inl, inr, ◌⊎◌, leb,
}
use mathlib.Core.List.{append-nil}
use braidpool.Connection.Io.{Poll, ready, pending, TrySendError, Mpsc, IsMpsc}

-- What a receive takes out of the queue, and what a send puts in.
abbrev pub pulled {ℓ} : {A : Type ℓ} → Poll (Option A) → List A
pulled (ready (some b)) = b ∷ []
pulled (ready none) = []
pulled pending = []

abbrev pub pushed {ℓ} : {A : Type ℓ} → A → Outcome TrySendError (Unit {0}) → List A
pushed b (ok _) = b ∷ []
pushed b (err _) = []
pushed b panic = []

List-cases {ℓ} :
    {A : Type ℓ} (xs : List A) → (xs ≡ []) ⊎ ((x : A) × (rest : List A) × (xs ≡ x ∷ rest))
List-cases [] = inl refl
List-cases (x ∷ xs) = inr (x, xs, refl)

module _ {Bytes : Type 0} {q : Mpsc Bytes} (L : IsMpsc q) where
  -- A receive takes the oldest message or none, and changes nothing else.
  pub recv_lem :
      (ch : q.Chan)
      → let (r, ch') = q.recv ch in
        (pulled r ++ (L.look ch').queue ≡ (L.look ch).queue)
        × ((L.look ch').limit ≡ (L.look ch).limit)
        × ((L.look ch').shut ≡ (L.look ch).shut)
        × (length (L.look ch').queue ≤ length (L.look ch).queue)
  recv_lem ch = elim (List-cases (L.look ch).queue) [
    | inl empty ↦ elim (Bool-cases (L.look ch).shut) [
      | inl shut ↦ rw (L.recv_none ch empty shut) (refl, refl, refl, omega arith)
      | inr open' ↦ rw (L.recv_pending ch empty open') (refl, refl, refl, omega arith)
    ]
    | inr (b, rest, e) ↦
        let (r, after) = L.recv_some ch b rest e in rw (r, after, e) (refl, refl, refl, omega arith)
  ]

  -- A send appends the message just if it reports success, which it does just if the channel is
  -- open and has room.
  pub try_send_lem :
      (ch : q.Chan) (b : Bytes)
      → let (r, ch') = q.try_send ch b in
        ((L.look ch').queue ≡ (L.look ch).queue ++ pushed b r)
        × ((L.look ch').limit ≡ (L.look ch).limit)
        × ((L.look ch').shut ≡ (L.look ch).shut)
        × (length (L.look ch).queue ≤ (L.look ch).limit
            → length (L.look ch').queue ≤ (L.look ch').limit)
        × (r ≢ panic)
  try_send_lem ch b = elim (Bool-cases (L.look ch).shut) [
    | inl shut ↦
        rw (L.try_send_shut ch b shut)
          (sym (append-nil (L.look ch).queue), refl, refl, λ h. h, λ e. cc)
    | inr open' ↦ elim (Bool-cases (leb (L.look ch).limit (length (L.look ch).queue))) [
      | inl no_room ↦
          rw (L.try_send_full ch b open' (ground arith))
            (sym (append-nil (L.look ch).queue), refl, refl, λ h. h, λ e. cc)
      | inr room ↦
          let (r, after) = L.try_send_room ch b open' (ground arith) in
          rw (r, after)
            (
              refl,
              refl,
              refl,
              λ h. ground (arith, length-append (L.look ch).queue (b ∷ [])),
              λ e. cc,
            )
    ]
  ]

  -- An open channel never reports its end.
  pub recv_open : (ch : q.Chan) → (L.look ch).shut ≡ false → (q.recv ch).0 ≢ ready none
  recv_open ch open' = elim (List-cases (L.look ch).queue) [
    | inl empty ↦ rw (L.recv_pending ch empty open') (λ e. cc)
    | inr (b, rest, e) ↦ rw ((L.recv_some ch b rest e).0) (λ h. cc)
  ]
