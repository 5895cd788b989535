-- ===== src/Link/Handshakes.antt =====
-- Two nodes that greet each other (node/connection/src/lib.rs, node/protocol/src/handshake.rs),
-- under every order of the steps.
use braidpool.Base.{
  ℕ, ◌≤◌, ◌≡◌, refl, sym, ap, ◌∙◌, ◌⊎◌, inl, inr, Bool-cases, true, false, List, [], ◌∷◌, ◌++◌,
  length, arith,
}
use braidpool.Protocol.Wire.{Codec, as_bytes}
use braidpool.Connection.Io.{Mpsc, IsMpsc, Sink, Progress, going, returned, crashed}
use braidpool.Connection.Handler.{from_channel}
use braidpool.Connection.Answers.{IsReliable}
use braidpool.Connection.Session.{Session, hello, greet}
use braidpool.Link.{Link, LinkMove, a_reads, b_reads, a_handles, b_handles, run}
use braidpool.Link.Side.{
  Words, Talk, fresh, helo_waiting, both_waiting, answered, oleh_waiting, done, heard, take, spoken,
  unhandled, IsAt,
}
use braidpool.Link.Talks.{Talks, spoke_twice, hear, talk, talk_on}
use braidpool.Link.Simulation.{IsLinked, Lasts, run-Lasts}

-- Nothing is left to hear or to handle only where both messages were spoken.
quiet_lem :
    {Bytes : Type 0} {c : Codec Bytes} (W : Words c) (k k' : Talk)
    → heard k ≡ length (spoken W k')
    → unhandled W k ≡ []
    → spoken W k ≡ W.first ∷ W.second ∷ []
quiet_lem W fresh k' h e = absurd (ground arith)
quiet_lem W helo_waiting k' h e = absurd (cc)
quiet_lem W both_waiting k' h e = absurd (cc)
quiet_lem W answered k' h e = refl
quiet_lem W oleh_waiting k' h e = refl
quiet_lem W done k' h e = refl

speaks : (k k' : Talk) → spoke_twice (take (hear k k')) ≡ true
speaks fresh k' = refl
speaks helo_waiting k' = elim (Bool-cases (spoke_twice k')) [ inl e ↦ rw e | inr e ↦ rw e ]
speaks both_waiting k' = refl
speaks answered k' = elim (Bool-cases (spoke_twice k')) [ inl e ↦ rw e | inr e ↦ rw e ]
speaks oleh_waiting k' = refl
speaks done k' = refl

finishes : (k k' : Talk) → spoke_twice k ≡ true → spoke_twice k' ≡ true → take (hear k k') ≡ done
finishes fresh k' h h' = absurd (cc)
finishes helo_waiting k' h h' = absurd (cc)
finishes both_waiting k' h h' = absurd (cc)
finishes answered k' h h' = rw h'
finishes oleh_waiting k' h h' = refl
finishes done k' h h' = refl

abbrev at_first : Talks
at_first = record { a = fresh; b = fresh }

abbrev at_last : Talks
at_last = record { a = done; b = done }

-- Each end reads and handles one message, twice.
abbrev turn_about : List LinkMove
turn_about = a_reads ∷ a_handles from_channel ∷ b_reads ∷ b_handles from_channel ∷ []

abbrev pub finish : List LinkMove
finish = turn_about ++ turn_about

talk_on-append :
    (s : Talks) (ms ns : List LinkMove) → talk_on s (ms ++ ns) ≡ talk_on (talk_on s ms) ns
talk_on-append s [] ns = refl
talk_on-append s (m ∷ ms) ns = talk_on-append (talk s m) ms ns

talk_on-finish : (s : Talks) → talk_on s finish ≡ at_last
talk_on-finish s =
    let a' = take (hear s.a s.b) in
    let b' = take (hear s.b a') in
    rw (finishes a' b' (speaks s.a s.b) (speaks s.b a'), finishes b' done (speaks s.b a') refl)

module _ {Bytes : Type 0} {q : Mpsc Bytes} (L : IsMpsc q) {c : Codec Bytes} {w : Sink Bytes}
    (R : IsReliable w) (W : Words c) where
  -- A session before it greets its peer: nothing was written or read, and its channel is open.
  pub record IsNew (s : Session Bytes q w) : Type 0 where
    pub is_open : (L.look s.handler.chan).shut ≡ false
    pub room : 2 ≤ (L.look s.handler.chan).limit
    pub queued : (L.look s.handler.chan).queue ≡ []
    pub said : R.sent s.handler.out ≡ []
    pub channel_on : s.handler.channel_on ≡ true
    pub silence : s.handler.announcements ≡ []

  greet-IsAt :
      {Addr : Type 0} (addr : Addr) (now : ℕ) (s s' : Session Bytes q w)
      → IsNew s
      → greet q c w s [] (hello c addr now) ≡ going s'
      → IsAt L R W fresh s'
  unfolding greet hello as_bytes
  greet-IsAt addr now s s' v e =
      let out' = (w.send s.handler.out W.first).1 in
      let s'' : Session Bytes q w = record s { handler = record (s.handler) { out = out' } } in
      let there : greet q c w s [] (hello c addr now) ≡ going s'' = rw W.first_lem in
      let same : s'' ≡ s' = (let k = sym there ∙ e in cc) in
      rw⁻¹ same (record {
        is_open = v.is_open;
        room = v.room;
        queued = v.queued;
        said = R.sent-send s.handler.out W.first ∙ ap (λ l. l ++ (W.first ∷ [])) v.said;
        channel_on = v.channel_on;
        silence = v.silence;
      })

  -- What is left of a link that lasts.
  reached :
      (s : Talks) (p : Progress (Link q w))
      → Lasts L R W s p
      → (l : Link q w) × (p ≡ going l) × IsLinked L R W s l
  reached s (going l) v = (l, refl, v)
  reached s (returned e l) v = absurd v
  reached s (crashed l) v = absurd v

  two_logs : (k : Talk) → (spoken W k ≡ W.first ∷ []) ⊎ (spoken W k ≡ W.first ∷ W.second ∷ [])
  two_logs fresh = inl refl
  two_logs helo_waiting = inl refl
  two_logs both_waiting = inl refl
  two_logs answered = inr refl
  two_logs oleh_waiting = inr refl
  two_logs done = inr refl

  module _ {Addr : Type 0} (addr_a addr_b : Addr) (now_a now_b : ℕ)
      (new_a new_b a b : Session Bytes q w) (n_a : IsNew new_a) (n_b : IsNew new_b)
      (g_a : greet q c w new_a [] (hello c addr_a now_a) ≡ going a)
      (g_b : greet q c w new_b [] (hello c addr_b now_b) ≡ going b) where
    abbrev linked : Link q w
    linked = record { a = a; b = b; read_a = 0; read_b = 0 }

    linked-IsLinked : IsLinked L R W at_first linked
    linked-IsLinked = record {
      end_a = greet-IsAt addr_a now_a new_a a n_a g_a;
      end_b = greet-IsAt addr_b now_b new_b b n_b g_b;
      count_a = refl;
      count_b = refl;
    }

    lasting : (ms : List LinkMove) → Lasts L R W (talk_on at_first ms) (run q c R linked ms)
    lasting ms = run-Lasts L R W at_first linked ms linked-IsLinked

    -- Whatever the order in which two nodes that have greeted each other read and handle, neither
    -- end returns an error or panics, and each has written its greeting, alone or followed by the
    -- one answer to the greeting of the other. The two sessions start with open and empty channels
    -- that have room for two messages, with nothing written or announced; both messages can be
    -- written and are read back, the writers take everything, and the stream loses nothing.
    pub handshakes_hold :
        (ms : List LinkMove)
        → (l : Link q w) × (run q c R linked ms ≡ going l)
          × ((R.sent l.a.handler.out ≡ W.first ∷ [])
              ⊎ (R.sent l.a.handler.out ≡ W.first ∷ W.second ∷ []))
          × ((R.sent l.b.handler.out ≡ W.first ∷ [])
              ⊎ (R.sent l.b.handler.out ≡ W.first ∷ W.second ∷ []))
    handshakes_hold ms =
        let (l, e, v) = reached (talk_on at_first ms) _ (lasting ms) in
        (l, e, rw v.end_a.said (two_logs _), rw v.end_b.said (two_logs _))

    -- At any point that two nodes which have greeted each other can come to, if all that was
    -- written is read and both channels are empty, both ends have written their greeting and the
    -- answer to the other's, and nothing else. The two sessions start with open and empty channels
    -- that have room for two messages, with nothing written or announced; both messages can be
    -- written and are read back, the writers take everything, and the stream loses nothing.
    pub handshake_when_quiet :
        (ms : List LinkMove) (l : Link q w)
        → run q c R linked ms ≡ going l
        → l.read_a ≡ length (R.sent l.b.handler.out)
        → l.read_b ≡ length (R.sent l.a.handler.out)
        → (L.look l.a.handler.chan).queue ≡ []
        → (L.look l.b.handler.chan).queue ≡ []
        → (R.sent l.a.handler.out ≡ W.first ∷ W.second ∷ [])
          × (R.sent l.b.handler.out ≡ W.first ∷ W.second ∷ [])
    handshake_when_quiet ms l e h_a h_b e_a e_b =
        let (l', e', v') = reached (talk_on at_first ms) _ (lasting ms) in
        let same : l' ≡ l = (let k = sym e' ∙ e in cc) in
        let v : IsLinked L R W (talk_on at_first ms) l = rw⁻¹ same v' in
        (
          v.end_a.said
              ∙ quiet_lem W _ _ (sym v.count_a ∙ h_a ∙ ap length v.end_b.said)
                  (sym v.end_a.queued ∙ e_a),
          v.end_b.said
              ∙ quiet_lem W _ _ (sym v.count_b ∙ h_b ∙ ap length v.end_a.said)
                  (sym v.end_b.queued ∙ e_b),
        )

    -- From any point that two nodes which have greeted each other can come to, both ends have
    -- completed the handshake, and both channels are empty, once each end in its turn has read and
    -- handled one message more, and then once again: nothing that happened before can prevent it.
    -- The two sessions start with open and empty channels that have room for two messages, with
    -- nothing written or announced; both messages can be written and are read back, the writers
    -- take everything, and the stream loses nothing.
    pub handshake_finishes :
        (ms : List LinkMove)
        → (l : Link q w) × (run q c R linked (ms ++ finish) ≡ going l)
          × (R.sent l.a.handler.out ≡ W.first ∷ W.second ∷ [])
          × (R.sent l.b.handler.out ≡ W.first ∷ W.second ∷ [])
          × ((L.look l.a.handler.chan).queue ≡ [])
          × ((L.look l.b.handler.chan).queue ≡ [])
    handshake_finishes ms =
        let there = talk_on-append at_first ms finish ∙ talk_on-finish (talk_on at_first ms) in
        let (l, e, v) = reached at_last _ (rw there at (lasting (ms ++ finish))) in
        (l, e, v.end_a.said, v.end_b.said, v.end_a.queued, v.end_b.queued)
