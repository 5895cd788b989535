-- ===== src/Link/Simulation.antt =====
-- Two ends of a link (node/connection/src/lib.rs) move as the two small machines do.
use braidpool.Base.{
  ℕ, suc, ◌<◌, ◌≡◌, refl, sym, ap, ◌∙◌, inl, inr, none, some, List, [], ◌∷◌, ◌++◌, Bool-cases,
  length, get_elem?, arith,
}
use braidpool.Protocol.Wire.{Codec}
use braidpool.Connection.Io.{Mpsc, IsMpsc, Sink, Progress, going, returned, crashed}
use braidpool.Connection.Handler.{Branch, from_channel, from_broadcast}
use braidpool.Connection.Answers.{IsReliable}
use braidpool.Connection.Session.{Session, handles, poll_session}
use braidpool.Link.{
  Link, LinkMove, a_reads, b_reads, a_handles, b_handles, read_next, advance, with_a, with_b, step,
  run,
}
use braidpool.Link.Side.{
  Words, Talk, fresh, helo_waiting, both_waiting, answered, oleh_waiting, done, heard, spoken,
  unhandled, IsAt, Stays, read-Stays, broadcast-Stays, handle-Stays,
}
use braidpool.Link.Talks.{
  Talks, spoke_twice, hear, handle, heard-handle, talk, talk_on, word_0, word_1, word_2,
}

module _ {Bytes : Type 0} {q : Mpsc Bytes} (L : IsMpsc q) {c : Codec Bytes} {w : Sink Bytes}
    (R : IsReliable w) (W : Words c) where
  -- The end at `k` reads on, when the other is at `k'` and this is what the other wrote.
  record Reads (k k' : Talk) (s : Session Bytes q w) (wire : List Bytes) (n : ℕ) : Type 0 where
    stays : Stays L R W (hear k k') (read_next q c R s (get_elem? wire n))
    counted : advance q c R n (get_elem? wire n) ≡ heard (hear k k')

  silent-Reads :
      (k k' : Talk) (s : Session Bytes q w) (n : ℕ)
      → IsAt L R W k s
      → get_elem? (spoken W k') n ≡ none
      → n ≡ heard k
      → hear k k' ≡ k
      → Reads k k' s (spoken W k') n
  unfolding read_next advance
  silent-Reads k k' s n v e h i = record { stays = rw (e, i) v; counted = rw (e, i) h }

  word-Reads :
      (k k' : Talk) (s : Session Bytes q w) (n : ℕ) (m : Bytes)
      → IsAt L R W k s
      → get_elem? (spoken W k') n ≡ some m
      → suc n ≡ heard (hear k k')
      → length (unhandled W k) < 2
      → unhandled W (hear k k') ≡ unhandled W k ++ (m ∷ [])
      → spoken W (hear k k') ≡ spoken W k
      → Reads k k' s (spoken W k') n
  unfolding read_next advance
  word-Reads k k' s n m v e h space queue' said' = record {
    stays = rw e (read-Stays L R W k (hear k k') s m v space queue' said');
    counted = rw e h;
  }

  hear-Reads :
      (k k' : Talk) (s : Session Bytes q w) (n : ℕ)
      → IsAt L R W k s
      → n ≡ heard k
      → Reads k k' s (spoken W k') n
  hear-Reads fresh k' s n v h =
      word-Reads fresh k' s n W.first v (rw h (word_0 W k')) (ap suc h) (omega arith) refl refl
  hear-Reads helo_waiting k' s n v h = elim (Bool-cases (spoke_twice k')) [
    | inl e ↦
        word-Reads helo_waiting k' s n W.second v (rw h (word_1 W k' ∙ rw e)) (rw (e, h))
          (omega arith) (rw e) (rw e)
    | inr e ↦ silent-Reads helo_waiting k' s n v (rw h (word_1 W k' ∙ rw e)) h (rw e)
  ]
  hear-Reads both_waiting k' s n v h =
      silent-Reads both_waiting k' s n v (rw h (word_2 W k')) h refl
  hear-Reads answered k' s n v h = elim (Bool-cases (spoke_twice k')) [
    | inl e ↦
        word-Reads answered k' s n W.second v (rw h (word_1 W k' ∙ rw e)) (rw (e, h)) (omega arith)
          (rw e) (rw e)
    | inr e ↦ silent-Reads answered k' s n v (rw h (word_1 W k' ∙ rw e)) h (rw e)
  ]
  hear-Reads oleh_waiting k' s n v h =
      silent-Reads oleh_waiting k' s n v (rw h (word_2 W k')) h refl
  hear-Reads done k' s n v h = silent-Reads done k' s n v (rw h (word_2 W k')) h refl

  handles-Stays :
      (k : Talk) (s : Session Bytes q w) (br : Branch)
      → IsAt L R W k s
      → Stays L R W (handle k br) (poll_session q c w s (handles br))
  handles-Stays k s from_channel v = handle-Stays L R W k s v
  handles-Stays k s from_broadcast v = broadcast-Stays L R W k s v

  -- Both ends are where the two machines are.
  pub record IsLinked (s : Talks) (l : Link q w) : Type 0 where
    pub end_a : IsAt L R W s.a l.a
    pub end_b : IsAt L R W s.b l.b
    pub count_a : l.read_a ≡ heard s.a
    pub count_b : l.read_b ≡ heard s.b

  abbrev pub Lasts : Talks → Progress (Link q w) → Type 0
  Lasts s (going l) = IsLinked s l
  Lasts s (returned _ _) = ⊥
  Lasts s (crashed _) = ⊥

  with_a-Lasts :
      (s : Talks) (l : Link q w) (k : Talk) (n : ℕ) (p : Progress (Session Bytes q w))
      → IsLinked s l
      → Stays L R W k p
      → n ≡ heard k
      → Lasts (record s { a = k }) (with_a q c R l n p)
  unfolding with_a
  with_a-Lasts s l k n (going s') v st h = record {
    end_a = st;
    end_b = v.end_b;
    count_a = h;
    count_b = v.count_b;
  }
  with_a-Lasts s l k n (returned e s') v st h = absurd st
  with_a-Lasts s l k n (crashed s') v st h = absurd st

  with_b-Lasts :
      (s : Talks) (l : Link q w) (k : Talk) (n : ℕ) (p : Progress (Session Bytes q w))
      → IsLinked s l
      → Stays L R W k p
      → n ≡ heard k
      → Lasts (record s { b = k }) (with_b q c R l n p)
  unfolding with_b
  with_b-Lasts s l k n (going s') v st h = record {
    end_a = v.end_a;
    end_b = st;
    count_a = v.count_a;
    count_b = h;
  }
  with_b-Lasts s l k n (returned e s') v st h = absurd st
  with_b-Lasts s l k n (crashed s') v st h = absurd st

  step-Lasts :
      (s : Talks) (l : Link q w) (m : LinkMove) → IsLinked s l → Lasts (talk s m) (step q c R l m)
  unfolding step
  step-Lasts s l a_reads v =
      let r = hear-Reads s.a s.b l.a l.read_a v.end_a v.count_a in
      rw v.end_b.said (with_a-Lasts s l _ _ _ v r.stays r.counted)
  step-Lasts s l b_reads v =
      let r = hear-Reads s.b s.a l.b l.read_b v.end_b v.count_b in
      rw v.end_a.said (with_b-Lasts s l _ _ _ v r.stays r.counted)
  step-Lasts s l (a_handles br) v =
      with_a-Lasts s l (handle s.a br) l.read_a _ v (handles-Stays s.a l.a br v.end_a)
        (v.count_a ∙ sym (heard-handle s.a br))
  step-Lasts s l (b_handles br) v =
      with_b-Lasts s l (handle s.b br) l.read_b _ v (handles-Stays s.b l.b br v.end_b)
        (v.count_b ∙ sym (heard-handle s.b br))

  first_step-Lasts :
      (s : Talks) (l : Link q w) (m : LinkMove) (ms : List LinkMove) (p : Progress (Link q w))
      → step q c R l m ≡ p
      → Lasts (talk s m) p
      → ((l' : Link q w) → IsLinked (talk s m) l' → Lasts (talk_on s (m ∷ ms)) (run q c R l' ms))
      → Lasts (talk_on s (m ∷ ms)) (run q c R l (m ∷ ms))
  unfolding run
  first_step-Lasts s l m ms (going l') e v ih = rw (e, run) (ih l' v)
  first_step-Lasts s l m ms (returned x l') e v ih = absurd v
  first_step-Lasts s l m ms (crashed l') e v ih = absurd v

  pub run-Lasts :
      (s : Talks) (l : Link q w) (ms : List LinkMove)
      → IsLinked s l
      → Lasts (talk_on s ms) (run q c R l ms)
  unfolding run
  run-Lasts s l [] v = v
  run-Lasts s l (m ∷ ms) v =
      first_step-Lasts s l m ms (step q c R l m) refl (step-Lasts s l m v)
        (λ l' v'. run-Lasts (talk s m) l' ms v')
