-- ===== src/Link/Talks.antt =====
-- The two small machines of a link's ends (node/connection/src/lib.rs), and what they hear of each
-- other.
use braidpool.Base.{
  ◌≡◌, refl, Bool, true, false, none, some, List, [], ◌∷◌, get_elem?, if◌then◌else◌,
}
use braidpool.Protocol.Wire.{Codec}
use braidpool.Connection.Handler.{Branch, from_channel, from_broadcast}
use braidpool.Link.{LinkMove, a_reads, b_reads, a_handles, b_handles}
use braidpool.Link.Side.{
  Words, Talk, fresh, helo_waiting, both_waiting, answered, oleh_waiting, done, heard, take, spoken,
}

abbrev pub spoke_twice : Talk → Bool
spoke_twice fresh = false
spoke_twice helo_waiting = false
spoke_twice both_waiting = false
spoke_twice answered = true
spoke_twice oleh_waiting = true
spoke_twice done = true

-- An end reads what the other has written and it has not read yet.
abbrev pub hear : Talk → Talk → Talk
hear fresh k = helo_waiting
hear helo_waiting k = if spoke_twice k then both_waiting else helo_waiting
hear both_waiting k = both_waiting
hear answered k = if spoke_twice k then oleh_waiting else answered
hear oleh_waiting k = oleh_waiting
hear done k = done

abbrev pub handle : Talk → Branch → Talk
handle k from_channel = take k
handle k from_broadcast = k

pub heard-handle : (k : Talk) (br : Branch) → heard (handle k br) ≡ heard k
heard-handle fresh from_channel = refl
heard-handle helo_waiting from_channel = refl
heard-handle both_waiting from_channel = refl
heard-handle answered from_channel = refl
heard-handle oleh_waiting from_channel = refl
heard-handle done from_channel = refl
heard-handle k from_broadcast = refl

-- The two ends, as state machines.
pub record Talks : Type 0 where
  pub a : Talk
  pub b : Talk

abbrev pub talk : Talks → LinkMove → Talks
talk s a_reads = record s { a = hear s.a s.b }
talk s b_reads = record s { b = hear s.b s.a }
talk s (a_handles br) = record s { a = handle s.a br }
talk s (b_handles br) = record s { b = handle s.b br }

abbrev pub talk_on : Talks → List LinkMove → Talks
talk_on s [] = s
talk_on s (m ∷ ms) = talk_on (talk s m) ms

module _ {Bytes : Type 0} {c : Codec Bytes} (W : Words c) where
  pub word_0 : (k : Talk) → get_elem? (spoken W k) 0 ≡ some W.first
  word_0 fresh = refl
  word_0 helo_waiting = refl
  word_0 both_waiting = refl
  word_0 answered = refl
  word_0 oleh_waiting = refl
  word_0 done = refl

  pub word_1 :
      (k : Talk) → get_elem? (spoken W k) 1 ≡ (if spoke_twice k then some W.second else none)
  word_1 fresh = refl
  word_1 helo_waiting = refl
  word_1 both_waiting = refl
  word_1 answered = refl
  word_1 oleh_waiting = refl
  word_1 done = refl

  pub word_2 : (k : Talk) → get_elem? (spoken W k) 2 ≡ none
  word_2 fresh = refl
  word_2 helo_waiting = refl
  word_2 both_waiting = refl
  word_2 answered = refl
  word_2 oleh_waiting = refl
  word_2 done = refl
