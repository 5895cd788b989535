-- ===== src/Manager/Commuting.antt =====
-- Calls of node/connection/src/connection_manager.rs about two different peers, in either order.
use braidpool.Base.{
  false, ◌+◌, ◌-◌, ◌≤◌, ◌<◌, ◌≡◌, ◌≢◌, refl, sym, ap, Option, none, some, ok, arith, length, leb,
}
use mathlib.Core.Path.{fun_ext, subst}
use braidpool.Manager.Table.{Table, lookup, erase, entries, lookup-erase_ne, length-erase}
use braidpool.Manager.{Metadata, Answer, inserted, found, Call, inserts, removes, gets, counts}
use braidpool.Manager.Registry.{Registry, ask, register, deregister, update}

module _ {Addr : Type 0} (dec : Discrete Addr) where
  -- The peer that a call is about; a count is about all.
  abbrev pub peer : Call Addr → Option Addr
  peer (inserts a s) = some a
  peer (removes a) = some a
  peer (gets a) = some a
  peer counts = none

  -- What a call answers, and what it leaves, where its peer had the given entry.
  abbrev answer : Call Addr → Option Metadata → Answer
  answer (inserts a s) o = inserted (ok o)
  answer (removes a) o = found o
  answer (gets a) o = found o
  answer counts o = found o

  abbrev leaves : Call Addr → Option Metadata → Option Metadata
  leaves (inserts a s) o = some s
  leaves (removes a) o = none
  leaves (gets a) o = o
  leaves counts o = o

  abbrev changed : Registry Addr → Addr → Option Metadata → Registry Addr
  changed r a o = record r {
    entry = update dec r.entry a o;
    size = r.size - entries dec (r.entry a) + entries dec o;
  }

  -- Each entry is counted.
  abbrev pub Counts : Registry Addr → Type 0
  Counts r = (a b : Addr) → a ≢ b → entries dec (r.entry a) + entries dec (r.entry b) ≤ r.size

  registry_eq :
      (r s : Registry Addr)
      → r.limit ≡ s.limit
      → ((a : Addr) → r.entry a ≡ s.entry a)
      → r.size ≡ s.size
      → r ≡ s
  registry_eq r s l e z =
      λ i. record { limit = l i; entry = fun_ext {f = r.entry} {g = s.entry} e i; size = z i }

  ask-changed :
      (r : Registry Addr) (c : Call Addr) (a : Addr)
      → peer c ≡ some a
      → r.size < r.limit
      → entries dec (r.entry a) ≤ r.size
      → ask dec r c ≡ (answer c (r.entry a), changed r a (leaves c (r.entry a)))
  unfolding ask register deregister
  ask-changed r (inserts a s) a' p room fits =
      let same : a ≡ a' = cc in
      let below : leb r.limit r.size ≡ false = ground arith in
      rw (same, below)
        (λ i. (
          inserted (ok (r.entry a')),
          registry_eq
              (record r {
                entry = update dec r.entry a' (some s);
                size = r.size + 1 - entries dec (r.entry a');
              })
              (changed r a' (some s)) refl (λ b. refl) (omega arith) i,
        ))
  ask-changed r (removes a) a' p room fits =
      let same : a ≡ a' = cc in
      rw same (λ i. (
        found (r.entry a'),
        registry_eq
            (record r {
              entry = update dec r.entry a' none;
              size = r.size - entries dec (r.entry a');
            })
            (changed r a' none) refl (λ b. refl) (omega arith) i,
      ))
  ask-changed r (gets a) a' p room fits = λ i. (
    found (r.entry ((let same : a ≡ a' = cc in same) i)),
    registry_eq r (changed r a' (r.entry a')) refl (λ b. ground arith) (omega arith) i,
  )
  ask-changed r counts a' p room fits = absurd (cc)

  changed_comm :
      (r : Registry Addr) (a b : Addr) (x y : Option Metadata)
      → a ≢ b
      → entries dec (r.entry a) + entries dec (r.entry b) ≤ r.size
      → changed (changed r a x) b y ≡ changed (changed r b y) a x
  changed_comm r a b x y ne fits =
      registry_eq (changed (changed r a x) b y) (changed (changed r b y) a x) refl
        (λ d. ground arith) (ground arith)

  -- The second of two calls finds the entry of its peer as it was.
  ask-second :
      (r : Registry Addr) (c d : Call Addr) (a b : Addr)
      → peer d ≡ some b
      → a ≢ b
      → r.size + 2 ≤ r.limit
      → entries dec (r.entry a) + entries dec (r.entry b) ≤ r.size
      → let r' = changed r a (leaves c (r.entry a)) in
        ask dec r' d ≡ (answer d (r.entry b), changed r' b (leaves d (r.entry b)))
  ask-second r c d a b p ne room fits =
      let r' : Registry Addr = changed r a (leaves c (r.entry a)) in
      let same : r'.entry b ≡ r.entry b = ground arith in
      let now = ask-changed r' d b p (ground arith) (ground arith) in
      subst (λ o. ask dec r' d ≡ (answer d o, changed r' b (leaves d o))) same now

  pub two_entries :
      (t : Table Addr Metadata) (a b : Addr)
      → a ≢ b
      → entries dec (lookup dec a t) + entries dec (lookup dec b t) ≤ length t
  two_entries t a b ne = omega (
    arith,
    length-erase dec a t,
    length-erase dec b (erase dec a t),
    ap (entries dec) (lookup-erase_ne dec a b t ne),
  )

  pub ask_comm :
      (r : Registry Addr) (c d : Call Addr) (a b : Addr)
      → peer c ≡ some a
      → peer d ≡ some b
      → a ≢ b
      → r.size + 2 ≤ r.limit
      → entries dec (r.entry a) + entries dec (r.entry b) ≤ r.size
      → let (x, r1) = ask dec r c in
        let (y, r2) = ask dec r1 d in
        let (y', s1) = ask dec r d in let (x', s2) = ask dec s1 c in (x ≡ x') × (y ≡ y') × (r2 ≡ s2)
  ask_comm r c d a b p p' ne room fits =
      rw
        (
          ask-changed r c a p (omega arith) (omega arith),
          ask-changed r d b p' (omega arith) (omega arith),
          ask-second r c d a b p' ne room fits,
          ask-second r d c b a p (λ e. ne (sym e)) room (omega arith),
        )
        (refl, refl, changed_comm r a b (leaves c (r.entry a)) (leaves d (r.entry b)) ne fits)
