-- ===== src/Node/Peers.antt =====
-- The list of the peers of a node (node/connection/src/lib.rs, `start`), and what a change at one
-- place of it leaves alone.
use braidpool.Base.{
  ℕ, zero, suc, ◌≡◌, ◌≢◌, sym, subst, some, List, [], ◌∷◌, ◌++◌, arith, All, get_elem?, set,
  remove_at, All-get, All-set, All-remove_at, All-append,
}
use mathlib.Core.Option.{some-injective}
use braidpool.Node.{Peer}

module _ {Addr : Type 0} where
  abbrev pub Differs : Addr → Peer Addr → Type 0
  Differs a p = a ≢ p.addr

  -- No two peers have one address.
  abbrev pub Distinct : List (Peer Addr) → Type 0
  Distinct [] = Unit
  Distinct (p ∷ ps) = All (Differs p.addr) ps × Distinct ps

  module _ (P Q : Peer Addr → Type 0) (p : Peer Addr) where
    -- All peers but the one at a place keep a property that its address alone could break.
    All-others :
        (ps : List (Peer Addr))
        → All (Differs p.addr) ps
        → All P ps
        → ((r : Peer Addr) → p.addr ≢ r.addr → P r → Q r)
        → All Q ps
    All-others [] d a f = tt
    All-others (x ∷ ps) d a f = (f x d.0 a.0, All-others ps d.1 a.1 f)

    pub All-set_others :
        (ps : List (Peer Addr)) (i : ℕ) (y : Peer Addr)
        → get_elem? ps i ≡ some p
        → Distinct ps
        → All P ps
        → ((r : Peer Addr) → p.addr ≢ r.addr → P r → Q r)
        → Q y
        → All Q (set ps i y)
    All-set_others [] i y h d a f k = tt
    All-set_others (x ∷ ps) zero y h d a f k = (
      k,
      All-others ps (subst (λ (z : Peer Addr). All (Differs z.addr) ps) (some-injective x p h) d.0)
          a.1 f,
    )
    All-set_others (x ∷ ps) (suc i) y h d a f k = (
      f x (λ e. All-get (Differs x.addr) ps i d.0 h (sym e)) a.0,
      All-set_others ps i y h d.1 a.1 f k,
    )

    pub All-remove_others :
        (ps : List (Peer Addr)) (i : ℕ)
        → get_elem? ps i ≡ some p
        → Distinct ps
        → All P ps
        → ((r : Peer Addr) → p.addr ≢ r.addr → P r → Q r)
        → All Q (remove_at ps i)
    All-remove_others [] i h d a f = tt
    All-remove_others (x ∷ ps) zero h d a f =
        All-others ps
          (subst (λ (z : Peer Addr). All (Differs z.addr) ps) (some-injective x p h) d.0) a.1 f
    All-remove_others (x ∷ ps) (suc i) h d a f = (
      f x (λ e. All-get (Differs x.addr) ps i d.0 h (sym e)) a.0,
      All-remove_others ps i h d.1 a.1 f,
    )

  -- A change of phase leaves the addresses distinct.
  pub set-Distinct :
      (ps : List (Peer Addr)) (i : ℕ) {p : Peer Addr} (y : Peer Addr)
      → get_elem? ps i ≡ some p
      → y.addr ≡ p.addr
      → Distinct ps
      → Distinct (set ps i y)
  set-Distinct [] i y h e d = tt
  set-Distinct (x ∷ ps) zero y h e d = (subst (λ z. All (Differs z) ps) (ground arith) d.0, d.1)
  set-Distinct (x ∷ ps) (suc i) y h e d = (
    All-set (Differs x.addr) ps i y d.0
        (subst (λ z. x.addr ≢ z) (sym e) (All-get (Differs x.addr) ps i d.0 h)),
    set-Distinct ps i y h e d.1,
  )

  pub remove_at-Distinct : (ps : List (Peer Addr)) (i : ℕ) → Distinct ps → Distinct (remove_at ps i)
  remove_at-Distinct [] i d = tt
  remove_at-Distinct (x ∷ ps) zero d = d.1
  remove_at-Distinct (x ∷ ps) (suc i) d =
      (All-remove_at (Differs x.addr) ps i d.0, remove_at-Distinct ps i d.1)

  pub append-Distinct :
      (ps : List (Peer Addr)) (y : Peer Addr)
      → All (Differs y.addr) ps
      → Distinct ps
      → Distinct (ps ++ (y ∷ []))
  append-Distinct [] y f d = (tt, tt)
  append-Distinct (x ∷ ps) y f d =
      (All-append (Differs x.addr) ps y d.0 (λ e. f.0 (sym e)), append-Distinct ps y f.1 d.1)

  -- Whoever differs from all peers after one of them has changed its phase did so before.
  pub Differs-set :
      (a : Addr) (ps : List (Peer Addr)) (i : ℕ) {p : Peer Addr} (y : Peer Addr)
      → get_elem? ps i ≡ some p
      → y.addr ≡ p.addr
      → All (Differs a) (set ps i y)
      → All (Differs a) ps
  Differs-set a [] i y h e f = tt
  Differs-set a (x ∷ ps) zero y h e f = (subst (λ z. a ≢ z) (ground arith) f.0, f.1)
  Differs-set a (x ∷ ps) (suc i) y h e f = (f.0, Differs-set a ps i y h e f.1)

  -- Whoever differs from all the others and from the peer that has gone differs from all.
  pub Differs-remove :
      (a : Addr) (ps : List (Peer Addr)) (i : ℕ) {p : Peer Addr}
      → get_elem? ps i ≡ some p
      → a ≢ p.addr
      → All (Differs a) (remove_at ps i)
      → All (Differs a) ps
  Differs-remove a [] i h ne f = tt
  Differs-remove a (x ∷ ps) zero {p} h ne f =
      (subst (λ (z : Peer Addr). a ≢ z.addr) (sym (some-injective x p h)) ne, f)
  Differs-remove a (x ∷ ps) (suc i) h ne f = (f.0, Differs-remove a ps i h ne f.1)

  pub Differs-append :
      (a : Addr) (ps : List (Peer Addr)) (y : Peer Addr)
      → All (Differs a) (ps ++ (y ∷ []))
      → All (Differs a) ps
  Differs-append a [] y f = tt
  Differs-append a (x ∷ ps) y f = (f.0, Differs-append a ps y f.1)
