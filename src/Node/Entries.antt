-- ===== src/Node/Entries.antt =====
-- The peers of a node (node/connection/src/lib.rs, `start`) against its table of connections, as
-- long as no two peers share an address.
use braidpool.Base.{
  All-get, All-remove_at, All-append, ℕ, ◌<◌, ◌≡◌, refl, Bool, true, false, none, some, List, [],
  ◌∷◌, ◌++◌, arith, All, get_elem?, get_elem?-set_self, lt-length_of_get_elem?, set, remove_at,
  count, bit, count-append, count-set, count-remove_at,
}
use braidpool.Manager.Table.{entries}
use braidpool.Manager.{Metadata, ConnectionManager, num_connections, insert, remove, get}
use braidpool.Manager.Invariant.{IsValid, insert-IsValid, remove-IsValid}
use braidpool.Manager.Methods.{insert_room, remove_lem}
use braidpool.Node.Peers.{
  Differs, Distinct, All-set_others, All-remove_others, set-Distinct, remove_at-Distinct,
  append-Distinct, Differs-set, Differs-remove, Differs-append,
}
use braidpool.Node.{Phase, waiting, serving, leaving, Peer}

-- Whether `start` has put the peer into the table and not yet taken it out.
abbrev pub listed : Phase → Bool
listed waiting = false
listed serving = true
listed leaving = true

abbrev pub is_listed : {Addr : Type 0} → Peer Addr → Bool
is_listed p = listed p.phase

-- The table lists a peer just if `start` has entered it and not yet removed it.
abbrev pub Entered : {Addr : Type 0} → Discrete Addr → ConnectionManager Addr → Peer Addr → Type 0
Entered dec m p = entries dec (get dec m p.addr) ≡ bit (listed p.phase)

-- The manager and the peers of a node, where no two peers share an address and the table lists
-- exactly the peers that are being served or are leaving.
pub record Tracks {Addr : Type 0} (dec : Discrete Addr) (m : ConnectionManager Addr)
    (ps : List (Peer Addr)) : Type 0 where
  pub valid : IsValid dec m
  pub distinct : Distinct ps
  pub entered : All (Entered dec m) ps
  pub only : (a : Addr) → All (Differs a) ps → get dec m a ≡ none
  pub counted : num_connections m ≡ count is_listed ps

module _ {Addr : Type 0} (dec : Discrete Addr) where
  pub admit-Tracks :
      (m : ConnectionManager Addr) (ps : List (Peer Addr)) (i : ℕ) (p : Peer Addr) (s : Metadata)
      → p.phase ≡ waiting
      → get_elem? ps i ≡ some p
      → Tracks dec m ps
      → num_connections m < m.capacity
      → Tracks dec (insert dec m p.addr s).1 (set ps i (record { addr = p.addr; phase = serving }))
  admit-Tracks m ps i p s e h v room =
      let y : Peer Addr = record { addr = p.addr; phase = serving } in
      let m' = (insert dec m p.addr s).1 in
      let own = All-get (Entered dec m) ps i v.entered h in
      record {
        valid = insert-IsValid dec m p.addr s v.valid;
        distinct = set-Distinct ps i y h refl v.distinct;
        entered =
            All-set_others (Entered dec m) (Entered dec m') p ps i y h v.distinct v.entered
              (λ r ne o. ground (arith, insert_room dec m p.addr r.addr s room, o, ne))
              (ground (arith, insert_room dec m p.addr p.addr s room));
        only = λ a f.
            let ne =
              All-get (Differs a) (set ps i y) i f
                (get_elem?-set_self ps i y (lt-length_of_get_elem? ps i h)) in
            ground (
              arith,
              insert_room dec m p.addr a s room,
              v.only a (Differs-set a ps i y h refl f),
              ne,
            );
        counted =
            ground
              (arith, insert_room dec m p.addr p.addr s room, own, count-set is_listed ps i y h);
      }

  pub leave-Tracks :
      (m : ConnectionManager Addr) (ps : List (Peer Addr)) (i : ℕ) (p : Peer Addr)
      → p.phase ≡ serving
      → get_elem? ps i ≡ some p
      → Tracks dec m ps
      → Tracks dec m (set ps i (record { addr = p.addr; phase = leaving }))
  leave-Tracks m ps i p e h v =
      let y : Peer Addr = record { addr = p.addr; phase = leaving } in
      let own = All-get (Entered dec m) ps i v.entered h in
      record {
        valid = v.valid;
        distinct = set-Distinct ps i y h refl v.distinct;
        entered =
            All-set_others (Entered dec m) (Entered dec m) p ps i y h v.distinct v.entered
              (λ r ne o. o) (ground (arith, own));
        only = λ a f. v.only a (Differs-set a ps i y h refl f);
        counted = ground (arith, v.counted, count-set is_listed ps i y h);
      }

  pub refuse-Tracks :
      (m : ConnectionManager Addr) (ps : List (Peer Addr)) (i : ℕ) (p : Peer Addr)
      → p.phase ≡ waiting
      → get_elem? ps i ≡ some p
      → Tracks dec m ps
      → Tracks dec m (remove_at ps i)
  refuse-Tracks m ps i p e h v =
      let own = All-get (Entered dec m) ps i v.entered h in
      record {
        valid = v.valid;
        distinct = remove_at-Distinct ps i v.distinct;
        entered = All-remove_at (Entered dec m) ps i v.entered;
        only = λ a f. elim (dec a p.addr) [
          | yes same ↦ rw same (ground (arith, own))
          | no other ↦ v.only a (Differs-remove a ps i h other f)
        ];
        counted = ground (arith, v.counted, count-remove_at is_listed ps i h);
      }

  pub clean-Tracks :
      (m : ConnectionManager Addr) (ps : List (Peer Addr)) (i : ℕ) (p : Peer Addr)
      → p.phase ≡ leaving
      → get_elem? ps i ≡ some p
      → Tracks dec m ps
      → Tracks dec (remove dec m p.addr).1 (remove_at ps i)
  clean-Tracks m ps i p e h v =
      let m' = (remove dec m p.addr).1 in
      let own = All-get (Entered dec m) ps i v.entered h in
      record {
        valid = remove-IsValid dec m p.addr v.valid;
        distinct = remove_at-Distinct ps i v.distinct;
        entered =
            All-remove_others (Entered dec m) (Entered dec m') p ps i h v.distinct v.entered
              (λ r ne o. ground (arith, remove_lem dec m p.addr r.addr v.valid, o, ne));
        only = λ a f. elim (dec a p.addr) [
          | yes same ↦ rw same (ground (arith, remove_lem dec m p.addr p.addr v.valid))
          | no other ↦
              ground (
                arith,
                remove_lem dec m p.addr a v.valid,
                v.only a (Differs-remove a ps i h other f),
              )
        ];
        counted = ground (
          arith,
          v.counted,
          own,
          remove_lem dec m p.addr p.addr v.valid,
          count-remove_at is_listed ps i h,
        );
      }

  pub join-Tracks :
      (m : ConnectionManager Addr) (ps : List (Peer Addr)) (a : Addr)
      → All (Differs a) ps
      → Tracks dec m ps
      → Tracks dec m (ps ++ (record { addr = a; phase = waiting } ∷ []))
  join-Tracks m ps a f v =
      let y : Peer Addr = record { addr = a; phase = waiting } in
      record {
        valid = v.valid;
        distinct = append-Distinct ps y f v.distinct;
        entered = All-append (Entered dec m) ps y v.entered (rw (v.only a f) refl);
        only = λ c g. v.only c (Differs-append c ps y g);
        counted = omega (arith, v.counted, count-append is_listed ps (y ∷ []));
      }
