-- ===== src/Manager.antt =====
-- node/connection/src/connection_manager.rs: the connections of a node, by the address of the
-- peer. Each method holds the mutex while it runs and cannot panic there, so a call is one step
-- on the table and the mutex is never poisoned. `log::info!` is left out.
pub mod Table
pub mod Invariant
pub mod Registry
pub mod Methods
pub mod Commuting
pub mod Unordered
mod UnitTests
mod Tests
use braidpool.Base.{
  ℕ, String, Bool, Option, none, some, List, [], ◌∷◌, Outcome, ok, err, length, leb, if◌then◌else◌,
}
use Table.{lookup, erase}
use Table

-- `SystemTime` is a number of nanoseconds.
pub record Metadata : Type 0 where
  pub created_at : ℕ

pub record ConnectionManager (Addr : Type 0) : Type 0 where
  pub capacity : ℕ
  pub shared_state : Table.Table Addr Metadata

unfoldable pub new : {Addr : Type 0} → ℕ → ConnectionManager Addr
new capacity = record { capacity = capacity; shared_state = [] }

unfoldable pub num_connections : {Addr : Type 0} → ConnectionManager Addr → ℕ
num_connections m = length m.shared_state

module _ {Addr : Type 0} (dec : Discrete Addr) where
  unfoldable pub insert :
      ConnectionManager Addr
      → Addr
      → Metadata
      → Outcome String (Option Metadata) × ConnectionManager Addr
  insert m addr s =
      if leb m.capacity (length m.shared_state) then (err "Connection limit reached", m) else (
        ok (lookup dec addr m.shared_state),
        record m { shared_state = Table.insert dec addr s m.shared_state },
      )

  unfoldable pub remove : ConnectionManager Addr → Addr → Option Metadata × ConnectionManager Addr
  remove m addr =
      (lookup dec addr m.shared_state, record m { shared_state = erase dec addr m.shared_state })

  unfoldable pub get : ConnectionManager Addr → Addr → Option Metadata
  get m addr = lookup dec addr m.shared_state

-- A call of a method, as the tasks of the node make them.
pub data Call (Addr : Type 0) : Type 0 where
  inserts : Addr → Metadata → Call Addr
  removes : Addr → Call Addr
  gets : Addr → Call Addr
  counts : Call Addr

-- What a call returns.
pub data Answer : Type 0 where
  inserted : Outcome String (Option Metadata) → Answer
  found : Option Metadata → Answer
  counted : ℕ → Answer

module _ {Addr : Type 0} (dec : Discrete Addr) where
  unfoldable pub call : ConnectionManager Addr → Call Addr → Answer × ConnectionManager Addr
  unfolding insert remove get num_connections
  call m (inserts addr s) = let (r, m') = insert dec m addr s in (inserted r, m')
  call m (removes addr) = let (r, m') = remove dec m addr in (found r, m')
  call m (gets addr) = (found (get dec m addr), m)
  call m counts = (counted (num_connections m), m)

  -- The calls in the order in which the mutex is taken.
  unfoldable pub run :
      ConnectionManager Addr → List (Call Addr) → List Answer × ConnectionManager Addr
  run m [] = ([], m)
  run m (c ∷ cs) = let (a, m') = call m c in let (as', m'') = run m' cs in (a ∷ as', m'')
