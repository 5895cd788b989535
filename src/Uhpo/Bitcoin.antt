-- ===== src/Uhpo/Bitcoin.antt =====
-- What node/uhpo/src takes from the crate bitcoin, which is not part of the repository: the types
-- and functions are parameters, and `IsBitcoin` states what the crate documents of them. The
-- structs are those of the crate that the source writes out field by field.
use braidpool.Base.{ℕ, ◌+◌, ◌^◌, ◌≤◌, ◌<◌, ◌≡◌, Option, none, some, List, [], ◌∷◌, ◌++◌}

pub record Bitcoin : Type 1 where
  pub Txid : Type 0
  pub Address : Type 0
  pub Amount : Type 0
  pub ScriptBuf : Type 0
  pub Sequence : Type 0
  pub Version : Type 0
  pub LockTime : Type 0
  pub Witness : Type 0
  pub version_two : Version
  pub lock_time_zero : LockTime
  pub sequence_max : Sequence
  pub empty_script : ScriptBuf
  pub script_pubkey : Address → ScriptBuf
  pub empty_witness : Witness
  -- `Witness::push`
  pub push : Witness → List ℕ → Witness
  -- `+` and `-` on amounts; `none` is a panic.
  pub amount_add : Amount → Amount → Option Amount
  pub amount_sub : Amount → Amount → Option Amount

pub record OutPoint (B : Bitcoin) : Type 0 where
  pub txid : B.Txid
  pub vout : ℕ

pub record TxIn (B : Bitcoin) : Type 0 where
  pub previous_output : OutPoint B
  pub script_sig : B.ScriptBuf
  pub sequence : B.Sequence
  pub witness : B.Witness

pub record TxOut (B : Bitcoin) : Type 0 where
  pub value : B.Amount
  pub script_pubkey : B.ScriptBuf

pub record Transaction (B : Bitcoin) : Type 0 where
  pub version : B.Version
  pub lock_time : B.LockTime
  pub input : List (TxIn B)
  pub output : List (TxOut B)

-- Amounts are 64-bit numbers of satoshis, with checked operations; a witness is a list of items.
pub record IsBitcoin (B : Bitcoin) : Type 0 where
  pub to_sat : B.Amount → ℕ
  pub to_sat_lt : (a : B.Amount) → to_sat a < 2 ^ 64
  pub amount_add_fits :
      (a b : B.Amount)
      → to_sat a + to_sat b < 2 ^ 64
      → (c : B.Amount) × (B.amount_add a b ≡ some c) × (to_sat c ≡ to_sat a + to_sat b)
  pub amount_add_overflow :
      (a b : B.Amount) → 2 ^ 64 ≤ to_sat a + to_sat b → B.amount_add a b ≡ none
  pub amount_sub_fits :
      (a b : B.Amount)
      → to_sat b ≤ to_sat a
      → (c : B.Amount) × (B.amount_sub a b ≡ some c) × (to_sat c + to_sat b ≡ to_sat a)
  pub amount_sub_overflow : (a b : B.Amount) → to_sat a < to_sat b → B.amount_sub a b ≡ none
  pub items : B.Witness → List (List ℕ)
  pub items-empty_witness : items B.empty_witness ≡ []
  pub items-push : (w : B.Witness) (item : List ℕ) → items (B.push w item) ≡ items w ++ (item ∷ [])
