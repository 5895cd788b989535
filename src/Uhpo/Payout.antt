-- ===== src/Uhpo/Payout.antt =====
-- What `PayoutUpdate::new` of node/uhpo/src/payout_update.rs builds, and when it panics.
use braidpool.Base.{
  ℕ, ◌+◌, ◌^◌, ◌≤◌, ◌<◌, ◌≡◌, ◌⊎◌, inl, inr, refl, Option, none, some, List, [], ◌∷◌, map, ok,
  panic, arith, All, get_elem?,
}
use braidpool.Uhpo.Bitcoin.{Bitcoin, IsBitcoin, OutPoint, TxIn, TxOut, Transaction}
use braidpool.Uhpo.Update.{PayoutUpdate, new}

fits_or : (sum : ℕ) → (sum < 2 ^ 64) ⊎ (2 ^ 64 ≤ sum)
fits_or sum = omega arith

overflows :
    (sum fee : ℕ) → (sum < fee) ⊎ (2 ^ 64 ≤ sum) → ((sum < 2 ^ 64) × (sum < fee)) ⊎ (2 ^ 64 ≤ sum)
overflows sum fee (inr large) = inr large
overflows sum fee (inl less) = elim (fits_or sum) [
  | inl small ↦ inl (small, less)
  | inr large ↦ inr large
]

module _ (B : Bitcoin) (compute_txid : Transaction B → B.Txid) (L : IsBitcoin B) where
  -- The output that an update of `prev` spends besides the coinbase's, if it spends one.
  abbrev pub Spends : Option (Transaction B) → Option (TxOut B) → Type 0
  Spends none none = Unit
  Spends none (some _) = ⊥
  Spends (some _) none = ⊥
  Spends (some tx) (some o) = get_elem? tx.output 0 ≡ some o

  abbrev pub sats : Option (TxOut B) → ℕ
  sats none = 0
  sats (some o) = L.to_sat o.value

  abbrev pub first_of : Transaction B → OutPoint B
  first_of tx = record { txid = compute_txid tx; vout = 0 }

  abbrev pub outpoints : Transaction B → Option (Transaction B) → List (OutPoint B)
  outpoints coinbase none = first_of coinbase ∷ []
  outpoints coinbase (some prev) = first_of coinbase ∷ first_of prev ∷ []

  abbrev pub outpoint : TxIn B → OutPoint B
  outpoint i = i.previous_output

  abbrev pub IsUnsigned : TxIn B → Type 0
  IsUnsigned i = L.items i.witness ≡ []

  -- The update spends the first output of the coinbase and of the previous update, pays all of it
  -- but the fee to one address, is not signed, and remembers the outputs that it spends.
  pub record IsPayout (prev : Option (Transaction B)) (coinbase : Transaction B)
      (address : B.Address) (fee : B.Amount) (cb_out : TxOut B) (prev_out : Option (TxOut B))
      (u : PayoutUpdate B) : Type 0 where
    pub amount : B.Amount
    pub pays :
        u.transaction.output
        ≡ record { value = amount; script_pubkey = B.script_pubkey address } ∷ []
    pub conserves : L.to_sat amount + L.to_sat fee ≡ L.to_sat cb_out.value + sats prev_out
    pub spends : map outpoint u.transaction.input ≡ outpoints coinbase prev
    pub unsigned : All IsUnsigned u.transaction.input
    pub remembers : (u.coinbase_txout ≡ cb_out) × (u.prev_update_txout ≡ prev_out)

  abbrev unsigned_input : Transaction B → TxIn B
  unsigned_input tx = record {
    previous_output = first_of tx;
    script_sig = B.empty_script;
    sequence = B.sequence_max;
    witness = B.empty_witness;
  }

  abbrev unsigned_inputs : Transaction B → Option (Transaction B) → List (TxIn B)
  unsigned_inputs coinbase none = unsigned_input coinbase ∷ []
  unsigned_inputs coinbase (some tx) = unsigned_input coinbase ∷ unsigned_input tx ∷ []

  abbrev unsigned_update :
      Option (Transaction B)
      → Transaction B
      → B.Address
      → B.Amount
      → TxOut B
      → Option (TxOut B)
      → PayoutUpdate B
  unsigned_update prev coinbase address amount cb_out prev_out = record {
    transaction = record {
      version = B.version_two;
      lock_time = B.lock_time_zero;
      input = unsigned_inputs coinbase prev;
      output = record { value = amount; script_pubkey = B.script_pubkey address } ∷ [];
    };
    coinbase_txout = cb_out;
    prev_update_txout = prev_out;
  }

  -- If the coinbase and the previous update, if any, have an output, and the fee is at most
  -- their sum and that is a 64-bit amount, then an update is built: it spends those outputs,
  -- pays their sum less the fee to the one address, is unsigned, and remembers the outputs.
  pub new-IsPayout :
      (prev : Option (Transaction B)) (coinbase : Transaction B) (address : B.Address)
      (fee : B.Amount) (cb_out : TxOut B) (prev_out : Option (TxOut B))
      → get_elem? coinbase.output 0 ≡ some cb_out
      → Spends prev prev_out
      → L.to_sat fee ≤ L.to_sat cb_out.value + sats prev_out
      → L.to_sat cb_out.value + sats prev_out < 2 ^ 64
      → (u : PayoutUpdate B) × (new B compute_txid prev coinbase address fee ≡ ok u)
        × IsPayout prev coinbase address fee cb_out prev_out u
  unfolding new
  new-IsPayout none coinbase address fee cb_out none c s covered small =
      let (amount, paid, sum) = L.amount_sub_fits cb_out.value fee (omega arith) in
      (
        unsigned_update none coinbase address amount cb_out none,
        rw (c, paid),
        record {
          amount = amount;
          pays = refl;
          conserves = omega arith;
          spends = refl;
          unsigned = (L.items-empty_witness, tt);
          remembers = (refl, refl);
        },
      )
  new-IsPayout none coinbase address fee cb_out (some o) c s covered small = absurd s
  new-IsPayout (some tx) coinbase address fee cb_out none c s covered small = absurd s
  new-IsPayout (some tx) coinbase address fee cb_out (some o) c s covered small =
      let (total, added, sum) = L.amount_add_fits cb_out.value o.value small in
      let (amount, paid, rest) = L.amount_sub_fits total fee (omega arith) in
      (
        unsigned_update (some tx) coinbase address amount cb_out (some o),
        rw (c, s, added, paid),
        record {
          amount = amount;
          pays = refl;
          conserves = omega arith;
          spends = refl;
          unsigned = (L.items-empty_witness, (L.items-empty_witness, tt));
          remembers = (refl, refl);
        },
      )

  -- Where the coinbase and the previous update, if any, have an output, and the fee is larger
  -- than their sum or the sum is no 64-bit amount, `new` panics: it returns no error.
  pub new_overdrawn :
      (prev : Option (Transaction B)) (coinbase : Transaction B) (address : B.Address)
      (fee : B.Amount) (cb_out : TxOut B) (prev_out : Option (TxOut B))
      → get_elem? coinbase.output 0 ≡ some cb_out
      → Spends prev prev_out
      → (L.to_sat cb_out.value + sats prev_out < L.to_sat fee)
        ⊎ (2 ^ 64 ≤ L.to_sat cb_out.value + sats prev_out)
      → new B compute_txid prev coinbase address fee ≡ panic
  unfolding new
  new_overdrawn none coinbase address fee cb_out none c s (inl less) =
      rw (c, L.amount_sub_overflow cb_out.value fee (omega arith))
  new_overdrawn none coinbase address fee cb_out none c s (inr large) =
      absurd (omega (arith, L.to_sat_lt cb_out.value))
  new_overdrawn none coinbase address fee cb_out (some o) c s h = absurd s
  new_overdrawn (some tx) coinbase address fee cb_out none c s h = absurd s
  new_overdrawn (some tx) coinbase address fee cb_out (some o) c s h =
      elim (overflows (L.to_sat cb_out.value + L.to_sat o.value) (L.to_sat fee) h) [
        | inl (small, less) ↦
            let (total, added, sum) = L.amount_add_fits cb_out.value o.value small in
            rw (c, s, added, L.amount_sub_overflow total fee (omega arith))
        | inr large ↦ rw (c, s, L.amount_add_overflow cb_out.value o.value large)
      ]
