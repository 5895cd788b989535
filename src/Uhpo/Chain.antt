-- ===== src/Uhpo/Chain.antt =====
-- A chain of payout updates (node/uhpo/src/payout_update.rs): each spends a new coinbase and the
-- transaction that the update before it built.
use braidpool.Base.{
  ℕ, ◌+◌, ◌-◌, ◌^◌, ◌≤◌, ◌<◌, ◌≡◌, ◌≢◌, ◌⊎◌, inl, inr, refl, Option, none, some, List, [], ◌∷◌,
  Outcome, ok, panic, ◌>>=◌, arith, get_elem?, Option-cases,
}
use braidpool.Uhpo.Bitcoin.{Bitcoin, IsBitcoin, TxOut, Transaction}
use braidpool.Uhpo.Update.{PayoutUpdate, FmtError, new, build_update}
use braidpool.Uhpo.Payout.{Spends, sats, new-IsPayout, new_overdrawn}

-- What the caller brings to an update.
pub record Round (B : Bitcoin) : Type 0 where
  pub coinbase : Transaction B
  pub address : B.Address
  pub fee : B.Amount

module _ (B : Bitcoin) (compute_txid : Transaction B → B.Txid) where
  -- The updates of the rounds, one upon the other; the last transaction, if there is one.
  unfoldable pub update_all :
      Option (Transaction B) → List (Round B) → Outcome FmtError (Option (Transaction B))
  update_all prev [] = ok prev
  update_all prev (r ∷ rs) = do
    u ← new B compute_txid prev r.coinbase r.address r.fee
    update_all (some (build_update u)) rs

  module _ (L : IsBitcoin B) where
    -- What the first output of a transaction pays.
    abbrev pub worth : Option (Transaction B) → ℕ
    worth none = 0
    worth (some tx) = sats B compute_txid L (get_elem? tx.output 0)

    abbrev pub reward : Round B → ℕ
    reward r = sats B compute_txid L (get_elem? r.coinbase.output 0)

    abbrev pub rewards : List (Round B) → ℕ
    rewards [] = 0
    rewards (r ∷ rs) = reward r + rewards rs

    abbrev pub fees : List (Round B) → ℕ
    fees [] = 0
    fees (r ∷ rs) = L.to_sat r.fee + fees rs

    -- From a balance on, every coinbase has an output, every fee is covered, and no sum is too large
    -- for an amount.
    abbrev pub IsSolvent : ℕ → List (Round B) → Type 0
    IsSolvent balance [] = Unit
    IsSolvent balance (r ∷ rs) =
        (get_elem? r.coinbase.output 0 ≢ none)
        × (L.to_sat r.fee ≤ balance + reward r)
        × (balance + reward r < 2 ^ 64)
        × IsSolvent (balance + reward r - L.to_sat r.fee) rs

    -- The chain is built as far as the money goes, or the node panics.
    pub data Ending (balance : ℕ) (rs : List (Round B))
        (r : Outcome FmtError (Option (Transaction B))) : Type 0 where
      paid :
          {last : Option (Transaction B)}
          → IsSolvent balance rs
          → r ≡ ok last
          → worth last + fees rs ≡ balance + rewards rs
          → Ending balance rs r
      broke : ¬ IsSolvent balance rs → r ≡ panic → Ending balance rs r

    -- The three ways in which `new` fares on a round.
    pub data Fares (prev_out : Option (TxOut B)) (r : Round B)
        (p : Outcome FmtError (PayoutUpdate B)) : Type 0 where
      builds :
          {u : PayoutUpdate B} {o : TxOut B}
          → p ≡ ok u
          → get_elem? u.transaction.output 0 ≡ some o
          → get_elem? r.coinbase.output 0 ≢ none
          → reward r + sats B compute_txid L prev_out < 2 ^ 64
          → L.to_sat o.value + L.to_sat r.fee ≡ reward r + sats B compute_txid L prev_out
          → Fares prev_out r p
      unpaid : get_elem? r.coinbase.output 0 ≡ none → p ≡ panic → Fares prev_out r p
      overdrawn :
          (reward r + sats B compute_txid L prev_out < L.to_sat r.fee)
            ⊎ (2 ^ 64 ≤ reward r + sats B compute_txid L prev_out)
          → p ≡ panic
          → Fares prev_out r p

    covered_or : (sum fee : ℕ) → ((fee ≤ sum) × (sum < 2 ^ 64)) ⊎ ((sum < fee) ⊎ (2 ^ 64 ≤ sum))
    covered_or sum fee = omega arith

    new-Fares :
        (prev : Option (Transaction B)) (o : Option (TxOut B)) (r : Round B)
        → Spends B compute_txid L prev o
        → Fares o r (new B compute_txid prev r.coinbase r.address r.fee)
    unfolding new
    new-Fares prev o r s = elim (Option-cases (get_elem? r.coinbase.output 0)) [
      | inl e ↦ unpaid e (rw e)
      | inr (cb_out, e) ↦
          elim (covered_or (L.to_sat cb_out.value + sats B compute_txid L o) (L.to_sat r.fee)) [
            | inl (covered, small) ↦
                let (u, built, v) =
                  new-IsPayout B compute_txid L prev r.coinbase r.address r.fee cb_out o e s covered
                    small in
                let o' : TxOut B = record {
                  value = v.amount;
                  script_pubkey = B.script_pubkey r.address;
                } in
                builds {o = o'} built (rw v.pays) (rw e (λ h. cc)) (rw e (omega arith))
                  (rw e omega arith)
            | inr over ↦
                overdrawn (rw e over)
                  (new_overdrawn B compute_txid L prev r.coinbase r.address r.fee cb_out o e s over)
          ]
    ]

    worth-Spends :
        (prev : Option (Transaction B)) (o : Option (TxOut B))
        → Spends B compute_txid L prev o
        → worth prev ≡ sats B compute_txid L o
    worth-Spends none none s = refl
    worth-Spends none (some o) s = absurd s
    worth-Spends (some tx) none s = absurd s
    worth-Spends (some tx) (some o) s = rw s

    after_round :
        (balance next : ℕ) (r : Round B) (rs : List (Round B))
        (p : Outcome FmtError (Option (Transaction B)))
        → get_elem? r.coinbase.output 0 ≢ none
        → reward r + balance < 2 ^ 64
        → next + L.to_sat r.fee ≡ reward r + balance
        → Ending next rs p
        → Ending balance (r ∷ rs) p
    after_round balance next r rs p c small sum ending =
        let same : balance + reward r - L.to_sat r.fee ≡ next = omega arith in
        elim ending [
          | paid solvent e total ↦
              paid (c, omega arith, omega arith, rw same solvent) e (omega arith)
          | broke poor e ↦ broke (λ h. poor (rw same at (h.3))) e
        ]

    -- Over amounts as the crate documents them: from a transaction that has an output, or from
    -- none, a chain of updates is built just if every coinbase has an output, every fee is covered
    -- and every sum fits into an amount, and then what the last update pays and all fees are the
    -- first balance and all rewards; otherwise a `new` on the way panics.
    pub update_all-Ending :
        (prev : Option (Transaction B)) (o : Option (TxOut B)) (rs : List (Round B))
        → Spends B compute_txid L prev o
        → Ending (sats B compute_txid L o) rs (update_all prev rs)
    unfolding update_all build_update
    update_all-Ending prev o [] s = paid tt refl (omega (arith, worth-Spends prev o s))
    update_all-Ending prev o (r ∷ rs) s = elim (new-Fares prev o r s) [
      | builds {u} {o = o'} built shown c small sum ↦
          rw (built, update_all)
            (after_round (sats B compute_txid L o) (L.to_sat o'.value) r rs _ c small sum
              (update_all-Ending (some (build_update u)) (some o') rs shown))
      | unpaid c e ↦ broke (λ h. h.0 c) (rw (e, update_all))
      | overdrawn over e ↦ broke (λ h. ground arith) (rw (e, update_all))
    ]
