-- ===== src/Uhpo/Update.antt =====
-- `PayoutUpdate` of node/uhpo/src/payout_update.rs.
use braidpool.Base.{Option, none, some, List, [], ◌∷◌, Outcome, ok, err, ◌>>=◌, or_panic, get_elem?}
use braidpool.Uhpo.Bitcoin.{Bitcoin, TxOut, Transaction}
use braidpool.Uhpo.Builder.{TransactionBuilder, add_input, add_output, build}
use braidpool.Uhpo.Builder
use braidpool.Uhpo.Error.{no_prev_update_tx_out}
use braidpool.Uhpo.Signature.{
  Crypto, SecretKeyBehavior, KeypairBehavior, Secp256k1Behavior, Error, add_signature,
}

pub record PayoutUpdate (B : Bitcoin) : Type 0 where
  pub transaction : Transaction B
  pub coinbase_txout : TxOut B
  pub prev_update_txout : Option (TxOut B)

-- `std::fmt::Error`, the error type of `new`.
pub data FmtError : Type 0 where
  fmt_error : FmtError

module _ (B : Bitcoin) (compute_txid : Transaction B → B.Txid) where
  -- The input for the previous update, and its output.
  add_prev :
      TransactionBuilder B
      → Option (Transaction B)
      → Outcome FmtError (TransactionBuilder B × Option (TxOut B))
  unfolding add_input
  add_prev builder (some tx) = do
    txout ← or_panic (get_elem? tx.output 0)
    ok (add_input B builder (compute_txid tx) 0, some txout)
  add_prev builder none = ok (builder, none)

  -- `map_or_else`
  total_amount : TxOut B → Option (TxOut B) → Outcome FmtError B.Amount
  total_amount coinbase_txout none = ok coinbase_txout.value
  total_amount coinbase_txout (some txout) =
      or_panic (B.amount_add coinbase_txout.value txout.value)

  unfoldable pub new :
      Option (Transaction B)
      → Transaction B
      → B.Address
      → B.Amount
      → Outcome FmtError (PayoutUpdate B)
  unfolding add_prev total_amount Builder.new add_input add_output build
  new prev_update_tx coinbase_tx next_out_address projected_fee = do
    coinbase_txout ← or_panic (get_elem? coinbase_tx.output 0)
    let builder = add_input B (Builder.new B) (compute_txid coinbase_tx) 0
    prev ← add_prev builder prev_update_tx
    total ← total_amount coinbase_txout prev.1
    amount ← or_panic (B.amount_sub total projected_fee)
    ok (record {
      transaction = build B (add_output B prev.0 next_out_address amount);
      coinbase_txout = coinbase_txout;
      prev_update_txout = prev.1;
    })

module _ {B : Bitcoin} (C : Crypto B) {S K E : Type 0} (sk : SecretKeyBehavior C S K E)
    (kp : KeypairBehavior C K E) (se : Secp256k1Behavior C E) where
  abbrev pub prevouts_of : TxOut B → Option (TxOut B) → List (TxOut B)
  prevouts_of coinbase (some prev) = coinbase ∷ prev ∷ []
  prevouts_of coinbase none = coinbase ∷ []

  abbrev pub with_transaction :
      PayoutUpdate B
      → Outcome (Error C) (Unit {0}) × Transaction B
      → Outcome (Error C) (Unit {0}) × PayoutUpdate B
  with_transaction self (r, tx) = (r, record self { transaction = tx })

  unfoldable pub add_coinbase_sig :
      PayoutUpdate B
      → S
      → Option C.Scalar
      → E
      → C.Rng
      → Outcome (Error C) (Unit {0}) × PayoutUpdate B
  unfolding add_signature
  add_coinbase_sig self private_key tweak secp rng = with_transaction self (
      add_signature C sk kp se self.transaction 0
        (prevouts_of self.coinbase_txout self.prev_update_txout) private_key tweak secp rng)

  unfoldable pub sign_prev :
      PayoutUpdate B
      → S
      → Option C.Scalar
      → E
      → C.Rng
      → Option (TxOut B)
      → Outcome (Error C) (Unit {0}) × PayoutUpdate B
  unfolding add_signature
  sign_prev self private_key tweak secp rng none = (err no_prev_update_tx_out, self)
  sign_prev self private_key tweak secp rng (some prev_update_txout) = with_transaction self (
      add_signature C sk kp se self.transaction 1 (self.coinbase_txout ∷ prev_update_txout ∷ [])
        private_key tweak secp rng)

  unfoldable pub add_prev_update_sig :
      PayoutUpdate B
      → S
      → Option C.Scalar
      → E
      → C.Rng
      → Outcome (Error C) (Unit {0}) × PayoutUpdate B
  unfolding sign_prev
  add_prev_update_sig self private_key tweak secp rng =
      sign_prev self private_key tweak secp rng self.prev_update_txout

-- `PayoutUpdate::build`
unfoldable pub build_update : {B : Bitcoin} → PayoutUpdate B → Transaction B
build_update self = self.transaction
