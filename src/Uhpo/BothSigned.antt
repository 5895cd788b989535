-- ===== src/Uhpo/BothSigned.antt =====
-- A payout update (node/uhpo/src/payout_update.rs) on which both signatures have been put.
use braidpool.Base.{ℕ, ◌≡◌, ap, ◌∙◌, sym, Option, some, List, [], ◌∷◌, Outcome, ok, arith}
use braidpool.Uhpo.Bitcoin.{Bitcoin, TxIn, TxOut, Transaction}
use braidpool.Uhpo.Signature.{
  Crypto, SecretKeyBehavior, KeypairBehavior, Secp256k1Behavior, Error, signed, push_witness,
  finish, add_signature,
}
use braidpool.Uhpo.Signing.{NeverPanics, IsVerified, Bytes, verified, failed, signed-Bytes}
use braidpool.Uhpo.Cosigning.{IsSegwit, signed-strip, strip-finish, coinbase_first}
use braidpool.Uhpo.Update.{PayoutUpdate, add_coinbase_sig, add_prev_update_sig, sign_prev}

module _ {B : Bitcoin} (C : Crypto B) (segwit : IsSegwit C) {S K E : Type 0}
    (sk : SecretKeyBehavior C S K E) (kp : KeypairBehavior C K E) (se : Secp256k1Behavior C E)
    (calm : NeverPanics C sk kp se) (k0 k1 : S) (t0 t1 : Option C.Scalar) (secp : E)
    (r0 r1 : C.Rng) where
  abbrev pub witnessed : TxIn B → List ℕ → TxIn B
  witnessed i bytes = record i { witness = B.push i.witness bytes }

  -- Each of the two inputs has got one signature, which verifies for the hash of the transaction
  -- as it was before either was put on, and nothing else has changed.
  pub record IsSigned (tx : Transaction B) (i0 i1 : TxIn B) (cb o : TxOut B) (u : PayoutUpdate B)
      : Type 0 where
    pub bytes0 : List ℕ
    pub bytes1 : List ℕ
    pub verified0 : IsVerified C sk kp se tx 0 (cb ∷ o ∷ []) k0 t0 secp r0 bytes0
    pub verified1 : IsVerified C sk kp se tx 1 (cb ∷ o ∷ []) k1 t1 secp r1 bytes1
    pub transaction :
        u.transaction ≡ record tx { input = witnessed i0 bytes0 ∷ witnessed i1 bytes1 ∷ [] }
    pub outputs : (u.coinbase_txout ≡ cb) × (u.prev_update_txout ≡ some o)

  -- Where the two outcomes are those of the signatures, and both pushes succeed.
  pushed_both :
      (tx : Transaction B) (i0 i1 : TxIn B) (cb o : TxOut B) (p q : Outcome (Error C) (List ℕ))
      (u : PayoutUpdate B)
      → tx.input ≡ i0 ∷ i1 ∷ []
      → Bytes C sk kp se tx 0 (cb ∷ o ∷ []) k0 t0 secp r0 p
      → Bytes C sk kp se tx 1 (cb ∷ o ∷ []) k1 t1 secp r1 q
      → (finish C tx 0 p).0 ≡ ok tt
      → (finish C (finish C tx 0 p).1 1 q).0 ≡ ok tt
      → u.transaction ≡ (finish C (finish C tx 0 p).1 1 q).1
      → (u.coinbase_txout ≡ cb) × (u.prev_update_txout ≡ some o)
      → IsSigned tx i0 i1 cb o u
  unfolding finish push_witness
  pushed_both tx i0 i1 cb o _ _ u e (failed x f) _ r s t w = absurd (ground arith)
  pushed_both tx i0 i1 cb o _ _ u e (verified b v) (failed x f) r s t w = absurd (ground arith)
  pushed_both tx i0 i1 cb o _ _ u e (verified b v) (verified b' v') r s t w = record {
    bytes0 = b;
    bytes1 = b';
    verified0 = v;
    verified1 = v';
    transaction =
        t ∙ ap (λ l. (finish C (finish C (record tx { input = l }) 0 (ok b)).1 1 (ok b')).1) e;
    outputs = w;
  }

  -- If the hash that is signed does not depend on witnesses, the crates' functions do not panic,
  -- and both signatures of an update with two inputs and a known previous output succeed, then
  -- one signature has been put on each input, both verify for the transaction as it was before
  -- either, and nothing else has changed.
  pub coinbase_first-IsSigned :
      (tx : Transaction B) (i0 i1 : TxIn B) (cb o : TxOut B) (u : PayoutUpdate B)
      → tx.input ≡ i0 ∷ i1 ∷ []
      → coinbase_first C segwit sk kp se k0 k1 t0 t1 secp r0 r1
          (record { transaction = tx; coinbase_txout = cb; prev_update_txout = some o })
        ≡ (ok tt, (ok tt, u))
      → IsSigned tx i0 i1 cb o u
  unfolding add_coinbase_sig add_prev_update_sig sign_prev add_signature
  coinbase_first-IsSigned tx i0 i1 cb o u e h =
      let p = signed C sk kp se tx 0 (cb ∷ o ∷ []) k0 t0 secp r0 in
      let q = signed C sk kp se tx 1 (cb ∷ o ∷ []) k1 t1 secp r1 in
      let same =
        signed-strip C segwit sk kp se (finish C tx 0 p).1 tx 1 (cb ∷ o ∷ []) k1 t1 secp r1
          (strip-finish C tx 0 p) in
      let second = ap (finish C (finish C tx 0 p).1 1) same in
      pushed_both tx i0 i1 cb o p q u e
        (signed-Bytes C sk kp se calm tx 0 (cb ∷ o ∷ []) k0 secp r0 t0)
        (signed-Bytes C sk kp se calm tx 1 (cb ∷ o ∷ []) k1 secp r1 t1) (ap (λ r. r.0) h)
        (sym (ap (λ r. r.0) second) ∙ ap (λ r. r.1.0) h)
        (sym (ap (λ r. r.1.1.transaction) h) ∙ ap (λ r. r.1) second)
        (sym (ap (λ r. r.1.1.coinbase_txout) h), sym (ap (λ r. r.1.1.prev_update_txout) h))
