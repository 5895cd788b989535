-- ===== src/Uhpo/Signing.antt =====
-- What `add_signature` of node/uhpo/src/crypto/signature.rs leaves of the transaction.
use braidpool.Base.{
  ℕ, ◌≡◌, ◌≢◌, refl, Option, none, some, List, [], ◌∷◌, ◌++◌, Outcome, ok, err, panic,
  Outcome-cases, is_ok, is_err, is_panic, get_elem?, set,
}
use braidpool.Uhpo.Bitcoin.{Bitcoin, TxIn, TxOut, Transaction}
use braidpool.Uhpo.Error.{
  keypair_creation_error, signature_verification_error, taproot_error, from_taproot,
}
use braidpool.Uhpo.Signature.{
  Crypto, SecretKeyBehavior, KeypairBehavior, Secp256k1Behavior, Error, tweaked, signed,
  push_witness, finish, add_signature,
}

module _ {B : Bitcoin} (C : Crypto B) {S K E : Type 0} (sk : SecretKeyBehavior C S K E)
    (kp : KeypairBehavior C K E) (se : Secp256k1Behavior C E) where
  -- The crates' functions return.
  pub record NeverPanics : Type 0 where
    pub tweak_returns : (k : K) (e : E) (t : C.Scalar) → kp.add_xonly_tweak k e t ≢ panic
    pub sighash_returns :
        (tx : Transaction B) (i : ℕ) (prevouts : List (TxOut B)) → C.sighash tx i prevouts ≢ panic
    pub verify_returns :
        (e : E) (s : C.Signature) (m : C.Message) (k : C.XOnlyPublicKey)
        → se.verify_schnorr e s m k ≢ panic

  -- The key that signs: the tweaked one where a tweak is given.
  pub data SignsWith (private_key : S) (secp : E) : Option C.Scalar → C.Keypair → Type 0 where
    plain : SignsWith private_key secp none (kp.to_keypair (sk.keypair private_key secp))
    tweaked_by :
        (tweak : C.Scalar) (keypair : C.Keypair)
        → kp.add_xonly_tweak (sk.keypair private_key secp) secp tweak ≡ ok keypair
        → SignsWith private_key secp (some tweak) keypair

  module _ (tx : Transaction B) (idx : ℕ) (prevouts : List (TxOut B)) (private_key : S)
      (tweak : Option C.Scalar) (secp : E) (rng : C.Rng) where
    -- The signature's bytes with 0x01 behind them, of a signature that verifies for the
    -- transaction's hash under the key that signs.
    pub record IsVerified (bytes : List ℕ) : Type 0 where
      pub keypair : C.Keypair
      pub message : C.Message
      pub signature : C.Signature
      pub key : SignsWith private_key secp tweak keypair
      pub hash : C.sighash tx idx prevouts ≡ ok message
      pub verifies : se.verify_schnorr secp signature message (C.x_only_public_key keypair) ≡ ok tt
      pub is_bytes : bytes ≡ C.serialize signature ++ (0x01 ∷ [])

    -- Which of the calls an error comes from.
    pub data Failure : Error C → Type 0 where
      tweak_failed :
          (t : C.Scalar) (e : C.SecpError)
          → tweak ≡ some t
          → kp.add_xonly_tweak (sk.keypair private_key secp) secp t ≡ err e
          → Failure (keypair_creation_error e)
      hash_failed :
          (e : C.TaprootError) → C.sighash tx idx prevouts ≡ err e → Failure (taproot_error e)
      verify_failed :
          (e : C.SecpError) (keypair : C.Keypair) (message : C.Message) (signature : C.Signature)
          → SignsWith private_key secp tweak keypair
          → C.sighash tx idx prevouts ≡ ok message
          → se.verify_schnorr secp signature message (C.x_only_public_key keypair) ≡ err e
          → Failure (signature_verification_error e)

    -- `add_signature` either pushes one verified signature on the witness of the input `i`, or
    -- fails and leaves the transaction as it was.
    pub data Verdict (i : TxIn B) : Outcome (Error C) (Unit {0}) × Transaction B → Type 0 where
      pushes :
          (bytes : List ℕ)
          → IsVerified bytes
          → Verdict i (
            ok tt,
            record tx { input = set tx.input idx (record i { witness = B.push i.witness bytes }) },
          )
      fails : (e : Error C) → Failure e → Verdict i (err e, tx)

    pub data Bytes : Outcome (Error C) (List ℕ) → Type 0 where
      verified : (bytes : List ℕ) → IsVerified bytes → Bytes (ok bytes)
      failed : (e : Error C) → Failure e → Bytes (err e)

    pub data Key : Outcome (Error C) C.Keypair → Type 0 where
      got : (keypair : C.Keypair) → SignsWith private_key secp tweak keypair → Key (ok keypair)
      not_got : (e : Error C) → Failure e → Key (err e)

  module _ (calm : NeverPanics) (tx : Transaction B) (idx : ℕ) (prevouts : List (TxOut B))
      (private_key : S) (secp : E) (rng : C.Rng) where
    tweaked-Key :
        (tweak : Option C.Scalar)
        → Key tx idx prevouts private_key tweak secp rng (tweaked C sk kp se private_key tweak secp)
    unfolding tweaked
    tweaked-Key none = got _ plain
    tweaked-Key (some t) =
        elim (Outcome-cases (kp.add_xonly_tweak (sk.keypair private_key secp) secp t)) [
          | is_ok k e ↦ rw e (got k (tweaked_by t k e))
          | is_err f e ↦ rw e (not_got _ (tweak_failed t f refl e))
          | is_panic e ↦ absurd (calm.tweak_returns _ _ _ e)
        ]

    verified_with :
        (tweak : Option C.Scalar) (keypair : C.Keypair) (m : C.Message)
        → tweaked C sk kp se private_key tweak secp ≡ ok keypair
        → SignsWith private_key secp tweak keypair
        → C.sighash tx idx prevouts ≡ ok m
        → Bytes tx idx prevouts private_key tweak secp rng
            (signed C sk kp se tx idx prevouts private_key tweak secp rng)
    unfolding signed from_taproot
    verified_with tweak keypair m r k h =
        let s = se.sign_schnorr_with_rng secp m keypair rng in
        elim (Outcome-cases (se.verify_schnorr secp s m (C.x_only_public_key keypair))) [
          | is_ok u v ↦
              rw (r, h, v)
                (verified _ (record {
                  keypair = keypair;
                  message = m;
                  signature = s;
                  key = k;
                  hash = h;
                  verifies = v;
                  is_bytes = refl;
                }))
          | is_err e v ↦ rw (r, h, v) (failed _ (verify_failed e keypair m s k h v))
          | is_panic v ↦ absurd (calm.verify_returns _ _ _ _ v)
        ]

    signed_with :
        (tweak : Option C.Scalar) (o : Outcome (Error C) C.Keypair)
        → tweaked C sk kp se private_key tweak secp ≡ o
        → Key tx idx prevouts private_key tweak secp rng o
        → Bytes tx idx prevouts private_key tweak secp rng
            (signed C sk kp se tx idx prevouts private_key tweak secp rng)
    unfolding signed from_taproot
    signed_with tweak _ r (not_got e f) = rw r (failed e f)
    signed_with tweak _ r (got keypair k) = elim (Outcome-cases (C.sighash tx idx prevouts)) [
      | is_ok m h ↦ verified_with tweak keypair m r k h
      | is_err e h ↦ rw (r, h) (failed _ (hash_failed e h))
      | is_panic h ↦ absurd (calm.sighash_returns _ _ _ h)
    ]

    pub signed-Bytes :
        (tweak : Option C.Scalar)
        → Bytes tx idx prevouts private_key tweak secp rng
            (signed C sk kp se tx idx prevouts private_key tweak secp rng)
    signed-Bytes tweak = signed_with tweak _ refl (tweaked-Key tweak)

    finished :
        (tweak : Option C.Scalar) (i : TxIn B) (o : Outcome (Error C) (List ℕ))
        → get_elem? tx.input idx ≡ some i
        → Bytes tx idx prevouts private_key tweak secp rng o
        → Verdict tx idx prevouts private_key tweak secp rng i (finish C tx idx o)
    unfolding finish push_witness
    finished tweak i _ h (verified bytes v) = rw h (pushes bytes v)
    finished tweak i _ h (failed e f) = fails e f

    -- If the index is that of an input and the crates' functions do not panic, then
    -- `add_signature` either pushes one verified signature, with the sighash byte 0x01 behind
    -- it, on that input's witness and changes nothing else, or returns the error of the call
    -- that failed and leaves the transaction as it was.
    pub add_signature-Verdict :
        (tweak : Option C.Scalar) (i : TxIn B)
        → get_elem? tx.input idx ≡ some i
        → Verdict tx idx prevouts private_key tweak secp rng i
            (add_signature C sk kp se tx idx prevouts private_key tweak secp rng)
    unfolding add_signature
    add_signature-Verdict tweak i h = finished tweak i _ h (signed-Bytes tweak)
