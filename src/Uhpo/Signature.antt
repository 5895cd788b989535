-- ===== src/Uhpo/Signature.antt =====
-- node/uhpo/src/crypto/signature.rs: the traits that wrap the crate secp256k1, their
-- implementations, and `add_signature`. The crate's functions are parameters.
use braidpool.Base.{
  ℕ, Option, none, some, List, [], ◌∷◌, ◌++◌, Outcome, ok, err, panic, ◌>>=◌, ◌>>◌, map_err,
  get_elem?, set,
}
use braidpool.Uhpo.Bitcoin.{Bitcoin, TxIn, TxOut, Transaction}
use braidpool.Uhpo.Error.{
  UhpoError, keypair_creation_error, signature_verification_error, from_taproot,
}

-- The types and functions of secp256k1 and of the crate bitcoin's sighash module. `Rng` is what
-- `thread_rng` gives.
pub record Crypto (B : Bitcoin) : Type 1 where
  pub Keypair : Type 0
  pub Scalar : Type 0
  pub Message : Type 0
  pub Signature : Type 0
  pub XOnlyPublicKey : Type 0
  pub Rng : Type 0
  pub SecpError : Type 0
  pub TaprootError : Type 0
  pub x_only_public_key : Keypair → XOnlyPublicKey
  pub serialize : Signature → List ℕ
  -- `taproot_key_spend_signature_hash` with `Prevouts::All` and `TapSighashType::All`, as a message.
  pub sighash : Transaction B → ℕ → List (TxOut B) → Outcome TaprootError Message

module _ {B : Bitcoin} (C : Crypto B) where
  pub record SecretKeyBehavior (S K E : Type 0) : Type 0 where
    pub keypair : S → E → K

  pub record KeypairBehavior (K E : Type 0) : Type 0 where
    pub add_xonly_tweak : K → E → C.Scalar → Outcome C.SecpError C.Keypair
    pub to_keypair : K → C.Keypair

  pub record Secp256k1Behavior (E : Type 0) : Type 0 where
    pub sign_schnorr_with_rng : E → C.Message → C.Keypair → C.Rng → C.Signature
    pub verify_schnorr :
        E → C.Signature → C.Message → C.XOnlyPublicKey → Outcome C.SecpError (Unit {0})

  -- `impl KeypairBehavior for Keypair`: the crate's function, and a clone.
  unfoldable pub keypair_impl :
      {E : Type 0}
      → (C.Keypair → E → C.Scalar → Outcome C.SecpError C.Keypair)
      → KeypairBehavior C.Keypair E
  keypair_impl tweak = record { add_xonly_tweak = tweak; to_keypair = λ k. k }

  -- `impl SecretKeyBehavior for SecretKey`: the crate's function.
  unfoldable pub secret_key_impl :
      {S E : Type 0} → (S → E → C.Keypair) → SecretKeyBehavior S C.Keypair E
  secret_key_impl keypair = record { keypair = keypair }

  -- `impl Secp256k1Behavior for Secp256k1<All>`: the crate's functions.
  unfoldable pub secp_impl :
      {E : Type 0}
      → (E → C.Message → C.Keypair → C.Rng → C.Signature)
      → (E → C.Signature → C.Message → C.XOnlyPublicKey → Outcome C.SecpError (Unit {0}))
      → Secp256k1Behavior E
  secp_impl sign verify = record { sign_schnorr_with_rng = sign; verify_schnorr = verify }

  abbrev pub Error : Type 0
  Error = UhpoError C.SecpError C.TaprootError

  module _ {S K E : Type 0} (sk : SecretKeyBehavior S K E) (kp : KeypairBehavior K E)
      (se : Secp256k1Behavior E) where
    -- The tweak, if one is given.
    unfoldable pub tweaked : S → Option C.Scalar → E → Outcome Error C.Keypair
    tweaked private_key (some tweak) secp =
        map_err keypair_creation_error (kp.add_xonly_tweak (sk.keypair private_key secp) secp tweak)
    tweaked private_key none secp = ok (kp.to_keypair (sk.keypair private_key secp))

    -- The signature with its sighash byte, up to the verification.
    unfoldable pub signed :
        Transaction B
        → ℕ
        → List (TxOut B)
        → S
        → Option C.Scalar
        → E
        → C.Rng
        → Outcome Error (List ℕ)
    unfolding tweaked from_taproot
    signed transaction input_idx prevouts private_key tweak secp rng = do
      keypair ← tweaked private_key tweak secp
      message ← map_err from_taproot (C.sighash transaction input_idx prevouts)
      let signature = se.sign_schnorr_with_rng secp message keypair rng
      map_err signature_verification_error
          (se.verify_schnorr secp signature message (C.x_only_public_key keypair))
      ok (C.serialize signature ++ (0x01 ∷ []))

  -- `transaction.input[input_idx].witness.push(vec_sig)`; an index out of bounds panics.
  unfoldable pub push_witness :
      Transaction B → ℕ → List ℕ → Option (TxIn B) → Outcome Error (Unit {0}) × Transaction B
  push_witness transaction input_idx vec_sig none = (panic, transaction)
  push_witness transaction input_idx vec_sig (some i) = (
    ok tt,
    record transaction {
      input = set transaction.input input_idx (record i { witness = B.push i.witness vec_sig });
    },
  )

  unfoldable pub finish :
      Transaction B → ℕ → Outcome Error (List ℕ) → Outcome Error (Unit {0}) × Transaction B
  unfolding push_witness
  finish transaction input_idx (ok vec_sig) =
      push_witness transaction input_idx vec_sig (get_elem? transaction.input input_idx)
  finish transaction input_idx (err e) = (err e, transaction)
  finish transaction input_idx panic = (panic, transaction)

  module _ {S K E : Type 0} (sk : SecretKeyBehavior S K E) (kp : KeypairBehavior K E)
      (se : Secp256k1Behavior E) where
    unfoldable pub add_signature :
        Transaction B
        → ℕ
        → List (TxOut B)
        → S
        → Option C.Scalar
        → E
        → C.Rng
        → Outcome Error (Unit {0}) × Transaction B
    unfolding finish signed
    add_signature transaction input_idx prevouts private_key tweak secp rng =
        finish transaction input_idx
          (signed sk kp se transaction input_idx prevouts private_key tweak secp rng)
