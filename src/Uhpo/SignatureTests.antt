-- ===== src/Uhpo/SignatureTests.antt =====
-- The unit tests of node/uhpo/src/crypto/signature.rs, over the crates that they use, and that they
-- pass.
use braidpool.Base.{
  ℕ, ◌≡◌, refl, Bool, true, false, some, [], ◌∷◌, Outcome, ok, err, ◌>>=◌, UnitTest, assert, unwrap,
}
use braidpool.Uhpo.Bitcoin.{Bitcoin, TxIn, TxOut, Transaction}
use braidpool.Uhpo.Error.{keypair_creation_error, signature_verification_error}
use braidpool.Sample.Chain.{Sats, bitcoin, crypto, pairs, secp as schnorr}
use braidpool.Uhpo.Signature.{
  Crypto, SecretKeyBehavior, KeypairBehavior, Secp256k1Behavior, Error, add_signature, keypair_impl,
  secret_key_impl, secp_impl,
}

module _ (B : Bitcoin) (from_sat : ℕ → B.Amount) where
  abbrev pub create_dummy_transaction : Transaction B
  create_dummy_transaction = record {
    version = B.version_two;
    lock_time = B.lock_time_zero;
    input = [];
    output = record { value = from_sat 50000000; script_pubkey = B.empty_script } ∷ [];
  }

  -- With one input, which is `TxIn::default()`.
  abbrev one_input : TxIn B → Transaction B
  one_input default_input = record create_dummy_transaction { input = default_input ∷ [] }

  abbrev prevout : TxOut B
  prevout = record { value = from_sat 0; script_pubkey = B.empty_script }

module _ {B : Bitcoin} (C : Crypto B) where
  abbrev pub is_keypair_error : Outcome (Error C) (Unit {0}) → Bool
  is_keypair_error (err (keypair_creation_error e)) = true
  is_keypair_error _ = false

  abbrev is_verification_error : Outcome (Error C) (Unit {0}) → Bool
  is_verification_error (err (signature_verification_error e)) = true
  is_verification_error _ = false

  -- The mocks: the keypair tweaks as told, and is not asked for the keypair itself.
  abbrev pub mock_secret_key : {E : Type 0} → SecretKeyBehavior C (Unit {0}) (Unit {0}) E
  mock_secret_key = record { keypair = λ s e. tt }

  abbrev pub mock_keypair :
      {E : Type 0} → Outcome C.SecpError C.Keypair → C.Keypair → KeypairBehavior C (Unit {0}) E
  mock_keypair tweaked_to unexpected = record {
    add_xonly_tweak = λ k e t. tweaked_to;
    to_keypair = λ k. unexpected;
  }

  abbrev mock_secp : {E : Type 0} → C.Signature → C.SecpError → Secp256k1Behavior C E
  mock_secp signature invalid_signature = record {
    sign_schnorr_with_rng = λ e m k rng. signature;
    verify_schnorr = λ e s m k. err invalid_signature;
  }

  module _ (from_sat : ℕ → B.Amount) (default_input : TxIn B) (tweak : C.Scalar) (rng : C.Rng) where
    abbrev test_add_signature_with_invalid_tweak_error_key_creation_should_fail :
        {E : Type 0} → Secp256k1Behavior C E → E → C.SecpError → C.Keypair → UnitTest
    test_add_signature_with_invalid_tweak_error_key_creation_should_fail se secp invalid_tweak
          unexpected =
        let kp = mock_keypair (err invalid_tweak) unexpected in
        let (result, _) =
          add_signature C mock_secret_key kp se (one_input B from_sat default_input) 0
            (prevout B from_sat ∷ []) tt (some tweak) secp rng in
        assert (is_keypair_error result)

    abbrev test_add_signature_with_a_bad_signature_should_fail_during_verification :
        {E : Type 0} → E → C.Signature → C.SecpError → C.Keypair → C.Keypair → UnitTest
    test_add_signature_with_a_bad_signature_should_fail_during_verification secp zeros
          invalid_signature fresh_keypair unexpected =
        let kp = mock_keypair (ok fresh_keypair) unexpected in
        let (result, _) =
          add_signature C mock_secret_key kp (mock_secp zeros invalid_signature)
            (one_input B from_sat default_input) 0 (prevout B from_sat ∷ []) tt (some tweak) secp
            rng in
        assert (is_verification_error result)

    -- With the crate's own keys.
    abbrev test_add_signature_with_a_valid_signature_should_pass :
        {S E : Type 0}
        → SecretKeyBehavior C S C.Keypair E
        → KeypairBehavior C C.Keypair E
        → Secp256k1Behavior C E
        → S
        → E
        → UnitTest
    test_add_signature_with_a_valid_signature_should_pass sk kp se secret_key secp = do
      done ←
          unwrap
            (add_signature C sk kp se (one_input B from_sat default_input) 0
              (prevout B from_sat ∷ []) secret_key (some tweak) secp rng).0
      ok tt

    test_add_signature_with_invalid_tweak_error_key_creation_should_fail_lem :
        {E : Type 0} (se : Secp256k1Behavior C E) (secp : E) (invalid_tweak : C.SecpError)
        (unexpected : C.Keypair)
        → test_add_signature_with_invalid_tweak_error_key_creation_should_fail se secp invalid_tweak
            unexpected
          ≡ ok tt
    unfolding add_signature
    test_add_signature_with_invalid_tweak_error_key_creation_should_fail_lem se secp invalid_tweak
          unexpected =
        refl

    -- Where the sighash of the one input can be computed.
    test_add_signature_with_a_bad_signature_should_fail_during_verification_lem :
        {E : Type 0} (secp : E) (zeros : C.Signature) (invalid_signature : C.SecpError)
        (fresh_keypair unexpected : C.Keypair) (m : C.Message)
        → C.sighash (one_input B from_sat default_input) 0 (prevout B from_sat ∷ []) ≡ ok m
        → test_add_signature_with_a_bad_signature_should_fail_during_verification secp zeros
            invalid_signature fresh_keypair unexpected
          ≡ ok tt
    unfolding add_signature
    test_add_signature_with_a_bad_signature_should_fail_during_verification_lem secp zeros
          invalid_signature fresh_keypair unexpected m e =
        rw e refl

abbrev no_input : TxIn bitcoin
no_input = record {
  previous_output = record { txid = 0; vout = 4294967295 };
  script_sig = [];
  sequence = 4294967295;
  witness = [];
}

test_add_signature_with_a_valid_signature_should_pass_run :
    (amounts : ℕ → Sats)
    → test_add_signature_with_a_valid_signature_should_pass crypto amounts no_input 5 tt
        (secret_key_impl crypto (λ k e. k))
        pairs
        (secp_impl crypto schnorr.sign_schnorr_with_rng schnorr.verify_schnorr)
        41
        tt
      ≡ ok tt
unfolding add_signature keypair_impl secret_key_impl secp_impl
test_add_signature_with_a_valid_signature_should_pass_run amounts = refl
