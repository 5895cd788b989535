-- ===== src/Uhpo/UnitTests.antt =====
-- The unit tests of node/uhpo/src/payout_update.rs and node/uhpo/src/crypto/signature.rs, over the
-- crates that they use, and that they pass on a small instance of these.
use braidpool.Base.{
  ℕ, ◌<◌, ◌≡◌, ◌^◌, ◌%◌, ◌*◌, refl, ◌==◌, Bool, Option, none, some, Outcome, ok, err, ◌>>=◌, ◌>>◌,
  arith, UnitTest, assert, unwrap, or_panic, is_none, is_some, length, get_elem?,
}
use braidpool.Uhpo.Bitcoin.{Bitcoin, Transaction}
use braidpool.Uhpo.Signature.{
  Crypto, SecretKeyBehavior, KeypairBehavior, Secp256k1Behavior, keypair_impl,
}
use braidpool.Uhpo.SignatureTests.{
  create_dummy_transaction, is_keypair_error, mock_secret_key, mock_keypair,
}
use braidpool.Sample.Chain.{Sats, bitcoin, crypto, keys, pairs, secp as schnorr}
use braidpool.Uhpo.Update.{PayoutUpdate, new, add_coinbase_sig, add_prev_update_sig}

module _ (B : Bitcoin) (from_sat : ℕ → B.Amount) where
  module _ (compute_txid : Transaction B → B.Txid) (eq : B.Amount → B.Amount → Bool)
      (address : B.Address) where
    abbrev payout : Option (Transaction B) → Outcome ⊥ (PayoutUpdate B)
    payout prev =
        unwrap
          (new B compute_txid prev (create_dummy_transaction B from_sat) address (from_sat 1000))

    abbrev test_new_payout_update_only_cb : UnitTest
    test_new_payout_update_only_cb = do
      payout_update ← payout none
      assert (length payout_update.transaction.input == 1)
      assert (length payout_update.transaction.output == 1)
      first ← or_panic (get_elem? payout_update.transaction.output 0)
      paid ← or_panic (B.amount_sub (from_sat 50000000) (from_sat 1000))
      assert (eq first.value paid)
      assert (is_none payout_update.prev_update_txout)

    abbrev test_new_payout_update : UnitTest
    test_new_payout_update = do
      payout_update ← payout (some (create_dummy_transaction B from_sat))
      assert (length payout_update.transaction.input == 2)
      assert (length payout_update.transaction.output == 1)
      first ← or_panic (get_elem? payout_update.transaction.output 0)
      paid ← or_panic (B.amount_sub (from_sat (50000000 * 2)) (from_sat 1000))
      assert (eq first.value paid)
      assert (is_some payout_update.prev_update_txout)

    module _ (C : Crypto B) where
      module _ {S K E : Type 0} (sk : SecretKeyBehavior C S K E) (kp : KeypairBehavior C K E)
          (se : Secp256k1Behavior C E) (secret_key : S) (secp : E) (rng : C.Rng)
          (witness_len : B.Witness → ℕ) where
        -- Both signatures, with the tweaks of the coinbase's and of the previous update's.
        abbrev signs_both : Option C.Scalar → Option C.Scalar → UnitTest
        signs_both tweak tweak' = do
          unsigned ← payout (some (create_dummy_transaction B from_sat))
          let first = add_coinbase_sig C sk kp se unsigned secret_key tweak secp rng
          done ← unwrap first.0
          let second = add_prev_update_sig C sk kp se first.1 secret_key tweak' secp rng
          done' ← unwrap second.0
          coinbase ← or_panic (get_elem? second.1.transaction.input 0)
          assert (witness_len coinbase.witness == 1)
          prev ← or_panic (get_elem? second.1.transaction.input 1)
          assert (witness_len prev.witness == 1)

        abbrev test_add_signature_with_no_tweak : UnitTest
        test_add_signature_with_no_tweak = signs_both none none

        abbrev test_add_signature_with_tweak : C.Scalar → C.Scalar → UnitTest
        test_add_signature_with_tweak tweak tweak' = signs_both (some tweak) (some tweak')

      abbrev test_add_signature_mock_error_should_fail :
          {E : Type 0}
          → Secp256k1Behavior C E
          → E
          → C.SecpError
          → C.Keypair
          → C.Scalar
          → C.Rng
          → UnitTest
      test_add_signature_mock_error_should_fail se mock_secp invalid_tweak unexpected tweak rng = do
        let kp = mock_keypair C (err invalid_tweak) unexpected
        unsigned ← payout (some (create_dummy_transaction B from_sat))
        let first =
            add_coinbase_sig C (mock_secret_key C) kp se unsigned tt (some tweak) mock_secp rng
        assert (is_keypair_error C first.0)
        let second =
            add_prev_update_sig C (mock_secret_key C) kp se first.1 tt (some tweak) mock_secp rng
        assert (is_keypair_error C second.0)

-- The tests on the instance of Sample/Chain.
abbrev from_sat : ℕ → Sats
from_sat n = record { sat = n % 2 ^ 64; small = below n }
  where
    below : (m : ℕ) → m % 2 ^ 64 < 2 ^ 64
    below m = omega arith

abbrev eq : Sats → Sats → Bool
eq a b = a.sat == b.sat

abbrev txid : Transaction bitcoin → ℕ
txid tx = tx.lock_time

test_new_payout_update_only_cb_run :
    test_new_payout_update_only_cb bitcoin from_sat txid eq 9 ≡ ok tt
unfolding new
test_new_payout_update_only_cb_run = refl

test_new_payout_update_run : test_new_payout_update bitcoin from_sat txid eq 9 ≡ ok tt
unfolding new
test_new_payout_update_run = refl

test_add_signature_with_no_tweak_run :
    test_add_signature_with_no_tweak bitcoin from_sat txid eq 9 crypto keys pairs schnorr 41 tt tt
      length
    ≡ ok tt
unfolding new add_coinbase_sig add_prev_update_sig keypair_impl
test_add_signature_with_no_tweak_run = refl

test_add_signature_with_tweak_run :
    test_add_signature_with_tweak bitcoin from_sat txid eq 9 crypto keys pairs schnorr 41 tt tt
      length 5 6
    ≡ ok tt
unfolding new add_coinbase_sig add_prev_update_sig keypair_impl
test_add_signature_with_tweak_run = refl

test_add_signature_mock_error_should_fail_run :
    test_add_signature_mock_error_should_fail bitcoin from_sat txid eq 9 crypto schnorr tt tt 7 5 tt
    ≡ ok tt
unfolding new add_coinbase_sig add_prev_update_sig
test_add_signature_mock_error_should_fail_run = refl
