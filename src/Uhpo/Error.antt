-- ===== src/Uhpo/Error.antt =====
-- `UhpoError` of node/uhpo/src/error.rs. The errors of the crates bitcoin and secp256k1, and their
-- texts, are parameters.
use braidpool.Base.{String, ◌<>◌}

pub data UhpoError (SecpError TaprootError : Type 0) : Type 0 where
  keypair_creation_error : SecpError → UhpoError SecpError TaprootError
  signature_verification_error : SecpError → UhpoError SecpError TaprootError
  taproot_error : TaprootError → UhpoError SecpError TaprootError
  no_prev_update_tx_out : UhpoError SecpError TaprootError
  other : String → UhpoError SecpError TaprootError

module _ {SecpError TaprootError : Type 0} where
  -- `From<TaprootError>`
  unfoldable pub from_taproot : TaprootError → UhpoError SecpError TaprootError
  from_taproot err = taproot_error err

  -- `From<bitcoin::secp256k1::Error>`
  unfoldable pub from_secp : SecpError → UhpoError SecpError TaprootError
  from_secp err = keypair_creation_error err

  -- `UhpoError::new`
  unfoldable pub new : String → UhpoError SecpError TaprootError
  new message = other message

  -- `Display`
  unfoldable pub fmt :
      (SecpError → String) → (TaprootError → String) → UhpoError SecpError TaprootError → String
  fmt secp taproot (keypair_creation_error err) = "Keypair creation error: " <> secp err
  fmt secp taproot (taproot_error err) = "Taproot error: " <> taproot err
  fmt secp taproot (signature_verification_error err) = "Signature verification error: " <> secp err
  fmt secp taproot no_prev_update_tx_out = "No previous update transaction output provided"
  fmt secp taproot (other msg) = "Other error: " <> msg
