-- ===== src/Sample/Chain.antt =====
-- Amounts, witnesses and keys, for node/uhpo/src.
use braidpool.Base.{
  ℕ, zero, suc, ◌+◌, ◌-◌, ◌^◌, ◌≤◌, ◌<◌, ◌≡◌, ◌≢◌, refl, ap, ◌⊎◌, inl, inr, true, false, ◌&&◌, ◌==◌,
  Option, none, some, List, [], ◌∷◌, ◌++◌, Outcome, ok, err, panic, arith, length, if◌then◌else◌,
  leb, ltb, ltb→lt, Bool,
}
use braidpool.Uhpo.Bitcoin.{Bitcoin, IsBitcoin, Transaction}
use braidpool.Uhpo.Signature.{
  Crypto, SecretKeyBehavior, KeypairBehavior, Secp256k1Behavior, keypair_impl,
}
use braidpool.Uhpo.Signing.{NeverPanics}
use braidpool.Uhpo.Cosigning.{IsSegwit}

pub record Sats : Type 0 where
  pub sat : ℕ
  pub small : sat < 2 ^ 64

abbrev truth : (b : Bool) → (b ≡ true) ⊎ (b ≡ false)
truth true = inl refl
truth false = inr refl

abbrev bounded : (n : ℕ) → (ltb n (2 ^ 64) ≡ true) ⊎ (ltb n (2 ^ 64) ≡ false) → Option Sats
bounded n (inl h) = some (record { sat = n; small = ltb→lt n (2 ^ 64) h })
bounded n (inr h) = none

abbrev plus : Sats → Sats → Option Sats
plus a b = bounded (a.sat + b.sat) (truth (ltb (a.sat + b.sat) (2 ^ 64)))

abbrev minus_by : (a b : Sats) → (leb b.sat a.sat ≡ true) ⊎ (leb b.sat a.sat ≡ false) → Option Sats
minus_by a b (inl h) = some (record { sat = a.sat - b.sat; small = less a.sat b.sat a.small })
  where
    less : (m n : ℕ) → m < 2 ^ 64 → m - n < 2 ^ 64
    less m n h = omega arith
minus_by a b (inr h) = none

abbrev minus : Sats → Sats → Option Sats
minus a b = minus_by a b (truth (leb b.sat a.sat))

abbrev pub bitcoin : Bitcoin
bitcoin = record {
  Txid = ℕ;
  Address = ℕ;
  Amount = Sats;
  ScriptBuf = List ℕ;
  Sequence = ℕ;
  Version = ℕ;
  LockTime = ℕ;
  Witness = List (List ℕ);
  version_two = 2;
  lock_time_zero = 0;
  sequence_max = 4294967295;
  empty_script = [];
  script_pubkey = λ a. a ∷ [];
  empty_witness = [];
  push = λ w item. w ++ (item ∷ []);
  amount_add = plus;
  amount_sub = minus;
}

abbrev plus_fits :
    (a b : Sats)
    → a.sat + b.sat < 2 ^ 64
    → (c : Sats) × (plus a b ≡ some c) × (c.sat ≡ a.sat + b.sat)
plus_fits a b h =
    elim (truth (ltb (a.sat + b.sat) (2 ^ 64)))
      as (λ x. (c : Sats) × (bounded (a.sat + b.sat) x ≡ some c) × (c.sat ≡ a.sat + b.sat)) [
        | inl e ↦ (_, refl, refl)
        | inr e ↦ absurd (ground arith)
      ]

abbrev plus_overflow : (a b : Sats) → 2 ^ 64 ≤ a.sat + b.sat → plus a b ≡ none
plus_overflow a b h =
    elim (truth (ltb (a.sat + b.sat) (2 ^ 64))) as (λ x. bounded (a.sat + b.sat) x ≡ none) [
      | inl e ↦ absurd (ground arith)
      | inr e ↦ refl
    ]

abbrev minus_fits :
    (a b : Sats) → b.sat ≤ a.sat → (c : Sats) × (minus a b ≡ some c) × (c.sat + b.sat ≡ a.sat)
minus_fits a b h =
    elim (truth (leb b.sat a.sat))
      as (λ x. (c : Sats) × (minus_by a b x ≡ some c) × (c.sat + b.sat ≡ a.sat)) [
        | inl e ↦ (_, refl, omega arith)
        | inr e ↦ absurd (ground arith)
      ]

abbrev minus_overflow : (a b : Sats) → a.sat < b.sat → minus a b ≡ none
minus_overflow a b h = elim (truth (leb b.sat a.sat)) as (λ x. minus_by a b x ≡ none) [
  | inl e ↦ absurd (ground arith)
  | inr e ↦ refl
]

abbrev pub bitcoin-IsBitcoin : IsBitcoin bitcoin
bitcoin-IsBitcoin = record {
  to_sat = λ a. a.sat;
  to_sat_lt = λ a. a.small;
  amount_add_fits = plus_fits;
  amount_add_overflow = plus_overflow;
  amount_sub_fits = minus_fits;
  amount_sub_overflow = minus_overflow;
  items = λ w. w;
  items-empty_witness = refl;
  items-push = λ w item. refl;
}

-- A key is a number, and a signature names the key and the message.
abbrev pub crypto : Crypto bitcoin
crypto = record {
  Keypair = ℕ;
  Scalar = ℕ;
  Message = ℕ;
  Signature = ℕ × ℕ;
  XOnlyPublicKey = ℕ;
  Rng = Unit {0};
  SecpError = Unit {0};
  TaprootError = Unit {0};
  x_only_public_key = λ k. k;
  serialize = λ s. s.0 ∷ s.1 ∷ [];
  sighash =
      λ tx idx prevouts. if ltb idx (length prevouts) then ok (idx + length tx.output) else err tt;
}

abbrev pub keys : SecretKeyBehavior crypto ℕ ℕ (Unit {0})
keys = record { keypair = λ k e. k }

abbrev tweak_by : ℕ → Unit {0} → ℕ → Outcome (Unit {0}) ℕ
tweak_by k e zero = err tt
tweak_by k e (suc t) = ok (k + suc t)

abbrev pub pairs : KeypairBehavior crypto ℕ (Unit {0})
pairs = keypair_impl crypto tweak_by

abbrev pub secp : Secp256k1Behavior crypto (Unit {0})
secp = record {
  sign_schnorr_with_rng = λ e m k rng. (k, m);
  verify_schnorr = λ e s m k. if (s.0 == k) && (s.1 == m) then ok tt else err tt;
}

abbrev tweak_by-ne-panic : (k : ℕ) (e : Unit {0}) (t : ℕ) → tweak_by k e t ≢ panic
tweak_by-ne-panic k e zero h = ground arith
tweak_by-ne-panic k e (suc t) h = ground arith

pub secp-NeverPanics : NeverPanics crypto keys pairs secp
unfolding keypair_impl
secp-NeverPanics = record {
  tweak_returns = tweak_by-ne-panic;
  sighash_returns = λ tx i prevouts h. ground arith;
  verify_returns = λ e s m k h. ground arith;
}

abbrev pub crypto-IsSegwit : IsSegwit crypto
crypto-IsSegwit =
    λ tx tx' idx prevouts h. ap (λ (t : Transaction bitcoin). crypto.sighash t idx prevouts) h
