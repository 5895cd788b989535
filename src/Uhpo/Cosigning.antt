-- ===== src/Uhpo/Cosigning.antt =====
-- The order in which the two signatures of a payout update are added
-- (node/uhpo/src/payout_update.rs).
use braidpool.Base.{
  ℕ, zero, suc, ◌≡◌, ◌≢◌, refl, ap, sym, ◌∙◌, inl, inr, Option, none, some, List, [], ◌∷◌, map,
  Outcome, ok, err, panic, arith, Option-cases, get_elem?, set, get_elem?-set_ne, set-set_comm,
}
use braidpool.Uhpo.Bitcoin.{Bitcoin, TxIn, TxOut, Transaction}
use braidpool.Uhpo.Signature.{
  Crypto, SecretKeyBehavior, KeypairBehavior, Secp256k1Behavior, Error, signed, push_witness,
  finish, add_signature,
}
use braidpool.Uhpo.Update.{PayoutUpdate, add_coinbase_sig, add_prev_update_sig, sign_prev}

module _ (B : Bitcoin) where
  abbrev pub unsign : TxIn B → TxIn B
  unsign i = record i { witness = B.empty_witness }

  -- The transaction without its witnesses.
  abbrev pub strip : Transaction B → Transaction B
  strip tx = record tx { input = map unsign tx.input }

  some_inj : {x i : TxIn B} → some x ≡ some i → x ≡ i
  some_inj h = cc

  unsign_eq : (i x : TxIn B) (w : B.Witness) → x ≡ i → unsign (record i { witness = w }) ≡ unsign x
  unsign_eq i x w h = ap unsign (sym h)

  map-unsign-set :
      (xs : List (TxIn B)) (idx : ℕ) (i : TxIn B) (w : B.Witness)
      → get_elem? xs idx ≡ some i
      → map unsign (set xs idx (record i { witness = w })) ≡ map unsign xs
  map-unsign-set [] idx i w h = refl
  map-unsign-set (x ∷ xs) zero i w h = ap (λ y. y ∷ map unsign xs) (unsign_eq i x w (some_inj h))
  map-unsign-set (x ∷ xs) (suc n) i w h = ap (λ l. unsign x ∷ l) (map-unsign-set xs n i w h)

module _ {B : Bitcoin} (C : Crypto B) where
  -- BIP 341: the hash that is signed does not depend on the witnesses.
  abbrev pub IsSegwit : Type 0
  IsSegwit =
      (tx tx' : Transaction B) (idx : ℕ) (prevouts : List (TxOut B))
      → strip B tx ≡ strip B tx'
      → C.sighash tx idx prevouts ≡ C.sighash tx' idx prevouts

  pub strip-finish :
      (tx : Transaction B) (idx : ℕ) (o : Outcome (Error C) (List ℕ))
      → strip B (finish C tx idx o).1 ≡ strip B tx
  unfolding finish push_witness
  strip-finish tx idx (ok bytes) = elim (Option-cases (get_elem? tx.input idx)) [
    | inl h ↦ rw h
    | inr (i, h) ↦ rw h (
        ap (λ l. record tx { input = l })
          (map-unsign-set B tx.input idx i (B.push i.witness bytes) h))
  ]
  strip-finish tx idx (err e) = refl
  strip-finish tx idx panic = refl

  -- Two pushes on different inputs.
  record Commutes (tx : Transaction B) (i j : ℕ) (o p : Outcome (Error C) (List ℕ)) : Type 0 where
    first_result : (finish C tx i o).0 ≡ (finish C (finish C tx j p).1 i o).0
    second_result : (finish C (finish C tx i o).1 j p).0 ≡ (finish C tx j p).0
    transaction : (finish C (finish C tx i o).1 j p).1 ≡ (finish C (finish C tx j p).1 i o).1

  finish_comm :
      (tx : Transaction B) (i j : ℕ) (o p : Outcome (Error C) (List ℕ))
      → i ≢ j
      → Commutes tx i j o p
  unfolding finish push_witness
  finish_comm tx i j (err e) p d = record {
    first_result = refl;
    second_result = refl;
    transaction = refl;
  }
  finish_comm tx i j panic p d = record {
    first_result = refl;
    second_result = refl;
    transaction = refl;
  }
  finish_comm tx i j (ok a) (err e) d = record {
    first_result = refl;
    second_result = refl;
    transaction = refl;
  }
  finish_comm tx i j (ok a) panic d = record {
    first_result = refl;
    second_result = refl;
    transaction = refl;
  }
  finish_comm tx i j (ok a) (ok b) d = push_comm _ _ refl refl
    where
      push_comm :
          (m n : Option (TxIn B))
          → get_elem? tx.input i ≡ m
          → get_elem? tx.input j ≡ n
          → Commutes tx i j (ok a) (ok b)
      push_comm none none h k = record {
        first_result = rw (h, k, h);
        second_result = rw (h, k);
        transaction = rw (h, k, h);
      }
      push_comm none (some y) h k =
          let hi =
            get_elem?-set_ne tx.input j i (record y { witness = B.push y.witness b })
              (λ e. d (sym e))
            ∙ h in
          record {
            first_result = rw (h, k, hi);
            second_result = rw (h, k);
            transaction = rw (h, k, hi);
          }
      push_comm (some x) none h k =
          let kj =
            get_elem?-set_ne tx.input i j (record x { witness = B.push x.witness a }) d ∙ k in
          record {
            first_result = rw (h, k, h);
            second_result = rw (h, k, kj);
            transaction = rw (h, k, kj, h);
          }
      push_comm (some x) (some y) h k =
          let y' = record y { witness = B.push y.witness b } in
          let x' = record x { witness = B.push x.witness a } in
          let hi = get_elem?-set_ne tx.input j i y' (λ e. d (sym e)) ∙ h in
          let kj = get_elem?-set_ne tx.input i j x' d ∙ k in
          record {
            first_result = rw (h, k, hi);
            second_result = rw (h, k, kj);
            transaction =
                rw (h, k, hi, kj)
                  (ap (λ l. record tx { input = l }) (set-set_comm tx.input i j x' y' d));
          }

  module _ (segwit : IsSegwit) {S K E : Type 0} (sk : SecretKeyBehavior C S K E)
      (kp : KeypairBehavior C K E) (se : Secp256k1Behavior C E) where
    pub signed-strip :
        (tx tx' : Transaction B) (idx : ℕ) (prevouts : List (TxOut B)) (private_key : S)
        (tweak : Option C.Scalar) (secp : E) (rng : C.Rng)
        → strip B tx ≡ strip B tx'
        → signed C sk kp se tx idx prevouts private_key tweak secp rng
          ≡ signed C sk kp se tx' idx prevouts private_key tweak secp rng
    unfolding signed
    signed-strip tx tx' idx prevouts private_key tweak secp rng h =
        rw (segwit tx tx' idx prevouts h)

    module _ (k0 k1 : S) (t0 t1 : Option C.Scalar) (secp : E) (r0 r1 : C.Rng) where
      -- The result of the coinbase's signature, that of the previous update's, and the update, where
      -- the coinbase is signed first.
      abbrev pub coinbase_first :
          PayoutUpdate B
          → Outcome (Error C) (Unit {0}) × (Outcome (Error C) (Unit {0}) × PayoutUpdate B)
      coinbase_first u =
          let a = add_coinbase_sig C sk kp se u k0 t0 secp r0 in
          let b = add_prev_update_sig C sk kp se a.1 k1 t1 secp r1 in (a.0, (b.0, b.1))

      -- The same where the previous update is signed first.
      abbrev pub prev_first :
          PayoutUpdate B
          → Outcome (Error C) (Unit {0}) × (Outcome (Error C) (Unit {0}) × PayoutUpdate B)
      prev_first u =
          let b = add_prev_update_sig C sk kp se u k1 t1 secp r1 in
          let a = add_coinbase_sig C sk kp se b.1 k0 t0 secp r0 in (a.0, (b.0, a.1))

      order :
          (tx : Transaction B) (cb : TxOut B) (prev : Option (TxOut B))
          → coinbase_first
              (record { transaction = tx; coinbase_txout = cb; prev_update_txout = prev })
            ≡ prev_first
                (record { transaction = tx; coinbase_txout = cb; prev_update_txout = prev })
      unfolding add_coinbase_sig add_prev_update_sig sign_prev add_signature
      order tx cb none = refl
      order tx cb (some o) =
          let s0 = signed C sk kp se tx 0 (cb ∷ o ∷ []) k0 t0 secp r0 in
          let s1 = signed C sk kp se tx 1 (cb ∷ o ∷ []) k1 t1 secp r1 in
          let c = finish_comm tx 0 1 s0 s1 (λ e. ground arith) in
          let e1 =
            signed-strip (finish C tx 0 s0).1 tx 1 (cb ∷ o ∷ []) k1 t1 secp r1
              (strip-finish tx 0 s0) in
          let e0 =
            signed-strip (finish C tx 1 s1).1 tx 0 (cb ∷ o ∷ []) k0 t0 secp r0
              (strip-finish tx 1 s1) in
          rw (e1, e0)
            (λ i. (
              c.first_result i,
              (
                c.second_result i,
                record {
                  transaction = c.transaction i;
                  coinbase_txout = cb;
                  prev_update_txout = some o;
                },
              ),
            ))

      -- If the hash that is signed does not depend on witnesses, then the two signatures of an update
      -- give the same results and the same update in either order.
      pub signing_order : (u : PayoutUpdate B) → coinbase_first u ≡ prev_first u
      signing_order u = order u.transaction u.coinbase_txout u.prev_update_txout
