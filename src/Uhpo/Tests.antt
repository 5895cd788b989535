-- ===== src/Uhpo/Tests.antt =====
-- Payout updates (node/uhpo/src) on small inputs.
use braidpool.Base.{ℕ, ◌≡◌, refl, inl, none, some, List, [], ◌∷◌, ok, panic, arith}
use braidpool.Sample.Chain.{
  Sats, bitcoin, bitcoin-IsBitcoin, crypto, keys, pairs, secp, secp-NeverPanics, crypto-IsSegwit,
}
use braidpool.Uhpo.Bitcoin.{TxIn, TxOut, Transaction}
use braidpool.Uhpo.Signature.{add_signature, signed, finish, tweaked, keypair_impl}
use braidpool.Uhpo.Update.{PayoutUpdate, new, add_coinbase_sig, add_prev_update_sig, sign_prev}
use braidpool.Uhpo.Payout.{IsPayout, new-IsPayout, new_overdrawn}
use braidpool.Uhpo.Signing.{Verdict, add_signature-Verdict}
use braidpool.Uhpo.BothSigned.{IsSigned, coinbase_first-IsSigned}
use braidpool.Uhpo.Chain.{Round, Ending, update_all, update_all-Ending}
use braidpool.Uhpo.Cosigning.{coinbase_first, prev_first, signing_order}

abbrev fifty : Sats
fifty = record { sat = 5000000000; small = omega arith }

abbrev fee : Sats
fee = record { sat = 1000; small = omega arith }

abbrev pays : ℕ → Sats → TxOut bitcoin
pays to amount = record { value = amount; script_pubkey = to ∷ [] }

abbrev spending : ℕ → TxIn bitcoin
spending n = record {
  previous_output = record { txid = n; vout = 0 };
  script_sig = [];
  sequence = 4294967295;
  witness = [];
}

abbrev coinbase : Transaction bitcoin
coinbase = record { version = 2; lock_time = 0; input = []; output = pays 1 fifty ∷ [] }

abbrev previous : Transaction bitcoin
previous = record {
  version = 2;
  lock_time = 0;
  input = spending 3 ∷ [];
  output = pays 2 fifty ∷ [];
}

-- The number of a transaction is its lock time.
abbrev txid : Transaction bitcoin → ℕ
txid tx = tx.lock_time

new-IsPayout_example :
    (u : PayoutUpdate bitcoin) × (new bitcoin txid (some previous) coinbase 9 fee ≡ ok u)
    × IsPayout bitcoin txid bitcoin-IsBitcoin
        (some previous)
        coinbase
        9
        fee
        (pays 1 fifty)
        (some (pays 2 fifty))
        u
new-IsPayout_example =
    new-IsPayout bitcoin txid bitcoin-IsBitcoin (some previous) coinbase 9 fee (pays 1 fifty)
      (some (pays 2 fifty)) refl refl (omega arith) (omega arith)

-- A fee above the reward of a first update.
new_overdrawn_example :
    new bitcoin txid none (record coinbase { output = pays 1 fee ∷ [] }) 9 fifty ≡ panic
new_overdrawn_example =
    new_overdrawn bitcoin txid bitcoin-IsBitcoin none (record coinbase { output = pays 1 fee ∷ [] })
      9 fifty (pays 1 fee) none refl tt (inl (omega arith))

abbrev unsigned : Transaction bitcoin
unsigned = record {
  version = 2;
  lock_time = 0;
  input = spending 1 ∷ spending 2 ∷ [];
  output = pays 9 fifty ∷ [];
}

abbrev update : PayoutUpdate bitcoin
update = record {
  transaction = unsigned;
  coinbase_txout = pays 1 fifty;
  prev_update_txout = some (pays 2 fifty);
}

add_signature-Verdict_example :
    Verdict crypto keys pairs secp unsigned 1
      (pays 1 fifty ∷ pays 2 fifty ∷ [])
      41
      (some 1)
      tt
      tt
      (spending 2)
      (add_signature crypto keys pairs secp unsigned 1
        (pays 1 fifty ∷ pays 2 fifty ∷ [])
        41
        (some 1)
        tt
        tt)
add_signature-Verdict_example =
    add_signature-Verdict crypto keys pairs secp secp-NeverPanics unsigned 1
      (pays 1 fifty ∷ pays 2 fifty ∷ []) 41 tt tt (some 1) (spending 2) refl

signing_order_example :
    coinbase_first crypto crypto-IsSegwit keys pairs secp 41 42 none (some 1) tt tt tt update
    ≡ prev_first crypto crypto-IsSegwit keys pairs secp 41 42 none (some 1) tt tt tt update
signing_order_example =
    signing_order crypto crypto-IsSegwit keys pairs secp 41 42 none (some 1) tt tt tt update

-- The update with both signatures, as the model computes it.
abbrev signed_update : PayoutUpdate bitcoin
signed_update = record {
  transaction = record unsigned {
    input =
        record (spending 1) { witness = (41 ∷ 1 ∷ 1 ∷ []) ∷ [] }
        ∷ record (spending 2) { witness = (43 ∷ 2 ∷ 1 ∷ []) ∷ [] }
        ∷ [];
  };
  coinbase_txout = pays 1 fifty;
  prev_update_txout = some (pays 2 fifty);
}

coinbase_first-IsSigned_example :
    IsSigned crypto crypto-IsSegwit keys pairs secp secp-NeverPanics 41 42 none
      (some 1)
      tt
      tt
      tt
      unsigned
      (spending 1)
      (spending 2)
      (pays 1 fifty)
      (pays 2 fifty)
      signed_update
unfolding add_coinbase_sig add_prev_update_sig add_signature sign_prev signed finish tweaked
    keypair_impl
coinbase_first-IsSigned_example =
    coinbase_first-IsSigned crypto crypto-IsSegwit keys pairs secp secp-NeverPanics 41 42 none
      (some 1) tt tt tt unsigned (spending 1) (spending 2) (pays 1 fifty) (pays 2 fifty)
      signed_update refl refl

-- Two rounds, the second upon the first.
abbrev rounds : List (Round bitcoin)
rounds =
    record { coinbase = coinbase; address = 9; fee = fee }
    ∷ record { coinbase = record coinbase { lock_time = 5 }; address = 10; fee = fee }
    ∷ []

update_all-Ending_example :
    Ending bitcoin txid bitcoin-IsBitcoin 0 rounds (update_all bitcoin txid none rounds)
update_all-Ending_example = update_all-Ending bitcoin txid bitcoin-IsBitcoin none none rounds tt
