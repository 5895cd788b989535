-- ===== src/Uhpo/Builder.antt =====
-- `TransactionBuilder` of node/uhpo/src/transaction/builder.rs.
use braidpool.Base.{ℕ, [], ◌∷◌, ◌++◌}
use braidpool.Uhpo.Bitcoin.{Bitcoin, TxIn, TxOut, Transaction}

pub record TransactionBuilder (B : Bitcoin) : Type 0 where
  pub transaction : Transaction B

module _ (B : Bitcoin) where
  unfoldable pub new : TransactionBuilder B
  new = record {
    transaction = record {
      version = B.version_two;
      lock_time = B.lock_time_zero;
      input = [];
      output = [];
    };
  }

  unfoldable pub add_input : TransactionBuilder B → B.Txid → ℕ → TransactionBuilder B
  add_input self txid vout = record {
    transaction = record (self.transaction) { input = self.transaction.input ++ (i ∷ []) };
  }
    where
      i : TxIn B
      i = record {
        previous_output = record { txid = txid; vout = vout };
        script_sig = B.empty_script;
        sequence = B.sequence_max;
        witness = B.empty_witness;
      }

  unfoldable pub add_output : TransactionBuilder B → B.Address → B.Amount → TransactionBuilder B
  add_output self address amount = record {
    transaction = record (self.transaction) { output = self.transaction.output ++ (o ∷ []) };
  }
    where
      o : TxOut B
      o = record { value = amount; script_pubkey = B.script_pubkey address }

  unfoldable pub build : TransactionBuilder B → Transaction B
  build self = self.transaction
