-- ===== src/RenterHost/Tests.antt =====
-- Runs of package renterhost on small objects, with a toy hash function and a toy cipher.
use us.Prelude.{
  ℕ, ◌+◌, ◌*◌, ◌%◌, ◌≤◌, ◌≡◌, refl, ◌⊎◌, List, [], ◌∷◌, ◌++◌, arith, length, replicate, take,
}
use us.Prelude.Bytes.{little_endian}
use us.Merkle.Hash.{Blake}
use us.Merkle.Collision.{Collision}
use us.RenterHost.Buffer.{unread, read_prefix, write_prefix, write_uint64}
use us.RenterHost.Buffer.Laws.{Failed}
use us.RenterHost.Buffer.Prefix.{read_prefix-fits}
use us.RenterHost.Currency.{count_words, significant, byte_at, word, write_bytes}
use us.RenterHost.Object.Currency.{obj_currency, count_bytes, IsCurrency}
use us.RenterHost.Object.Keys.{SiaPublicKey}
use us.RenterHost.Object.Inputs.{SiacoinInput}
use us.RenterHost.Object.Outputs.{SiacoinOutput}
use us.RenterHost.Object.FileContractRevision.{IsFileContractRevision, zero_file_contract_revision}
use us.RenterHost.Object.Transaction.{Transaction, IsTransaction, obj_transaction}
use us.RenterHost.Rpc.Lock.{RpcLockRequest, IsRpcLockRequest, rpc_lock_request}
use us.RenterHost.Messages.{transaction, lock_request}
use us.RenterHost.Messages.Codecs.{
  unmarshal_buffer-marshal_buffer, length-marshal_buffer, unmarshal_buffer-take,
}
use us.RenterHost.HashRevision.{hash_revision-injective}

abbrev key : SiaPublicKey
key = record { algorithm = replicate 16 1; key = 7 ∷ 8 ∷ [] }

abbrev input : SiacoinInput
input = record {
  parent_id = replicate 32 2;
  unlock_conditions = record { timelock = 144; public_keys = key ∷ []; signatures_required = 1 };
}

abbrev output : SiacoinOutput
output = record { value = 70000; unlock_hash = replicate 32 3 }

abbrev payment : Transaction
payment = record {
  siacoin_inputs = input ∷ [];
  siacoin_outputs = output ∷ [];
  file_contracts = [];
  file_contract_revisions = [];
  storage_proofs = [];
  siafund_inputs = [];
  siafund_outputs = [];
  miner_fees = 300 ∷ [];
  arbitrary_data = (1 ∷ 2 ∷ []) ∷ [];
  transaction_signatures = [];
}

output_value : IsCurrency 70000
unfolding count_bytes significant count_words byte_at word
output_value = omega arith

fee_value : IsCurrency 300
unfolding count_bytes significant count_words byte_at word
fee_value = omega arith

payment-IsTransaction : IsTransaction payment
payment-IsTransaction = record {
  siacoin_inputs = (
    omega arith,
    (
      record {
        parent_id = refl;
        unlock_conditions = record {
          timelock = omega arith;
          public_keys = (omega arith, (record { algorithm = refl; key = omega arith }, tt));
          signatures_required = omega arith;
        };
      },
      tt,
    ),
  );
  siacoin_outputs = (omega arith, (record { value = output_value; unlock_hash = refl }, tt));
  file_contracts = (omega arith, tt);
  file_contract_revisions = (omega arith, tt);
  storage_proofs = (omega arith, tt);
  siafund_inputs = (omega arith, tt);
  siafund_outputs = (omega arith, tt);
  miner_fees = (omega arith, (fee_value, tt));
  arbitrary_data = (omega arith, (omega arith, tt));
  transaction_signatures = (omega arith, tt);
}

abbrev lock : RpcLockRequest
lock = record { contract_id = replicate 32 4; signature = 5 ∷ 6 ∷ []; timeout = 1000 }

lock-IsRpcLockRequest : IsRpcLockRequest lock
lock-IsRpcLockRequest = record {
  contract_id = refl;
  signature = omega arith;
  timeout = omega arith;
}

currency_bytes :
    obj_currency.marshal_buffer 70000 ≡ 3 ∷ 0 ∷ 0 ∷ 0 ∷ 0 ∷ 0 ∷ 0 ∷ 0 ∷ 1 ∷ 17 ∷ 112 ∷ []
unfolding obj_currency count_bytes significant count_words byte_at word write_bytes write_prefix
    write_uint64 little_endian
currency_bytes = refl

lock_size : rpc_lock_request.marshalled_size lock ≡ 50
unfolding rpc_lock_request
lock_size = refl

unmarshal_buffer-marshal_buffer_example :
    obj_transaction.unmarshal_buffer (unread (obj_transaction.marshal_buffer payment ++ (9 ∷ [])))
    ≡ (payment, unread (9 ∷ []))
unmarshal_buffer-marshal_buffer_example =
    unmarshal_buffer-marshal_buffer transaction payment (9 ∷ []) payment-IsTransaction

length-marshal_buffer_example :
    length (obj_transaction.marshal_buffer payment) ≡ obj_transaction.marshalled_size payment
length-marshal_buffer_example = length-marshal_buffer transaction payment payment-IsTransaction

unmarshal_buffer-take_example :
    Failed
      (rpc_lock_request.unmarshal_buffer (unread (take 49 (rpc_lock_request.marshal_buffer lock))))
unmarshal_buffer-take_example =
    unmarshal_buffer-take lock_request lock 49 lock-IsRpcLockRequest (omega (arith, lock_size))

read_prefix-fits_example :
    (read_prefix 8 (unread (write_prefix 100 ++ (1 ∷ [])))).0 * 8
    ≤ length (read_prefix 8 (unread (write_prefix 100 ++ (1 ∷ [])))).1.buf
read_prefix-fits_example = read_prefix-fits 8 (unread (write_prefix 100 ++ (1 ∷ []))) (omega arith)

mix : ℕ → List ℕ → ℕ
mix acc [] = acc
mix acc (x ∷ xs) = mix ((3 * acc + x) % 256) xs

abbrev toy : Blake
toy = record { sum256 = λ msg. mix 7 msg ∷ replicate 31 0; length-sum256 = λ msg. refl }

revision-IsFileContractRevision : IsFileContractRevision zero_file_contract_revision
revision-IsFileContractRevision = record {
  parent_id = refl;
  unlock_conditions = record {
    timelock = omega arith;
    public_keys = (omega arith, tt);
    signatures_required = omega arith;
  };
  new_revision_number = omega arith;
  new_file_size = omega arith;
  new_file_merkle_root = refl;
  new_window_start = omega arith;
  new_window_end = omega arith;
  new_valid_proof_outputs = (omega arith, tt);
  new_missed_proof_outputs = (omega arith, tt);
  new_unlock_hash = refl;
}

hash_revision-injective_example :
    (zero_file_contract_revision ≡ zero_file_contract_revision) ⊎ Collision ⦃blake = toy⦄
hash_revision-injective_example =
    hash_revision-injective ⦃blake = toy⦄ zero_file_contract_revision zero_file_contract_revision
      revision-IsFileContractRevision revision-IsFileContractRevision refl
