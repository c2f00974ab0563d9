-- ===== src/RenterHost/Messages/Codecs.antt =====
-- What all the protocol objects of renterhost/encoding.go have in common.
use us.Prelude.{ℕ, List, [], ◌++◌, ◌<◌, ◌≡◌, ap, sym, ◌∙◌, length, take, arith}
use us.RenterHost.Buffer.{unread}
use us.RenterHost.Buffer.Laws.{Failed}
use us.RenterHost.Object.{IsCodec}
use us.RenterHost.Messages.{
  Kind, Body, IsBody, object, response, specifier, currency, sia_public_key, unlock_conditions,
  siacoin_input, siafund_input, siacoin_output, siafund_output, covered_fields,
  transaction_signature, file_contract, file_contract_revision, storage_proof, transaction, error,
  form_contract_request, form_contract_additions, form_contract_signatures,
  renew_and_clear_contract_request, renew_and_clear_contract_signatures, lock_request,
  lock_response, read_request, read_response, sector_roots_request, sector_roots_response,
  settings_response, write_request, write_merkle_proof, write_response,
}
use us.RenterHost.Object.Keys.{
  obj_specifier-IsCodec, obj_sia_public_key-IsCodec, obj_unlock_conditions-IsCodec,
}
use us.RenterHost.Object.Currency.{obj_currency-IsCodec}
use us.RenterHost.Object.Inputs.{obj_siacoin_input-IsCodec, obj_siafund_input-IsCodec}
use us.RenterHost.Object.Outputs.{obj_siacoin_output-IsCodec, obj_siafund_output-IsCodec}
use us.RenterHost.Object.CoveredFields.{obj_covered_fields-IsCodec}
use us.RenterHost.Object.Signatures.{obj_transaction_signature-IsCodec}
use us.RenterHost.Object.FileContract.{obj_file_contract-IsCodec}
use us.RenterHost.Object.FileContractRevision.{obj_file_contract_revision-IsCodec}
use us.RenterHost.Object.StorageProof.{obj_storage_proof-IsCodec}
use us.RenterHost.Object.Transaction.{obj_transaction-IsCodec}
use us.RenterHost.Rpc.Errors.{rpc_error-IsCodec}
use us.RenterHost.Rpc.FormContract.{
  rpc_form_contract_request-IsCodec, rpc_form_contract_additions-IsCodec,
  rpc_form_contract_signatures-IsCodec,
}
use us.RenterHost.Rpc.RenewAndClear.{
  rpc_renew_and_clear_contract_request-IsCodec, rpc_renew_and_clear_contract_signatures-IsCodec,
}
use us.RenterHost.Rpc.Lock.{
  rpc_lock_request-IsCodec, rpc_lock_response-IsCodec, rpc_settings_response-IsCodec,
}
use us.RenterHost.Rpc.Read.{rpc_read_request-IsCodec}
use us.RenterHost.Rpc.ReadResponse.{rpc_read_response-IsCodec}
use us.RenterHost.Rpc.SectorRoots.{
  rpc_sector_roots_request-IsCodec, rpc_sector_roots_response-IsCodec,
}
use us.RenterHost.Rpc.Write.{rpc_write_request-IsCodec}
use us.RenterHost.Rpc.WriteResponse.{rpc_write_merkle_proof-IsCodec, rpc_write_response-IsCodec}
use us.RenterHost.Rpc.Response.{rpc_response-IsCodec}

pub object-IsCodec : (k : Kind) → IsCodec (IsBody k) (object k)
object-IsCodec specifier = obj_specifier-IsCodec
object-IsCodec currency = obj_currency-IsCodec
object-IsCodec sia_public_key = obj_sia_public_key-IsCodec
object-IsCodec unlock_conditions = obj_unlock_conditions-IsCodec
object-IsCodec siacoin_input = obj_siacoin_input-IsCodec
object-IsCodec siafund_input = obj_siafund_input-IsCodec
object-IsCodec siacoin_output = obj_siacoin_output-IsCodec
object-IsCodec siafund_output = obj_siafund_output-IsCodec
object-IsCodec covered_fields = obj_covered_fields-IsCodec
object-IsCodec transaction_signature = obj_transaction_signature-IsCodec
object-IsCodec file_contract = obj_file_contract-IsCodec
object-IsCodec file_contract_revision = obj_file_contract_revision-IsCodec
object-IsCodec storage_proof = obj_storage_proof-IsCodec
object-IsCodec transaction = obj_transaction-IsCodec
object-IsCodec error = rpc_error-IsCodec
object-IsCodec form_contract_request = rpc_form_contract_request-IsCodec
object-IsCodec form_contract_additions = rpc_form_contract_additions-IsCodec
object-IsCodec form_contract_signatures = rpc_form_contract_signatures-IsCodec
object-IsCodec renew_and_clear_contract_request = rpc_renew_and_clear_contract_request-IsCodec
object-IsCodec renew_and_clear_contract_signatures = rpc_renew_and_clear_contract_signatures-IsCodec
object-IsCodec lock_request = rpc_lock_request-IsCodec
object-IsCodec lock_response = rpc_lock_response-IsCodec
object-IsCodec read_request = rpc_read_request-IsCodec
object-IsCodec read_response = rpc_read_response-IsCodec
object-IsCodec sector_roots_request = rpc_sector_roots_request-IsCodec
object-IsCodec sector_roots_response = rpc_sector_roots_response-IsCodec
object-IsCodec settings_response = rpc_settings_response-IsCodec
object-IsCodec write_request = rpc_write_request-IsCodec
object-IsCodec write_merkle_proof = rpc_write_merkle_proof-IsCodec
object-IsCodec write_response = rpc_write_response-IsCodec
object-IsCodec (response k) = rpc_response-IsCodec (object-IsCodec k)

-- For every type of protocol object and every object whose arrays have their lengths, whose
-- integers have their widths and whose lengths fit 64 bits, unmarshalBuffer on what marshalBuffer
-- appends, followed by any bytes, gives the object without error and leaves these bytes.
pub unmarshal_buffer-marshal_buffer :
    (k : Kind) (x : Body k) (rest : List ℕ)
    → IsBody k x
    → (object k).unmarshal_buffer (unread ((object k).marshal_buffer x ++ rest)) ≡ (x, unread rest)
unmarshal_buffer-marshal_buffer k x rest valid = ((object-IsCodec k).decodes x valid).reads rest

-- For every type of protocol object and every valid object, marshalledSize is the number of bytes
-- that marshalBuffer appends.
pub length-marshal_buffer :
    (k : Kind) (x : Body k)
    → IsBody k x
    → length ((object k).marshal_buffer x) ≡ (object k).marshalled_size x
length-marshal_buffer k x valid = ((object-IsCodec k).decodes x valid).size

-- For every type of protocol object and every valid object, unmarshalBuffer on a proper prefix of
-- what marshalBuffer appends leaves an error in the buffer.
pub unmarshal_buffer-take :
    (k : Kind) (x : Body k) (n : ℕ)
    → IsBody k x
    → n < (object k).marshalled_size x
    → Failed ((object k).unmarshal_buffer (unread (take n ((object k).marshal_buffer x))))
unmarshal_buffer-take k x n valid less =
    let d = (object-IsCodec k).decodes x valid in d.truncated n (omega (arith, d.size))

-- Two valid objects of one type that marshalBuffer encodes to the same bytes are equal.
pub marshal_buffer-injective :
    (k : Kind) (x y : Body k)
    → IsBody k x
    → IsBody k y
    → (object k).marshal_buffer x ≡ (object k).marshal_buffer y
    → x ≡ y
marshal_buffer-injective k x y valid valid' e =
    let read = λ (bs : List ℕ). ((object k).unmarshal_buffer (unread (bs ++ []))).0 in
    sym (ap (λ p. p.0) (unmarshal_buffer-marshal_buffer k x [] valid))
    ∙ ap read e
    ∙ ap (λ p. p.0) (unmarshal_buffer-marshal_buffer k y [] valid')
