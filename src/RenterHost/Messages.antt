-- ===== src/RenterHost/Messages.antt =====
-- All the protocol objects of renterhost/encoding.go.
pub mod Codecs
use us.Prelude.{ℕ, List}
use us.RenterHost.Object.{ProtocolObject}
use us.RenterHost.Object.Keys.{
  IsSpecifier, obj_specifier, SiaPublicKey, IsSiaPublicKey, obj_sia_public_key, UnlockConditions,
  IsUnlockConditions, obj_unlock_conditions,
}
use us.RenterHost.Object.Currency.{IsCurrency, obj_currency}
use us.RenterHost.Object.Inputs.{
  SiacoinInput, IsSiacoinInput, obj_siacoin_input, SiafundInput, IsSiafundInput, obj_siafund_input,
}
use us.RenterHost.Object.Outputs.{
  SiacoinOutput, IsSiacoinOutput, obj_siacoin_output, SiafundOutput, IsSiafundOutput,
  obj_siafund_output,
}
use us.RenterHost.Object.CoveredFields.{CoveredFields, IsCoveredFields, obj_covered_fields}
use us.RenterHost.Object.Signatures.{
  TransactionSignature, IsTransactionSignature, obj_transaction_signature,
}
use us.RenterHost.Object.FileContract.{FileContract, IsFileContract, obj_file_contract}
use us.RenterHost.Object.FileContractRevision.{
  FileContractRevision, IsFileContractRevision, obj_file_contract_revision,
}
use us.RenterHost.Object.StorageProof.{StorageProof, IsStorageProof, obj_storage_proof}
use us.RenterHost.Object.Transaction.{Transaction, IsTransaction, obj_transaction}
use us.RenterHost.Rpc.Errors.{RpcError, IsRpcError, rpc_error}
use us.RenterHost.Rpc.FormContract.{
  RpcFormContractRequest, IsRpcFormContractRequest, rpc_form_contract_request,
  RpcFormContractAdditions, IsRpcFormContractAdditions, rpc_form_contract_additions,
  RpcFormContractSignatures, IsRpcFormContractSignatures, rpc_form_contract_signatures,
}
use us.RenterHost.Rpc.RenewAndClear.{
  RpcRenewAndClearContractRequest, IsRpcRenewAndClearContractRequest,
  rpc_renew_and_clear_contract_request, RpcRenewAndClearContractSignatures,
  IsRpcRenewAndClearContractSignatures, rpc_renew_and_clear_contract_signatures,
}
use us.RenterHost.Rpc.Lock.{
  RpcLockRequest, IsRpcLockRequest, rpc_lock_request, RpcLockResponse, IsRpcLockResponse,
  rpc_lock_response, RpcSettingsResponse, IsRpcSettingsResponse, rpc_settings_response,
}
use us.RenterHost.Rpc.Read.{RpcReadRequest, IsRpcReadRequest, rpc_read_request}
use us.RenterHost.Rpc.ReadResponse.{RpcReadResponse, IsRpcReadResponse, rpc_read_response}
use us.RenterHost.Rpc.SectorRoots.{
  RpcSectorRootsRequest, IsRpcSectorRootsRequest, rpc_sector_roots_request, RpcSectorRootsResponse,
  IsRpcSectorRootsResponse, rpc_sector_roots_response,
}
use us.RenterHost.Rpc.Write.{RpcWriteRequest, IsRpcWriteRequest, rpc_write_request}
use us.RenterHost.Rpc.WriteResponse.{
  RpcWriteMerkleProof, IsRpcWriteMerkleProof, rpc_write_merkle_proof, RpcWriteResponse,
  IsRpcWriteResponse, rpc_write_response,
}
use us.RenterHost.Rpc.Response.{RpcResponse, IsRpcResponse, rpc_response}

-- The types of objects; a response holds another object.
pub data Kind : Type 0 where
  specifier : Kind
  currency : Kind
  sia_public_key : Kind
  unlock_conditions : Kind
  siacoin_input : Kind
  siafund_input : Kind
  siacoin_output : Kind
  siafund_output : Kind
  covered_fields : Kind
  transaction_signature : Kind
  file_contract : Kind
  file_contract_revision : Kind
  storage_proof : Kind
  transaction : Kind
  error : Kind
  form_contract_request : Kind
  form_contract_additions : Kind
  form_contract_signatures : Kind
  renew_and_clear_contract_request : Kind
  renew_and_clear_contract_signatures : Kind
  lock_request : Kind
  lock_response : Kind
  read_request : Kind
  read_response : Kind
  sector_roots_request : Kind
  sector_roots_response : Kind
  settings_response : Kind
  write_request : Kind
  write_merkle_proof : Kind
  write_response : Kind
  response : Kind → Kind

abbrev pub Body : Kind → Type 0
Body specifier = List ℕ
Body currency = ℕ
Body sia_public_key = SiaPublicKey
Body unlock_conditions = UnlockConditions
Body siacoin_input = SiacoinInput
Body siafund_input = SiafundInput
Body siacoin_output = SiacoinOutput
Body siafund_output = SiafundOutput
Body covered_fields = CoveredFields
Body transaction_signature = TransactionSignature
Body file_contract = FileContract
Body file_contract_revision = FileContractRevision
Body storage_proof = StorageProof
Body transaction = Transaction
Body error = RpcError
Body form_contract_request = RpcFormContractRequest
Body form_contract_additions = RpcFormContractAdditions
Body form_contract_signatures = RpcFormContractSignatures
Body renew_and_clear_contract_request = RpcRenewAndClearContractRequest
Body renew_and_clear_contract_signatures = RpcRenewAndClearContractSignatures
Body lock_request = RpcLockRequest
Body lock_response = RpcLockResponse
Body read_request = RpcReadRequest
Body read_response = RpcReadResponse
Body sector_roots_request = RpcSectorRootsRequest
Body sector_roots_response = RpcSectorRootsResponse
Body settings_response = RpcSettingsResponse
Body write_request = RpcWriteRequest
Body write_merkle_proof = RpcWriteMerkleProof
Body write_response = RpcWriteResponse
Body (response k) = RpcResponse (Body k)

abbrev pub IsBody : (k : Kind) → Body k → Type 0
IsBody specifier = IsSpecifier
IsBody currency = IsCurrency
IsBody sia_public_key = IsSiaPublicKey
IsBody unlock_conditions = IsUnlockConditions
IsBody siacoin_input = IsSiacoinInput
IsBody siafund_input = IsSiafundInput
IsBody siacoin_output = IsSiacoinOutput
IsBody siafund_output = IsSiafundOutput
IsBody covered_fields = IsCoveredFields
IsBody transaction_signature = IsTransactionSignature
IsBody file_contract = IsFileContract
IsBody file_contract_revision = IsFileContractRevision
IsBody storage_proof = IsStorageProof
IsBody transaction = IsTransaction
IsBody error = IsRpcError
IsBody form_contract_request = IsRpcFormContractRequest
IsBody form_contract_additions = IsRpcFormContractAdditions
IsBody form_contract_signatures = IsRpcFormContractSignatures
IsBody renew_and_clear_contract_request = IsRpcRenewAndClearContractRequest
IsBody renew_and_clear_contract_signatures = IsRpcRenewAndClearContractSignatures
IsBody lock_request = IsRpcLockRequest
IsBody lock_response = IsRpcLockResponse
IsBody read_request = IsRpcReadRequest
IsBody read_response = IsRpcReadResponse
IsBody sector_roots_request = IsRpcSectorRootsRequest
IsBody sector_roots_response = IsRpcSectorRootsResponse
IsBody settings_response = IsRpcSettingsResponse
IsBody write_request = IsRpcWriteRequest
IsBody write_merkle_proof = IsRpcWriteMerkleProof
IsBody write_response = IsRpcWriteResponse
IsBody (response k) = IsRpcResponse (IsBody k)

abbrev pub object : (k : Kind) → ProtocolObject (Body k)
object specifier = obj_specifier
object currency = obj_currency
object sia_public_key = obj_sia_public_key
object unlock_conditions = obj_unlock_conditions
object siacoin_input = obj_siacoin_input
object siafund_input = obj_siafund_input
object siacoin_output = obj_siacoin_output
object siafund_output = obj_siafund_output
object covered_fields = obj_covered_fields
object transaction_signature = obj_transaction_signature
object file_contract = obj_file_contract
object file_contract_revision = obj_file_contract_revision
object storage_proof = obj_storage_proof
object transaction = obj_transaction
object error = rpc_error
object form_contract_request = rpc_form_contract_request
object form_contract_additions = rpc_form_contract_additions
object form_contract_signatures = rpc_form_contract_signatures
object renew_and_clear_contract_request = rpc_renew_and_clear_contract_request
object renew_and_clear_contract_signatures = rpc_renew_and_clear_contract_signatures
object lock_request = rpc_lock_request
object lock_response = rpc_lock_response
object read_request = rpc_read_request
object read_response = rpc_read_response
object sector_roots_request = rpc_sector_roots_request
object sector_roots_response = rpc_sector_roots_response
object settings_response = rpc_settings_response
object write_request = rpc_write_request
object write_merkle_proof = rpc_write_merkle_proof
object write_response = rpc_write_response
object (response k) = rpc_response (object k)
