-- ===== src/Messages/Commands.antt =====
-- AndroidKeymasterCommand of android_keymaster_messages.h: the request and the response of every
-- command.
pub mod Requests
pub mod Responses
use platform_system_keymaste.Common.{
  ℕ, ◌+◌, ◌<◌, ◌≤◌, ◌^◌, List, if◌then◌else◌, ◌==◌, length, arith,
}
use platform_system_keymaste.Defs.{KeymasterDefs}
use platform_system_keymaste.AuthSet.{AuthorizationSet, Allocator, empty_set}
use platform_system_keymaste.AuthSet.Wire.Input.{loaded}
use platform_system_keymaste.Buffers.{clear_buffer}
use platform_system_keymaste.Messages.{Serializable, KeyBlob, KeymasterResponse, keymaster_response}
use platform_system_keymaste.Messages.Parts.{Carries, IsExchanged, Carries-IsExchanged}
use platform_system_keymaste.Messages.Fields.{IsWhole, IsSent, IsQueued, refilled}
use platform_system_keymaste.Messages.Requests.{
  GenerateKeyRequest, GetKeyCharacteristicsRequest, AttestKeyRequest, UpgradeKeyRequest,
  get_key_characteristics_request, attest_key_request, upgrade_key_request, ImportKeyRequest,
  ExportKeyRequest, AddEntropyRequest, SupportedByAlgorithmRequest,
  SupportedByAlgorithmAndPurposeRequest, supported_by_algorithm_request,
  supported_by_algorithm_and_purpose_request, generate_key_request, key_request, import_key_request,
  export_key_request, add_entropy_request,
}
use platform_system_keymaste.Messages.Responses.{
  GenerateKeyResponse, ImportKeyResponse, ExportKeyResponse, UpgradeKeyResponse,
  generate_key_response, import_key_response, export_key_response, upgrade_key_response,
  Characteristics, KeyBytes, Results, Version, Nothing, nothing_message, get_version_response,
  supported_response, new_key_response, characteristics_response, key_bytes_response,
}
use platform_system_keymaste.Messages.Running.{
  BeginOperationRequest, BeginOperationResponse, UpdateOperationRequest, UpdateOperationResponse,
  FinishOperationRequest, FinishOperationResponse, AbortOperationRequest, abort_operation_request,
  begin_operation_request, begin_operation_response, update_operation_request,
  update_operation_response, finish_operation_request, finish_operation_response,
}
use platform_system_keymaste.Messages.Chain.{CertificateChain, attest_key_response}

pub data Command : Type 0 where
  generate_key begin_operation update_operation finish_operation abort_operation : Command
  import_key export_key get_version add_rng_entropy get_supported_algorithms : Command
  get_supported_block_modes get_supported_padding_modes get_supported_digests : Command
  get_supported_import_formats get_supported_export_formats get_key_characteristics : Command
  attest_key upgrade_key : Command

abbrev pub Request : Command → Type 0
Request generate_key = GenerateKeyRequest
Request begin_operation = BeginOperationRequest
Request update_operation = UpdateOperationRequest
Request finish_operation = FinishOperationRequest
Request abort_operation = AbortOperationRequest
Request import_key = ImportKeyRequest
Request export_key = ExportKeyRequest
Request get_version = Nothing
Request add_rng_entropy = AddEntropyRequest
Request get_supported_algorithms = Nothing
Request get_supported_block_modes = SupportedByAlgorithmAndPurposeRequest
Request get_supported_padding_modes = SupportedByAlgorithmAndPurposeRequest
Request get_supported_digests = SupportedByAlgorithmAndPurposeRequest
Request get_supported_import_formats = SupportedByAlgorithmRequest
Request get_supported_export_formats = SupportedByAlgorithmRequest
Request get_key_characteristics = GetKeyCharacteristicsRequest
Request attest_key = AttestKeyRequest
Request upgrade_key = UpgradeKeyRequest

-- What a response carries behind its error.
abbrev pub Payload : Command → Type 0
Payload generate_key = GenerateKeyResponse
Payload begin_operation = BeginOperationResponse
Payload update_operation = UpdateOperationResponse
Payload finish_operation = FinishOperationResponse
Payload abort_operation = Nothing
Payload import_key = ImportKeyResponse
Payload export_key = ExportKeyResponse
Payload get_version = Version
Payload add_rng_entropy = Nothing
Payload get_supported_algorithms = Results
Payload get_supported_block_modes = Results
Payload get_supported_padding_modes = Results
Payload get_supported_digests = Results
Payload get_supported_import_formats = Results
Payload get_supported_export_formats = Results
Payload get_key_characteristics = Characteristics
Payload attest_key = CertificateChain
Payload upgrade_key = UpgradeKeyResponse

module _ (d : KeymasterDefs) (al : Allocator) (version : ℕ) where
  abbrev pub request : (k : Command) → Serializable (Request k)
  request generate_key = generate_key_request d al
  request begin_operation = begin_operation_request d al
  request update_operation = update_operation_request d al version
  request finish_operation = finish_operation_request d al version
  request abort_operation = abort_operation_request
  request import_key = import_key_request d al
  request export_key = export_key_request d al
  request get_version = nothing_message
  request add_rng_entropy = add_entropy_request d al
  request get_supported_algorithms = nothing_message
  request get_supported_block_modes = supported_by_algorithm_and_purpose_request
  request get_supported_padding_modes = supported_by_algorithm_and_purpose_request
  request get_supported_digests = supported_by_algorithm_and_purpose_request
  request get_supported_import_formats = supported_by_algorithm_request
  request get_supported_export_formats = supported_by_algorithm_request
  request get_key_characteristics = get_key_characteristics_request d al
  request attest_key = attest_key_request d al
  request upgrade_key = upgrade_key_request d al

  abbrev pub payload : (k : Command) → Serializable (Payload k)
  payload generate_key = generate_key_response d al
  payload begin_operation = begin_operation_response d al version
  payload update_operation = update_operation_response d al version
  payload finish_operation = finish_operation_response d al version
  payload abort_operation = nothing_message
  payload import_key = import_key_response d al
  payload export_key = export_key_response d al
  payload get_version = get_version_response
  payload add_rng_entropy = nothing_message
  payload get_supported_algorithms = supported_response d al
  payload get_supported_block_modes = supported_response d al
  payload get_supported_padding_modes = supported_response d al
  payload get_supported_digests = supported_response d al
  payload get_supported_import_formats = supported_response d al
  payload get_supported_export_formats = supported_response d al
  payload get_key_characteristics = characteristics_response d al
  payload attest_key = attest_key_response al
  payload upgrade_key = upgrade_key_response d al
