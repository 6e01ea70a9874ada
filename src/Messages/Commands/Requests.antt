-- ===== src/Messages/Commands/Requests.antt =====
-- The requests of android_keymaster_messages.cpp, command by command, between the client and the
-- device.
use platform_system_keymaste.Common.{ℕ, ◌+◌, ◌<◌, ◌≤◌, ◌^◌, List, length}
use platform_system_keymaste.Defs.{KeymasterDefs}
use platform_system_keymaste.AuthSet.{Allocator, empty_set}
use platform_system_keymaste.AuthSet.Wire.Input.{loaded}
use platform_system_keymaste.Buffers.{clear_buffer}
use platform_system_keymaste.Messages.Parts.{Carries, IsExchanged, Carries-IsExchanged}
use platform_system_keymaste.Messages.Fields.{IsWhole, IsSent, IsQueued, refilled}
use platform_system_keymaste.Messages.Commands.{
  Command, generate_key, begin_operation, update_operation, finish_operation, abort_operation,
  import_key, export_key, get_version, add_rng_entropy, get_supported_algorithms,
  get_supported_block_modes, get_supported_padding_modes, get_supported_digests,
  get_supported_import_formats, get_supported_export_formats, get_key_characteristics, attest_key,
  upgrade_key, Request, request,
}
use platform_system_keymaste.Messages.Laws.{
  add_entropy_request-Carries, begin_operation_request-Carries, export_key_request-Carries,
  generate_key_request-Carries, import_key_request-Carries, key_request-Carries,
  supported_by_algorithm_and_purpose_request-Carries, supported_by_algorithm_request-Carries,
}
use platform_system_keymaste.Messages.Responses.Laws.{nothing_message-Carries}
use platform_system_keymaste.Messages.Running.Laws.{
  abort_operation_request-Carries, finish_operation_request-Carries, sent_since,
  update_operation_request-Carries,
}

module _ (d : KeymasterDefs) (al : Allocator) (version : ℕ) where
  -- The fields of a request are in range, and there is memory for them.
  abbrev pub CanRequest : (k : Command) → Request k → Type 0
  CanRequest generate_key m = IsSent d al m.key_description
  CanRequest begin_operation m =
      (m.purpose < 2 ^ 32) × IsWhole al m.key_blob × IsSent d al m.additional_params
  CanRequest update_operation m =
      (m.op_handle < 2 ^ 64) × IsQueued al m.input × IsSent d al m.additional_params
  CanRequest finish_operation m =
      (m.op_handle < 2 ^ 64)
      × IsQueued al m.signature
      × IsSent d al m.additional_params
      × IsQueued al m.input
  CanRequest abort_operation m = m.op_handle < 2 ^ 64
  CanRequest import_key m =
      IsSent d al m.key_description × (m.key_format < 2 ^ 32) × IsWhole al m.key_data
  CanRequest export_key m =
      IsSent d al m.additional_params × (m.key_format < 2 ^ 32) × IsWhole al m.key_blob
  CanRequest get_version m = Unit
  CanRequest add_rng_entropy m = IsQueued al m.random_data
  CanRequest get_supported_algorithms m = Unit
  CanRequest get_supported_block_modes m = (m.algorithm < 2 ^ 32) × (m.purpose < 2 ^ 32)
  CanRequest get_supported_padding_modes m = (m.algorithm < 2 ^ 32) × (m.purpose < 2 ^ 32)
  CanRequest get_supported_digests m = (m.algorithm < 2 ^ 32) × (m.purpose < 2 ^ 32)
  CanRequest get_supported_import_formats m = m.algorithm < 2 ^ 32
  CanRequest get_supported_export_formats m = m.algorithm < 2 ^ 32
  CanRequest get_key_characteristics m = IsWhole al m.key_blob × IsSent d al m.params
  CanRequest attest_key m = IsWhole al m.key_blob × IsSent d al m.params
  CanRequest upgrade_key m = IsWhole al m.key_blob × IsSent d al m.params

  -- The request as it arrives: its sets and buffers with the contents that were sent, and those that
  -- the version leaves out as in a new request.
  abbrev pub requested : (k : Command) → Request k → Request k
  requested generate_key m = record { key_description = loaded m.key_description }
  requested begin_operation m = record m { additional_params = loaded m.additional_params }
  requested update_operation m = record m {
    input = refilled m.input;
    additional_params = sent_since 0 version empty_set (loaded m.additional_params);
  }
  requested finish_operation m = record {
    op_handle = m.op_handle;
    input = sent_since 2 version clear_buffer (refilled m.input);
    signature = refilled m.signature;
    additional_params = sent_since 0 version empty_set (loaded m.additional_params);
  }
  requested abort_operation m = m
  requested import_key m = record m { key_description = loaded m.key_description }
  requested export_key m = record m { additional_params = loaded m.additional_params }
  requested get_version m = m
  requested add_rng_entropy m = record { random_data = refilled m.random_data }
  requested get_supported_algorithms m = m
  requested get_supported_block_modes m = m
  requested get_supported_padding_modes m = m
  requested get_supported_digests m = m
  requested get_supported_import_formats m = m
  requested get_supported_export_formats m = m
  requested get_key_characteristics m = record m { params = loaded m.params }
  requested attest_key m = record m { params = loaded m.params }
  requested upgrade_key m = record m { params = loaded m.params }

  request-Carries :
      (k : Command) (m : Request k)
      → version ≤ 3
      → CanRequest k m
      → Carries (request d al version k) m (requested k m)
  request-Carries generate_key m known h = generate_key_request-Carries d al m h
  request-Carries begin_operation m known h = begin_operation_request-Carries d al m h.0 h.1 h.2
  request-Carries update_operation m known h =
      update_operation_request-Carries d al version m h.0 h.1 h.2
  request-Carries finish_operation m known h =
      finish_operation_request-Carries d al version m known h.0 h.1 h.2 h.3
  request-Carries abort_operation m known h = abort_operation_request-Carries m h
  request-Carries import_key m known h = import_key_request-Carries d al m h.0 h.1 h.2
  request-Carries export_key m known h = export_key_request-Carries d al m h.0 h.1 h.2
  request-Carries get_version m known h = nothing_message-Carries m
  request-Carries add_rng_entropy m known h = add_entropy_request-Carries d al m h
  request-Carries get_supported_algorithms m known h = nothing_message-Carries m
  request-Carries get_supported_block_modes m known h =
      supported_by_algorithm_and_purpose_request-Carries m h.0 h.1
  request-Carries get_supported_padding_modes m known h =
      supported_by_algorithm_and_purpose_request-Carries m h.0 h.1
  request-Carries get_supported_digests m known h =
      supported_by_algorithm_and_purpose_request-Carries m h.0 h.1
  request-Carries get_supported_import_formats m known h =
      supported_by_algorithm_request-Carries m h
  request-Carries get_supported_export_formats m known h =
      supported_by_algorithm_request-Carries m h
  request-Carries get_key_characteristics m known h = key_request-Carries d al m h.0 h.1
  request-Carries attest_key m known h = key_request-Carries d al m h.0 h.1
  request-Carries upgrade_key m known h = key_request-Carries d al m h.0 h.1

-- Every request fills a buffer of its size exactly and is read back from what was written, whatever
-- follows it: in each version of the messages, for fields in range, memory for them, and buffers below
-- 2 ^ 64 and 2 ^ 63.
pub request-IsExchanged :
    (d : KeymasterDefs) (al : Allocator) (version : ℕ) (k : Command) (m : Request k) (base addr : ℕ)
    (rest : List ℕ)
    → version ≤ 3
    → CanRequest d al version k m
    → base + (request d al version k).size m < 2 ^ 64
    → addr + ((request d al version k).size m + length rest) < 2 ^ 63
    → IsExchanged (request d al version k) m (requested d al version k m) base addr rest
request-IsExchanged d al version k m base addr rest known h low below =
    Carries-IsExchanged (request d al version k) m (requested d al version k m) base addr rest
      (request-Carries d al version k m known h) low below
