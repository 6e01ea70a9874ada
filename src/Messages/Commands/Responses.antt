-- ===== src/Messages/Commands/Responses.antt =====
-- The responses of android_keymaster_messages.cpp, command by command, between the device and the
-- client.
use platform_system_keymaste.Common.{ℕ, ◌+◌, ◌<◌, ◌≤◌, ◌^◌, List, if◌then◌else◌, ◌==◌, length}
use platform_system_keymaste.Defs.{KeymasterDefs}
use platform_system_keymaste.AuthSet.{Allocator, empty_set}
use platform_system_keymaste.AuthSet.Wire.Input.{loaded}
use platform_system_keymaste.Messages.{KeymasterResponse, keymaster_response}
use platform_system_keymaste.Messages.Parts.{Carries, IsExchanged, Carries-IsExchanged}
use platform_system_keymaste.Messages.Fields.{IsWhole, IsSent, IsQueued, refilled}
use platform_system_keymaste.Messages.Commands.{
  Command, generate_key, begin_operation, update_operation, finish_operation, abort_operation,
  import_key, export_key, get_version, add_rng_entropy, get_supported_algorithms,
  get_supported_block_modes, get_supported_padding_modes, get_supported_digests,
  get_supported_import_formats, get_supported_export_formats, get_key_characteristics, attest_key,
  upgrade_key, Payload, payload,
}
use platform_system_keymaste.Messages.Responses.Laws.{
  AreBytes, AreSendable, characteristics_response-Carries, get_version_response-Carries,
  key_bytes_response-Carries, keymaster_response-Carries, new_key_response-Carries,
  nothing_message-Carries, supported_response-Carries,
}
use platform_system_keymaste.Messages.Running.Laws.{
  begin_operation_response-Carries, finish_operation_response-Carries, sent_since,
  update_operation_response-Carries,
}
use platform_system_keymaste.Messages.Chain.Laws.{IsChain, attest_key_response-Carries}

module _ (d : KeymasterDefs) (al : Allocator) (version : ℕ) where
  -- The fields of a payload are in range, and there is memory for them.
  abbrev pub CanRespond : (k : Command) → Payload k → Type 0
  CanRespond generate_key m =
      IsWhole al m.key_blob × IsSent d al m.enforced × IsSent d al m.unenforced
  CanRespond begin_operation m = (m.op_handle < 2 ^ 64) × IsSent d al m.output_params
  CanRespond update_operation m =
      (m.input_consumed < 2 ^ 32) × IsQueued al m.output × IsSent d al m.output_params
  CanRespond finish_operation m = IsQueued al m.output × IsSent d al m.output_params
  CanRespond abort_operation m = Unit
  CanRespond import_key m =
      IsWhole al m.key_blob × IsSent d al m.enforced × IsSent d al m.unenforced
  CanRespond export_key m = IsWhole al m.key_data
  CanRespond get_version m = AreBytes m
  CanRespond add_rng_entropy m = Unit
  CanRespond get_supported_algorithms m = AreSendable al m
  CanRespond get_supported_block_modes m = AreSendable al m
  CanRespond get_supported_padding_modes m = AreSendable al m
  CanRespond get_supported_digests m = AreSendable al m
  CanRespond get_supported_import_formats m = AreSendable al m
  CanRespond get_supported_export_formats m = AreSendable al m
  CanRespond get_key_characteristics m = IsSent d al m.enforced × IsSent d al m.unenforced
  CanRespond attest_key m = IsChain al m
  CanRespond upgrade_key m = IsWhole al m.key_data

  -- The payload as it arrives.
  abbrev pub responded : (k : Command) → Payload k → Payload k
  responded generate_key m = record m {
    enforced = loaded m.enforced;
    unenforced = loaded m.unenforced;
  }
  responded begin_operation m = record m {
    output_params = sent_since 0 version empty_set (loaded m.output_params);
  }
  responded update_operation m = record {
    output = refilled m.output;
    input_consumed = sent_since 0 version 0 m.input_consumed;
    output_params = sent_since 1 version empty_set (loaded m.output_params);
  }
  responded finish_operation m = record {
    output = refilled m.output;
    output_params = sent_since 1 version empty_set (loaded m.output_params);
  }
  responded abort_operation m = m
  responded import_key m = record m {
    enforced = loaded m.enforced;
    unenforced = loaded m.unenforced;
  }
  responded export_key m = m
  responded get_version m = m
  responded add_rng_entropy m = m
  responded get_supported_algorithms m = m
  responded get_supported_block_modes m = m
  responded get_supported_padding_modes m = m
  responded get_supported_digests m = m
  responded get_supported_import_formats m = m
  responded get_supported_export_formats m = m
  responded get_key_characteristics m = record {
    enforced = loaded m.enforced;
    unenforced = loaded m.unenforced;
  }
  responded attest_key m = m
  responded upgrade_key m = m

  payload-Carries :
      (k : Command) (m : Payload k)
      → version ≤ 3
      → CanRespond k m
      → Carries (payload d al version k) m (responded k m)
  payload-Carries generate_key m known h = new_key_response-Carries d al m h.0 h.1 h.2
  payload-Carries begin_operation m known h =
      begin_operation_response-Carries d al version m h.0 h.1
  payload-Carries update_operation m known h =
      update_operation_response-Carries d al version m known h.0 h.1 h.2
  payload-Carries finish_operation m known h =
      finish_operation_response-Carries d al version m h.0 h.1
  payload-Carries abort_operation m known h = nothing_message-Carries m
  payload-Carries import_key m known h = new_key_response-Carries d al m h.0 h.1 h.2
  payload-Carries export_key m known h = key_bytes_response-Carries d al m h
  payload-Carries get_version m known h = get_version_response-Carries m h
  payload-Carries add_rng_entropy m known h = nothing_message-Carries m
  payload-Carries get_supported_algorithms m known h = supported_response-Carries d al m h
  payload-Carries get_supported_block_modes m known h = supported_response-Carries d al m h
  payload-Carries get_supported_padding_modes m known h = supported_response-Carries d al m h
  payload-Carries get_supported_digests m known h = supported_response-Carries d al m h
  payload-Carries get_supported_import_formats m known h = supported_response-Carries d al m h
  payload-Carries get_supported_export_formats m known h = supported_response-Carries d al m h
  payload-Carries get_key_characteristics m known h =
      characteristics_response-Carries d al m h.0 h.1
  payload-Carries attest_key m known h = attest_key_response-Carries al m h
  payload-Carries upgrade_key m known h = key_bytes_response-Carries d al m h

-- Every response, likewise, with its error; one with another error than KM_ERROR_OK is its error
-- only, and leaves the payload of a new response.
pub response-IsExchanged :
    (d : KeymasterDefs) (al : Allocator) (version : ℕ) (k : Command)
    (r : KeymasterResponse (Payload k)) (fresh : Payload k) (base addr : ℕ) (rest : List ℕ)
    → version ≤ 3
    → r.error < 2 ^ 32
    → CanRespond d al version k r.payload
    → base + (keymaster_response (payload d al version k) fresh).size r < 2 ^ 64
    → addr + ((keymaster_response (payload d al version k) fresh).size r + length rest) < 2 ^ 63
    → IsExchanged
        (keymaster_response (payload d al version k) fresh)
        r
        (record {
          error = r.error;
          payload = if r.error == 0 then responded d al version k r.payload else fresh;
        })
        base
        addr
        rest
response-IsExchanged d al version k r fresh base addr rest known small h low below =
    Carries-IsExchanged (keymaster_response (payload d al version k) fresh) r _ base addr rest
      (keymaster_response-Carries (payload d al version k) fresh
        (responded d al version k r.payload) r small
        (payload-Carries d al version k r.payload known h))
      low below
