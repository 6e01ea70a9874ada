-- ===== src/Tests/Messaging.antt =====
-- Witnesses for the messages of android_keymaster_messages.cpp.
use platform_system_keymaste.Common.{refl, [], ◌∷◌, arith}
use platform_system_keymaste.AuthSet.Wire.{serialized_set_size, elements_size}
use platform_system_keymaste.Buffers.{readable, buffer_serialized_size}
use platform_system_keymaste.Messages.{key_blob_size, KeymasterResponse, keymaster_response}
use platform_system_keymaste.Messages.Running.{FinishOperationRequest, finish_operation_request}
use platform_system_keymaste.Messages.Responses.{NewKey, new_key_response}
use platform_system_keymaste.Messages.Fields.{IsSent, IsQueued}
use platform_system_keymaste.Messages.Parts.{IsExchanged}
use platform_system_keymaste.Messages.Commands.{finish_operation, generate_key, request, payload}
use platform_system_keymaste.Messages.Commands.Requests.{requested, request-IsExchanged}
use platform_system_keymaste.Messages.Commands.Responses.{responded, response-IsExchanged}
use platform_system_keymaste.Tests.{test_defs, test_allocator, nonce_set, no_params}
use platform_system_keymaste.Tests.Buffering.{small_buffer, small_buffer-IsBuffer}
use platform_system_keymaste.Tests.Running.{test_blob}
use platform_system_keymaste.Tests.Wiring.{nonce_set-IsWritable, nonce_set-size}

small_buffer-IsQueued : IsQueued test_allocator small_buffer
unfolding readable
small_buffer-IsQueued = (small_buffer-IsBuffer, (omega arith, refl))

nonce_set-IsSent : IsSent test_defs test_allocator nonce_set
nonce_set-IsSent = record {
  writable = nonce_set-IsWritable;
  exact = nonce_set-size;
  elems_small = omega arith;
}

-- The end of an operation that checks a signature of one byte.
abbrev finish_request : FinishOperationRequest
finish_request = record {
  op_handle = 7;
  input = small_buffer;
  signature = small_buffer;
  additional_params = nonce_set;
}

request-IsExchanged_example :
    IsExchanged
      (request test_defs test_allocator 3 finish_operation)
      finish_request
      (requested test_defs test_allocator 3 finish_operation finish_request)
      1024
      4096
      (9 ∷ [])
unfolding finish_operation_request serialized_set_size elements_size buffer_serialized_size
request-IsExchanged_example =
    request-IsExchanged test_defs test_allocator 3 finish_operation finish_request 1024 4096
      (9 ∷ []) (omega arith)
      (omega arith, small_buffer-IsQueued, nonce_set-IsSent, small_buffer-IsQueued) (omega arith)
      (omega arith)

abbrev new_key : NewKey
new_key = record { key_blob = test_blob; enforced = nonce_set; unenforced = nonce_set }

abbrev generate_response : KeymasterResponse NewKey
generate_response = record { error = 0; payload = new_key }

abbrev fresh_key : NewKey
fresh_key = record {
  key_blob = record { key_material = []; key_material_size = 0 };
  enforced = no_params;
  unenforced = no_params;
}

response-IsExchanged_example :
    IsExchanged
      (keymaster_response (payload test_defs test_allocator 3 generate_key) fresh_key)
      generate_response
      (record { error = 0; payload = responded test_defs test_allocator 3 generate_key new_key })
      1024
      4096
      (9 ∷ [])
unfolding new_key_response keymaster_response serialized_set_size elements_size key_blob_size
response-IsExchanged_example =
    response-IsExchanged test_defs test_allocator 3 generate_key generate_response fresh_key 1024
      4096 (9 ∷ []) (omega arith) (omega arith)
      ((refl, (omega arith, refl)), nonce_set-IsSent, nonce_set-IsSent) (omega arith) (omega arith)
