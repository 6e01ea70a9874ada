-- ===== src/Messages/Running.antt =====
-- The messages of android_keymaster_messages.h and android_keymaster_messages.cpp about running
-- operations. Their fields depend on the version of the messages; a field that a version leaves out
-- keeps the value of a new message.
pub mod Laws
use platform_system_keymaste.Common.{
  ℕ, ◌+◌, ◌*◌, ◌%◌, ◌^◌, Bool, true, false, List, [], ◌∷◌, Option, none, some, length,
  if◌then◌else◌, ltb, leb, ◌==◌, take, drop,
}
use platform_system_keymaste.Defs.{KeymasterDefs}
use platform_system_keymaste.Serial.{
  Writer, Cursor, cursor, Read, ◌>>=◌, give, fail, wrote, append_uint32_to_buf,
  append_uint64_to_buf, append_size_and_data_to_buf, append_uint32_array_to_buf,
  copy_uint32_from_buf, copy_uint64_from_buf, copy_size_and_data_from_buf,
  copy_uint32_array_from_buf,
}
use platform_system_keymaste.AuthSet.{AuthorizationSet, Allocator, empty_set}
use platform_system_keymaste.AuthSet.Wire.{serialized_set_size, serialize_set}
use platform_system_keymaste.Buffers.{
  Buffer, clear_buffer, buffer_serialized_size, serialize_buffer,
}
use platform_system_keymaste.Messages.{
  Serializable, KeyBlob, key_blob_size, serialize_key_blob, deserialize_key_blob, read_set,
  read_buffer,
}

pub record BeginOperationRequest : Type 0 where
  pub purpose : ℕ
  pub key_blob : KeyBlob
  pub additional_params : AuthorizationSet

pub record BeginOperationResponse : Type 0 where
  pub op_handle : ℕ
  pub output_params : AuthorizationSet

pub record UpdateOperationRequest : Type 0 where
  pub op_handle : ℕ
  pub input : Buffer
  pub additional_params : AuthorizationSet

pub record UpdateOperationResponse : Type 0 where
  pub output : Buffer
  pub input_consumed : ℕ
  pub output_params : AuthorizationSet

pub record FinishOperationRequest : Type 0 where
  pub op_handle : ℕ
  pub input : Buffer
  pub signature : Buffer
  pub additional_params : AuthorizationSet

pub record FinishOperationResponse : Type 0 where
  pub output : Buffer
  pub output_params : AuthorizationSet

pub record AbortOperationRequest : Type 0 where
  pub op_handle : ℕ

unfoldable pub abort_operation_request : Serializable AbortOperationRequest
unfolding append_uint64_to_buf copy_uint64_from_buf
abort_operation_request = record {
  size = λ m. 8;
  serialize = λ m w. append_uint64_to_buf m.op_handle w;
  deserialize = copy_uint64_from_buf >>= λ h. give (record { op_handle = h });
}

-- `if (message_version > n)` before a write, a read and a size.
abbrev since : ℕ → ℕ → (Writer → Writer) → Writer → Writer
since n version f w = if ltb n version then f w else w

abbrev read_since {ℓ} : {A : Type ℓ} → ℕ → ℕ → A → Read A → Read A
read_since n version fresh m = if ltb n version then m else give fresh

abbrev size_since : ℕ → ℕ → ℕ → ℕ
size_since n version size = if ltb n version then size else 0

module _ (d : KeymasterDefs) (al : Allocator) where
  unfoldable pub begin_operation_request : Serializable BeginOperationRequest
  unfolding key_blob_size serialize_key_blob deserialize_key_blob serialized_set_size serialize_set
      read_set append_uint32_to_buf copy_uint32_from_buf
  begin_operation_request = record {
    size = λ m. 4 + (key_blob_size m.key_blob + serialized_set_size d m.additional_params);
    serialize = λ m w.
        serialize_set d m.additional_params
          (serialize_key_blob m.key_blob (append_uint32_to_buf m.purpose w));
    deserialize = copy_uint32_from_buf >>= λ purpose. deserialize_key_blob al.grants_bytes >>= λ b.
        read_set d al >>= λ s.
        give (record { purpose = purpose; key_blob = b; additional_params = s });
  }

  unfoldable pub begin_operation_response : ℕ → Serializable BeginOperationResponse
  unfolding serialized_set_size serialize_set read_set append_uint64_to_buf copy_uint64_from_buf
      empty_set
  begin_operation_response version = record {
    size = λ m. if version == 0 then 8 else 8 + serialized_set_size d m.output_params;
    serialize = λ m w.
        since 0 version (serialize_set d m.output_params) (append_uint64_to_buf m.op_handle w);
    deserialize = copy_uint64_from_buf >>= λ h.
        read_since 0 version empty_set (read_set d al) >>= λ s.
        give (record { op_handle = h; output_params = s });
  }

  unfoldable pub update_operation_request : ℕ → Serializable UpdateOperationRequest
  unfolding serialized_set_size serialize_set read_set append_uint64_to_buf copy_uint64_from_buf
      empty_set buffer_serialized_size serialize_buffer read_buffer
  update_operation_request version = record {
    size = λ m.
        if version == 0
        then 8 + buffer_serialized_size m.input
        else 8 + (buffer_serialized_size m.input + serialized_set_size d m.additional_params);
    serialize = λ m w.
        since 0 version (serialize_set d m.additional_params)
          (serialize_buffer m.input (append_uint64_to_buf m.op_handle w));
    deserialize = copy_uint64_from_buf >>= λ h. read_buffer al >>= λ b.
        read_since 0 version empty_set (read_set d al) >>= λ s.
        give (record { op_handle = h; input = b; additional_params = s });
  }

  -- The `switch` in the size falls through from a version to the fields of those before it; an
  -- unknown version has the size 0 where asserts are off.
  unfoldable pub update_operation_response : ℕ → Serializable UpdateOperationResponse
  unfolding serialized_set_size serialize_set read_set append_uint32_to_buf copy_uint32_from_buf
      empty_set buffer_serialized_size serialize_buffer read_buffer
  update_operation_response version = record {
    size = λ m.
        if ltb 3 version
        then 0
        else size_since 1 version (serialized_set_size d m.output_params)
          + (size_since 0 version 4 + buffer_serialized_size m.output);
    serialize = λ m w.
        since 1 version (serialize_set d m.output_params)
          (since 0 version (append_uint32_to_buf m.input_consumed) (serialize_buffer m.output w));
    deserialize = read_buffer al >>= λ b. read_since 0 version 0 copy_uint32_from_buf >>= λ n.
        read_since 1 version empty_set (read_set d al) >>= λ s.
        give (record { output = b; input_consumed = n; output_params = s });
  }

  unfoldable pub finish_operation_request : ℕ → Serializable FinishOperationRequest
  unfolding serialized_set_size serialize_set read_set append_uint64_to_buf copy_uint64_from_buf
      empty_set buffer_serialized_size serialize_buffer read_buffer clear_buffer
  finish_operation_request version = record {
    size = λ m.
        if ltb 3 version
        then 0
        else size_since 2 version (buffer_serialized_size m.input)
          + (size_since 0 version (serialized_set_size d m.additional_params)
              + (8 + buffer_serialized_size m.signature));
    serialize = λ m w. since 2 version (serialize_buffer m.input) (
        since 0 version (serialize_set d m.additional_params)
          (serialize_buffer m.signature (append_uint64_to_buf m.op_handle w)));
    deserialize = copy_uint64_from_buf >>= λ h. read_buffer al >>= λ signature.
        read_since 0 version empty_set (read_set d al) >>= λ s.
        read_since 2 version clear_buffer (read_buffer al) >>= λ input.
        give
          (record { op_handle = h; input = input; signature = signature; additional_params = s });
  }

  unfoldable pub finish_operation_response : ℕ → Serializable FinishOperationResponse
  unfolding serialized_set_size serialize_set read_set empty_set buffer_serialized_size
      serialize_buffer read_buffer
  finish_operation_response version = record {
    size = λ m.
        if ltb version 2
        then buffer_serialized_size m.output
        else buffer_serialized_size m.output + serialized_set_size d m.output_params;
    serialize =
        λ m w. since 1 version (serialize_set d m.output_params) (serialize_buffer m.output w);
    deserialize = read_buffer al >>= λ b. read_since 1 version empty_set (read_set d al) >>= λ s.
        give (record { output = b; output_params = s });
  }
