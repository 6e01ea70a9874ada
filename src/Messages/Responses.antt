-- ===== src/Messages/Responses.antt =====
-- The payloads of the responses of android_keymaster_messages.h and android_keymaster_messages.cpp
-- that carry keys, characteristics, lists and versions.
pub mod Laws
use platform_system_keymaste.Common.{
  ℕ, ◌+◌, ◌*◌, ◌%◌, ◌^◌, Bool, true, false, List, [], ◌∷◌, Option, none, some, length,
  if◌then◌else◌, ltb, leb, ◌==◌, take, drop,
}
use platform_system_keymaste.Defs.{KeymasterDefs, KeymasterError}
use platform_system_keymaste.Serial.{
  Writer, Cursor, cursor, Read, ◌>>=◌, give, fail, wrote, append_uint32_to_buf,
  append_uint64_to_buf, append_size_and_data_to_buf, append_uint32_array_to_buf,
  copy_uint32_from_buf, copy_uint64_from_buf, copy_size_and_data_from_buf,
  copy_uint32_array_from_buf,
}
use platform_system_keymaste.AuthSet.{AuthorizationSet, Allocator, empty_set}
use platform_system_keymaste.AuthSet.Wire.{serialized_set_size, serialize_set}
use platform_system_keymaste.Buffers.{
  Buffer, clear_buffer, buffer_serialized_size, serialize_buffer,
}
use platform_system_keymaste.Messages.{
  Serializable, KeyBlob, key_blob_size, serialize_key_blob, deserialize_key_blob, read_set,
  read_buffer,
}

-- A new key.
pub record NewKey : Type 0 where
  pub key_blob : KeyBlob
  pub enforced : AuthorizationSet
  pub unenforced : AuthorizationSet

abbrev pub GenerateKeyResponse : Type 0
GenerateKeyResponse = NewKey

abbrev pub ImportKeyResponse : Type 0
ImportKeyResponse = NewKey

-- GetKeyCharacteristicsResponse.
pub record Characteristics : Type 0 where
  pub enforced : AuthorizationSet
  pub unenforced : AuthorizationSet

-- Bytes with their size.
pub record KeyBytes : Type 0 where
  pub key_data : KeyBlob

abbrev pub ExportKeyResponse : Type 0
ExportKeyResponse = KeyBytes

abbrev pub UpgradeKeyResponse : Type 0
UpgradeKeyResponse = KeyBytes

-- SupportedResponse; the array with its length.
pub record Results : Type 0 where
  pub results : List ℕ

-- GetVersionResponse.
pub record Version : Type 0 where
  pub major_ver : ℕ
  pub minor_ver : ℕ
  pub subminor_ver : ℕ

-- The messages without a field: SupportedAlgorithmsRequest, DeleteAllKeysRequest, GetVersionRequest,
-- AbortOperationResponse, AddEntropyResponse, DeleteKeyResponse and DeleteAllKeysResponse.
pub data Nothing : Type 0 where
  nothing : Nothing

unfoldable pub nothing_message : Serializable Nothing
nothing_message = record { size = λ m. 0; serialize = λ m w. w; deserialize = give nothing }

-- Three bytes, without a test of the pointer's wrap.
unfoldable pub get_version_response : Serializable Version
get_version_response = record {
  size = λ m. 3;
  serialize = λ m w.
      if leb (w.buf + 3) w.end
      then wrote w (m.major_ver % 256 ∷ m.minor_ver % 256 ∷ m.subminor_ver % 256 ∷ [])
      else record w { buf = w.buf + 3 };
  deserialize = λ c. elim c.bytes [
    | x ∷ y ∷ z ∷ rest ↦
        (some (record { major_ver = x; minor_ver = y; subminor_ver = z }), cursor (c.addr + 3) rest)
    | _ ↦ (none, c)
  ];
}

-- `SetResults`: the error and the results. `alloc` answers `dup_array`.
unfoldable pub set_results : (ℕ → Bool) → List ℕ → KeymasterError × Results
set_results alloc arr =
    if alloc (length arr)
    then (KeymasterError.ok, record { results = arr })
    else (KeymasterError.memory_allocation_failed, record { results = [] })

module _ (d : KeymasterDefs) (al : Allocator) where
  unfoldable pub supported_response : Serializable Results
  unfolding append_uint32_array_to_buf copy_uint32_array_from_buf
  supported_response = record {
    size = λ m. 4 + length m.results * 4;
    serialize = λ m w. append_uint32_array_to_buf m.results w;
    deserialize =
        copy_uint32_array_from_buf al.grants_bytes >>= λ vs. give (record { results = vs });
  }

  unfoldable pub new_key_response : Serializable NewKey
  unfolding key_blob_size serialize_key_blob deserialize_key_blob serialized_set_size serialize_set
      read_set
  new_key_response = record {
    size = λ m.
        key_blob_size m.key_blob
        + (serialized_set_size d m.enforced + serialized_set_size d m.unenforced);
    serialize = λ m w.
        serialize_set d m.unenforced (serialize_set d m.enforced (serialize_key_blob m.key_blob w));
    deserialize = deserialize_key_blob al.grants_bytes >>= λ b. read_set d al >>= λ s.
        read_set d al >>= λ t. give (record { key_blob = b; enforced = s; unenforced = t });
  }

  abbrev pub generate_key_response : Serializable GenerateKeyResponse
  generate_key_response = new_key_response

  abbrev pub import_key_response : Serializable ImportKeyResponse
  import_key_response = new_key_response

  unfoldable pub characteristics_response : Serializable Characteristics
  unfolding serialized_set_size serialize_set read_set
  characteristics_response = record {
    size = λ m. serialized_set_size d m.enforced + serialized_set_size d m.unenforced;
    serialize = λ m w. serialize_set d m.unenforced (serialize_set d m.enforced w);
    deserialize = read_set d al >>= λ s.
        read_set d al >>= λ t. give (record { enforced = s; unenforced = t });
  }

  unfoldable pub key_bytes_response : Serializable KeyBytes
  unfolding key_blob_size serialize_key_blob deserialize_key_blob
  key_bytes_response = record {
    size = λ m. key_blob_size m.key_data;
    serialize = λ m w. serialize_key_blob m.key_data w;
    deserialize = deserialize_key_blob al.grants_bytes >>= λ b. give (record { key_data = b });
  }

  abbrev pub export_key_response : Serializable ExportKeyResponse
  export_key_response = key_bytes_response

  abbrev pub upgrade_key_response : Serializable UpgradeKeyResponse
  upgrade_key_response = key_bytes_response
