-- ===== src/Messages/Requests.antt =====
-- The requests of android_keymaster_messages.h and android_keymaster_messages.cpp that name or carry a key, and the
-- queries.
use platform_system_keymaste.Common.{ℕ, ◌+◌, ◌*◌}
use platform_system_keymaste.Defs.{KeymasterDefs}
use platform_system_keymaste.Serial.{◌>>=◌, give, append_uint32_to_buf, copy_uint32_from_buf}
use platform_system_keymaste.AuthSet.{AuthorizationSet, Allocator}
use platform_system_keymaste.AuthSet.Wire.{serialized_set_size, serialize_set}
use platform_system_keymaste.Buffers.{Buffer, buffer_serialized_size, serialize_buffer}
use platform_system_keymaste.Messages.{
  Serializable, KeyBlob, key_blob_size, serialize_key_blob, deserialize_key_blob, read_set,
  read_buffer,
}

pub record GenerateKeyRequest : Type 0 where
  pub key_description : AuthorizationSet

-- A key and parameters.
pub record KeyRequest : Type 0 where
  pub key_blob : KeyBlob
  pub params : AuthorizationSet

abbrev pub GetKeyCharacteristicsRequest : Type 0
GetKeyCharacteristicsRequest = KeyRequest

abbrev pub AttestKeyRequest : Type 0
AttestKeyRequest = KeyRequest

abbrev pub UpgradeKeyRequest : Type 0
UpgradeKeyRequest = KeyRequest

pub record ImportKeyRequest : Type 0 where
  pub key_description : AuthorizationSet
  pub key_format : ℕ
  pub key_data : KeyBlob

pub record ExportKeyRequest : Type 0 where
  pub additional_params : AuthorizationSet
  pub key_format : ℕ
  pub key_blob : KeyBlob

pub record DeleteKeyRequest : Type 0 where
  pub key_blob : KeyBlob

pub record AddEntropyRequest : Type 0 where
  pub random_data : Buffer

pub record SupportedByAlgorithmRequest : Type 0 where
  pub algorithm : ℕ

pub record SupportedByAlgorithmAndPurposeRequest : Type 0 where
  pub algorithm : ℕ
  pub purpose : ℕ

unfoldable pub supported_by_algorithm_request : Serializable SupportedByAlgorithmRequest
unfolding append_uint32_to_buf copy_uint32_from_buf
supported_by_algorithm_request = record {
  size = λ m. 4;
  serialize = λ m w. append_uint32_to_buf m.algorithm w;
  deserialize = copy_uint32_from_buf >>= λ algorithm. give (record { algorithm = algorithm });
}

unfoldable pub supported_by_algorithm_and_purpose_request :
    Serializable SupportedByAlgorithmAndPurposeRequest
unfolding append_uint32_to_buf copy_uint32_from_buf
supported_by_algorithm_and_purpose_request = record {
  size = λ m. 4 * 2;
  serialize = λ m w. append_uint32_to_buf m.purpose (append_uint32_to_buf m.algorithm w);
  deserialize = copy_uint32_from_buf >>= λ algorithm. copy_uint32_from_buf >>= λ purpose.
      give (record { algorithm = algorithm; purpose = purpose });
}

module _ (d : KeymasterDefs) (al : Allocator) where
  unfoldable pub generate_key_request : Serializable GenerateKeyRequest
  unfolding serialized_set_size serialize_set read_set
  generate_key_request = record {
    size = λ m. serialized_set_size d m.key_description;
    serialize = λ m w. serialize_set d m.key_description w;
    deserialize = read_set d al >>= λ s. give (record { key_description = s });
  }

  unfoldable pub key_request : Serializable KeyRequest
  unfolding key_blob_size serialize_key_blob deserialize_key_blob serialized_set_size serialize_set
      read_set
  key_request = record {
    size = λ m. key_blob_size m.key_blob + serialized_set_size d m.params;
    serialize = λ m w. serialize_set d m.params (serialize_key_blob m.key_blob w);
    deserialize = deserialize_key_blob al.grants_bytes >>= λ b.
        read_set d al >>= λ s. give (record { key_blob = b; params = s });
  }

  abbrev pub get_key_characteristics_request : Serializable GetKeyCharacteristicsRequest
  get_key_characteristics_request = key_request

  abbrev pub attest_key_request : Serializable AttestKeyRequest
  attest_key_request = key_request

  abbrev pub upgrade_key_request : Serializable UpgradeKeyRequest
  upgrade_key_request = key_request

  unfoldable pub import_key_request : Serializable ImportKeyRequest
  unfolding key_blob_size serialize_key_blob deserialize_key_blob serialized_set_size serialize_set
      read_set append_uint32_to_buf copy_uint32_from_buf
  import_key_request = record {
    size = λ m. serialized_set_size d m.key_description + (4 + (4 + m.key_data.key_material_size));
    serialize = λ m w.
        serialize_key_blob m.key_data
          (append_uint32_to_buf m.key_format (serialize_set d m.key_description w));
    deserialize = read_set d al >>= λ s. copy_uint32_from_buf >>= λ format.
        deserialize_key_blob al.grants_bytes >>= λ b.
        give (record { key_description = s; key_format = format; key_data = b });
  }

  unfoldable pub export_key_request : Serializable ExportKeyRequest
  unfolding key_blob_size serialize_key_blob deserialize_key_blob serialized_set_size serialize_set
      read_set append_uint32_to_buf copy_uint32_from_buf
  export_key_request = record {
    size = λ m. serialized_set_size d m.additional_params + (4 + key_blob_size m.key_blob);
    serialize = λ m w.
        serialize_key_blob m.key_blob
          (append_uint32_to_buf m.key_format (serialize_set d m.additional_params w));
    deserialize = read_set d al >>= λ s. copy_uint32_from_buf >>= λ format.
        deserialize_key_blob al.grants_bytes >>= λ b.
        give (record { additional_params = s; key_format = format; key_blob = b });
  }

  unfoldable pub delete_key_request : Serializable DeleteKeyRequest
  unfolding key_blob_size serialize_key_blob deserialize_key_blob
  delete_key_request = record {
    size = λ m. key_blob_size m.key_blob;
    serialize = λ m w. serialize_key_blob m.key_blob w;
    deserialize = deserialize_key_blob al.grants_bytes >>= λ b. give (record { key_blob = b });
  }

  unfoldable pub add_entropy_request : Serializable AddEntropyRequest
  unfolding buffer_serialized_size serialize_buffer read_buffer
  add_entropy_request = record {
    size = λ m. buffer_serialized_size m.random_data;
    serialize = λ m w. serialize_buffer m.random_data w;
    deserialize = read_buffer al >>= λ b. give (record { random_data = b });
  }
