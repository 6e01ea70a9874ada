-- ===== src/Messages.antt =====
-- The interface Serializable of include/keymaster/serializable.h, and what the messages of
-- android_keymaster_messages.h and android_keymaster_messages.cpp share: key blobs, the error that
-- every response begins with, and the versions. The methods that read are given for a message as it
-- was constructed; a result `none` is `false`, and the message is then not used.
pub mod Requests
pub mod Responses
pub mod Running
pub mod Chain
pub mod Commands
pub mod Parts
pub mod Fields
pub mod Laws
use platform_system_keymaste.Common.{
  ℕ, zero, suc, ◌+◌, Bool, true, false, List, [], ◌∷◌, Option, none, some, length, if◌then◌else◌,
  ◌==◌,
}
use platform_system_keymaste.Defs.{KeymasterDefs, KeymasterError, is_ok}
use platform_system_keymaste.Serial.{
  Writer, Cursor, Read, ◌>>=◌, give, append_to_buf, append_uint32_to_buf, copy_uint32_from_buf,
  copy_size_and_data_from_buf,
}
use platform_system_keymaste.AuthSet.{AuthorizationSet, Allocator, empty_set}
use platform_system_keymaste.AuthSet.Wire.{
  Loaded, serialized_set_size, serialize_set, deserialize_set,
}
use platform_system_keymaste.Buffers.{Buffer, deserialize_buffer}
use platform_system_keymaste.Utils.{dup_buffer}

-- `Serializable`: SerializedSize, Serialize and Deserialize.
pub record Serializable (A : Type 0) : Type 0 where
  pub size : A → ℕ
  pub serialize : A → Writer → Writer
  pub deserialize : Read A

-- `MessageVersion`, with `none` for -1.
unfoldable pub message_version : ℕ → ℕ → Option ℕ
message_version major_ver minor_ver =
    if major_ver == 0
    then some 0
    else if major_ver == 1
    then (if minor_ver == 0 then some 1 else if minor_ver == 1 then some 2 else none)
    else if major_ver == 2
    then some 3
    else none

-- `MAX_MESSAGE_VERSION`.
abbrev pub max_message_version : ℕ
max_message_version = 3

-- keymaster_key_blob_t: the bytes behind the pointer, none behind a null pointer, and the size. The
-- code that sends a blob reads that many bytes; where there are fewer, it leaves the memory.
pub record KeyBlob : Type 0 where
  pub key_material : List ℕ
  pub key_material_size : ℕ

-- The bytes of a `dup_buffer`, none for its null pointer.
abbrev pub bytes_or_null : Option (List ℕ) → List ℕ
bytes_or_null none = []
bytes_or_null (some xs) = xs

unfoldable pub set_key_blob : (ℕ → Bool) → List ℕ → KeyBlob
unfolding dup_buffer
set_key_blob alloc key_material = record {
  key_material = bytes_or_null (dup_buffer alloc key_material);
  key_material_size = length key_material;
}

unfoldable pub key_blob_size : KeyBlob → ℕ
key_blob_size b = 4 + b.key_material_size

unfoldable pub serialize_key_blob : KeyBlob → Writer → Writer
unfolding append_uint32_to_buf append_to_buf
serialize_key_blob b w = append_to_buf (append_uint32_to_buf b.key_material_size w) b.key_material

unfoldable pub deserialize_key_blob : (ℕ → Bool) → Read KeyBlob
unfolding copy_size_and_data_from_buf
deserialize_key_blob alloc = copy_size_and_data_from_buf alloc >>= λ xs.
    give (record { key_material = xs; key_material_size = length xs })

-- A method that returns `bool` as a reader of the set that it fills.
abbrev pub set_read : Loaded → Option AuthorizationSet × Cursor
set_read (true, s, c) = (some s, c)
set_read (false, s, c) = (none, c)

-- AuthorizationSet as a Serializable; the set that is filled is a new one.
unfoldable pub read_set : KeymasterDefs → Allocator → Read AuthorizationSet
unfolding deserialize_set empty_set
read_set d al c = set_read (deserialize_set d al empty_set c)

-- Buffer as a Serializable; the buffer that is filled is a new one.
abbrev pub buffer_read : Bool × Buffer × Cursor → Option Buffer × Cursor
buffer_read (true, b, c) = (some b, c)
buffer_read (false, b, c) = (none, c)

unfoldable pub read_buffer : Allocator → Read Buffer
unfolding deserialize_buffer
read_buffer al c = buffer_read (deserialize_buffer al.grants_bytes c)

-- KeymasterResponse: a payload behind the error, which a response with an error leaves out. The
-- enumerator of an error is its number.
pub record KeymasterResponse (A : Type 0) : Type 0 where
  pub error : ℕ
  pub payload : A

-- The class's virtual methods `NonError...` are those of the payload, and `fresh` is the payload of a
-- new response. KM_ERROR_OK is 0.
module _ {A : Type 0} (c : Serializable A) (fresh : A) where
  unfoldable pub response_size : KeymasterResponse A → ℕ
  response_size r = if r.error == 0 then 4 + c.size r.payload else 4

  unfoldable pub serialize_response : KeymasterResponse A → Writer → Writer
  unfolding append_uint32_to_buf
  serialize_response r w =
      let sent = append_uint32_to_buf r.error w in
      if r.error == 0 then c.serialize r.payload sent else sent

  unfoldable pub deserialize_response : Read (KeymasterResponse A)
  unfolding copy_uint32_from_buf
  deserialize_response = copy_uint32_from_buf >>= λ error.
      if error == 0
      then (c.deserialize >>= λ payload. give (record { error = error; payload = payload }))
      else give (record { error = error; payload = fresh })

  unfoldable pub keymaster_response : Serializable (KeymasterResponse A)
  unfolding response_size serialize_response deserialize_response
  keymaster_response = record {
    size = response_size;
    serialize = serialize_response;
    deserialize = deserialize_response;
  }
