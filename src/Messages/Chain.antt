-- ===== src/Messages/Chain.antt =====
-- AttestKeyResponse of android_keymaster_messages.h and android_keymaster_messages.cpp: a chain of
-- certificates.
pub mod Laws
use platform_system_keymaste.Common.{
  ℕ, ◌+◌, ◌*◌, ◌%◌, ◌^◌, Bool, true, false, List, [], ◌∷◌, Option, none, some, length,
  if◌then◌else◌, ltb, leb, ◌==◌, replicate,
}
use platform_system_keymaste.Defs.{KeymasterDefs}
use platform_system_keymaste.Serial.{
  Writer, Cursor, cursor, Read, ◌>>=◌, give, fail, wrote, append_uint32_to_buf,
  append_uint64_to_buf, append_size_and_data_to_buf, append_uint32_array_to_buf,
  copy_uint32_from_buf, copy_uint64_from_buf, copy_size_and_data_from_buf,
  copy_uint32_array_from_buf,
}
use platform_system_keymaste.AuthSet.{AuthorizationSet, Allocator, empty_set}
use platform_system_keymaste.AuthSet.Wire.{serialized_set_size, serialize_set}
use platform_system_keymaste.Buffers.{
  Buffer, clear_buffer, buffer_serialized_size, serialize_buffer,
}
use platform_system_keymaste.Messages.{
  Serializable, KeyBlob, key_blob_size, serialize_key_blob, deserialize_key_blob, read_set,
  read_buffer,
}

-- keymaster_cert_chain_t.
pub record CertificateChain : Type 0 where
  pub entries : List (List ℕ)

-- `kMaxChainEntryCount`.
abbrev pub max_chain_entry_count : ℕ
max_chain_entry_count = 10

-- `AllocateChain`: so many entries without data, none where it returns false. `new` throws where it
-- fails, so it does not return.
unfoldable pub allocate_chain : ℕ → Option (List (List ℕ))
allocate_chain entry_count =
    if ltb max_chain_entry_count entry_count then none else some (replicate entry_count [])

-- The loops over the entries.
unfoldable pub entries_size : List (List ℕ) → ℕ
entries_size [] = 0
entries_size (e ∷ es) = 4 + (length e + entries_size es)

unfoldable pub serialize_entries : List (List ℕ) → Writer → Writer
unfolding append_size_and_data_to_buf
serialize_entries [] w = w
serialize_entries (e ∷ es) w = serialize_entries es (append_size_and_data_to_buf e w)

unfoldable pub deserialize_entries : (ℕ → Bool) → List (List ℕ) → Read (List (List ℕ))
unfolding copy_size_and_data_from_buf
deserialize_entries alloc [] = give []
deserialize_entries alloc (slot ∷ slots) = copy_size_and_data_from_buf alloc >>= λ e.
    deserialize_entries alloc slots >>= λ es. give (e ∷ es)

unfoldable pub if_allocated : (ℕ → Bool) → Option (List (List ℕ)) → Read CertificateChain
unfolding deserialize_entries
if_allocated alloc none = fail
if_allocated alloc (some slots) =
    deserialize_entries alloc slots >>= λ es. give (record { entries = es })

unfoldable pub attest_key_response : Allocator → Serializable CertificateChain
unfolding entries_size serialize_entries allocate_chain if_allocated append_uint32_to_buf
    copy_uint32_from_buf
attest_key_response al = record {
  size = λ m. 4 + entries_size m.entries;
  serialize = λ m w. serialize_entries m.entries (append_uint32_to_buf (length m.entries) w);
  deserialize =
      copy_uint32_from_buf >>= λ count. if_allocated al.grants_bytes (allocate_chain count);
}
