-- ===== src/Messages/Fields.antt =====
-- The fields of the messages of android_keymaster_messages.cpp as parts: words, key blobs, buffers and
-- authorization sets.
use platform_system_keymaste.Common.{
  ℕ, ◌+◌, ◌*◌, ◌<◌, ◌^◌, ◌≡◌, refl, ap, sym, subst, ◌∙◌, Bool, true, false, List, arith, length,
  if◌then◌else◌,
}
use platform_system_keymaste.Defs.{KeymasterDefs}
use platform_system_keymaste.Serial.{
  Writer, cursor, Read, give, le_bytes, append_uint32_to_buf, append_uint64_to_buf,
  append_size_and_data_to_buf, copy_uint32_from_buf, copy_uint64_from_buf,
  copy_size_and_data_from_buf,
}
use platform_system_keymaste.Serial.Laws.{
  Writes-append_uint32_to_buf, Writes-append_uint64_to_buf, Writes-append_size_and_data_to_buf,
  Reads-copy_uint32_from_buf, Reads-copy_uint64_from_buf, Reads-copy_size_and_data_from_buf,
  length-le_bytes, sized, length-sized,
}
use platform_system_keymaste.AuthSet.{AuthorizationSet, Allocator, empty_set}
use platform_system_keymaste.AuthSet.Wire.{
  serialized_set_size, serialize_set, check_indirect_size, compute_indirect_data_size,
}
use platform_system_keymaste.AuthSet.Wire.Image.{set_image, Writes-serialize_set, length-set_image}
use platform_system_keymaste.AuthSet.Wire.Input.{IsWritable, loaded, deserialize_set_image}
use platform_system_keymaste.Buffers.{
  Buffer, readable, buffer_serialized_size, serialize_buffer, deserialize_buffer, filled_buffer,
}
use platform_system_keymaste.Buffers.Laws.{IsBuffer, length-readable}
use platform_system_keymaste.Messages.{
  KeyBlob, key_blob_size, serialize_key_blob, deserialize_key_blob, read_set, set_read, read_buffer,
  buffer_read,
}
use platform_system_keymaste.Messages.Parts.{Part, Part-give, Part-then, Part-same}

pub word-Part : (v : ℕ) → v < 2 ^ 32 → Part (append_uint32_to_buf v) 4 copy_uint32_from_buf v
word-Part v low = record {
  image = le_bytes 4 v;
  sized = length-le_bytes 4 v;
  writes = Writes-append_uint32_to_buf v;
  reads = λ addr rest k. Reads-copy_uint32_from_buf v low addr rest (omega arith);
}

pub long_word-Part : (v : ℕ) → v < 2 ^ 64 → Part (append_uint64_to_buf v) 8 copy_uint64_from_buf v
long_word-Part v low = record {
  image = le_bytes 8 v;
  sized = length-le_bytes 8 v;
  writes = Writes-append_uint64_to_buf v;
  reads = λ addr rest k. Reads-copy_uint64_from_buf v low addr rest (omega arith);
}

-- Bytes that can be sent with their size, and got memory for.
abbrev pub IsSendable : Allocator → List ℕ → Type 0
IsSendable al xs = (length xs < 2 ^ 32) × (al.grants_bytes (length xs) ≡ true)

pub bytes-Part :
    (al : Allocator) (xs : List ℕ)
    → IsSendable al xs
    → Part
        (append_size_and_data_to_buf xs)
        (4 + length xs)
        (copy_size_and_data_from_buf al.grants_bytes)
        xs
bytes-Part al xs (low, granted) = record {
  image = sized xs;
  sized = length-sized xs;
  writes = Writes-append_size_and_data_to_buf xs;
  reads = λ addr rest k.
      Reads-copy_size_and_data_from_buf al.grants_bytes xs low granted addr rest (omega arith);
}

-- A key blob whose size is that of its material.
abbrev pub IsWhole : Allocator → KeyBlob → Type 0
IsWhole al b = (b.key_material_size ≡ length b.key_material) × IsSendable al b.key_material

-- The blob of these bytes.
abbrev blob_of : List ℕ → KeyBlob
blob_of xs = record { key_material = xs; key_material_size = length xs }

blob_of-Part :
    (al : Allocator) (xs : List ℕ)
    → IsSendable al xs
    → Part
        (serialize_key_blob (blob_of xs))
        (key_blob_size (blob_of xs))
        (deserialize_key_blob al.grants_bytes)
        (blob_of xs)
unfolding serialize_key_blob key_blob_size deserialize_key_blob append_size_and_data_to_buf
blob_of-Part al xs sendable =
    Part-same
      (Part-then (λ ys. give (blob_of ys)) (bytes-Part al xs sendable) (Part-give (blob_of xs)))
      (omega arith) refl

pub blob-Part :
    (al : Allocator) (b : KeyBlob)
    → IsWhole al b
    → Part (serialize_key_blob b) (key_blob_size b) (deserialize_key_blob al.grants_bytes) b
blob-Part al b (whole, sendable) =
    subst
      (λ n.
        Part (serialize_key_blob (with_size n)) (key_blob_size (with_size n))
          (deserialize_key_blob al.grants_bytes) (with_size n))
      (sym whole) (blob_of-Part al b.key_material sendable)
  where
    with_size : ℕ → KeyBlob
    with_size n = record { key_material = b.key_material; key_material_size = n }

-- What a buffer holds after `Deserialize` of what it sent.
abbrev pub refilled : Buffer → Buffer
unfolding readable
refilled b = record {
  bytes = readable b;
  buffer_size = length (readable b);
  read_position = 0;
  write_position = length (readable b);
}

abbrev pub IsQueued : Allocator → Buffer → Type 0
IsQueued al b = IsBuffer b × IsSendable al (readable b)

pub buffer-Part :
    (al : Allocator) (b : Buffer)
    → IsQueued al b
    → Part (serialize_buffer b) (buffer_serialized_size b) (read_buffer al) (refilled b)
unfolding serialize_buffer buffer_serialized_size read_buffer deserialize_buffer filled_buffer
buffer-Part al b (fine, sendable) =
    let p = bytes-Part al (readable b) sendable in
    record {
      image = p.image;
      sized = p.sized ∙ ap (λ n. 4 + n) (length-readable b fine);
      writes = p.writes;
      reads = λ addr rest k. ap (λ r. buffer_read (filled_buffer r)) (p.reads addr rest k);
    }

-- A set that can be sent: plain parameters, no stale data, and memory for it.
pub record IsSent (d : KeymasterDefs) (al : Allocator) (s : AuthorizationSet) : Type 0 where
  pub writable : IsWritable d al s
  pub exact : length s.indirect_data ≡ compute_indirect_data_size d s.elems
  pub elems_small : length s.elems * d.param_size < 2 ^ 63

pub set-Part :
    (d : KeymasterDefs) (al : Allocator) (s : AuthorizationSet)
    → IsSent d al s
    → Part (serialize_set d s) (serialized_set_size d s) (read_set d al) (loaded s)
unfolding read_set check_indirect_size
set-Part d al s h = record {
  image = set_image d s;
  sized = length-set_image d s;
  writes = Writes-serialize_set d s;
  reads = λ addr rest k.
      let small = h.elems_small in
      let exact = h.exact in
      ap set_read {y = (true, loaded s, cursor (addr + length (set_image d s)) rest)}
        (deserialize_set_image d al s h.writable empty_set addr rest (omega arith) ∙ ground arith);
}

-- A field that the messages have since a version.
pub since-Part :
    {A : Type 0} {f : Writer → Writer} {n : ℕ} {m : Read A} {v : A} (b : Bool) (fresh : A)
    → Part f n m v
    → Part
        (λ w. if b then f w else w)
        (if b then n else 0)
        (if b then m else give fresh)
        (if b then v else fresh)
since-Part true fresh p = p
since-Part false fresh p = Part-give fresh
