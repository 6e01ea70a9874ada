-- ===== src/AuthSet/Wire.antt =====
-- The serialized form of an authorization set: `serialize`, `deserialize`, `SerializedSize`,
-- `Serialize` and `Deserialize` of authorization_set.cpp.
pub mod Image
pub mod Input
pub mod RoundTrip
pub mod Malformed
pub mod Capacity
pub mod Bounds
use platform_system_keymaste.Common.{
  ℕ, zero, suc, ◌+◌, ◌*◌, ◌%◌, ◌^◌, Bool, true, false, List, [], ◌∷◌, ◌++◌, Option, none, some, ltb,
  leb, ◌==◌, length, take, drop, if◌then◌else◌, not, ◌||◌,
}
use platform_system_keymaste.Defs.{
  TagType, km_invalid, km_enum, km_enum_rep, km_uint, km_uint_rep, km_ulong, km_ulong_rep, km_date,
  km_bool, km_bignum, km_bytes, km_unknown, KeymasterDefs, KeyParam, is_blob_tag, boolean,
  enumerated, integer, long_integer, date_time,
}
use platform_system_keymaste.Serial.{
  pval_add, pval_add, Writer, append_uint32_to_buf, append_uint64_to_buf,
  append_size_and_data_to_buf, Cursor, cursor, Read, ◌>>=◌, give, fail, copy_uint32_from_buf,
  copy_uint64_from_buf, copy_size_and_data_from_buf,
}
use platform_system_keymaste.AuthSet.{
  AuthorizationSet, Allocator, Outcome, done, out_of_bounds, malformed_data, is_valid, free_data,
  set_invalid, reserve_elems,
}

-- `serialized_size(param)`.
unfoldable pub param_size_of_type : TagType → ℕ
param_size_of_type km_invalid = 4
param_size_of_type km_enum = 8
param_size_of_type km_enum_rep = 8
param_size_of_type km_uint = 8
param_size_of_type km_uint_rep = 8
param_size_of_type km_ulong = 12
param_size_of_type km_ulong_rep = 12
param_size_of_type km_date = 12
param_size_of_type km_bool = 5
param_size_of_type km_bignum = 12
param_size_of_type km_bytes = 12
param_size_of_type km_unknown = 4

-- `if (buf < end) *buf = ...; buf++;`: the pointer moves also where nothing is written, and wraps.
unfoldable pub append_bool : Bool → Writer → Writer
append_bool b w = record w {
  buf = pval_add w.buf 1;
  out = if ltb w.buf w.end then w.out ++ ((if b then 1 else 0) ∷ []) else w.out;
}

-- The `switch` of `serialize(param, ...)`, after the tag has been written.
unfoldable pub append_value : TagType → KeyParam → Writer → Writer
unfolding append_bool append_uint32_to_buf append_uint64_to_buf
append_value km_invalid p w = w
append_value km_enum p w = append_uint32_to_buf (enumerated p) w
append_value km_enum_rep p w = append_uint32_to_buf (enumerated p) w
append_value km_uint p w = append_uint32_to_buf (integer p) w
append_value km_uint_rep p w = append_uint32_to_buf (integer p) w
append_value km_ulong p w = append_uint64_to_buf (long_integer p) w
append_value km_ulong_rep p w = append_uint64_to_buf (long_integer p) w
append_value km_date p w = append_uint64_to_buf (date_time p) w
append_value km_bool p w = append_bool (boolean p) w
append_value km_bignum p w = append_uint32_to_buf p.offset (append_uint32_to_buf p.data_length w)
append_value km_bytes p w = append_uint32_to_buf p.offset (append_uint32_to_buf p.data_length w)
append_value km_unknown p w = w

-- A parameter that carries a scalar, and one that carries a blob.
abbrev pub scalar : ℕ → ℕ → KeyParam
scalar tag word = record { tag = tag; word = word; offset = 0; data_length = 0 }

abbrev pub blob : ℕ → ℕ → ℕ → KeyParam
blob tag offset data_length = record {
  tag = tag;
  word = 0;
  offset = offset;
  data_length = data_length;
}

unfoldable pub take_bool : ℕ → ℕ → List ℕ → Option KeyParam × Cursor
take_bool tag addr [] = (none, cursor addr [])
take_bool tag addr (b ∷ bs) = (some (scalar tag (if b == 0 then 0 else 1)), cursor (addr + 1) bs)

-- `if (*buf_ptr < end) ...`: one byte, any value but 0 for true.
unfoldable pub copy_bool : ℕ → Read KeyParam
unfolding take_bool
copy_bool tag c = take_bool tag c.addr c.bytes

-- The three checks on a blob's offset and length, `size` being that of the indirect data.
unfoldable pub check_blob : ℕ → ℕ → ℕ → ℕ → Read KeyParam
check_blob tag size data_length offset c =
    if ltb ((data_length + offset) % 2 ^ 64) data_length
      || ltb size offset
      || ltb size ((offset + data_length) % 2 ^ 64)
    then (none, c)
    else (some (blob tag offset data_length), c)

unfoldable pub copy_blob : ℕ → ℕ → Read KeyParam
unfolding copy_uint32_from_buf check_blob
copy_blob tag size =
    copy_uint32_from_buf >>= λ data_length. copy_uint32_from_buf >>= check_blob tag size data_length

unfoldable pub copy_word32 : ℕ → Read KeyParam
unfolding copy_uint32_from_buf
copy_word32 tag = copy_uint32_from_buf >>= λ v. give (scalar tag v)

unfoldable pub copy_word64 : ℕ → Read KeyParam
unfolding copy_uint64_from_buf
copy_word64 tag = copy_uint64_from_buf >>= λ v. give (scalar tag v)

-- The `switch` of `deserialize`, after the tag has been read.
unfoldable pub copy_value : ℕ → TagType → ℕ → Read KeyParam
unfolding copy_word32 copy_word64 copy_bool copy_blob
copy_value size km_invalid tag = fail
copy_value size km_enum tag = copy_word32 tag
copy_value size km_enum_rep tag = copy_word32 tag
copy_value size km_uint tag = copy_word32 tag
copy_value size km_uint_rep tag = copy_word32 tag
copy_value size km_ulong tag = copy_word64 tag
copy_value size km_ulong_rep tag = copy_word64 tag
copy_value size km_date tag = copy_word64 tag
copy_value size km_bool tag = copy_bool tag
copy_value size km_bignum tag = copy_blob tag size
copy_value size km_bytes tag = copy_blob tag size
copy_value size km_unknown tag = fail

module _ (d : KeymasterDefs) where
  unfoldable pub serialized_size : KeyParam → ℕ
  unfolding param_size_of_type
  serialized_size p = param_size_of_type (d.get_type p.tag)

  unfoldable pub serialize_param : KeyParam → Writer → Writer
  unfolding append_value append_uint32_to_buf
  serialize_param p w = append_value (d.get_type p.tag) p (append_uint32_to_buf p.tag w)

  -- `SerializedSizeOfElements`.
  unfoldable pub elements_size : List KeyParam → ℕ
  unfolding serialized_size
  elements_size [] = 0
  elements_size (p ∷ ps) = serialized_size p + elements_size ps

  unfoldable pub serialized_set_size : AuthorizationSet → ℕ
  unfolding elements_size
  serialized_set_size s = 4 + length s.indirect_data + 4 + 4 + elements_size s.elems

  unfoldable pub serialize_elems : List KeyParam → Writer → Writer
  unfolding serialize_param
  serialize_elems [] w = w
  serialize_elems (p ∷ ps) w = serialize_elems ps (serialize_param p w)

  -- `AuthorizationSet::Serialize`.
  unfoldable pub serialize_set : AuthorizationSet → Writer → Writer
  unfolding serialize_elems elements_size append_size_and_data_to_buf append_uint32_to_buf
  serialize_set s w = serialize_elems s.elems (
      append_uint32_to_buf (elements_size s.elems)
        (append_uint32_to_buf (length s.elems) (append_size_and_data_to_buf s.indirect_data w)))

  unfoldable pub deserialize_param : ℕ → Read KeyParam
  unfolding copy_uint32_from_buf copy_value
  deserialize_param size = copy_uint32_from_buf >>= λ tag. copy_value size (d.get_type tag) tag

  unfoldable pub deserialize_elems : ℕ → ℕ → Read (List KeyParam)
  unfolding deserialize_param
  deserialize_elems size zero = give []
  deserialize_elems size (suc n) =
      deserialize_param size >>= λ p. deserialize_elems size n >>= λ ps. give (p ∷ ps)

  -- `ComputeIndirectDataSize`.
  unfoldable pub compute_indirect_data_size : List KeyParam → ℕ
  compute_indirect_data_size [] = 0
  compute_indirect_data_size (p ∷ ps) =
      (if is_blob_tag d p.tag then p.data_length else 0) + compute_indirect_data_size ps

-- A reader that stops at `end - rest`: the bytes behind its own `end` come back untouched.
abbrev pub rejoin {ℓ} : {A : Type ℓ} → List ℕ → Option A × Cursor → Option A × Cursor
rejoin rest (r, c) = (r, cursor c.addr (c.bytes ++ rest))

unfoldable pub within {ℓ} : {A : Type ℓ} → ℕ → Read A → Read A
within n m c = rejoin (drop n c.bytes) (m (cursor c.addr (take n c.bytes)))

-- A method that reads: what it returns, the set, and the input left.
abbrev pub Loaded : Type 0
Loaded = Bool × AuthorizationSet × Cursor

unfoldable pub store_indirect : AuthorizationSet → Option (List ℕ) × Cursor → Loaded
unfolding set_invalid
store_indirect s (none, c) = (false, set_invalid malformed_data s, c)
store_indirect s (some xs, c) = (true, record s { indirect_data = xs; allocated = length xs }, c)

-- `DeserializeIndirectData`. The capacity is not set here.
unfoldable pub deserialize_indirect_data : Allocator → AuthorizationSet → Cursor → Loaded
unfolding store_indirect copy_size_and_data_from_buf
deserialize_indirect_data al s c = store_indirect s (copy_size_and_data_from_buf al.grants_bytes c)

unfoldable pub store_elems : AuthorizationSet → Option (List KeyParam) × Cursor → Loaded
unfolding set_invalid
store_elems s (none, c) = (false, set_invalid malformed_data s, c)
store_elems s (some ps, c) = (true, record s { elems = ps }, c)

-- The number of elements and the size of their image.
unfoldable pub copy_counts : Read (ℕ × ℕ)
unfolding copy_uint32_from_buf
copy_counts = copy_uint32_from_buf >>= λ count. copy_uint32_from_buf >>= λ size. give (count, size)

module _ (d : KeymasterDefs) (al : Allocator) where
  -- The loop of `DeserializeElementsData`, once `reserve_elems` has answered.
  unfoldable pub load_elems : ℕ → ℕ → Bool × AuthorizationSet → Cursor → Loaded
  unfolding store_elems deserialize_elems within
  load_elems count size (false, s) c = (false, s, c)
  load_elems count size (true, s) c =
      store_elems s (within size (deserialize_elems d (length s.indirect_data) count) c)

  -- `DeserializeElementsData` after the counts: their checks, and the rest.
  unfoldable pub check_counts : AuthorizationSet → Option (ℕ × ℕ) × Cursor → Loaded
  unfolding set_invalid load_elems reserve_elems
  check_counts s (none, c) = (false, set_invalid malformed_data s, c)
  check_counts s (some (count, size), c) =
      if ltb (length c.bytes) size
        || ltb size (count * 4)
        || ltb (pval_add c.addr (count * d.param_size)) c.addr
      then (false, set_invalid malformed_data s, c)
      else load_elems count size (reserve_elems al count s) c

  unfoldable pub deserialize_elements_data : AuthorizationSet → Cursor → Loaded
  unfolding check_counts copy_counts
  deserialize_elements_data s c = check_counts s (copy_counts c)

  -- The last check of `Deserialize`.
  unfoldable pub check_indirect_size : Loaded → Loaded
  unfolding compute_indirect_data_size set_invalid
  check_indirect_size (false, s, c) = (false, s, c)
  check_indirect_size (true, s, c) =
      if length s.indirect_data == compute_indirect_data_size d s.elems
      then (true, s, c)
      else (false, set_invalid malformed_data s, c)

  unfoldable pub then_elements : Loaded → Loaded
  unfolding deserialize_elements_data
  then_elements (false, s, c) = (false, s, c)
  then_elements (true, s, c) = deserialize_elements_data s c

  -- `AuthorizationSet::Deserialize`.
  unfoldable pub deserialize_set : AuthorizationSet → Cursor → Loaded
  unfolding free_data deserialize_indirect_data then_elements check_indirect_size
  deserialize_set s c =
      check_indirect_size (then_elements (deserialize_indirect_data al (free_data s) c))
