-- ===== src/Tests/Wiring.antt =====
-- Witnesses for the serialized forms of serializable.h and authorization_set.cpp.
use platform_system_keymaste.Common.{
  ℕ, ◌+◌, ◌≡◌, ◌≢◌, refl, inl, true, false, [], ◌∷◌, ◌++◌, some, arith, length, leb,
}
use platform_system_keymaste.Defs.{SourceParam, Tag}
use platform_system_keymaste.Serial.{cursor, append_uint32_array_to_buf, copy_uint32_array_from_buf}
use platform_system_keymaste.Serial.Laws.{empty_writer, uint32_array_round_trip}
use platform_system_keymaste.Serial.Bounds.{IsContained, append_uint32_array_to_buf-IsContained}
use platform_system_keymaste.AuthSet.{
  AuthorizationSet, malformed_data, set_invalid, empty_set, push_back, out_of_bounds, Allocator,
}
use platform_system_keymaste.AuthSet.Wire.{
  serialized_set_size, serialize_set, deserialize_set, elements_size, compute_indirect_data_size,
}
use platform_system_keymaste.AuthSet.Wire.Input.{IsWritable, loaded}
use platform_system_keymaste.AuthSet.Wire.RoundTrip.{
  serialized, HasRoom, serialize_set_fills, set_round_trip, stale_data_refused,
}
use platform_system_keymaste.AuthSet.Wire.Malformed.{IsDeserialized, deserialize_set-IsDeserialized}
use platform_system_keymaste.AuthSet.Wire.Capacity.{push_back-deserialize_set}
use platform_system_keymaste.AuthSet.Wire.Bounds.{serialize_set-IsContained}
use platform_system_keymaste.AuthSet.Lookup.Erase.{erased, deserialize-erase}
use platform_system_keymaste.AuthSet.Lookup.{erase}
use platform_system_keymaste.Tests.{test_defs, test_tag, test_allocator, nonce_set}

uint32_array_round_trip_example :
    copy_uint32_array_from_buf
      (λ n. leb n 64)
      (cursor 4096
        ((append_uint32_array_to_buf (7 ∷ 70000 ∷ []) (empty_writer 1024 16)).out ++ (9 ∷ [])))
    ≡ (some (7 ∷ 70000 ∷ []), cursor 4108 (9 ∷ []))
uint32_array_round_trip_example =
    uint32_array_round_trip (λ n. leb n 64) (7 ∷ 70000 ∷ []) 1024 16 4096 (9 ∷ []) (omega arith)
      (omega arith, (omega arith, tt)) refl (omega arith) (omega arith) (omega arith)

empty_writer-IsContained : (room : ℕ) → IsContained 1024 (empty_writer 1024 room)
empty_writer-IsContained room = record { inside = omega arith; at = inl (omega arith) }

append_uint32_array_to_buf-IsContained_example :
    IsContained 1024 (append_uint32_array_to_buf (7 ∷ 70000 ∷ []) (empty_writer 1024 6))
append_uint32_array_to_buf-IsContained_example =
    append_uint32_array_to_buf-IsContained 1024 (empty_writer 1024 6) (7 ∷ 70000 ∷ [])
      (empty_writer-IsContained 6)

serialize_set_fills_example :
    ((serialize_set test_defs nonce_set
        (empty_writer 1024 (serialized_set_size test_defs nonce_set))).buf
      ≡ 1024 + serialized_set_size test_defs nonce_set)
    × (length (
          (serialize_set test_defs nonce_set
            (empty_writer 1024 (serialized_set_size test_defs nonce_set))).out)
        ≡ serialized_set_size test_defs nonce_set)
unfolding serialized_set_size
serialize_set_fills_example = serialize_set_fills test_defs nonce_set 1024 (omega arith)

pub nonce_set-IsWritable : IsWritable test_defs test_allocator nonce_set
unfolding elements_size
nonce_set-IsWritable = record {
  plain = (((refl, omega arith, omega arith), omega arith), tt);
  data_small = omega arith;
  count_small = omega arith;
  size_small = omega arith;
  data_granted = refl;
  elems_granted = refl;
}

nonce_set-HasRoom : HasRoom test_defs nonce_set 1024 4096 []
unfolding serialized_set_size
nonce_set-HasRoom = (omega arith, omega arith)

pub nonce_set-size :
    length nonce_set.indirect_data ≡ compute_indirect_data_size test_defs nonce_set.elems
unfolding compute_indirect_data_size
nonce_set-size = refl

set_round_trip_example :
    deserialize_set test_defs test_allocator empty_set
      (cursor 4096 (serialized test_defs 1024 nonce_set ++ []))
    ≡ (true, loaded nonce_set, cursor (4096 + serialized_set_size test_defs nonce_set) [])
set_round_trip_example =
    set_round_trip test_defs test_allocator nonce_set empty_set 1024 4096 [] nonce_set-IsWritable
      nonce_set-HasRoom nonce_set-size

-- A set with a byte that no blob accounts for.
abbrev stale_set : AuthorizationSet
stale_set = record nonce_set { indirect_data = 1 ∷ 2 ∷ 3 ∷ 4 ∷ [] }

stale_set-IsWritable : IsWritable test_defs test_allocator stale_set
unfolding elements_size
stale_set-IsWritable = record {
  plain = (((refl, omega arith, omega arith), omega arith), tt);
  data_small = omega arith;
  count_small = omega arith;
  size_small = omega arith;
  data_granted = refl;
  elems_granted = refl;
}

stale_set-HasRoom : HasRoom test_defs stale_set 1024 4096 []
unfolding serialized_set_size
stale_set-HasRoom = (omega arith, omega arith)

stale_set-size :
    length stale_set.indirect_data ≢ compute_indirect_data_size test_defs stale_set.elems
unfolding compute_indirect_data_size
stale_set-size same = omega arith

stale_data_refused_example :
    deserialize_set test_defs test_allocator empty_set
      (cursor 4096 (serialized test_defs 1024 stale_set ++ []))
    ≡ (
      false,
      set_invalid malformed_data (loaded stale_set),
      cursor (4096 + serialized_set_size test_defs stale_set) [],
    )
stale_data_refused_example =
    stale_data_refused test_defs test_allocator stale_set empty_set 1024 4096 []
      stale_set-IsWritable stale_set-HasRoom stale_set-size

deserialize_set-IsDeserialized_example :
    IsDeserialized test_defs
      (deserialize_set test_defs test_allocator empty_set (cursor 4096 (3 ∷ 0 ∷ 0 ∷ 0 ∷ 1 ∷ [])))
deserialize_set-IsDeserialized_example =
    deserialize_set-IsDeserialized test_defs test_allocator empty_set
      (cursor 4096 (3 ∷ 0 ∷ 0 ∷ 0 ∷ 1 ∷ []))

serialize_set-IsContained_example :
    IsContained 1024 (serialize_set test_defs nonce_set (empty_writer 1024 9))
serialize_set-IsContained_example =
    serialize_set-IsContained test_defs nonce_set 1024 (empty_writer 1024 9) (omega arith)
      (omega arith) (omega arith) (empty_writer-IsContained 9)

abbrev endless : Allocator
endless = record { grants_elems = λ n. true; grants_bytes = λ n. true }

endless-IsWritable : IsWritable test_defs endless nonce_set
unfolding elements_size
endless-IsWritable = record {
  plain = (((refl, omega arith, omega arith), omega arith), tt);
  data_small = omega arith;
  count_small = omega arith;
  size_small = omega arith;
  data_granted = refl;
  elems_granted = refl;
}

abbrev challenge : SourceParam
challenge = record { tag = test_tag Tag.attestation_challenge; word = 0; blob = 5 ∷ [] }

push_back-deserialize_set_example :
    push_back test_defs endless challenge (loaded nonce_set) ≡ out_of_bounds
push_back-deserialize_set_example =
    push_back-deserialize_set test_defs endless empty_set (loaded nonce_set)
      (cursor 4096 (serialized test_defs 1024 nonce_set ++ []))
      (cursor (4096 + serialized_set_size test_defs nonce_set) []) challenge
      (set_round_trip test_defs endless nonce_set empty_set 1024 4096 [] endless-IsWritable
        nonce_set-HasRoom nonce_set-size)
      (λ n. refl) (omega arith) (omega arith) refl (omega arith) (omega arith)

erased-IsWritable : IsWritable test_defs test_allocator (erased nonce_set 0)
unfolding erase elements_size
erased-IsWritable = record {
  plain = tt;
  data_small = omega arith;
  count_small = omega arith;
  size_small = omega arith;
  data_granted = refl;
  elems_granted = refl;
}

erased-HasRoom : HasRoom test_defs (erased nonce_set 0) 1024 4096 []
unfolding erase serialized_set_size
erased-HasRoom = (omega arith, omega arith)

deserialize-erase_example :
    deserialize_set test_defs test_allocator empty_set
      (cursor 4096 (serialized test_defs 1024 (erased nonce_set 0) ++ []))
    ≡ (
      false,
      set_invalid malformed_data (loaded (erased nonce_set 0)),
      cursor (4096 + serialized_set_size test_defs (erased nonce_set 0)) [],
    )
deserialize-erase_example =
    deserialize-erase test_defs test_allocator nonce_set empty_set 0
      (record { tag = test_tag Tag.nonce; word = 0; offset = 0; data_length = 3 }) 1024 4096 []
      nonce_set-size refl refl (omega arith) erased-IsWritable erased-HasRoom
