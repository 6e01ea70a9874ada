-- ===== src/AuthSet/Wire/Capacity.antt =====
-- `push_back` on a set that `Deserialize` has filled.
use platform_system_keymaste.Common.{
  ℕ, ◌≤◌, ◌<◌, ◌*◌, ◌%◌, ◌^◌, ◌≡◌, true, arith, length, if◌then◌else◌, ◌==◌, subst,
}
use platform_system_keymaste.Defs.{KeymasterDefs, SourceParam, is_blob_tag}
use platform_system_keymaste.Serial.{Cursor}
use platform_system_keymaste.AuthSet.{
  AuthorizationSet, Allocator, out_of_bounds, valid, push_back, starting_elems_capacity,
}
use platform_system_keymaste.AuthSet.Storage.{max_array}
use platform_system_keymaste.AuthSet.Wire.{deserialize_set}
use platform_system_keymaste.AuthSet.Wire.Malformed.{IsDeserialized, deserialize_set-IsDeserialized}

-- The defect: the capacity recorded for the indirect data is 0, and `capacity - size` wraps.
push_back_overflows :
    (d : KeymasterDefs) (al : Allocator) (s : AuthorizationSet) (e : SourceParam)
    → s.error ≡ valid
    → s.allocated ≡ length s.indirect_data
    → s.indirect_data_capacity ≡ 0
    → ((n : ℕ) → al.grants_elems n ≡ true)
    → 0 < length s.indirect_data
    → length s.indirect_data ≤ max_array
    → is_blob_tag d e.tag ≡ true
    → 0 < length e.blob
    → length e.blob ≤ max_array
    → push_back d al e s ≡ out_of_bounds
unfolding push_back
push_back_overflows d al s e fine exact none_recorded granted some_data small blob some_blob short =
    let count =
      if s.elems_capacity == 0 then starting_elems_capacity else s.elems_capacity * 2 % 2 ^ 64 in
    ground (arith, granted count)

-- After `Deserialize` has accepted a set with indirect data, `push_back` of one parameter with a
-- nonempty blob writes outside the array: the capacity of the indirect data is left at 0, so the
-- unsigned `capacity - size` wraps and no room is made. For sizes up to 2 ^ 61, and an allocator that
-- grants the elements' array.
pub push_back-deserialize_set :
    (d : KeymasterDefs) (al : Allocator) (t s : AuthorizationSet) (c rest : Cursor)
    (e : SourceParam)
    → deserialize_set d al t c ≡ (true, s, rest)
    → ((n : ℕ) → al.grants_elems n ≡ true)
    → 0 < length s.indirect_data
    → length s.indirect_data ≤ max_array
    → is_blob_tag d e.tag ≡ true
    → 0 < length e.blob
    → length e.blob ≤ max_array
    → push_back d al e s ≡ out_of_bounds
push_back-deserialize_set d al t s c rest e read granted some_data small blob some_blob short =
    let h = subst (IsDeserialized d) read (deserialize_set-IsDeserialized d al t c) in
    push_back_overflows d al s e h.0 h.4 h.5 granted some_data small blob some_blob short
