-- ===== src/AuthSet/Lookup/Erase.antt =====
-- `erase` of an element that carries a blob.
use platform_system_keymaste.Common.{
  ℕ, zero, suc, ◌+◌, ◌<◌, ◌≡◌, true, false, List, [], ◌∷◌, ◌++◌, some, arith, length, get_elem?,
}
use platform_system_keymaste.Defs.{KeymasterDefs, KeyParam, is_blob_tag}
use platform_system_keymaste.Serial.{cursor}
use platform_system_keymaste.AuthSet.{AuthorizationSet, Allocator, malformed_data, set_invalid}
use platform_system_keymaste.AuthSet.Wire.{
  serialized_set_size, deserialize_set, compute_indirect_data_size,
}
use platform_system_keymaste.AuthSet.Wire.Input.{IsWritable, loaded}
use platform_system_keymaste.AuthSet.Wire.RoundTrip.{serialized, HasRoom, stale_data_refused}
use platform_system_keymaste.AuthSet.Lookup.{erase, remove_at}

compute-remove_at :
    (d : KeymasterDefs) (ps : List KeyParam) (i : ℕ) {p : KeyParam}
    → get_elem? ps i ≡ some p
    → is_blob_tag d p.tag ≡ true
    → compute_indirect_data_size d (remove_at i ps) + p.data_length
      ≡ compute_indirect_data_size d ps
unfolding compute_indirect_data_size
compute-remove_at d [] i at blob = cc
compute-remove_at d (q ∷ ps) zero at blob = ground arith
compute-remove_at d (q ∷ ps) (suc i) at blob = ground (arith, compute-remove_at d ps i at blob)

-- The set that `erase` leaves.
abbrev pub erased : AuthorizationSet → ℕ → AuthorizationSet
erased s i = (erase s i).1

erased_lem :
    (s : AuthorizationSet) (i : ℕ) {p : KeyParam}
    → get_elem? s.elems i ≡ some p
    → erased s i ≡ record s { elems = remove_at i s.elems }
unfolding erase
erased_lem s i at = ground (arith, in_range s.elems i at)
  where
    in_range : (ps : List KeyParam) (j : ℕ) {p : KeyParam} → get_elem? ps j ≡ some p → j < length ps
    in_range [] j h = cc
    in_range (q ∷ ps) zero h = omega arith
    in_range (q ∷ ps) (suc j) h = omega (arith, in_range ps j h)

-- The defect: `erase` of an element with a nonempty blob leaves the blob in the indirect data, so
-- that `Deserialize` refuses as malformed what `Serialize` then writes. For a set whose blobs
-- accounted for all of its indirect data, if what remains is otherwise writable.
pub deserialize-erase :
    (d : KeymasterDefs) (al : Allocator) (s t : AuthorizationSet) (i : ℕ) (p : KeyParam)
    (base addr : ℕ) (rest : List ℕ)
    → length s.indirect_data ≡ compute_indirect_data_size d s.elems
    → get_elem? s.elems i ≡ some p
    → is_blob_tag d p.tag ≡ true
    → 0 < p.data_length
    → IsWritable d al (erased s i)
    → HasRoom d (erased s i) base addr rest
    → deserialize_set d al t (cursor addr (serialized d base (erased s i) ++ rest)) ≡ (
      false,
      set_invalid malformed_data (loaded (erased s i)),
      cursor (addr + serialized_set_size d (erased s i)) rest,
    )
deserialize-erase d al s t i p base addr rest exact at blob some_bytes h room =
    stale_data_refused d al (erased s i) t base addr rest h room
      (rw (erased_lem s i at) (omega (arith, compute-remove_at d s.elems i at blob)))
