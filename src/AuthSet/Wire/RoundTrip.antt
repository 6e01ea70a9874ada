-- ===== src/AuthSet/Wire/RoundTrip.antt =====
-- Writing an authorization set and reading it back.
use platform_system_keymaste.Common.{
  ℕ, ◌+◌, ◌*◌, ◌<◌, ◌^◌, ◌≡◌, ◌≢◌, ap, ◌∙◌, true, false, List, ◌++◌, arith, length, length-append,
}
use platform_system_keymaste.Defs.{KeymasterDefs}
use platform_system_keymaste.Serial.{Writer, cursor}
use platform_system_keymaste.Serial.Laws.{empty_writer}
use platform_system_keymaste.AuthSet.{AuthorizationSet, Allocator, malformed_data, set_invalid}
use platform_system_keymaste.AuthSet.Wire.{
  serialize_set, serialized_set_size, deserialize_set, check_indirect_size,
  compute_indirect_data_size,
}
use platform_system_keymaste.AuthSet.Wire.Image.{set_image, Writes-serialize_set, length-set_image}
use platform_system_keymaste.AuthSet.Wire.Input.{IsWritable, loaded, deserialize_set_image}

-- A buffer of `SerializedSize()` bytes is filled exactly by `Serialize`: the pointer returned is its
-- end, and as many bytes have been written. For any set, at any address where the buffer ends below
-- 2 ^ 64.
pub serialize_set_fills :
    (d : KeymasterDefs) (s : AuthorizationSet) (base : ℕ)
    → base + serialized_set_size d s < 2 ^ 64
    → let w = serialize_set d s (empty_writer base (serialized_set_size d s)) in
      (w.buf ≡ base + serialized_set_size d s) × (length w.out ≡ serialized_set_size d s)
serialize_set_fills d s base low =
    let e = length-set_image d s in
    rw (Writes-serialize_set d s (empty_writer base (serialized_set_size d s)) (omega arith) low)
      (omega arith, e)

-- What `Serialize` writes into a buffer of `SerializedSize()` bytes.
abbrev pub serialized : KeymasterDefs → ℕ → AuthorizationSet → List ℕ
serialized d base s = (serialize_set d s (empty_writer base (serialized_set_size d s))).out

serialized-set_image :
    (d : KeymasterDefs) (base : ℕ) (s : AuthorizationSet)
    → base + serialized_set_size d s < 2 ^ 64
    → serialized d base s ≡ set_image d s
serialized-set_image d base s low =
    ap (λ (w : Writer). w.out)
      (Writes-serialize_set d s (empty_writer base (serialized_set_size d s))
        (omega (arith, length-set_image d s)) low)

-- Room below 2 ^ 64 for the output, for the input with what follows it, and for the elements.
abbrev pub HasRoom : KeymasterDefs → AuthorizationSet → ℕ → ℕ → List ℕ → Type 0
HasRoom d s base addr rest =
    (base + serialized_set_size d s < 2 ^ 64)
    × (addr + (serialized_set_size d s + length rest) + length s.elems * d.param_size < 2 ^ 64)

deserialize-serialize :
    (d : KeymasterDefs) (al : Allocator) (s t : AuthorizationSet) (base addr : ℕ) (rest : List ℕ)
    → IsWritable d al s
    → HasRoom d s base addr rest
    → deserialize_set d al t (cursor addr (serialized d base s ++ rest))
      ≡ check_indirect_size d al (true, loaded s, cursor (addr + serialized_set_size d s) rest)
deserialize-serialize d al s t base addr rest h (low, below) =
    let e = length-set_image d s in
    ap (λ xs. deserialize_set d al t (cursor addr (xs ++ rest))) (serialized-set_image d base s low)
    ∙ deserialize_set_image d al s h t addr rest (omega (arith, length-append (set_image d s) rest))
    ∙ ap (λ n. check_indirect_size d al (true, loaded s, cursor (addr + n) rest)) e

-- `Deserialize`, called on any set, gives back the elements and the indirect data that `Serialize`
-- wrote, is valid, and leaves the input that follows. For a set of plain parameters whose blobs
-- account for all of its indirect data, sizes of 32 bits, and memory for both arrays.
pub set_round_trip :
    (d : KeymasterDefs) (al : Allocator) (s t : AuthorizationSet) (base addr : ℕ) (rest : List ℕ)
    → IsWritable d al s
    → HasRoom d s base addr rest
    → length s.indirect_data ≡ compute_indirect_data_size d s.elems
    → deserialize_set d al t (cursor addr (serialized d base s ++ rest))
      ≡ (true, loaded s, cursor (addr + serialized_set_size d s) rest)
unfolding check_indirect_size
set_round_trip d al s t base addr rest h room exact =
    deserialize-serialize d al s t base addr rest h room ∙ ground arith

-- Where the blobs do not account for all of the indirect data, `Deserialize` refuses what
-- `Serialize` wrote: it returns false and the set is empty and marked malformed. Under the same
-- conditions otherwise.
pub stale_data_refused :
    (d : KeymasterDefs) (al : Allocator) (s t : AuthorizationSet) (base addr : ℕ) (rest : List ℕ)
    → IsWritable d al s
    → HasRoom d s base addr rest
    → length s.indirect_data ≢ compute_indirect_data_size d s.elems
    → deserialize_set d al t (cursor addr (serialized d base s ++ rest))
      ≡ (false, set_invalid malformed_data (loaded s), cursor (addr + serialized_set_size d s) rest)
unfolding check_indirect_size
stale_data_refused d al s t base addr rest h room stale =
    deserialize-serialize d al s t base addr rest h room ∙ ground arith
