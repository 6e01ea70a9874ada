-- ===== src/AuthSet/Wire/Image.antt =====
-- The bytes that `AuthorizationSet::Serialize` produces, and that it produces them.
use platform_system_keymaste.Common.{
  ℕ, ◌+◌, ◌≡◌, refl, Bool, List, [], ◌∷◌, ◌++◌, arith, length, length-append, if◌then◌else◌,
  append-nil,
}
use platform_system_keymaste.Defs.{
  TagType, km_invalid, km_enum, km_enum_rep, km_uint, km_uint_rep, km_ulong, km_ulong_rep, km_date,
  km_bool, km_bignum, km_bytes, km_unknown, KeymasterDefs, KeyParam, boolean, enumerated, integer,
  long_integer, date_time,
}
use platform_system_keymaste.Serial.{le_bytes, append_uint32_to_buf, append_size_and_data_to_buf}
use platform_system_keymaste.Serial.Laws.{
  Writes, Writes-then, Writes-append_uint32_to_buf, Writes-append_uint64_to_buf,
  Writes-append_size_and_data_to_buf, sized, length-sized, length-le_bytes,
}
use platform_system_keymaste.AuthSet.{AuthorizationSet}
use platform_system_keymaste.AuthSet.Wire.{
  param_size_of_type, append_bool, append_value, serialized_size, serialize_param, elements_size,
  serialized_set_size, serialize_elems, serialize_set,
}

abbrev pub value_image : TagType → KeyParam → List ℕ
value_image km_invalid p = []
value_image km_enum p = le_bytes 4 (enumerated p)
value_image km_enum_rep p = le_bytes 4 (enumerated p)
value_image km_uint p = le_bytes 4 (integer p)
value_image km_uint_rep p = le_bytes 4 (integer p)
value_image km_ulong p = le_bytes 8 (long_integer p)
value_image km_ulong_rep p = le_bytes 8 (long_integer p)
value_image km_date p = le_bytes 8 (date_time p)
value_image km_bool p = (if boolean p then 1 else 0) ∷ []
value_image km_bignum p = le_bytes 4 p.data_length ++ le_bytes 4 p.offset
value_image km_bytes p = le_bytes 4 p.data_length ++ le_bytes 4 p.offset
value_image km_unknown p = []

abbrev pub param_image : KeymasterDefs → KeyParam → List ℕ
param_image d p = le_bytes 4 p.tag ++ value_image (d.get_type p.tag) p

abbrev pub elems_image : KeymasterDefs → List KeyParam → List ℕ
elems_image d [] = []
elems_image d (p ∷ ps) = param_image d p ++ elems_image d ps

abbrev pub set_image : KeymasterDefs → AuthorizationSet → List ℕ
set_image d s =
    sized s.indirect_data
    ++ (le_bytes 4 (length s.elems)
        ++ (le_bytes 4 (elements_size d s.elems) ++ elems_image d s.elems))

Writes-nothing : Writes (λ w. w) []
Writes-nothing w h k = ground (arith, append-nil w.out)

Writes-append_bool : (b : Bool) → Writes (append_bool b) ((if b then 1 else 0) ∷ [])
unfolding append_bool
Writes-append_bool b w h k = ground arith

two_words :
    (v u : ℕ)
    → Writes (λ w. append_uint32_to_buf u (append_uint32_to_buf v w)) (le_bytes 4 v ++ le_bytes 4 u)
two_words v u =
    Writes-then (append_uint32_to_buf v) (append_uint32_to_buf u) (le_bytes 4 v) (le_bytes 4 u)
      (Writes-append_uint32_to_buf v) (Writes-append_uint32_to_buf u)

Writes-append_value : (t : TagType) (p : KeyParam) → Writes (append_value t p) (value_image t p)
unfolding append_value
Writes-append_value km_invalid p = Writes-nothing
Writes-append_value km_enum p = Writes-append_uint32_to_buf (enumerated p)
Writes-append_value km_enum_rep p = Writes-append_uint32_to_buf (enumerated p)
Writes-append_value km_uint p = Writes-append_uint32_to_buf (integer p)
Writes-append_value km_uint_rep p = Writes-append_uint32_to_buf (integer p)
Writes-append_value km_ulong p = Writes-append_uint64_to_buf (long_integer p)
Writes-append_value km_ulong_rep p = Writes-append_uint64_to_buf (long_integer p)
Writes-append_value km_date p = Writes-append_uint64_to_buf (date_time p)
Writes-append_value km_bool p = Writes-append_bool (boolean p)
Writes-append_value km_bignum p = two_words p.data_length p.offset
Writes-append_value km_bytes p = two_words p.data_length p.offset
Writes-append_value km_unknown p = Writes-nothing

length-two_words : (v u : ℕ) → length (le_bytes 4 v ++ le_bytes 4 u) ≡ 8
length-two_words v u =
    omega
      (arith, length-append (le_bytes 4 v) (le_bytes 4 u), length-le_bytes 4 v, length-le_bytes 4 u)

length-value_image :
    (t : TagType) (p : KeyParam) → 4 + length (value_image t p) ≡ param_size_of_type t
unfolding param_size_of_type
length-value_image km_invalid p = refl
length-value_image km_enum p = omega (arith, length-le_bytes 4 (enumerated p))
length-value_image km_enum_rep p = omega (arith, length-le_bytes 4 (enumerated p))
length-value_image km_uint p = omega (arith, length-le_bytes 4 (integer p))
length-value_image km_uint_rep p = omega (arith, length-le_bytes 4 (integer p))
length-value_image km_ulong p = omega (arith, length-le_bytes 8 (long_integer p))
length-value_image km_ulong_rep p = omega (arith, length-le_bytes 8 (long_integer p))
length-value_image km_date p = omega (arith, length-le_bytes 8 (date_time p))
length-value_image km_bool p = refl
length-value_image km_bignum p = omega (arith, length-two_words p.data_length p.offset)
length-value_image km_bytes p = omega (arith, length-two_words p.data_length p.offset)
length-value_image km_unknown p = refl

module _ (d : KeymasterDefs) where
  Writes-serialize_param : (p : KeyParam) → Writes (serialize_param d p) (param_image d p)
  unfolding serialize_param
  Writes-serialize_param p =
      Writes-then (append_uint32_to_buf p.tag) (append_value (d.get_type p.tag) p)
        (le_bytes 4 p.tag) (value_image (d.get_type p.tag) p) (Writes-append_uint32_to_buf p.tag)
        (Writes-append_value (d.get_type p.tag) p)

  Writes-serialize_elems : (ps : List KeyParam) → Writes (serialize_elems d ps) (elems_image d ps)
  unfolding serialize_elems
  Writes-serialize_elems [] w h k = Writes-nothing w h k
  Writes-serialize_elems (p ∷ ps) w h k =
      Writes-then (serialize_param d p) (serialize_elems d ps) (param_image d p) (elems_image d ps)
        (Writes-serialize_param p) (Writes-serialize_elems ps) w h k

  pub length-param_image : (p : KeyParam) → length (param_image d p) ≡ serialized_size d p
  unfolding serialized_size
  length-param_image p = omega (
    arith,
    length-append (le_bytes 4 p.tag) (value_image (d.get_type p.tag) p),
    length-le_bytes 4 p.tag,
    length-value_image (d.get_type p.tag) p,
  )

  pub length-elems_image : (ps : List KeyParam) → length (elems_image d ps) ≡ elements_size d ps
  unfolding elements_size
  length-elems_image [] = refl
  length-elems_image (p ∷ ps) = omega (
    arith,
    length-append (param_image d p) (elems_image d ps),
    length-param_image p,
    length-elems_image ps,
  )

  -- `SerializedSize` is the length of the image.
  pub length-set_image : (s : AuthorizationSet) → length (set_image d s) ≡ serialized_set_size d s
  unfolding serialized_set_size
  length-set_image s =
      let count : List ℕ = le_bytes 4 (length s.elems) in
      let size : List ℕ = le_bytes 4 (elements_size d s.elems) in
      omega (
        arith,
        length-append (sized s.indirect_data) (count ++ (size ++ elems_image d s.elems)),
        length-append count (size ++ elems_image d s.elems),
        length-append size (elems_image d s.elems),
        length-sized s.indirect_data,
        length-le_bytes 4 (length s.elems),
        length-le_bytes 4 (elements_size d s.elems),
        length-elems_image s.elems,
      )

  pub Writes-serialize_set : (s : AuthorizationSet) → Writes (serialize_set d s) (set_image d s)
  unfolding serialize_set
  Writes-serialize_set s =
      Writes-then (append_size_and_data_to_buf s.indirect_data) _ (sized s.indirect_data) _
        (Writes-append_size_and_data_to_buf s.indirect_data)
        (Writes-then (append_uint32_to_buf (length s.elems)) _ (le_bytes 4 (length s.elems)) _
          (Writes-append_uint32_to_buf (length s.elems))
          (Writes-then (append_uint32_to_buf (elements_size d s.elems)) (serialize_elems d s.elems)
            (le_bytes 4 (elements_size d s.elems)) (elems_image d s.elems)
            (Writes-append_uint32_to_buf (elements_size d s.elems))
            (Writes-serialize_elems s.elems)))
