-- ===== src/AuthSet/Wire/Input.antt =====
-- What `Deserialize` makes of the image of a set, step by step.
use platform_system_keymaste.Common.{
  ℕ, ◌+◌, ◌*◌, ◌≤◌, ◌<◌, ◌%◌, ◌^◌, ◌≡◌, refl, ap, sym, subst, ◌∙◌, true, List, [], ◌∷◌, ◌++◌, some,
  arith, length, length-append, take-append, drop-append, append_assoc, All, append-nil,
}
use platform_system_keymaste.Defs.{
  TagType, km_invalid, km_enum, km_enum_rep, km_uint, km_uint_rep, km_ulong, km_ulong_rep, km_date,
  km_bool, km_bignum, km_bytes, km_unknown, KeymasterDefs, KeyParam,
}
use platform_system_keymaste.Serial.{
  le_bytes, cursor, Read, ◌>>=◌, copy_uint32_from_buf, copy_uint64_from_buf,
}
use platform_system_keymaste.Serial.Laws.{
  Reads, Reads-bind, Reads-give, Reads-last, Reads-copy_uint32_from_buf, Reads-copy_uint64_from_buf,
  Reads-copy_size_and_data_from_buf, sized, length-le_bytes,
}
use platform_system_keymaste.AuthSet.{AuthorizationSet, Allocator, valid, free_data, reserve_elems}
use platform_system_keymaste.AuthSet.Wire.{
  scalar, copy_bool, check_blob, copy_blob, copy_word32, copy_word64, copy_value, deserialize_param,
  deserialize_elems, within, rejoin, store_indirect, store_elems, copy_counts, load_elems,
  check_counts, deserialize_elements_data, check_indirect_size, then_elements, deserialize_set,
  elements_size, serialized_size,
}
use platform_system_keymaste.AuthSet.Wire.Image.{
  value_image, param_image, elems_image, set_image, length-elems_image, length-param_image,
}

-- A parameter in the form that `deserialize` gives: the union member of its type in range and
-- nothing beside it, a blob inside `n` bytes of indirect data.
abbrev pub IsPlain : ℕ → TagType → KeyParam → Type 0
IsPlain n km_invalid p = ⊥
IsPlain n km_enum p = (p.word < 2 ^ 32) × (p.offset ≡ 0) × (p.data_length ≡ 0)
IsPlain n km_enum_rep p = (p.word < 2 ^ 32) × (p.offset ≡ 0) × (p.data_length ≡ 0)
IsPlain n km_uint p = (p.word < 2 ^ 32) × (p.offset ≡ 0) × (p.data_length ≡ 0)
IsPlain n km_uint_rep p = (p.word < 2 ^ 32) × (p.offset ≡ 0) × (p.data_length ≡ 0)
IsPlain n km_ulong p = (p.word < 2 ^ 64) × (p.offset ≡ 0) × (p.data_length ≡ 0)
IsPlain n km_ulong_rep p = (p.word < 2 ^ 64) × (p.offset ≡ 0) × (p.data_length ≡ 0)
IsPlain n km_date p = (p.word < 2 ^ 64) × (p.offset ≡ 0) × (p.data_length ≡ 0)
IsPlain n km_bool p = (p.word ≤ 1) × (p.offset ≡ 0) × (p.data_length ≡ 0)
IsPlain n km_bignum p = (p.word ≡ 0) × (p.offset + p.data_length ≤ n) × (n < 2 ^ 32)
IsPlain n km_bytes p = (p.word ≡ 0) × (p.offset + p.data_length ≤ n) × (n < 2 ^ 32)
IsPlain n km_unknown p = ⊥

Reads-copy_word32 :
    (p : KeyParam)
    → (p.word < 2 ^ 32) × (p.offset ≡ 0) × (p.data_length ≡ 0)
    → Reads (copy_word32 p.tag) (le_bytes 4 (p.word % 2 ^ 32)) p
unfolding copy_word32
Reads-copy_word32 p h =
    Reads-last copy_uint32_from_buf (scalar p.tag) (le_bytes 4 (p.word % 2 ^ 32)) (p.word % 2 ^ 32)
      p (Reads-copy_uint32_from_buf (p.word % 2 ^ 32) (omega arith)) (ground arith)

Reads-copy_word64 :
    (p : KeyParam)
    → (p.word < 2 ^ 64) × (p.offset ≡ 0) × (p.data_length ≡ 0)
    → Reads (copy_word64 p.tag) (le_bytes 8 (p.word % 2 ^ 64)) p
unfolding copy_word64
Reads-copy_word64 p h =
    Reads-last copy_uint64_from_buf (scalar p.tag) (le_bytes 8 (p.word % 2 ^ 64)) (p.word % 2 ^ 64)
      p (Reads-copy_uint64_from_buf (p.word % 2 ^ 64) (omega arith)) (ground arith)

Reads-copy_bool :
    (n : ℕ) (p : KeyParam) → IsPlain n km_bool p → Reads (copy_bool p.tag) (value_image km_bool p) p
unfolding copy_bool
Reads-copy_bool n p h addr rest k = ground arith

Reads-copy_blob :
    (n : ℕ) (p : KeyParam)
    → IsPlain n km_bytes p
    → Reads (copy_blob p.tag n) (value_image km_bytes p) p
unfolding copy_blob check_blob
Reads-copy_blob n p h =
    Reads-bind copy_uint32_from_buf _ (le_bytes 4 p.data_length) (le_bytes 4 p.offset) p.data_length
      p (Reads-copy_uint32_from_buf p.data_length (omega arith))
      (Reads-checked (le_bytes 4 p.offset) (Reads-copy_uint32_from_buf p.offset (omega arith)))
  where
    Reads-checked :
        (xs : List ℕ)
        → Reads copy_uint32_from_buf xs p.offset
        → Reads (copy_uint32_from_buf >>= check_blob p.tag n p.data_length) xs p
    Reads-checked xs r addr rest k = rw (r addr rest k) (ground arith)

Reads-copy_value :
    (n : ℕ) (t : TagType) (p : KeyParam)
    → IsPlain n t p
    → Reads (copy_value n t p.tag) (value_image t p) p
unfolding copy_value
Reads-copy_value n km_invalid p h = absurd h
Reads-copy_value n km_enum p h = Reads-copy_word32 p h
Reads-copy_value n km_enum_rep p h = Reads-copy_word32 p h
Reads-copy_value n km_uint p h = Reads-copy_word32 p h
Reads-copy_value n km_uint_rep p h = Reads-copy_word32 p h
Reads-copy_value n km_ulong p h = Reads-copy_word64 p h
Reads-copy_value n km_ulong_rep p h = Reads-copy_word64 p h
Reads-copy_value n km_date p h = Reads-copy_word64 p h
Reads-copy_value n km_bool p h = Reads-copy_bool n p h
Reads-copy_value n km_bignum p h = Reads-copy_blob n p h
Reads-copy_value n km_bytes p h = Reads-copy_blob n p h
Reads-copy_value n km_unknown p h = absurd h

module _ (d : KeymasterDefs) where
  -- Every parameter of a set is plain and its tag is 32 bits wide.
  abbrev pub ArePlain : ℕ → List KeyParam → Type 0
  ArePlain n = All (λ p. IsPlain n (d.get_type p.tag) p × (p.tag < 2 ^ 32))

  Reads-deserialize_param :
      (n : ℕ) (p : KeyParam)
      → IsPlain n (d.get_type p.tag) p × (p.tag < 2 ^ 32)
      → Reads (deserialize_param d n) (param_image d p) p
  unfolding deserialize_param
  Reads-deserialize_param n p (plain, small) =
      Reads-bind copy_uint32_from_buf _ (le_bytes 4 p.tag) (value_image (d.get_type p.tag) p) p.tag
        p (Reads-copy_uint32_from_buf p.tag small) (Reads-copy_value n (d.get_type p.tag) p plain)

  Reads-deserialize_elems :
      (n : ℕ) (ps : List KeyParam)
      → ArePlain n ps
      → Reads (deserialize_elems d n (length ps)) (elems_image d ps) ps
  unfolding deserialize_elems
  Reads-deserialize_elems n [] h = Reads-give []
  Reads-deserialize_elems n (p ∷ ps) (hp, hps) =
      Reads-bind (deserialize_param d n) _ (param_image d p) (elems_image d ps) p (p ∷ ps)
        (Reads-deserialize_param n p hp)
        (Reads-last (deserialize_elems d n (length ps)) (λ qs. p ∷ qs) (elems_image d ps) ps
          (p ∷ ps) (Reads-deserialize_elems n ps hps) refl)

  Reads-copy_counts :
      (count size : ℕ)
      → count < 2 ^ 32
      → size < 2 ^ 32
      → Reads copy_counts (le_bytes 4 count ++ le_bytes 4 size) (count, size)
  unfolding copy_counts
  Reads-copy_counts count size hc hs =
      Reads-bind copy_uint32_from_buf _ (le_bytes 4 count) (le_bytes 4 size) count (count, size)
        (Reads-copy_uint32_from_buf count hc)
        (Reads-last copy_uint32_from_buf (λ n. (count, n)) (le_bytes 4 size) size (count, size)
          (Reads-copy_uint32_from_buf size hs) refl)

-- The set that `Deserialize` leaves for the contents of `s`: exact capacities, but none recorded for
-- the indirect data.
abbrev pub loaded : AuthorizationSet → AuthorizationSet
loaded s = record {
  elems = s.elems;
  elems_capacity = length s.elems;
  indirect_data = s.indirect_data;
  indirect_data_capacity = 0;
  allocated = length s.indirect_data;
  error = valid;
}

-- A set that `Serialize` can represent, and memory that `Deserialize` can get for it.
pub record IsWritable (d : KeymasterDefs) (al : Allocator) (s : AuthorizationSet) : Type 0 where
  pub plain : ArePlain d (length s.indirect_data) s.elems
  pub data_small : length s.indirect_data < 2 ^ 32
  pub count_small : length s.elems < 2 ^ 32
  pub size_small : elements_size d s.elems < 2 ^ 32
  pub data_granted : al.grants_bytes (length s.indirect_data) ≡ true
  pub elems_granted : al.grants_elems (length s.elems) ≡ true

-- The input lies below 2 ^ 64, and so would the elements' array if it began there.
abbrev pub IsReadable : KeymasterDefs → AuthorizationSet → ℕ → List ℕ → Type 0
IsReadable d s addr rest =
    addr + length (set_image d s ++ rest) + length s.elems * d.param_size < 2 ^ 64

serialized_size-ge : (d : KeymasterDefs) (p : KeyParam) → 4 ≤ serialized_size d p
serialized_size-ge d p = omega (
  arith,
  length-param_image d p,
  length-append (le_bytes 4 p.tag) (value_image (d.get_type p.tag) p),
  length-le_bytes 4 p.tag,
)

elements_size-ge : (d : KeymasterDefs) (ps : List KeyParam) → length ps * 4 ≤ elements_size d ps
unfolding elements_size
elements_size-ge d [] = omega arith
elements_size-ge d (p ∷ ps) = omega (arith, elements_size-ge d ps, serialized_size-ge d p)

within-Reads :
    {A : Type 0} (m : Read A) (xs : List ℕ) (v : A) (addr : ℕ) (rest : List ℕ)
    → Reads m xs v
    → addr + length (xs ++ rest) < 2 ^ 64
    → within (length xs) m (cursor addr (xs ++ rest)) ≡ (some v, cursor (addr + length xs) rest)
unfolding within
within-Reads m xs v addr rest read k =
    rw (take-append xs rest, drop-append xs rest)
      (ap (rejoin rest) (
        subst (λ ys. m (cursor addr ys) ≡ (some v, cursor (addr + length xs) [])) (append-nil xs)
          (read addr [] (omega (arith, length-append xs rest, ap length (append-nil xs))))))

-- The counts and the elements of a set's image.
abbrev pub elems_part : KeymasterDefs → AuthorizationSet → List ℕ
elems_part d s =
    le_bytes 4 (length s.elems) ++ (le_bytes 4 (elements_size d s.elems) ++ elems_image d s.elems)

module _ (d : KeymasterDefs) (al : Allocator) (s : AuthorizationSet) (h : IsWritable d al s) where
  -- The three checks on the counts pass.
  check_counts_lem :
      (t : AuthorizationSet) (addr : ℕ) (xs : List ℕ)
      → elements_size d s.elems ≤ length xs
      → addr + length s.elems * d.param_size < 2 ^ 64
      → check_counts d al t (some (length s.elems, elements_size d s.elems), cursor addr xs)
        ≡ load_elems d al
            (length s.elems)
            (elements_size d s.elems)
            (reserve_elems al (length s.elems) t)
            (cursor addr xs)
  unfolding check_counts
  check_counts_lem t addr xs long low = ground (arith, elements_size-ge d s.elems)

  reserve_elems_lem :
      (t : AuthorizationSet)
      → t.elems_capacity ≡ 0
      → t.error ≡ valid
      → reserve_elems al (length s.elems) t ≡ (true, record t { elems_capacity = length s.elems })
  unfolding reserve_elems
  reserve_elems_lem t empty fine = ground (arith, h.elems_granted)

  load_elems_lem :
      (t : AuthorizationSet) (addr : ℕ) (rest : List ℕ)
      → t.indirect_data ≡ s.indirect_data
      → addr + length (elems_image d s.elems ++ rest) < 2 ^ 64
      → load_elems d al
          (length s.elems)
          (elements_size d s.elems)
          (true, t)
          (cursor addr (elems_image d s.elems ++ rest))
        ≡ (true, record t { elems = s.elems }, cursor (addr + length (elems_image d s.elems)) rest)
  unfolding load_elems
  load_elems_lem t addr rest same k = ap (store_elems t) (
      subst
        (λ n.
          within n (deserialize_elems d (length t.indirect_data) (length s.elems))
            (cursor addr (elems_image d s.elems ++ rest))
          ≡ (some s.elems, cursor (addr + length (elems_image d s.elems)) rest))
        (length-elems_image d s.elems)
        (within-Reads (deserialize_elems d (length t.indirect_data) (length s.elems))
          (elems_image d s.elems) s.elems addr rest
          (Reads-deserialize_elems d (length t.indirect_data) s.elems
            (subst (λ xs. ArePlain d (length xs) s.elems) (sym same) h.plain))
          k))

  -- The elements' data with its counts, once the indirect data is in place.
  deserialize_elements_data_lem :
      (t : AuthorizationSet) (addr : ℕ) (rest : List ℕ)
      → t.indirect_data ≡ s.indirect_data
      → t.elems_capacity ≡ 0
      → t.error ≡ valid
      → (addr + length (elems_part d s ++ rest)) + length s.elems * d.param_size < 2 ^ 64
      → deserialize_elements_data d al t (cursor addr (elems_part d s ++ rest)) ≡ (
        true,
        record t { elems = s.elems; elems_capacity = length s.elems },
        cursor (addr + length (elems_part d s)) rest,
      )
  unfolding deserialize_elements_data
  deserialize_elements_data_lem t addr rest same empty fine k =
      let e = length-append counts (image ++ rest) in
      let e1 = ap length regrouped in
      let e2 = length-append image rest in
      let e3 = length-elems_image d s.elems in
      let e4 : length (elems_part d s) ≡ length counts + length image =
        omega (arith, ap length (append_assoc count size image), length-append counts image) in
      ap (λ xs. check_counts d al t (copy_counts (cursor addr xs))) regrouped
      ∙ ap (check_counts d al t) (
          Reads-copy_counts d (length s.elems) (elements_size d s.elems) h.count_small h.size_small
            addr (image ++ rest) (omega arith))
      ∙ check_counts_lem t (addr + length counts) (image ++ rest) (omega arith) (omega arith)
      ∙ ap
          (λ r.
            load_elems d al (length s.elems) (elements_size d s.elems) r
              (cursor (addr + length counts) (image ++ rest)))
          (reserve_elems_lem t empty fine)
      ∙ load_elems_lem (record t { elems_capacity = length s.elems }) (addr + length counts) rest
          same (omega arith)
      ∙ ap
          (λ n.
            (true, record t { elems = s.elems; elems_capacity = length s.elems }, cursor n rest))
          (omega arith)
    where
      count : List ℕ
      count = le_bytes 4 (length s.elems)

      size : List ℕ
      size = le_bytes 4 (elements_size d s.elems)

      counts : List ℕ
      counts = count ++ size

      image : List ℕ
      image = elems_image d s.elems

      regrouped : elems_part d s ++ rest ≡ counts ++ (image ++ rest)
      regrouped = simp append_assoc

  -- What `Deserialize` makes of the image of `s` before its last check.
  pub deserialize_set_image :
      (t : AuthorizationSet) (addr : ℕ) (rest : List ℕ)
      → IsReadable d s addr rest
      → deserialize_set d al t (cursor addr (set_image d s ++ rest))
        ≡ check_indirect_size d al (true, loaded s, cursor (addr + length (set_image d s)) rest)
  unfolding deserialize_set
  deserialize_set_image t addr rest k =
      let first : List ℕ = sized s.indirect_data in
      let back = elems_part d s ++ rest in
      let e = ap length (append_assoc first (elems_part d s) rest) in
      let e1 = length-append first back in
      let e2 = length-append first (elems_part d s) in
      ap (λ xs. deserialize_set d al t (cursor addr xs)) (append_assoc first (elems_part d s) rest)
      ∙ ap (λ r. check_indirect_size d al (then_elements d al (store_indirect (free_data t) r)))
          (Reads-copy_size_and_data_from_buf al.grants_bytes s.indirect_data h.data_small
            h.data_granted addr back (omega arith))
      ∙ ap (check_indirect_size d al) (
          deserialize_elements_data_lem _ (addr + length first) rest refl refl refl (omega arith)
          ∙ ap (λ n. (true, loaded s, cursor n rest)) (omega arith))
