-- ===== src/AuthSet/Wire/Malformed.antt =====
-- `Deserialize` on arbitrary bytes: what it can have stored, and what a refusal leaves.
use platform_system_keymaste.Common.{
  ℕ, zero, suc, ◌+◌, ◌≤◌, ◌<◌, ◌^◌, ◌%◌, ◌*◌, ◌≡◌, refl, ap, subst, Bool-cases, ==_iff, inl, inr,
  Bool, true, false, List, [], ◌∷◌, Option, none, some, arith, length, take, drop, All, ◌==◌, ltb,
  ◌||◌,
}
use platform_system_keymaste.Defs.{
  TagType, km_invalid, km_enum, km_enum_rep, km_uint, km_uint_rep, km_ulong, km_ulong_rep, km_date,
  km_bool, km_bignum, km_bytes, km_unknown, KeymasterDefs, KeyParam,
}
use platform_system_keymaste.Serial.{
  pval_add, Cursor, cursor, Read, continue, ◌>>=◌, give, of_le, copy_from_buf, copy_uint32_from_buf,
  copy_uint64_from_buf, copy_size_and_data_from_buf,
}
use platform_system_keymaste.AuthSet.{
  AuthorizationSet, Allocator, valid, is_valid, allocation_failure, set_invalid, free_data,
  reserve_elems,
}
use platform_system_keymaste.AuthSet.View.{InData}
use platform_system_keymaste.AuthSet.Wire.{
  scalar, take_bool, copy_bool, check_blob, copy_blob, copy_word32, copy_word64, copy_value,
  deserialize_param, deserialize_elems, rejoin, within, store_indirect, store_elems, copy_counts,
  load_elems, check_counts, deserialize_elements_data, check_indirect_size, then_elements,
  deserialize_set, deserialize_indirect_data, compute_indirect_data_size, Loaded,
}

-- What a reader gives satisfies `P`, whatever it reads.
abbrev pub Given {ℓ κ} : {A : Type ℓ} → (A → Type κ) → Option A × Cursor → Type κ
Given P (none, c) = Unit
Given P (some v, c) = P v

abbrev pub Gives {ℓ κ} : {A : Type ℓ} → (A → Type κ) → Read A → Type κ
Gives P m = (c : Cursor) → Given P (m c)

any-Given {ℓ} : {A : Type ℓ} (r : Option A × Cursor) → Given (λ v. Unit {0}) r
any-Given (none, c) = tt
any-Given (some v, c) = tt

Given-mono {ℓ κ μ} :
    {A : Type ℓ} (P : A → Type κ) (Q : A → Type μ)
    → ((v : A) → P v → Q v)
    → (r : Option A × Cursor) → Given P r
    → Given Q r
Given-mono P Q f (none, c) g = tt
Given-mono P Q f (some v, c) g = f v g

continue-Given {ℓ κ μ ν} :
    {A : Type ℓ} {B : Type κ} (P : A → Type μ) (Q : B → Type ν) (r : Option A × Cursor)
    (f : A → Read B)
    → Given P r
    → ((v : A) → P v → Gives Q (f v))
    → Given Q (continue r f)
continue-Given P Q (none, c) f g h = tt
continue-Given P Q (some v, c) f g h = h v g c

abbrev Is32 : ℕ → Type 0
Is32 v = v < 2 ^ 32

Is32-copy_uint32_from_buf : Gives Is32 copy_uint32_from_buf
unfolding copy_uint32_from_buf
Is32-copy_uint32_from_buf c =
    continue-Given (λ val. Unit {0}) Is32 (copy_from_buf 4 c) (λ val. give (of_le val % 2 ^ 32))
      (any-Given (copy_from_buf 4 c)) λ val _ c'. omega arith

-- The tag is that of the call, and a blob lies inside the indirect data.
abbrev IsInside : ℕ → ℕ → KeyParam → Type 0
IsInside size tag p = (p.tag ≡ tag) × (p.offset + p.data_length ≤ size)

take_bool-Given :
    (size tag addr : ℕ) (xs : List ℕ) → Given (IsInside size tag) (take_bool tag addr xs)
unfolding take_bool
take_bool-Given size tag addr [] = tt
take_bool-Given size tag addr (b ∷ bs) = (refl, omega arith)

check_blob-Given :
    (size tag data_length offset : ℕ)
    → Is32 data_length
    → Is32 offset
    → Gives (IsInside size tag) (check_blob tag size data_length offset)
unfolding check_blob
check_blob-Given size tag data_length offset hl ho c = ground arith

copy_blob-Gives : (size tag : ℕ) → Gives (IsInside size tag) (copy_blob tag size)
unfolding copy_blob
copy_blob-Gives size tag c =
    continue-Given Is32 (IsInside size tag) _ _ (Is32-copy_uint32_from_buf c) λ n hn c'.
      continue-Given Is32 (IsInside size tag) _ _ (Is32-copy_uint32_from_buf c')
        λ at ha. check_blob-Given size tag n at hn ha

copy_word32-Gives : (size tag : ℕ) → Gives (IsInside size tag) (copy_word32 tag)
unfolding copy_word32
copy_word32-Gives size tag c =
    continue-Given Is32 (IsInside size tag) _ _ (Is32-copy_uint32_from_buf c)
      λ v _ c'. (refl, omega arith)

copy_word64-Gives : (size tag : ℕ) → Gives (IsInside size tag) (copy_word64 tag)
unfolding copy_word64
copy_word64-Gives size tag c =
    continue-Given (λ v. Unit {0}) (IsInside size tag) (copy_uint64_from_buf c)
      (λ v. give (scalar tag v)) (any-Given (copy_uint64_from_buf c)) λ v _ c'. (refl, omega arith)

copy_value-Gives : (size tag : ℕ) (t : TagType) → Gives (IsInside size tag) (copy_value size t tag)
unfolding copy_value
copy_value-Gives size tag km_invalid c = tt
copy_value-Gives size tag km_enum c = copy_word32-Gives size tag c
copy_value-Gives size tag km_enum_rep c = copy_word32-Gives size tag c
copy_value-Gives size tag km_uint c = copy_word32-Gives size tag c
copy_value-Gives size tag km_uint_rep c = copy_word32-Gives size tag c
copy_value-Gives size tag km_ulong c = copy_word64-Gives size tag c
copy_value-Gives size tag km_ulong_rep c = copy_word64-Gives size tag c
copy_value-Gives size tag km_date c = copy_word64-Gives size tag c
copy_value-Gives size tag km_bool c = unfold copy_bool in take_bool-Given size tag c.addr c.bytes
copy_value-Gives size tag km_bignum c = copy_blob-Gives size tag c
copy_value-Gives size tag km_bytes c = copy_blob-Gives size tag c
copy_value-Gives size tag km_unknown c = tt

deserialize_param-Gives :
    (d : KeymasterDefs) (size : ℕ)
    → Gives (λ p. p.offset + p.data_length ≤ size) (deserialize_param d size)
unfolding deserialize_param
deserialize_param-Gives d size c =
    continue-Given (λ v. Unit {0}) (λ p. p.offset + p.data_length ≤ size) (copy_uint32_from_buf c)
      (λ tag. copy_value size (d.get_type tag) tag) (any-Given (copy_uint32_from_buf c))
      λ tag _ c'.
        Given-mono (IsInside size tag) (λ p. p.offset + p.data_length ≤ size) (λ p h. h.1) _
          (copy_value-Gives size tag (d.get_type tag) c')

abbrev AreInside : KeymasterDefs → ℕ → ℕ → List KeyParam → Type 0
AreInside d size n ps = All (InData d size) ps × (length ps ≡ n)

deserialize_elems-Gives :
    (d : KeymasterDefs) (size n : ℕ) → Gives (AreInside d size n) (deserialize_elems d size n)
unfolding deserialize_elems
deserialize_elems-Gives d size zero c = (tt, refl)
deserialize_elems-Gives d size (suc n) c =
    continue-Given (λ p. p.offset + p.data_length ≤ size) (AreInside d size (suc n))
      (deserialize_param d size c) (λ p. deserialize_elems d size n >>= λ ps. give (p ∷ ps))
      (deserialize_param-Gives d size c)
      λ p hp c'.
        continue-Given (AreInside d size n) (AreInside d size (suc n))
          (deserialize_elems d size n c') (λ ps. give (p ∷ ps))
          (deserialize_elems-Gives d size n c') λ ps hps c''. ((λ _. hp, hps.0), ap suc hps.1)

rejoin-Given {ℓ κ} :
    {A : Type ℓ} (P : A → Type κ) (rest : List ℕ) (r : Option A × Cursor)
    → Given P r
    → Given P (rejoin rest r)
rejoin-Given P rest (none, c) g = tt
rejoin-Given P rest (some v, c) g = g

-- What `Deserialize` promises of its result. A set that it accepts is valid, its blobs lie inside
-- its indirect data and account for all of it, and its elements fit their array; the capacity of the
-- indirect data is left at 0. A set that it refuses is empty and marked invalid.
abbrev pub IsDeserialized : KeymasterDefs → Loaded → Type 0
IsDeserialized d (true, s, c) =
    (s.error ≡ valid)
    × All (InData d (length s.indirect_data)) s.elems
    × (length s.indirect_data ≡ compute_indirect_data_size d s.elems)
    × (length s.elems ≤ s.elems_capacity)
    × (s.allocated ≡ length s.indirect_data)
    × (s.indirect_data_capacity ≡ 0)
IsDeserialized d (false, s, c) =
    (is_valid s.error ≡ false) × (s.elems ≡ []) × (s.indirect_data ≡ [])

-- The same without the last check, and the state between the two halves.
abbrev IsLoaded : KeymasterDefs → Loaded → Type 0
IsLoaded d (true, s, c) =
    (s.error ≡ valid)
    × All (InData d (length s.indirect_data)) s.elems
    × (length s.elems ≤ s.elems_capacity)
    × (s.allocated ≡ length s.indirect_data)
    × (s.indirect_data_capacity ≡ 0)
IsLoaded d (false, s, c) = (is_valid s.error ≡ false) × (s.elems ≡ []) × (s.indirect_data ≡ [])

record IsFresh (s : AuthorizationSet) : Type 0 where
  fine : s.error ≡ valid
  no_elems : s.elems ≡ []
  no_capacity : s.elems_capacity ≡ 0
  exact : s.allocated ≡ length s.indirect_data
  unrecorded : s.indirect_data_capacity ≡ 0

abbrev IsHalfLoaded : Loaded → Type 0
IsHalfLoaded (true, s, c) = IsFresh s
IsHalfLoaded (false, s, c) = (is_valid s.error ≡ false) × (s.elems ≡ []) × (s.indirect_data ≡ [])

store_indirect-IsHalfLoaded :
    (t : AuthorizationSet) (r : Option (List ℕ) × Cursor)
    → IsHalfLoaded (store_indirect (free_data t) r)
unfolding store_indirect free_data
store_indirect-IsHalfLoaded t (none, c) = (refl, refl, refl)
store_indirect-IsHalfLoaded t (some xs, c) = record {
  fine = refl;
  no_elems = refl;
  no_capacity = refl;
  exact = refl;
  unrecorded = refl;
}

module _ (d : KeymasterDefs) (al : Allocator) where
  store_elems-IsLoaded :
      (s : AuthorizationSet) (n : ℕ) (r : Option (List KeyParam) × Cursor)
      → IsFresh (record s { elems_capacity = 0 })
      → n ≤ s.elems_capacity
      → Given (AreInside d (length s.indirect_data) n) r
      → IsLoaded d (store_elems s r)
  unfolding store_elems
  store_elems-IsLoaded s n (none, c) f room g = (refl, refl, refl)
  store_elems-IsLoaded s n (some ps, c) f room g =
      (f.fine, g.0, omega (arith, g.1), f.exact, f.unrecorded)

  within-Given :
      (size n k : ℕ) (c : Cursor)
      → Given (AreInside d size n) (within k (deserialize_elems d size n) c)
  unfolding within
  within-Given size n k c =
      rejoin-Given (AreInside d size n) (drop k c.bytes) _
        (deserialize_elems-Gives d size n (cursor c.addr (take k c.bytes)))

  load_elems-IsLoaded :
      (count size : ℕ) (s : AuthorizationSet) (c : Cursor)
      → IsFresh s
      → IsLoaded d (load_elems d al count size (reserve_elems al count s) c)
  unfolding reserve_elems load_elems
  load_elems-IsLoaded count size s c f = elim (Bool-cases (al.grants_elems count)) [
    | inl granted ↦
        subst (λ r. IsLoaded d (load_elems d al count size r c))
          (let goal : (true, record s { elems_capacity = count }) ≡ reserve_elems al count s =
              ground (arith, f.fine, f.no_capacity) in
            goal)
          (store_elems-IsLoaded (record s { elems_capacity = count }) count _
            (record {
              fine = f.fine;
              no_elems = f.no_elems;
              no_capacity = refl;
              exact = f.exact;
              unrecorded = f.unrecorded;
            })
            (omega arith) (within-Given (length s.indirect_data) count size c))
    | inr refused ↦
        subst (λ r. IsLoaded d (load_elems d al count size r c))
          (let goal : (false, set_invalid allocation_failure s) ≡ reserve_elems al count s =
              ground (arith, f.fine, f.no_capacity) in
            goal)
          (unfold set_invalid in (refl, refl, refl))
  ]

  check_counts-IsLoaded :
      (s : AuthorizationSet) (r : Option (ℕ × ℕ) × Cursor)
      → IsFresh s
      → IsLoaded d (check_counts d al s r)
  unfolding check_counts set_invalid
  check_counts-IsLoaded s (none, c) f = (refl, refl, refl)
  check_counts-IsLoaded s (some (count, size), c) f = elim (Bool-cases bad) [
    | inl refused ↦ rw refused (refl, refl, refl)
    | inr passed ↦ rw passed (load_elems-IsLoaded count size s c f)
  ]
    where
      bad : Bool
      bad =
          ltb (length c.bytes) size
          || ltb size (count * 4)
          || ltb (pval_add c.addr (count * d.param_size)) c.addr

  then_elements-IsLoaded : (r : Loaded) → IsHalfLoaded r → IsLoaded d (then_elements d al r)
  unfolding then_elements deserialize_elements_data
  then_elements-IsLoaded (false, s, c) h = h
  then_elements-IsLoaded (true, s, c) h = check_counts-IsLoaded s (copy_counts c) h

  check_indirect_size-IsDeserialized :
      (r : Loaded) → IsLoaded d r → IsDeserialized d (check_indirect_size d al r)
  unfolding check_indirect_size
  check_indirect_size-IsDeserialized (false, s, c) h = h
  check_indirect_size-IsDeserialized (true, s, c) h =
      elim (Bool-cases (length s.indirect_data == compute_indirect_data_size d s.elems)) [
        | inl same ↦ rw same (h.0, h.1, (==_iff _ _).0 same, h.2, h.3, h.4)
        | inr differ ↦ rw differ (unfold set_invalid in (refl, refl, refl))
      ]

-- Whatever the bytes, the allocator and the set it is called on, `Deserialize` either accepts a set
-- that is valid, whose blobs lie inside its indirect data and account for all of it and whose
-- elements fit their array, or refuses and leaves an empty set that is marked invalid.
pub deserialize_set-IsDeserialized :
    (d : KeymasterDefs) (al : Allocator) (t : AuthorizationSet) (c : Cursor)
    → IsDeserialized d (deserialize_set d al t c)
unfolding deserialize_set deserialize_indirect_data
deserialize_set-IsDeserialized d al t c =
    let read : Option (List ℕ) × Cursor = copy_size_and_data_from_buf al.grants_bytes c in
    let half : Loaded = store_indirect (free_data t) read in
    check_indirect_size-IsDeserialized d al (then_elements d al half)
      (then_elements-IsLoaded d al half (store_indirect-IsHalfLoaded t read))
