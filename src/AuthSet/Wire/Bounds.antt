-- ===== src/AuthSet/Wire/Bounds.antt =====
-- `Serialize` and the end of its buffer.
use platform_system_keymaste.Common.{
  ℕ, suc, ◌+◌, ◌≡◌, ◌<◌, ◌^◌, Bool, List, [], ◌∷◌, arith, length, length-append, if◌then◌else◌,
}
use platform_system_keymaste.Defs.{
  TagType, km_invalid, km_enum, km_enum_rep, km_uint, km_uint_rep, km_ulong, km_ulong_rep, km_date,
  km_bool, km_bignum, km_bytes, km_unknown, KeymasterDefs, KeyParam, boolean, enumerated, integer,
  long_integer, date_time,
}
use platform_system_keymaste.Serial.{
  Writer, le_bytes, pval_add, append_to_buf, append_uint32_to_buf, append_uint64_to_buf,
  append_size_and_data_to_buf,
}
use platform_system_keymaste.Serial.Laws.{length-le_bytes}
use platform_system_keymaste.Serial.Bounds.{IsContained, append_to_buf-IsContained}
use platform_system_keymaste.AuthSet.{AuthorizationSet}
use platform_system_keymaste.AuthSet.Wire.{
  append_bool, append_value, serialize_param, serialize_elems, serialize_set,
}

-- Inside its buffer so far, with `n` addresses more behind the end and behind the pointer.
abbrev HasRoom : ℕ → ℕ → Writer → Type 0
HasRoom base n w = IsContained base w × (w.buf + n < 2 ^ 64) × (w.end + n < 2 ^ 64)

append_to_buf-HasRoom :
    (base n : ℕ) (w : Writer) (xs : List ℕ)
    → length xs < 2 ^ 64
    → HasRoom base n w
    → HasRoom base n (append_to_buf w xs)
unfolding append_to_buf
append_to_buf-HasRoom base n w xs h (c, low, below) =
    (append_to_buf-IsContained base w xs h c, ground arith, ground arith)

append_bool-HasRoom :
    (base n : ℕ) (b : Bool) (w : Writer) → HasRoom base (suc n) w → HasRoom base n (append_bool b w)
unfolding append_bool
append_bool-HasRoom base n b w (c, low, below) =
    let next : pval_add w.buf 1 ≡ w.buf + 1 = omega arith in
    rw next (ground (arith, length-append w.out ((if b then 1 else 0) ∷ [])))

HasRoom-less : (base n : ℕ) (w : Writer) → HasRoom base (suc n) w → HasRoom base n w
HasRoom-less base n w (c, low, below) = (c, omega arith, omega arith)

module _ (base n : ℕ) where
  word : (v : ℕ) (w : Writer) → HasRoom base n w → HasRoom base n (append_uint32_to_buf v w)
  unfolding append_uint32_to_buf
  word v w = append_to_buf-HasRoom base n w (le_bytes 4 v) (omega (arith, length-le_bytes 4 v))

  long_word : (v : ℕ) (w : Writer) → HasRoom base n w → HasRoom base n (append_uint64_to_buf v w)
  unfolding append_uint64_to_buf
  long_word v w = append_to_buf-HasRoom base n w (le_bytes 8 v) (omega (arith, length-le_bytes 8 v))

append_value-HasRoom :
    (base n : ℕ) (t : TagType) (p : KeyParam) (w : Writer)
    → HasRoom base (suc n) w
    → HasRoom base n (append_value t p w)
unfolding append_value
append_value-HasRoom base n km_bool p w c = append_bool-HasRoom base n (boolean p) w c
append_value-HasRoom base n km_invalid p w c = HasRoom-less base n w c
append_value-HasRoom base n km_enum p w c = word base n (enumerated p) w (HasRoom-less base n w c)
append_value-HasRoom base n km_enum_rep p w c =
    word base n (enumerated p) w (HasRoom-less base n w c)
append_value-HasRoom base n km_uint p w c = word base n (integer p) w (HasRoom-less base n w c)
append_value-HasRoom base n km_uint_rep p w c = word base n (integer p) w (HasRoom-less base n w c)
append_value-HasRoom base n km_ulong p w c =
    long_word base n (long_integer p) w (HasRoom-less base n w c)
append_value-HasRoom base n km_ulong_rep p w c =
    long_word base n (long_integer p) w (HasRoom-less base n w c)
append_value-HasRoom base n km_date p w c =
    long_word base n (date_time p) w (HasRoom-less base n w c)
append_value-HasRoom base n km_bignum p w c =
    word base n p.offset _ (word base n p.data_length w (HasRoom-less base n w c))
append_value-HasRoom base n km_bytes p w c =
    word base n p.offset _ (word base n p.data_length w (HasRoom-less base n w c))
append_value-HasRoom base n km_unknown p w c = HasRoom-less base n w c

serialize_elems-IsContained :
    (base : ℕ) (d : KeymasterDefs) (ps : List KeyParam) (w : Writer)
    → HasRoom base (length ps) w
    → IsContained base (serialize_elems d ps w)
unfolding serialize_elems serialize_param
serialize_elems-IsContained base d [] w c = c.0
serialize_elems-IsContained base d (p ∷ ps) w c = serialize_elems-IsContained base d ps _ (
    append_value-HasRoom base (length ps) (d.get_type p.tag) p _
      (word base (suc (length ps)) p.tag w c))

-- `Serialize` writes no byte at or past `end`, however small the buffer: what has been written stays
-- between `base` and `end`. For any set with indirect data of less than 2 ^ 64 bytes, from any writer
-- that has stayed inside so far, where as many addresses as there are elements lie between the end of
-- the buffer, or the pointer, and 2 ^ 64.
pub serialize_set-IsContained :
    (d : KeymasterDefs) (s : AuthorizationSet) (base : ℕ) (w : Writer)
    → length s.indirect_data < 2 ^ 64
    → w.buf + length s.elems < 2 ^ 64
    → w.end + length s.elems < 2 ^ 64
    → IsContained base w
    → IsContained base (serialize_set d s w)
unfolding serialize_set append_size_and_data_to_buf
serialize_set-IsContained d s base w h low below c =
    let n : ℕ = length s.elems in
    serialize_elems-IsContained base d s.elems _ (
      word base n _ _ (
        word base n _ _ (
          append_to_buf-HasRoom base n _ s.indirect_data h
            (word base n (length s.indirect_data) w (c, low, below)))))
