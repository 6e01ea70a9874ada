-- ===== src/Utils.antt =====
-- android_keymaster_utils.h and android_keymaster_utils.cpp: byte order, comparison, curves.
pub mod Curves
use platform_system_keymaste.Common.{
  ℕ, zero, suc, ◌+◌, ◌*◌, ◌/◌, ◌%◌, ◌^◌, bit_or, bit_xor, Bool, List, [], ◌∷◌, Option, none, some,
  leb, ◌==◌, length, if◌then◌else◌,
}
use platform_system_keymaste.Serial.{le_bytes, of_le}
use platform_system_keymaste.Defs.{KeymasterError, ok, unsupported_key_size, unsupported_ec_curve}

-- The loop of `ntoh`: `retval <<= 8; retval |= byte_ptr[i]` on an integer of `w` bytes. The low byte of
-- the shifted value is 0, so the `or` adds.
unfoldable pub ntoh_loop : ℕ → ℕ → List ℕ → ℕ
ntoh_loop w retval [] = retval
ntoh_loop w retval (b ∷ bs) = ntoh_loop w (retval * 256 % 256 ^ w + b) bs

unfoldable pub ntoh : ℕ → ℕ → ℕ
unfolding ntoh_loop le_bytes
ntoh w t = ntoh_loop w 0 (le_bytes w t)

-- The loop of `hton`, which fills the bytes from the last to the first; `filled` are those behind.
unfoldable pub hton_loop : ℕ → ℕ → List ℕ → List ℕ
hton_loop zero t filled = filled
hton_loop (suc i) t filled = hton_loop i (t / 256) ((t % 256) ∷ filled)

unfoldable pub hton : ℕ → ℕ → ℕ
unfolding hton_loop of_le
hton w t = of_le (hton_loop w t [])

-- `kMaxDupBufferSize`.
abbrev pub max_dup_buffer_size : ℕ
max_dup_buffer_size = 16 * 1024 * 1024

unfoldable pub dup_buffer : (ℕ → Bool) → List ℕ → Option (List ℕ)
dup_buffer alloc buf =
    if leb max_dup_buffer_size (length buf)
    then none
    else if alloc (length buf)
    then some buf
    else none

-- The loop of `memcmp_s` over two blocks of the same length; it never stops early.
unfoldable pub memcmp_loop : ℕ → List ℕ → List ℕ → ℕ
memcmp_loop result [] ys = result
memcmp_loop result (x ∷ xs) [] = result
memcmp_loop result (x ∷ xs) (y ∷ ys) = memcmp_loop (bit_or result (bit_xor x y)) xs ys

unfoldable pub memcmp_s : List ℕ → List ℕ → ℕ
unfolding memcmp_loop
memcmp_s xs ys = if memcmp_loop 0 xs ys == 0 then 0 else 1

-- keymaster_ec_curve_t.
pub data EcCurve : Type 0 where
  p_224 p_256 p_384 p_521 : EcCurve
  other_curve : ℕ → EcCurve

unfoldable pub ec_key_size_to_curve : ℕ → KeymasterError × Option EcCurve
ec_key_size_to_curve key_size_bits =
    if key_size_bits == 224
    then (ok, some p_224)
    else if key_size_bits == 256
    then (ok, some p_256)
    else if key_size_bits == 384
    then (ok, some p_384)
    else if key_size_bits == 521
    then (ok, some p_521)
    else (unsupported_key_size, none)

unfoldable pub ec_curve_to_key_size : EcCurve → KeymasterError × Option ℕ
ec_curve_to_key_size p_224 = (ok, some 224)
ec_curve_to_key_size p_256 = (ok, some 256)
ec_curve_to_key_size p_384 = (ok, some 384)
ec_curve_to_key_size p_521 = (ok, some 521)
ec_curve_to_key_size (other_curve n) = (unsupported_ec_curve, none)
