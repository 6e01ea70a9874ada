-- ===== src/Serial/Bounds.antt =====
-- No writer of serializable.h writes past `end`.
use platform_system_keymaste.Common.{
  ℕ, ◌+◌, ◌≤◌, ◌<◌, ◌≡◌, ◌⊎◌, List, [], ◌∷◌, ◌^◌, arith, length, length-append,
}
use platform_system_keymaste.Serial.Laws.{length-le_bytes}
use platform_system_keymaste.Serial.{
  le_bytes, Writer, append_to_buf, append_uint32_to_buf, append_uint64_to_buf,
  append_size_and_data_to_buf, append_values, append_uint32_array_to_buf,
}

-- The bytes written from `base` on stay below `end`, and `buf` is where the next one goes unless it
-- has left the buffer.
pub record IsContained (base : ℕ) (w : Writer) : Type 0 where
  pub inside : base + length w.out ≤ w.end
  pub at : (w.buf ≡ base + length w.out) ⊎ (w.end < w.buf)

-- Whatever the state of the writer, appending keeps what is written inside the buffer.
pub append_to_buf-IsContained :
    (base : ℕ) (w : Writer) (xs : List ℕ)
    → length xs < 2 ^ 64
    → IsContained base w
    → IsContained base (append_to_buf w xs)
unfolding append_to_buf
append_to_buf-IsContained base w xs h c = ground (arith, length-append w.out xs)

pub append_uint32_to_buf-IsContained :
    (base : ℕ) (w : Writer) (v : ℕ)
    → IsContained base w
    → IsContained base (append_uint32_to_buf v w)
unfolding append_uint32_to_buf
append_uint32_to_buf-IsContained base w v c =
    append_to_buf-IsContained base w (le_bytes 4 v) (omega (arith, length-le_bytes 4 v)) c

pub append_uint64_to_buf-IsContained :
    (base : ℕ) (w : Writer) (v : ℕ)
    → IsContained base w
    → IsContained base (append_uint64_to_buf v w)
unfolding append_uint64_to_buf
append_uint64_to_buf-IsContained base w v c =
    append_to_buf-IsContained base w (le_bytes 8 v) (omega (arith, length-le_bytes 8 v)) c

pub append_size_and_data_to_buf-IsContained :
    (base : ℕ) (w : Writer) (xs : List ℕ)
    → length xs < 2 ^ 64
    → IsContained base w
    → IsContained base (append_size_and_data_to_buf xs w)
unfolding append_size_and_data_to_buf
append_size_and_data_to_buf-IsContained base w xs h c =
    append_to_buf-IsContained base _ xs h (append_uint32_to_buf-IsContained base w (length xs) c)

append_values-IsContained :
    (base : ℕ) (vs : List ℕ) (w : Writer)
    → IsContained base w
    → IsContained base (append_values vs w)
unfolding append_values
append_values-IsContained base [] w c = c
append_values-IsContained base (v ∷ vs) w c =
    append_values-IsContained base vs _ (append_uint32_to_buf-IsContained base w v c)

-- The array writer keeps what is written inside the buffer, also where the buffer is too small.
pub append_uint32_array_to_buf-IsContained :
    (base : ℕ) (w : Writer) (vs : List ℕ)
    → IsContained base w
    → IsContained base (append_uint32_array_to_buf vs w)
unfolding append_uint32_array_to_buf
append_uint32_array_to_buf-IsContained base w vs c =
    let written =
      append_values-IsContained base vs _ (append_uint32_to_buf-IsContained base w (length vs) c) in
    ground arith
