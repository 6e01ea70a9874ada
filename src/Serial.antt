-- ===== src/Serial.antt =====
-- include/keymaster/serializable.h and the free functions of serializable.cpp: the cursors through
-- which every message and authorization set is written and read.
-- A pointer is its address below 2 ^ 64; `size_t` has 64 bits; the host stores integers with the
-- lowest byte first. `alloc n` says whether `new (std::nothrow) uint8_t[n]` succeeds.
pub mod Laws
pub mod Bounds
use platform_system_keymaste.Common.{
  ℕ, zero, suc, ◌+◌, ◌*◌, ◌/◌, ◌%◌, ◌^◌, Bool, List, [], ◌∷◌, ◌++◌, Option, none, some, ltb, leb,
  ◌==◌, if◌then◌else◌, length, take, drop, ◌||◌,
}

-- The memory image of an integer of `n` bytes, and the integer that an image stands for.
unfoldable pub le_bytes : ℕ → ℕ → List ℕ
le_bytes zero v = []
le_bytes (suc n) v = (v % 256) ∷ le_bytes n (v / 256)

unfoldable pub of_le : List ℕ → ℕ
of_le [] = 0
of_le (b ∷ bs) = b + 256 * of_le bs

-- `__pval(p) + n`, which wraps.
abbrev pub pval_add : ℕ → ℕ → ℕ
pval_add p n = (p + n) % 2 ^ 64

-- The output side: `buf` and `end` of the C++ signatures, and the bytes written so far.
pub record Writer : Type 0 where
  pub buf : ℕ
  pub end : ℕ
  pub out : List ℕ

-- The writer after `xs` has gone out.
abbrev pub wrote : Writer → List ℕ → Writer
wrote w xs = record w { buf = w.buf + length xs; out = w.out ++ xs }

unfoldable pub append_to_buf : Writer → List ℕ → Writer
append_to_buf w bytes =
    if ltb (pval_add w.buf (length bytes)) w.buf
    then w
    else if leb (pval_add w.buf (length bytes)) w.end
    then wrote w bytes
    else w

unfoldable pub append_uint32_to_buf : ℕ → Writer → Writer
unfolding append_to_buf
append_uint32_to_buf value w = append_to_buf w (le_bytes 4 value)

unfoldable pub append_uint64_to_buf : ℕ → Writer → Writer
unfolding append_to_buf
append_uint64_to_buf value w = append_to_buf w (le_bytes 8 value)

unfoldable pub append_size_and_data_to_buf : List ℕ → Writer → Writer
unfolding append_uint32_to_buf
append_size_and_data_to_buf bytes w = append_to_buf (append_uint32_to_buf (length bytes) w) bytes

-- The loop over the array's values.
unfoldable pub append_values : List ℕ → Writer → Writer
append_values [] w = w
append_values (v ∷ vs) w = append_values vs (append_uint32_to_buf v w)

-- `UINT32_MAX / sizeof(uint32_t)`.
abbrev pub max_array_count : ℕ
max_array_count = 1073741823

unfoldable pub append_uint32_array_to_buf : List ℕ → Writer → Writer
unfolding append_values append_uint32_to_buf
append_uint32_array_to_buf values w =
    if leb max_array_count (length values) || ltb (pval_add w.buf (length values * 4)) w.buf
    then w
    else append_values values (append_uint32_to_buf (length values) w)

-- The input side: `*buf_ptr`, and the bytes from there to `end`.
pub record Cursor : Type 0 where
  pub addr : ℕ
  pub bytes : List ℕ

abbrev pub cursor : ℕ → List ℕ → Cursor
cursor addr bytes = record { addr = addr; bytes = bytes }

-- A function that returns `bool`, fills an output argument and moves `*buf_ptr`. What a failure
-- has already read stays read.
abbrev pub Read {ℓ} : Type ℓ → Type ℓ
Read A = Cursor → Option A × Cursor

abbrev pub continue {ℓ κ} :
    {A : Type ℓ} {B : Type κ} → Option A × Cursor → (A → Read B) → Option B × Cursor
continue (none, c) f = (none, c)
continue (some a, c) f = f a c

infixl 5 ◌>>=◌
abbrev pub ◌>>=◌ {ℓ κ} : {A : Type ℓ} {B : Type κ} → Read A → (A → Read B) → Read B
◌>>=◌ m f c = continue (m c) f

abbrev pub give {ℓ} : {A : Type ℓ} → A → Read A
give a c = (some a, c)

abbrev pub fail {ℓ} : {A : Type ℓ} → Read A
fail c = (none, c)

unfoldable pub copy_from_buf : ℕ → Read (List ℕ)
copy_from_buf size c =
    if ltb (pval_add c.addr size) c.addr
    then (none, c)
    else if ltb (c.addr + length c.bytes) (pval_add c.addr size)
    then (none, c)
    else (some (take size c.bytes), cursor (pval_add c.addr size) (drop size c.bytes))

unfoldable pub copy_uint32_from_buf : Read ℕ
unfolding copy_from_buf
copy_uint32_from_buf = copy_from_buf 4 >>= λ val. give (of_le val % 2 ^ 32)

unfoldable pub copy_uint64_from_buf : Read ℕ
unfolding copy_from_buf
copy_uint64_from_buf = copy_from_buf 8 >>= λ val. give (of_le val % 2 ^ 64)

-- The part of `copy_size_and_data_from_buf` after the size is known.
unfoldable pub copy_data_from_buf : (ℕ → Bool) → ℕ → Read (List ℕ)
unfolding copy_from_buf
copy_data_from_buf alloc size c =
    if ltb (pval_add c.addr size) c.addr
    then (none, c)
    else if ltb (c.addr + length c.bytes) (pval_add c.addr size)
    then (none, c)
    else if size == 0
    then (some [], c)
    else if alloc size
    then copy_from_buf size c
    else (none, c)

unfoldable pub copy_size_and_data_from_buf : (ℕ → Bool) → Read (List ℕ)
unfolding copy_uint32_from_buf copy_data_from_buf
copy_size_and_data_from_buf alloc = copy_uint32_from_buf >>= copy_data_from_buf alloc

-- The loop that reads `count` values.
unfoldable pub copy_values : ℕ → Read (List ℕ)
unfolding copy_uint32_from_buf
copy_values zero = give []
copy_values (suc n) = copy_uint32_from_buf >>= λ v. copy_values n >>= λ vs. give (v ∷ vs)

-- The part of `copy_uint32_array_from_buf` after the count is known.
unfoldable pub copy_counted : (ℕ → Bool) → ℕ → Read (List ℕ)
unfolding copy_values
copy_counted alloc count c =
    if leb max_array_count count
      || ltb (pval_add c.addr (count * 4)) c.addr
      || ltb (c.addr + length c.bytes) (pval_add c.addr (count * 4))
    then (none, c)
    else if alloc (count * 4)
    then copy_values count c
    else (none, c)

unfoldable pub copy_uint32_array_from_buf : (ℕ → Bool) → Read (List ℕ)
unfolding copy_counted copy_uint32_from_buf
copy_uint32_array_from_buf alloc = copy_uint32_from_buf >>= copy_counted alloc
