-- ===== src/Serial/Laws.antt =====
-- What the readers and writers of serializable.h do to whole images, in a form that composes.
use platform_system_keymaste.Common.{
  ℕ, zero, suc, ◌+◌, ◌*◌, ◌/◌, ◌%◌, ◌^◌, ◌≤◌, ◌<◌, ◌≡◌, refl, ap, subst, ◌∙◌, Bool, true, List, [],
  ◌∷◌, ◌++◌, some, arith, length, length-append, take-append, drop-append, append_assoc, append-nil,
  All,
}
use platform_system_keymaste.Serial.{
  le_bytes, of_le, Writer, wrote, append_to_buf, append_uint32_to_buf, append_uint64_to_buf,
  append_size_and_data_to_buf, append_values, append_uint32_array_to_buf, max_array_count, cursor,
  Read, ◌>>=◌, give, copy_from_buf, copy_uint32_from_buf, copy_uint64_from_buf, copy_data_from_buf,
  copy_size_and_data_from_buf, copy_values, copy_counted, copy_uint32_array_from_buf,
}

-- A buffer of `room` bytes at `base` to which nothing has been written.
abbrev pub empty_writer : ℕ → ℕ → Writer
empty_writer base room = record { buf = base; end = base + room; out = [] }

pub length-le_bytes : (n v : ℕ) → length (le_bytes n v) ≡ n
unfolding le_bytes
length-le_bytes zero v = refl
length-le_bytes (suc n) v = ap suc (length-le_bytes n (v / 256))

pub of_le-le_bytes : (n v : ℕ) → v < 256 ^ n → of_le (le_bytes n v) ≡ v
unfolding le_bytes of_le
of_le-le_bytes zero v h = omega arith
of_le-le_bytes (suc n) v h = omega (arith, of_le-le_bytes n (v / 256) (omega arith))

-- `f` writes exactly `xs`, given the room.
abbrev pub Writes : (Writer → Writer) → List ℕ → Type 0
Writes f xs = (w : Writer) → w.buf + length xs ≤ w.end → w.end < 2 ^ 64 → f w ≡ wrote w xs

-- `m` takes exactly `xs` off the input, whatever follows, and gives `v`.
abbrev pub Reads {ℓ} : {A : Type ℓ} → Read A → List ℕ → A → Type ℓ
Reads m xs v =
    (addr : ℕ) (rest : List ℕ)
    → addr + length (xs ++ rest) < 2 ^ 64
    → m (cursor addr (xs ++ rest)) ≡ (some v, cursor (addr + length xs) rest)

pub Writes-append_to_buf : (xs : List ℕ) → Writes (λ w. append_to_buf w xs) xs
unfolding append_to_buf
Writes-append_to_buf xs w h k = ground arith

wrote_twice : (w : Writer) (xs ys : List ℕ) → wrote (wrote w xs) ys ≡ wrote w (xs ++ ys)
wrote_twice w xs ys = ground (arith, append_assoc w.out xs ys, length-append xs ys)

pub Writes-then :
    (f g : Writer → Writer) (xs ys : List ℕ)
    → Writes f xs
    → Writes g ys
    → Writes (λ w. g (f w)) (xs ++ ys)
Writes-then f g xs ys hf hg w h k =
    let e = length-append xs ys in
    rw (hf w (omega arith) k) (hg (wrote w xs) (omega arith) k ∙ wrote_twice w xs ys)

pub Writes-append_uint32_to_buf : (v : ℕ) → Writes (append_uint32_to_buf v) (le_bytes 4 v)
unfolding append_uint32_to_buf
Writes-append_uint32_to_buf v = Writes-append_to_buf (le_bytes 4 v)

pub Writes-append_uint64_to_buf : (v : ℕ) → Writes (append_uint64_to_buf v) (le_bytes 8 v)
unfolding append_uint64_to_buf
Writes-append_uint64_to_buf v = Writes-append_to_buf (le_bytes 8 v)

-- The image of a counted byte array.
abbrev pub sized : List ℕ → List ℕ
sized xs = le_bytes 4 (length xs) ++ xs

pub length-sized : (xs : List ℕ) → length (sized xs) ≡ 4 + length xs
length-sized xs =
    omega (arith, length-append (le_bytes 4 (length xs)) xs, length-le_bytes 4 (length xs))

pub Writes-append_size_and_data_to_buf :
    (xs : List ℕ) → Writes (append_size_and_data_to_buf xs) (sized xs)
unfolding append_size_and_data_to_buf
Writes-append_size_and_data_to_buf xs =
    Writes-then (append_uint32_to_buf (length xs)) (λ w. append_to_buf w xs)
      (le_bytes 4 (length xs)) xs (Writes-append_uint32_to_buf (length xs))
      (Writes-append_to_buf xs)

pub Reads-give {ℓ} : {A : Type ℓ} (v : A) → Reads (give v) [] v
Reads-give v addr rest h = ap (λ a. (some v, cursor a rest)) (omega arith)

pub Reads-bind {ℓ κ} :
    {A : Type ℓ} {B : Type κ} (m : Read A) (f : A → Read B) (xs ys : List ℕ) (v : A) (u : B)
    → Reads m xs v
    → Reads (f v) ys u
    → Reads (m >>= f) (xs ++ ys) u
Reads-bind m f xs ys v u hm hf addr rest h =
    let e = length-append xs ys in
    let e2 = length-append (xs ++ ys) rest in
    let e3 = length-append ys rest in
    let e4 = length-append xs (ys ++ rest) in
    rw (append_assoc xs ys rest, hm addr (ys ++ rest) (omega arith))
      (hf (addr + length xs) rest (omega arith) ∙ ap (λ a. (some u, cursor a rest)) (omega arith))

pub Reads-copy_from_buf : (xs : List ℕ) → Reads (copy_from_buf (length xs)) xs xs
unfolding copy_from_buf
Reads-copy_from_buf xs addr rest h =
    ground (arith, length-append xs rest, take-append xs rest, drop-append xs rest)

-- The same for a size that is known by an equation.
Reads-copy_from_buf_size : (n : ℕ) (xs : List ℕ) → length xs ≡ n → Reads (copy_from_buf n) xs xs
Reads-copy_from_buf_size n xs e =
    subst (λ k. Reads (copy_from_buf k) xs xs) e (Reads-copy_from_buf xs)

-- Drops the empty image of a final `give`.
pub Reads-last {ℓ κ} :
    {A : Type ℓ} {B : Type κ} (m : Read A) (f : A → B) (xs : List ℕ) (v : A) (u : B)
    → Reads m xs v
    → f v ≡ u
    → Reads (m >>= λ a. give (f a)) xs u
Reads-last m f xs v u hm e addr rest h =
    rw (hm addr rest h) (ap (λ b. (some b, cursor (addr + length xs) rest)) e)

pub Reads-copy_uint32_from_buf : (v : ℕ) → v < 2 ^ 32 → Reads copy_uint32_from_buf (le_bytes 4 v) v
unfolding copy_uint32_from_buf
Reads-copy_uint32_from_buf v h =
    Reads-last (copy_from_buf 4) (λ val. of_le val % 2 ^ 32) (le_bytes 4 v) (le_bytes 4 v) v
      (Reads-copy_from_buf_size 4 (le_bytes 4 v) (length-le_bytes 4 v))
      (omega (arith, of_le-le_bytes 4 v (omega arith)))

pub Reads-copy_uint64_from_buf : (v : ℕ) → v < 2 ^ 64 → Reads copy_uint64_from_buf (le_bytes 8 v) v
unfolding copy_uint64_from_buf
Reads-copy_uint64_from_buf v h =
    Reads-last (copy_from_buf 8) (λ val. of_le val % 2 ^ 64) (le_bytes 8 v) (le_bytes 8 v) v
      (Reads-copy_from_buf_size 8 (le_bytes 8 v) (length-le_bytes 8 v))
      (omega (arith, of_le-le_bytes 8 v (omega arith)))

module _ (alloc : ℕ → Bool) where
  Reads-copy_data_from_buf :
      (xs : List ℕ) → alloc (length xs) ≡ true → Reads (copy_data_from_buf alloc (length xs)) xs xs
  unfolding copy_data_from_buf
  Reads-copy_data_from_buf [] ok addr rest h = ground arith
  Reads-copy_data_from_buf (x ∷ xs) ok addr rest h =
      ground (arith, Reads-copy_from_buf (x ∷ xs) addr rest h, length-append xs rest)

  -- A counted byte array is read back, where the allocator grants its size.
  pub Reads-copy_size_and_data_from_buf :
      (xs : List ℕ)
      → length xs < 2 ^ 32
      → alloc (length xs) ≡ true
      → Reads (copy_size_and_data_from_buf alloc) (sized xs) xs
  unfolding copy_size_and_data_from_buf
  Reads-copy_size_and_data_from_buf xs h ok =
      Reads-bind copy_uint32_from_buf (copy_data_from_buf alloc) (le_bytes 4 (length xs)) xs
        (length xs) xs (Reads-copy_uint32_from_buf (length xs) h) (Reads-copy_data_from_buf xs ok)

-- The images of an array's values, one after the other.
abbrev pub words : List ℕ → List ℕ
words [] = []
words (v ∷ vs) = le_bytes 4 v ++ words vs

pub length-words : (vs : List ℕ) → length (words vs) ≡ length vs * 4
length-words [] = refl
length-words (v ∷ vs) =
    omega (arith, length-append (le_bytes 4 v) (words vs), length-le_bytes 4 v, length-words vs)

Writes-append_values : (vs : List ℕ) → Writes (append_values vs) (words vs)
unfolding append_values
Writes-append_values [] w h k = ground (arith, append-nil w.out)
Writes-append_values (v ∷ vs) w h k =
    Writes-then (append_uint32_to_buf v) (append_values vs) (le_bytes 4 v) (words vs)
      (Writes-append_uint32_to_buf v) (Writes-append_values vs) w h k

Reads-copy_values :
    (vs : List ℕ) → All (λ v. v < 2 ^ 32) vs → Reads (copy_values (length vs)) (words vs) vs
unfolding copy_values
Reads-copy_values [] h = Reads-give []
Reads-copy_values (v ∷ vs) (hv, hvs) =
    Reads-bind copy_uint32_from_buf _ (le_bytes 4 v) (words vs) v (v ∷ vs)
      (Reads-copy_uint32_from_buf v hv)
      (Reads-last (copy_values (length vs)) (λ us. v ∷ us) (words vs) vs (v ∷ vs)
        (Reads-copy_values vs hvs) refl)

-- `append_uint32_array_to_buf` writes the count and the values, below the limit that it checks.
pub Writes-append_uint32_array_to_buf :
    (vs : List ℕ)
    → length vs < max_array_count
    → Writes (append_uint32_array_to_buf vs) (le_bytes 4 (length vs) ++ words vs)
unfolding append_uint32_array_to_buf
Writes-append_uint32_array_to_buf vs small w h k = ground (
  arith,
  Writes-then (append_uint32_to_buf (length vs)) (append_values vs) (le_bytes 4 (length vs))
      (words vs) (Writes-append_uint32_to_buf (length vs)) (Writes-append_values vs) w h k,
  length-append (le_bytes 4 (length vs)) (words vs),
  length-words vs,
)

-- The values after the count, for the count that stands in front of them.
Reads-copy_counted :
    (alloc : ℕ → Bool) (vs : List ℕ)
    → length vs < max_array_count
    → All (λ v. v < 2 ^ 32) vs
    → alloc (length vs * 4) ≡ true
    → Reads (copy_counted alloc (length vs)) (words vs) vs
unfolding copy_counted
Reads-copy_counted alloc vs small ok granted addr rest h =
    ground
      (arith, Reads-copy_values vs ok addr rest h, length-append (words vs) rest, length-words vs)

pub Reads-copy_uint32_array_from_buf :
    (alloc : ℕ → Bool) (vs : List ℕ)
    → length vs < max_array_count
    → All (λ v. v < 2 ^ 32) vs
    → alloc (length vs * 4) ≡ true
    → Reads (copy_uint32_array_from_buf alloc) (le_bytes 4 (length vs) ++ words vs) vs
unfolding copy_uint32_array_from_buf
Reads-copy_uint32_array_from_buf alloc vs small ok granted =
    Reads-bind copy_uint32_from_buf (copy_counted alloc) (le_bytes 4 (length vs)) (words vs)
      (length vs) vs (Reads-copy_uint32_from_buf (length vs) (omega arith))
      (Reads-copy_counted alloc vs small ok granted)

-- What `append_uint32_array_to_buf` writes into an empty buffer with room for it,
-- `copy_uint32_array_from_buf` reads back as the same values, leaving what follows: for fewer than
-- UINT32_MAX / 4 values below 2 ^ 32, where the allocator grants the array and the addresses of
-- both buffers are below 2 ^ 64.
pub uint32_array_round_trip :
    (alloc : ℕ → Bool) (vs : List ℕ) (base room addr : ℕ) (rest : List ℕ)
    → length vs < max_array_count
    → All (λ v. v < 2 ^ 32) vs
    → alloc (length vs * 4) ≡ true
    → 4 + length vs * 4 ≤ room
    → base + room < 2 ^ 64
    → addr + (4 + length vs * 4 + length rest) < 2 ^ 64
    → let image = (append_uint32_array_to_buf vs (empty_writer base room)).out in
      copy_uint32_array_from_buf alloc (cursor addr (image ++ rest))
      ≡ (some vs, cursor (addr + (4 + length vs * 4)) rest)
uint32_array_round_trip alloc vs base room addr rest small ok granted fits valid read =
    let xs : List ℕ = le_bytes 4 (length vs) ++ words vs in
    let e : length xs ≡ 4 + length vs * 4 = omega (
      arith,
      length-append (le_bytes 4 (length vs)) (words vs),
      length-le_bytes 4 (length vs),
      length-words vs,
    ) in
    rw (Writes-append_uint32_array_to_buf vs small (empty_writer base room) (omega arith) valid) (
      Reads-copy_uint32_array_from_buf alloc vs small ok granted addr rest
        (omega (arith, length-append xs rest))
      ∙ ap (λ n. (some vs, cursor (addr + n) rest)) e)
