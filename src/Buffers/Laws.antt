-- ===== src/Buffers/Laws.antt =====
-- class Buffer as a queue of bytes: what a write adds and a read takes away.
use platform_system_keymaste.Common.{
  ℕ, ◌+◌, ◌-◌, ◌%◌, ◌^◌, ◌≤◌, ◌<◌, ◌≡◌, refl, ap, sym, subst, ◌∙◌, true, false, List, [], ◌∷◌, ◌++◌,
  none, some, length, take, drop, ltb, leb, if◌then◌else◌, arith, zero, suc, drop-drop, take-append,
  length-append, length-take, length-drop, Bool-cases, inl, inr,
}
use platform_system_keymaste.Buffers.{
  Buffer, available_write, available_read, overwrite, readable, write, read,
}

-- The positions are in order inside the memory, which is smaller than the address space.
pub record IsBuffer (b : Buffer) : Type 0 where
  pub memory : length b.bytes ≡ b.buffer_size
  pub small : b.buffer_size < 2 ^ 63
  pub behind : b.read_position ≤ b.write_position
  pub inside : b.write_position ≤ b.buffer_size

available_read_lem :
    (b : Buffer) → IsBuffer b → available_read b ≡ b.write_position - b.read_position
unfolding available_read
available_read_lem b h = omega (arith, h.small, h.behind, h.inside)

available_write_lem :
    (b : Buffer) → IsBuffer b → available_write b ≡ b.buffer_size - b.write_position
unfolding available_write
available_write_lem b h = omega (arith, h.small, h.behind, h.inside)

-- The bytes between two positions after a write at the second.
written_between :
    (r n p m : ℕ) (src tail memory : List ℕ)
    → p ≡ r + n
    → m ≡ n + length src
    → p ≤ length memory
    → take m (drop r (take p memory ++ (src ++ tail))) ≡ take n (drop r memory) ++ src
written_between zero zero zero m src tail memory h k low =
    subst (λ j. take j (src ++ tail) ≡ src) {x = length src} (omega arith) (take-append src tail)
written_between zero zero (suc p) m src tail memory h k low = absurd (omega arith)
written_between zero (suc n) zero m src tail memory h k low = absurd (omega arith)
written_between zero (suc n) (suc p) zero src tail memory h k low = absurd (omega arith)
written_between zero (suc n) (suc p) (suc m) src tail [] h k low = absurd (omega arith)
written_between zero (suc n) (suc p) (suc m) src tail (x ∷ memory) h k low =
    ap (◌∷◌ x)
      (written_between zero n p m src tail memory (omega arith) (omega arith) (omega arith))
written_between (suc r) n zero m src tail memory h k low = absurd (omega arith)
written_between (suc r) n (suc p) m src tail [] h k low = absurd (omega arith)
written_between (suc r) n (suc p) m src tail (x ∷ memory) h k low =
    written_between r n p m src tail memory (omega arith) k (omega arith)

-- The buffer after a write that fits.
abbrev after_write : List ℕ → Buffer → Buffer
after_write src b = record b {
  bytes = overwrite b.write_position src b.bytes;
  write_position = (b.write_position + length src) % 2 ^ 64;
}

after_write-IsBuffer :
    (src : List ℕ) (b : Buffer)
    → IsBuffer b
    → b.write_position + length src ≤ b.buffer_size
    → IsBuffer (after_write src b)
after_write-IsBuffer src b h fits =
    let small = h.small in
    let before = h.behind in
    let memory = h.memory in
    record {
      memory = omega (
        arith,
        length-append (take b.write_position b.bytes)
            (src ++ drop (b.write_position + length src) b.bytes),
        length-append src (drop (b.write_position + length src) b.bytes),
        length-take b.write_position b.bytes (omega arith),
        length-drop (b.write_position + length src) b.bytes,
      );
      small = small;
      behind = omega arith;
      inside = omega arith;
    }

after_write-readable :
    (src : List ℕ) (b : Buffer)
    → IsBuffer b
    → b.write_position + length src ≤ b.buffer_size
    → readable (after_write src b) ≡ readable b ++ src
unfolding readable
after_write-readable src b h fits =
    let small = h.small in
    let before = h.behind in
    let memory = h.memory in
    let now = available_read_lem (after_write src b) (after_write-IsBuffer src b h fits) in
    let then_read = available_read_lem b h in
    written_between b.read_position (available_read b) b.write_position
      (available_read (after_write src b)) src (drop (b.write_position + length src) b.bytes)
      b.bytes (omega arith) (omega arith) (omega arith)

-- A write is refused and changes nothing where it does not fit; else it adds its bytes behind those that
-- can be read. The positions stay in order inside the memory. For a buffer that is in order.
pub write-readable :
    (src : List ℕ) (b : Buffer)
    → IsBuffer b
    → IsBuffer ((write src b).1)
      × (if leb (length src) (available_write b)
          then ((write src b).0 ≡ true) × (readable ((write src b).1) ≡ readable b ++ src)
          else ((write src b).0 ≡ false) × ((write src b).1 ≡ b))
unfolding write
write-readable src b h = elim (Bool-cases (leb (length src) (available_write b))) [
  | inl fits ↦
      (let accepted : ltb (available_write b) (length src) ≡ false = ground arith in
        let inside = h.inside in
        let room : b.write_position + length src ≤ b.buffer_size =
          ground (arith, available_write_lem b h) in
        rw (fits, accepted)
          (after_write-IsBuffer src b h room, (refl, after_write-readable src b h room)))
  | inr large ↦
      (let refused : ltb (available_write b) (length src) ≡ true = ground arith in
        rw (large, refused) (h, (refl, refl)))
]

take-take : (n m : ℕ) (xs : List ℕ) → n ≤ m → take n xs ≡ take n (take m xs)
take-take zero m xs h = refl
take-take (suc n) zero xs h = absurd (omega arith)
take-take (suc n) (suc m) [] h = refl
take-take (suc n) (suc m) (x ∷ xs) h = ap (◌∷◌ x) (take-take n m xs (omega arith))

drop-take : (n m : ℕ) (xs : List ℕ) → n ≤ m → take (m - n) (drop n xs) ≡ drop n (take m xs)
drop-take zero m xs h = ap (λ k. take k xs) {x = m - 0} {y = m} (omega arith)
drop-take (suc n) zero xs h = absurd (omega arith)
drop-take (suc n) (suc m) [] h = take-nil (suc m - suc n)
  where
    take-nil : (k : ℕ) → take {A = ℕ} k [] ≡ []
    take-nil zero = refl
    take-nil (suc k) = refl
drop-take (suc n) (suc m) (x ∷ xs) h =
    ap (λ k. take k (drop n xs)) {x = suc m - suc n} {y = m - n} (omega arith)
    ∙ drop-take n m xs (omega arith)

-- The buffer after a read of bytes that are there.
abbrev after_read : ℕ → Buffer → Buffer
after_read n b = record b { read_position = (b.read_position + n) % 2 ^ 64 }

after_read-IsBuffer :
    (n : ℕ) (b : Buffer)
    → IsBuffer b
    → b.read_position + n ≤ b.write_position
    → IsBuffer (after_read n b)
after_read-IsBuffer n b h there =
    let small = h.small in
    let inside = h.inside in
    record { memory = h.memory; small = small; behind = omega arith; inside = inside }

after_read-readable :
    (n : ℕ) (b : Buffer)
    → IsBuffer b
    → b.read_position + n ≤ b.write_position
    → readable (after_read n b) ≡ drop n (readable b)
unfolding readable
after_read-readable n b h there =
    let small = h.small in
    let inside = h.inside in
    let now = available_read_lem (after_read n b) (after_read-IsBuffer n b h there) in
    let before = available_read_lem b h in
    ap (λ k. take k (drop ((b.read_position + n) % 2 ^ 64) b.bytes)) {y = available_read b - n}
      (omega arith)
    ∙ ap (λ k. take (available_read b - n) (drop k b.bytes)) {y = b.read_position + n} (omega arith)
    ∙ ap (take (available_read b - n)) (drop_sum b.read_position n b.bytes)
    ∙ drop-take n (available_read b) (drop b.read_position b.bytes) (omega arith)
  where
    drop_sum : (r k : ℕ) (xs : List ℕ) → drop (r + k) xs ≡ drop k (drop r xs)
    drop_sum r k xs = sym (drop-drop k r xs)

-- A read is refused and changes nothing where there are fewer bytes; else it gives the first ones and
-- leaves the others. The positions stay in order inside the memory. For a buffer that is in order.
pub read-readable :
    (n : ℕ) (b : Buffer)
    → IsBuffer b
    → IsBuffer ((read n b).1)
      × (if leb n (available_read b)
          then ((read n b).0 ≡ some (take n (readable b)))
            × (readable ((read n b).1) ≡ drop n (readable b))
          else ((read n b).0 ≡ none) × ((read n b).1 ≡ b))
unfolding read readable
read-readable n b h = elim (Bool-cases (leb n (available_read b))) [
  | inl fits ↦
      (let accepted : ltb (available_read b) n ≡ false = ground arith in
        let before = h.behind in
        let there : b.read_position + n ≤ b.write_position =
          ground (arith, available_read_lem b h) in
        rw (fits, accepted)
          (
            after_read-IsBuffer n b h there,
            (
              ap some
                  (take-take n (available_read b) (drop b.read_position b.bytes) (ground arith)),
              after_read-readable n b h there,
            ),
          ))
  | inr large ↦
      (let refused : ltb (available_read b) n ≡ true = ground arith in
        rw (large, refused) (h, (refl, refl)))
]

pub length-readable : (b : Buffer) → IsBuffer b → length (readable b) ≡ available_read b
unfolding readable
length-readable b h =
    let before = h.behind in
    let inside = h.inside in
    let memory = h.memory in
    let there = available_read_lem b h in
    length-take (available_read b) (drop b.read_position b.bytes)
      (omega (arith, length-drop b.read_position b.bytes))
