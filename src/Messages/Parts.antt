-- ===== src/Messages/Parts.antt =====
-- A part of a message: what is written of it, its size, and what reads it. Parts compose to messages.
use platform_system_keymaste.Common.{
  ℕ, ◌+◌, ◌<◌, ◌^◌, ◌≡◌, refl, ap, ◌∙◌, List, [], ◌++◌, some, arith, length, length-append,
  append_assoc, append-nil,
}
use platform_system_keymaste.Serial.{Writer, cursor, Read, ◌>>=◌, give}
use platform_system_keymaste.Serial.Laws.{Writes, Writes-then, empty_writer}
use platform_system_keymaste.Messages.{Serializable}

-- `m` takes exactly `xs` off the input below 2 ^ 63, whatever follows, and gives `v`.
abbrev pub Takes : {A : Type 0} → Read A → List ℕ → A → Type 0
Takes m xs v =
    (addr : ℕ) (rest : List ℕ)
    → addr + length (xs ++ rest) < 2 ^ 63
    → m (cursor addr (xs ++ rest)) ≡ (some v, cursor (addr + length xs) rest)

pub record Part {A : Type 0} (f : Writer → Writer) (n : ℕ) (m : Read A) (v : A) : Type 0 where
  pub image : List ℕ
  pub sized : length image ≡ n
  pub writes : Writes f image
  pub reads : Takes m image v

pub Part-then :
    {A B : Type 0} {f g : Writer → Writer} {n k : ℕ} {m : Read A} {v : A} (h : A → Read B) {u : B}
    → Part f n m v
    → Part g k (h v) u
    → Part (λ w. g (f w)) (n + k) (m >>= h) u
Part-then {f = f} {g = g} {n = n} {k = k} {m = m} {v = v} h {u = u} p q = record {
  image = p.image ++ q.image;
  sized = omega (arith, length-append p.image q.image, p.sized, q.sized);
  writes = Writes-then f g p.image q.image p.writes q.writes;
  reads = taken;
}
  where
    taken : Takes (m >>= h) (p.image ++ q.image) u
    taken addr rest low =
        let e = length-append p.image q.image in
        let e2 = length-append (p.image ++ q.image) rest in
        let e3 = length-append q.image rest in
        let e4 = length-append p.image (q.image ++ rest) in
        rw (append_assoc p.image q.image rest, p.reads addr (q.image ++ rest) (omega arith))
          (q.reads (addr + length p.image) rest (omega arith)
            ∙ ap (λ a. (some u, cursor a rest)) (omega arith))

pub Part-give : {A : Type 0} (v : A) → Part (λ w. w) 0 (give v) v
Part-give v = record {
  image = [];
  sized = refl;
  writes = λ w h k. ground (arith, append-nil w.out);
  reads = λ addr rest low. ap (λ a. (some v, cursor a rest)) (omega arith);
}

-- A size may be written in another way, and the value that is read as well.
pub Part-same :
    {A : Type 0} {f : Writer → Writer} {n k : ℕ} {m : Read A} {v u : A}
    → Part f n m v
    → n ≡ k
    → v ≡ u
    → Part f k m u
Part-same {f = f} {m = m} p e e2 = record {
  image = p.image;
  sized = p.sized ∙ e;
  writes = p.writes;
  reads = λ addr rest low.
      p.reads addr rest low ∙ ap (λ a. (some a, cursor (addr + length p.image) rest)) e2;
}

-- A message is a part that its own methods write, measure and read.
abbrev pub Carries : {A : Type 0} → Serializable A → A → A → Type 0
Carries c m received = Part (c.serialize m) (c.size m) c.deserialize received

-- A buffer of `SerializedSize()` bytes at `base` is filled exactly, and what has been written is read
-- back from the address `addr` as `received`, leaving what follows.
abbrev pub IsExchanged : {A : Type 0} → Serializable A → A → A → ℕ → ℕ → List ℕ → Type 0
IsExchanged c m received base addr rest =
    let w = c.serialize m (empty_writer base (c.size m)) in
    (w.buf ≡ base + c.size m)
    × (length w.out ≡ c.size m)
    × (c.deserialize (cursor addr (w.out ++ rest)) ≡ (some received, cursor (addr + c.size m) rest))

pub Carries-IsExchanged :
    {A : Type 0} (c : Serializable A) (m received : A) (base addr : ℕ) (rest : List ℕ)
    → Carries c m received
    → base + c.size m < 2 ^ 64
    → addr + (c.size m + length rest) < 2 ^ 63
    → IsExchanged c m received base addr rest
Carries-IsExchanged c m received base addr rest p low below =
    let e = p.sized in
    let e2 = length-append p.image rest in
    rw (p.writes (empty_writer base (c.size m)) (omega arith) low) (
      omega arith,
      e,
      p.reads addr rest (omega arith) ∙ ap (λ n. (some received, cursor (addr + n) rest)) e,
    )
