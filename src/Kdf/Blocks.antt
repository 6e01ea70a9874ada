-- ===== src/Kdf/Blocks.antt =====
-- Outputs that are cut from a sequence of blocks of the same size.
use platform_system_keymaste.Common.{
  ℕ, zero, suc, ◌+◌, ◌-◌, ◌*◌, ◌^◌, ◌≤◌, ◌⊎◌, ◌≡◌, refl, ap, sym, ◌∙◌, List, [], ◌∷◌, ◌++◌, arith,
  length, take, ltb, inl, inr, Bool-cases,
}
use native.Mathlib.Nat.{add-mul}
use platform_system_keymaste.Kdf.{num_blocks, block_length}

-- The blocks `i`, `i + 1` and so on, `n` of them.
abbrev pub blocks : (ℕ → List ℕ) → ℕ → ℕ → List ℕ
blocks f zero i = []
blocks f (suc n) i = f i ++ blocks f n (i + 1)

pub take-cut : (k : ℕ) (xs ys : List ℕ) → take k (xs ++ ys) ≡ take k xs ++ take (k - length xs) ys
take-cut zero xs ys = ap (λ n. take n ys) {x = zero} (omega arith)
take-cut (suc k) [] ys = ap (λ n. take n ys) {x = suc k} (omega arith)
take-cut (suc k) (x ∷ xs) ys =
    ap (◌∷◌ x) (take-cut k xs ys ∙ ap (λ n. take k xs ++ take n ys) (omega arith))

pub take_whole : (n : ℕ) (xs : List ℕ) → length xs ≤ n → take n xs ≡ xs
take_whole zero [] h = refl
take_whole (suc n) [] h = refl
take_whole zero (x ∷ xs) h = absurd (omega arith)
take_whole (suc n) (x ∷ xs) h = ap (◌∷◌ x) (take_whole n xs (omega arith))

pub take-block_length :
    (output_len size i : ℕ) (xs : List ℕ)
    → length xs ≡ size
    → take (block_length output_len size i) xs ≡ take (output_len - i * size) xs
unfolding block_length
take-block_length output_len size i xs sized =
    elim (Bool-cases (ltb size (output_len - i * size))) [
      | inr last ↦ rw last refl
      | inl more ↦ rw more (
          take_whole size xs (omega arith)
          ∙ sym (take_whole (output_len - i * size) xs (ground arith)))
    ]

-- A block and what follows it, cut to the output.
pub take-blocks :
    (f : ℕ → List ℕ) (output_len size n i : ℕ)
    → length (f i) ≡ size
    → take (block_length output_len size i) (f i)
        ++ take (output_len - (i + 1) * size) (blocks f n (i + 1))
      ≡ take (output_len - i * size) (blocks f (suc n) i)
take-blocks f output_len size n i sized =
    ap (λ xs. xs ++ take (output_len - (i + 1) * size) (blocks f n (i + 1)))
      (take-block_length output_len size i (f i) sized)
    ∙ ap (λ k. take (output_len - i * size) (f i) ++ take k (blocks f n (i + 1))) (left)
    ∙ sym (take-cut (output_len - i * size) (f i) (blocks f n (i + 1)))
  where
    left : output_len - (i + 1) * size ≡ output_len - i * size - length (f i)
    left = let e = add-mul i 1 size in omega (arith, e, sized)

-- The blocks cover the output.
pub num_blocks-cover :
    (output_len size : ℕ)
    → (size ≡ 20) ⊎ (size ≡ 32)
    → output_len + size ≤ 2 ^ 64
    → output_len ≤ num_blocks output_len size * size
unfolding num_blocks
num_blocks-cover output_len size (inl twenty) low = rw twenty (omega (arith, twenty))
num_blocks-cover output_len size (inr thirty_two) low = rw thirty_two (omega (arith, thirty_two))
