-- ===== src/Enforcement/Tables/Counts.antt =====
-- AccessCountMap of keymaster_enforcement.cpp: what counting one use does.
use platform_system_keymaste.Common.{
  ℕ, ◌≤◌, ◌≡◌, refl, ◌≢◌, inl, inr, Bool, true, false, List, [], ◌∷◌, Option, none, some, ◌==◌,
  length, if◌then◌else◌, arith, Option-cases,
}
use platform_system_keymaste.Enforcement.{AccessCount, AccessCountMap}
use platform_system_keymaste.Enforcement.Tables.{
  increment, bump, add_count, increment_key_access_count,
}

-- The uses of a key that the table holds, 0 for a key without an entry.
abbrev pub uses : ℕ → List AccessCount → ℕ
uses keyid [] = 0
uses keyid (e ∷ es) = if e.keyid == keyid then e.access_count else uses keyid es

bump-uses :
    (keyid : ℕ) (es es' : List AccessCount)
    → bump keyid es ≡ some es'
    → (uses keyid es' ≡ increment (uses keyid es))
      × ((k : ℕ) → k ≢ keyid → uses k es' ≡ uses k es)
      × (length es' ≡ length es)
unfolding bump
bump-uses keyid [] es' h = ground arith
bump-uses keyid (e ∷ es) es' h = elim (Option-cases (bump keyid es)) [
  | inl missing ↦ ground arith
  | inr (rest, found) ↦ (let rec = bump-uses keyid es rest found in ground arith)
]

bump-missing : (keyid : ℕ) (es : List AccessCount) → bump keyid es ≡ none → uses keyid es ≡ 0
unfolding bump
bump-missing keyid [] h = refl
bump-missing keyid (e ∷ es) h = ground (arith, bump-missing keyid es)

-- What `IncrementKeyAccessCount` does to the counts, by its result.
abbrev pub Counts : AccessCountMap → ℕ → Bool × AccessCountMap → Type 0
Counts m keyid (true, m') =
    (uses keyid m'.access_count_list ≡ increment (uses keyid m.access_count_list))
    × ((k : ℕ) → k ≢ keyid → uses k m'.access_count_list ≡ uses k m.access_count_list)
Counts m keyid (false, m') =
    (m' ≡ m) × (m.max_size ≤ length m.access_count_list) × (uses keyid m.access_count_list ≡ 0)

add_count-Counts :
    (m : AccessCountMap) (keyid : ℕ) (o : Option (List AccessCount))
    → bump keyid m.access_count_list ≡ o
    → Counts m keyid (add_count m keyid o)
unfolding add_count
add_count-Counts m keyid none h =
    let zero_uses = bump-missing keyid m.access_count_list h in ground arith
add_count-Counts m keyid (some es) h =
    let counted = bump-uses keyid m.access_count_list es h in (counted.0, counted.1)

pub increment_key_access_count-Counts :
    (m : AccessCountMap) (keyid : ℕ) → Counts m keyid (increment_key_access_count m keyid)
unfolding increment_key_access_count
increment_key_access_count-Counts m keyid =
    add_count-Counts m keyid (bump keyid m.access_count_list) refl

add_count-fits :
    (m : AccessCountMap) (keyid : ℕ) (o : Option (List AccessCount))
    → bump keyid m.access_count_list ≡ o
    → length m.access_count_list ≤ m.max_size
    → ((add_count m keyid o).1.max_size ≡ m.max_size)
      × (length ((add_count m keyid o).1.access_count_list) ≤ m.max_size)
unfolding add_count
add_count-fits m keyid none h fits = ground arith
add_count-fits m keyid (some es) h fits =
    (refl, omega (arith, (bump-uses keyid m.access_count_list es h).2))

-- Counting a use in a table within its size adds one to the key's uses, kept below 2^64, leaves those
-- of every other key, and keeps the table within its size; it fails only for a key that has no uses in
-- a table that is full, and changes nothing then.
pub increment_key_access_count-IsCounted :
    (m : AccessCountMap) (keyid : ℕ)
    → length m.access_count_list ≤ m.max_size
    → Counts m keyid (increment_key_access_count m keyid)
      × ((increment_key_access_count m keyid).1.max_size ≡ m.max_size)
      × (length ((increment_key_access_count m keyid).1.access_count_list) ≤ m.max_size)
unfolding increment_key_access_count
increment_key_access_count-IsCounted m keyid fits =
    let bound = add_count-fits m keyid (bump keyid m.access_count_list) refl fits in
    (increment_key_access_count-Counts m keyid, bound.0, bound.1)
