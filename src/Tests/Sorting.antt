-- ===== src/Tests/Sorting.antt =====
-- Witness for Deduplicate of authorization_set.cpp: parameters in the order of their tags and words, sorted
-- by insertion.
use platform_system_keymaste.Common.{
  suc, ◌≡◌, refl, ap, ◌∙◌, Bool, true, false, List, [], ◌∷◌, All, arith, ltb, if◌then◌else◌, inl,
  inr, Bool-cases,
}
use platform_system_keymaste.Defs.{KeyParam, Tag}
use platform_system_keymaste.AuthSet.{AuthorizationSet}
use platform_system_keymaste.AuthSet.Order.{
  Comparison, below, alike, above, ParamOrder, deduplicate,
}
use platform_system_keymaste.AuthSet.Order.Unique.{
  count_if, IsUpTo, IsAscending, IsCompare, IsSort, IsUnique, deduplicate-IsUnique,
}
use platform_system_keymaste.Tests.{test_defs, test_set, test_param}

unfoldable compare_words : KeyParam → KeyParam → Comparison
compare_words x y =
    if ltb x.tag y.tag
    then below
    else if ltb y.tag x.tag
    then above
    else if ltb x.word y.word
    then below
    else if ltb y.word x.word
    then above
    else alike

compare_words-IsCompare : IsCompare compare_words
unfolding compare_words
compare_words-IsCompare = record {
  turned = λ x y h. ground arith;
  opposite = λ x y h. ground arith;
  transitive = λ x y z h k over. ground arith;
  antisymmetric = λ x y h k. ground arith;
  by_tag = λ x y h. ground arith;
}

abbrev is_above : Comparison → Bool
is_above above = true
is_above _ = false

unfoldable insert : KeyParam → List KeyParam → List KeyParam
insert x [] = x ∷ []
insert x (y ∷ ys) =
    let rest = insert x ys in if is_above (compare_words x y) then y ∷ rest else x ∷ y ∷ ys

unfoldable insertion_sort : List KeyParam → List KeyParam
unfolding insert
insertion_sort [] = []
insertion_sort (x ∷ xs) = insert x (insertion_sort xs)

insert-count_if :
    (p : KeyParam → Bool) (x : KeyParam) (ys : List KeyParam)
    → count_if p (insert x ys) ≡ count_if p (x ∷ ys)
unfolding insert
insert-count_if p x [] = refl
insert-count_if p x (y ∷ ys) = ground (arith, insert-count_if p x ys)

insert-All :
    (z x : KeyParam) (ys : List KeyParam)
    → IsUpTo compare_words z x
    → All (IsUpTo compare_words z) ys
    → All (IsUpTo compare_words z) (insert x ys)
unfolding insert
insert-All z x [] first rest = (first, tt)
insert-All z x (y ∷ ys) first (second, rest) =
    let inner = insert-All z x ys first rest in
    elim (Bool-cases (is_above (compare_words x y))) [
      | inl over ↦ rw over (second, inner)
      | inr low ↦ rw low (first, (second, rest))
    ]

All-IsUpTo :
    (x y : KeyParam) (ys : List KeyParam)
    → IsUpTo compare_words x y
    → All (IsUpTo compare_words y) ys
    → All (IsUpTo compare_words x) ys
All-IsUpTo x y [] low high = tt
All-IsUpTo x y (z ∷ zs) low (first, rest) =
    (compare_words-IsCompare.transitive x y z low first, All-IsUpTo x y zs low rest)

insert-IsAscending :
    (x : KeyParam) (ys : List KeyParam)
    → IsAscending compare_words ys
    → IsAscending compare_words (insert x ys)
unfolding insert
insert-IsAscending x [] up = (tt, tt)
insert-IsAscending x (y ∷ ys) (first, rest) =
    let inner = insert-IsAscending x ys rest in
    elim (Bool-cases (is_above (compare_words x y))) [
      | inl over ↦
          (let back : IsUpTo compare_words y x =
              λ h. ground (arith, compare_words-IsCompare.opposite x y) in
            rw over (insert-All y x ys back first, inner))
      | inr low ↦
          (let up : IsUpTo compare_words x y = λ h. ground arith in
            rw low ((up, All-IsUpTo x y ys up first), (first, rest)))
    ]

insertion_sort-count_if :
    (p : KeyParam → Bool) (xs : List KeyParam) → count_if p (insertion_sort xs) ≡ count_if p xs
unfolding insertion_sort
insertion_sort-count_if p [] = refl
insertion_sort-count_if p (x ∷ xs) =
    insert-count_if p x (insertion_sort xs)
    ∙ ap (λ n. if p x then suc n else n) (insertion_sort-count_if p xs)

insertion_sort-IsAscending : (xs : List KeyParam) → IsAscending compare_words (insertion_sort xs)
unfolding insertion_sort
insertion_sort-IsAscending [] = tt
insertion_sort-IsAscending (x ∷ xs) =
    insert-IsAscending x (insertion_sort xs) (insertion_sort-IsAscending xs)

insertion_sort-IsSort : IsSort compare_words insertion_sort
insertion_sort-IsSort = record {
  permutes = insertion_sort-count_if;
  ascends = insertion_sort-IsAscending;
}

abbrev word_order : ParamOrder
word_order = record { compare = λ bytes. compare_words; sorted = λ bytes. insertion_sort }

-- The purpose 1 twice.
abbrev repeated : AuthorizationSet
repeated =
    test_set
      (test_param Tag.purpose 1 ∷ test_param Tag.algorithm 32 ∷ test_param Tag.purpose 1 ∷ []) 3

deduplicate-IsUnique_example :
    IsUnique compare_words repeated.elems (deduplicate test_defs word_order repeated).elems
    × (deduplicate test_defs word_order repeated
        ≡ record repeated { elems = (deduplicate test_defs word_order repeated).elems })
deduplicate-IsUnique_example =
    deduplicate-IsUnique test_defs word_order repeated refl compare_words-IsCompare
      insertion_sort-IsSort
