-- ===== src/AuthSet/Order/Unique.antt =====
-- authorization_set.cpp: after Deduplicate a set has every valid parameter once.
use platform_system_keymaste.Common.{
  ℕ, suc, ◌≤◌, ◌==◌, ◌≡◌, ◌≢◌, refl, ap, sym, subst, ◌∙◌, inl, inr, Bool, true, false, List, [],
  ◌∷◌, drop, All, arith, if◌then◌else◌, Bool-cases, ==_iff,
}
use platform_system_keymaste.Defs.{KeymasterDefs, KeyParam, Tag}
use platform_system_keymaste.AuthSet.{AuthorizationSet}
use platform_system_keymaste.AuthSet.Order.{
  Comparison, below, alike, above, is_alike, ParamOrder, sort, mark_from, mark, deduplicate,
}

-- How many elements pass a test.
abbrev pub count_if : (KeyParam → Bool) → List KeyParam → ℕ
count_if p [] = 0
count_if p (x ∷ xs) = let rest = count_if p xs in if p x then suc rest else rest

abbrev pub IsUpTo : (KeyParam → KeyParam → Comparison) → KeyParam → KeyParam → Type 0
IsUpTo compare x y = compare x y ≢ above

abbrev pub IsAscending : (KeyParam → KeyParam → Comparison) → List KeyParam → Type 0
IsAscending compare [] = Unit
IsAscending compare (x ∷ xs) = All (IsUpTo compare x) xs × IsAscending compare xs

-- keymaster_param_compare is a total preorder that looks at the tags first.
pub record IsCompare (compare : KeyParam → KeyParam → Comparison) : Type 0 where
  pub turned : (x y : KeyParam) → compare x y ≡ alike → compare y x ≡ alike
  pub opposite : (x y : KeyParam) → compare x y ≡ above → compare y x ≡ below
  pub transitive : (x y z : KeyParam) → IsUpTo compare x y → IsUpTo compare y z → IsUpTo compare x z
  pub antisymmetric :
      (x y : KeyParam) → IsUpTo compare x y → IsUpTo compare y x → compare x y ≡ alike
  pub by_tag : (x y : KeyParam) → IsUpTo compare x y → x.tag ≤ y.tag

-- qsort permutes the elements and puts them in ascending order.
pub record IsSort (compare : KeyParam → KeyParam → Comparison)
    (sorted : List KeyParam → List KeyParam) : Type 0 where
  pub permutes : (p : KeyParam → Bool) (xs : List KeyParam) → count_if p (sorted xs) ≡ count_if p xs
  pub ascends : (xs : List KeyParam) → IsAscending compare (sorted xs)

-- One if there are any.
abbrev pub once : ℕ → ℕ
once n = if n == 0 then 0 else 1

abbrev pub invalid : KeyParam → Bool
invalid x = x.tag == 0

-- No element is invalid, and of any valid parameter one element like it is there if there was one before.
abbrev pub IsUnique : (KeyParam → KeyParam → Comparison) → List KeyParam → List KeyParam → Type 0
IsUnique compare before after =
    (count_if invalid after ≡ 0)
    × ((x : KeyParam)
        → x.tag ≢ 0
        → count_if (λ y. is_alike (compare x y)) after
          ≡ once (count_if (λ y. is_alike (compare x y)) before))

module _ (compare : KeyParam → KeyParam → Comparison) (fine : IsCompare compare) where
  -- The elements that are like `x`.
  abbrev like : KeyParam → KeyParam → Bool
  like x y = is_alike (compare x y)

  is_alike-eq : (c : Comparison) → is_alike c ≡ true → c ≡ alike
  is_alike-eq c h = ground arith

  alike-IsUpTo : (x y : KeyParam) → compare x y ≡ alike → IsUpTo compare x y
  alike-IsUpTo x y same over = ground arith

  IsUpTo-refl : (y : KeyParam) → IsUpTo compare y y
  IsUpTo-refl y over = ground (arith, fine.opposite y y over)

  alike_trans : (x y z : KeyParam) → compare x y ≡ alike → compare y z ≡ alike → compare x z ≡ alike
  alike_trans x y z h k =
      fine.antisymmetric x z (fine.transitive x y z (alike-IsUpTo x y h) (alike-IsUpTo y z k)) (
        fine.transitive z y x (alike-IsUpTo z y (fine.turned y z k))
          (alike-IsUpTo y x (fine.turned x y h)))

  -- A valid parameter is like no invalid one.
  unlike_invalid : (x z : KeyParam) → x.tag ≢ 0 → z.tag ≡ 0 → like x z ≡ false
  unlike_invalid x z nonzero zero_z = elim (Bool-cases (like x z)) [
    | inr unlike ↦ unlike
    | inl same ↦
        (let low = fine.by_tag x z (alike-IsUpTo x z (is_alike-eq _ same)) in
          absurd (nonzero (omega arith)))
  ]

  -- What lies at or above `y`, which is above an element like `x`, is not like `x`.
  unlike_above :
      (x at y z : KeyParam)
      → like x at ≡ true
      → IsUpTo compare at y
      → like at y ≡ false
      → IsUpTo compare y z
      → like x z ≡ false
  unlike_above x at y z same up unlike high = elim (Bool-cases (like x z)) [
    | inr differs ↦ differs
    | inl also ↦
        (let back =
            alike_trans z x at (fine.turned x z (is_alike-eq _ also)) (is_alike-eq _ same) in
          let e =
            fine.antisymmetric at y up (fine.transitive y z at high (alike-IsUpTo z at back)) in
          absurd (ground (arith, e)))
  ]

  count-unlike :
      (x at y : KeyParam) (zs : List KeyParam)
      → like x at ≡ true
      → IsUpTo compare at y
      → like at y ≡ false
      → All (IsUpTo compare y) zs
      → count_if (like x) zs ≡ 0
  count-unlike x at y [] same up unlike high = refl
  count-unlike x at y (z ∷ zs) same up unlike (first, rest) =
      rw (unlike_above x at y z same up unlike first) (count-unlike x at y zs same up unlike rest)

  mark_from-once :
      (x at : KeyParam) (ys : List KeyParam)
      → x.tag ≢ 0
      → IsAscending compare (at ∷ ys)
      → count_if (like x) (mark_from 0 compare at ys).0 ≡ once (count_if (like x) (at ∷ ys))
  unfolding mark_from
  mark_from-once x at [] nonzero up = ground arith
  mark_from-once x at (y ∷ ys) nonzero ((first, above_at), up) =
      let rest = mark_from-once x y ys nonzero up in
      elim (Bool-cases (invalid at)) [
        | inl bad ↦ rw (bad, unlike_invalid x at nonzero ((==_iff at.tag 0).0 bad)) rest
        | inr good ↦ (elim (Bool-cases (like at y)) [
          | inl twice ↦
              rw (good, twice, unlike_invalid x (record at { tag = 0 }) nonzero refl)
                (elim (Bool-cases (like x at)) [
                  | inr differs ↦ rw differs rest
                  | inl same ↦
                      (let also = alike_trans x at y (is_alike-eq _ same) (is_alike-eq _ twice) in
                        ground (arith, also))
                ])
          | inr unlike ↦
              rw (good, unlike)
                (elim (Bool-cases (like x at)) [
                  | inr differs ↦ rw differs rest
                  | inl same ↦
                      (let none_first = unlike_above x at y y same first unlike (IsUpTo-refl y) in
                        let none_rest = count-unlike x at y ys same first unlike up.0 in
                        ground arith)
                ])
        ])
      ]

  mark_from-count :
      (at : KeyParam) (ys : List KeyParam)
      → count_if invalid (mark_from 0 compare at ys).0 ≡ (mark_from 0 compare at ys).1
  unfolding mark_from
  mark_from-count at [] = ground arith
  mark_from-count at (y ∷ ys) = let rest = mark_from-count y ys in ground arith

  mark_from-none :
      (at : KeyParam) (ys : List KeyParam)
      → (mark_from 0 compare at ys).1 ≡ 0
      → (mark_from 0 compare at ys).0 ≡ at ∷ ys
  unfolding mark_from
  mark_from-none at [] h = refl
  mark_from-none at (y ∷ ys) h = ground (arith, mark_from-none y ys)

  valid_above :
      (x : KeyParam) (ys : List KeyParam)
      → invalid x ≡ false
      → All (IsUpTo compare x) ys
      → count_if invalid ys ≡ 0
  valid_above x [] good up = refl
  valid_above x (y ∷ ys) good (first, rest) =
      let low = fine.by_tag x y first in
      let none_bad : invalid y ≡ false = ground (arith, ==_iff y.tag 0, ==_iff x.tag 0) in
      rw none_bad (valid_above x ys good rest)

  -- In ascending order the invalid elements come first.
  drop-invalid :
      (p : KeyParam → Bool) (xs : List KeyParam)
      → ((y : KeyParam) → invalid y ≡ true → p y ≡ false)
      → IsAscending compare xs
      → count_if p (drop (count_if invalid xs) xs) ≡ count_if p xs
  drop-invalid p [] apart up = refl
  drop-invalid p (x ∷ xs) apart (first, up) = elim (Bool-cases (invalid x)) [
    | inl bad ↦ rw (bad, apart x bad) (drop-invalid p xs apart up)
    | inr good ↦ rw (good, valid_above x xs good first) refl
  ]

  drop_valid :
      (xs : List KeyParam)
      → IsAscending compare xs
      → count_if invalid (drop (count_if invalid xs) xs) ≡ 0
  drop_valid [] up = refl
  drop_valid (x ∷ xs) (first, up) = elim (Bool-cases (invalid x)) [
    | inl bad ↦ rw bad (drop_valid xs up)
    | inr good ↦ rw (good, valid_above x xs good first) (rw good (valid_above x xs good first))
  ]

  module _ (sorted : List KeyParam → List KeyParam) (sorts : IsSort compare sorted) where
    marked-IsUnique :
        (xs ys : List KeyParam) (n : ℕ)
        → count_if invalid ys ≡ n
        → ((x : KeyParam) → x.tag ≢ 0 → count_if (like x) ys ≡ once (count_if (like x) xs))
        → IsUnique compare xs (drop n (sorted ys))
    marked-IsUnique xs ys n bad same =
        let total = sorts.permutes invalid ys ∙ bad in
        (
          subst (λ k. count_if invalid (drop k (sorted ys)) ≡ 0) total
              (drop_valid (sorted ys) (sorts.ascends ys)),
          λ x nonzero.
              subst (λ k. count_if (like x) (drop k (sorted ys)) ≡ count_if (like x) (sorted ys))
                total
                (drop-invalid (like x) (sorted ys)
                  (λ y bad_y. unlike_invalid x y nonzero ((==_iff y.tag 0).0 bad_y))
                  (sorts.ascends ys))
              ∙ sorts.permutes (like x) ys
              ∙ same x nonzero,
        )

    abbrev pub deduplicated : List KeyParam → List KeyParam
    deduplicated xs =
        let (ys, n) = mark 0 compare (sorted xs) in if n == 0 then sorted xs else drop n (sorted ys)

    pub deduplicated-IsUnique : (xs : List KeyParam) → IsUnique compare xs (deduplicated xs)
    unfolding mark
    deduplicated-IsUnique xs = by_list (sorted xs) refl (sorts.ascends xs)
      where
        by_list :
            (zs : List KeyParam)
            → sorted xs ≡ zs
            → IsAscending compare zs
            → IsUnique compare xs
                (let (ys, n) = mark 0 compare zs in if n == 0 then zs else drop n (sorted ys))
        by_list [] e up = (
          refl,
          λ x nonzero. sym (ap once (sym (sorts.permutes (like x) xs) ∙ ap (count_if (like x)) e)),
        )
        by_list (z ∷ zs) e up = elim (Bool-cases (n == 0)) [
          | inr some_bad ↦ rw some_bad (marked-IsUnique xs ys n (mark_from-count z zs) kept)
          | inl no_bad ↦
              (let zero_n = (==_iff n 0).0 no_bad in
                let same = mark_from-none z zs zero_n in
                rw no_bad (
                  ap (count_if invalid) (sym same) ∙ mark_from-count z zs ∙ zero_n,
                  λ x nonzero. ap (count_if (like x)) (sym same) ∙ kept x nonzero,
                ))
        ]
          where
            ys : List KeyParam
            ys = (mark_from 0 compare z zs).0

            n : ℕ
            n = (mark_from 0 compare z zs).1

            kept : (x : KeyParam) → x.tag ≢ 0 → count_if (like x) ys ≡ once (count_if (like x) xs)
            kept x nonzero =
                mark_from-once x z zs nonzero up
                ∙ ap once (ap (count_if (like x)) (sym e) ∙ sorts.permutes (like x) xs)

-- `Deduplicate` leaves no invalid element, and of any valid parameter one like it if there was one and
-- none else; all other fields of the set stay. For KM_TAG_INVALID 0, a comparison that is a total preorder
-- by the tags first, and a sort that permutes into ascending order.
pub deduplicate-IsUnique :
    (d : KeymasterDefs) (q : ParamOrder) (s : AuthorizationSet)
    → d.tag_value Tag.invalid ≡ 0
    → IsCompare (q.compare s.indirect_data)
    → IsSort (q.compare s.indirect_data) (q.sorted s.indirect_data)
    → IsUnique (q.compare s.indirect_data) s.elems (deduplicate d q s).elems
      × (deduplicate d q s ≡ record s { elems = (deduplicate d q s).elems })
unfolding deduplicate sort
deduplicate-IsUnique d q s zero_tag fine sorts =
    subst
      (λ tag.
        IsUnique compare s.elems (result tag).elems
        × (result tag ≡ record s { elems = (result tag).elems }))
      (sym zero_tag)
      (by_count (count 0 == 0) (deduplicated-IsUnique compare fine sorted sorts s.elems))
  where
    compare : KeyParam → KeyParam → Comparison
    compare = q.compare s.indirect_data

    sorted : List KeyParam → List KeyParam
    sorted = q.sorted s.indirect_data

    marked : ℕ → List KeyParam
    marked tag = (mark tag compare (sorted s.elems)).0

    count : ℕ → ℕ
    count tag = (mark tag compare (sorted s.elems)).1

    chosen : Bool → ℕ → AuthorizationSet
    chosen b tag =
        if b
        then record s { elems = sorted s.elems }
        else record s { elems = drop (count tag) (sorted (marked tag)) }

    result : ℕ → AuthorizationSet
    result tag = chosen (count tag == 0) tag

    by_count :
        (b : Bool)
        → IsUnique compare s.elems
            (if b then sorted s.elems else drop (count 0) (sorted (marked 0)))
        → IsUnique compare s.elems (chosen b 0).elems
          × (chosen b 0 ≡ record s { elems = (chosen b 0).elems })
    by_count true unique = (unique, refl)
    by_count false unique = (unique, refl)
