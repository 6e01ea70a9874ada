-- ===== src/OperationTable/Laws.antt =====
-- operation_table.cpp: the table as a map from handles to operations.
use platform_system_keymaste.Common.{
  ℕ, ◌==◌, ◌≡◌, ◌≢◌, ◌⊎◌, inl, inr, refl, ap, sym, subst, ◌∙◌, suc, ==_iff, List, [], ◌∷◌, none,
  some, arith, length, Bool-cases, Option-cases, All, ==_refl,
}
use platform_system_keymaste.OperationTable.{
  Entry, OperationTable, empty_entry, place, find_entry, clear_entry,
}

module _ {A : Type 0} where
  -- The handles in use are pairwise different, and an entry without an operation has the handle 0.
  abbrev pub Unused : ℕ → List (Entry A) → Type 0
  Unused h = All (λ e. e.handle ≢ h)

  abbrev pub AreDistinct : List (Entry A) → Type 0
  AreDistinct [] = Unit
  AreDistinct (e ∷ es) =
      (((e.handle ≡ 0) × (e.operation ≡ none))
        ⊎ ((e.handle ≢ 0) × Unused e.handle es × ((op : A) × (e.operation ≡ some op))))
      × AreDistinct es

  abbrev pub IsTable : OperationTable A → Type 0
  IsTable t = elim t.table [ none ↦ Unit | some es ↦ AreDistinct es × (length es ≡ t.table_size) ]

  -- What placing an operation does to the list.
  abbrev pub Placed : ℕ → A → List (Entry A) → List (Entry A) → Type 0
  Placed h op es es' =
      (find_entry h es' ≡ some op)
      × ((k : ℕ) → k ≢ h → k ≢ 0 → find_entry k es' ≡ find_entry k es)
      × (length es' ≡ length es)
      × ((k : ℕ) → k ≢ h → Unused k es → Unused k es')
      × AreDistinct es'

  pub place-Placed :
      (h : ℕ) (op : A) (es es' : List (Entry A))
      → place h op es ≡ some es'
      → h ≢ 0
      → AreDistinct es
      → Unused h es
      → Placed h op es es'
  unfolding place find_entry
  place-Placed h op [] es' eq h0 distinct fresh = ground arith
  place-Placed h op (e ∷ es) es' eq h0 (inl (zero_handle, empty), rest) (differs, fresh) =
      subst (Placed h op (e ∷ es))
        (let same : record { handle = h; operation = some op } ∷ es ≡ es' = ground arith in same)
        (
          rw (==_refl h) refl,
          λ k other nonzero. ground arith,
          refl,
          λ k other (x, y). (λ same. other (sym same), y),
          (inr (h0, fresh, (op, refl)), rest),
        )
  place-Placed h op (e ∷ es) es' eq h0 (inr (nonzero, unused, held), rest) (differs, fresh) =
      elim (Option-cases (place h op es)) [
        | inl full ↦ ground arith
        | inr (es1, found) ↦
            (let rec = place-Placed h op es es1 found h0 rest fresh in
              subst (Placed h op (e ∷ es)) (let same : e ∷ es1 ≡ es' = ground arith in same) (
                (let miss : find_entry h es1 ≡ find_entry h (e ∷ es1) = ground arith in
                    sym miss ∙ rec.0),
                λ k other positive. rw (rec.1 k other positive) refl,
                ap suc rec.2,
                λ k other (x, y). (x, rec.3 k other y),
                (inr (nonzero, rec.3 e.handle differs unused, held), rec.4),
              ))
      ]

  -- What removing an operation does to the list.
  abbrev pub Cleared : ℕ → List (Entry A) → List (Entry A) → Type 0
  Cleared h es es' =
      (find_entry h es' ≡ none)
      × ((k : ℕ) → k ≢ h → k ≢ 0 → find_entry k es' ≡ find_entry k es)
      × (length es' ≡ length es)
      × ((k : ℕ) → k ≢ 0 → Unused k es → Unused k es')
      × AreDistinct es'

  pub find-Unused : (h : ℕ) (es : List (Entry A)) → Unused h es → find_entry h es ≡ none
  unfolding find_entry
  find-Unused h [] unused = refl
  find-Unused h (e ∷ es) (differs, unused) = ground (arith, find-Unused h es unused)

  pub clear_entry-Cleared :
      (h : ℕ) (es es' : List (Entry A))
      → clear_entry h es ≡ some es'
      → h ≢ 0
      → AreDistinct es
      → Cleared h es es'
  unfolding clear_entry find_entry
  clear_entry-Cleared h [] es' eq h0 distinct = ground arith
  clear_entry-Cleared h (e ∷ es) es' eq h0 (this, rest) = elim (Bool-cases (e.handle == h)) [
    | inl hit ↦
        (let at_h = (==_iff e.handle h).0 hit in
          subst (Cleared h (e ∷ es)) (let same : empty_entry ∷ es ≡ es' = ground arith in same) (
            (let miss : find_entry h es ≡ find_entry h (empty_entry ∷ es) = ground arith in
                sym miss ∙ find-Unused h es (unused_lem this at_h)),
            λ k other positive. ground arith,
            refl,
            λ k positive (x, y). (λ same. positive (sym same), y),
            (inl (refl, refl), rest),
          ))
    | inr miss ↦ (elim (Option-cases (clear_entry h es)) [
      | inl absent ↦ ground arith
      | inr (es1, found) ↦
          (let rec = clear_entry-Cleared h es es1 found h0 rest in
            subst (Cleared h (e ∷ es)) (let same : e ∷ es1 ≡ es' = ground arith in same) (
              rw miss rec.0,
              λ k other positive. rw (rec.1 k other positive) refl,
              ap suc rec.2,
              λ k positive (x, y). (x, rec.3 k positive y),
              (still es1 this (rec.3 e.handle), rec.4),
            ))
    ])
  ]
    where
      unused_lem :
          ((e.handle ≡ 0) × (e.operation ≡ none))
            ⊎ ((e.handle ≢ 0) × Unused e.handle es × ((op : A) × (e.operation ≡ some op)))
          → e.handle ≡ h
          → Unused h es
      unused_lem (inl (zero_handle, none_op)) same = absurd (h0 (sym same ∙ zero_handle))
      unused_lem (inr (nonzero, unused, held)) same = subst (λ k. Unused k es) same unused

      still :
          (es1 : List (Entry A))
          → ((e.handle ≡ 0) × (e.operation ≡ none))
            ⊎ ((e.handle ≢ 0) × Unused e.handle es × ((op : A) × (e.operation ≡ some op)))
          → (e.handle ≢ 0 → Unused e.handle es → Unused e.handle es1)
          → ((e.handle ≡ 0) × (e.operation ≡ none))
            ⊎ ((e.handle ≢ 0) × Unused e.handle es1 × ((op : A) × (e.operation ≡ some op)))
      still es1 (inl x) f = inl x
      still es1 (inr (nonzero, unused, held)) f = inr (nonzero, f nonzero unused, held)
