-- ===== src/OperationTable/Write.antt =====
-- operation_table.cpp: the object behind a pointer that Find gave, changed in its entry.
use platform_system_keymaste.Common.{
  ℕ, suc, ◌==◌, ◌≡◌, ◌≢◌, ◌⊎◌, inl, inr, refl, ap, sym, ◌∙◌, false, List, [], ◌∷◌, Option, none,
  some, arith, length, Bool-cases, ==_iff,
}
use platform_system_keymaste.OperationTable.{
  Entry, OperationTable, find_entry, find, write_entry, write_back,
}
use platform_system_keymaste.OperationTable.Laws.{Unused, AreDistinct, IsTable}
use platform_system_keymaste.OperationTable.Map.{Updates, stored, list-Updates}

module _ {A : Type 0} where
  write_entry-Placed :
      (h : ℕ) (op old : A) (es : List (Entry A))
      → h ≢ 0
      → find_entry h es ≡ some old
      → AreDistinct es
      → (find_entry h (write_entry h op es) ≡ some op)
        × ((k : ℕ) → k ≢ h → find_entry k (write_entry h op es) ≡ find_entry k es)
        × (length (write_entry h op es) ≡ length es)
        × ((k : ℕ) → Unused k es → Unused k (write_entry h op es))
        × AreDistinct (write_entry h op es)
  unfolding find_entry write_entry
  write_entry-Placed h op old [] nonzero found distinct = ground arith
  write_entry-Placed h op old (e ∷ es) nonzero found (this, rest) =
      elim (Bool-cases (e.handle == h)) [
        | inl hit ↦ rw hit (
          rw hit refl,
          λ k other. ground arith,
          refl,
          λ k unused. unused,
          (held this ((==_iff e.handle h).0 hit), rest),
        )
        | inr miss ↦
            (let rec = write_entry-Placed h op old es nonzero (found_later miss found) rest in
              rw miss (
                rw miss rec.0,
                λ k other. rw (rec.1 k other) refl,
                ap suc rec.2,
                λ k (x, y). (x, rec.3 k y),
                (still this (rec.3 e.handle), rec.4),
              ))
      ]
    where
      found_later :
          (e.handle == h) ≡ false → find_entry h (e ∷ es) ≡ some old → find_entry h es ≡ some old
      found_later m f = ground arith

      held :
          ((e.handle ≡ 0) × (e.operation ≡ none))
            ⊎ ((e.handle ≢ 0) × Unused e.handle es × ((x : A) × (e.operation ≡ some x)))
          → e.handle ≡ h
          → ((e.handle ≡ 0) × (some op ≡ none))
            ⊎ ((e.handle ≢ 0) × Unused e.handle es × ((x : A) × (some op ≡ some x)))
      held (inl (zero_handle, empty)) same = absurd (nonzero (sym same ∙ zero_handle))
      held (inr (positive, unused, h')) same = inr (positive, unused, (op, refl))

      still :
          ((e.handle ≡ 0) × (e.operation ≡ none))
            ⊎ ((e.handle ≢ 0) × Unused e.handle es × ((x : A) × (e.operation ≡ some x)))
          → (Unused e.handle es → Unused e.handle (write_entry h op es))
          → ((e.handle ≡ 0) × (e.operation ≡ none))
            ⊎ ((e.handle ≢ 0)
                × Unused e.handle (write_entry h op es)
                × ((x : A) × (e.operation ≡ some x)))
      still (inl x) f = inl x
      still (inr (positive, unused, h')) f = inr (positive, f unused, h')

  -- Writing the operation of a handle in use.
  pub write_back-Updates :
      (h : ℕ) (op old : A) (t : OperationTable A)
      → find h t ≡ some old
      → IsTable t
      → Updates h (some op) t (write_back h op t)
  unfolding write_back find
  write_back-Updates h op old t found valid_t = by_table t.table found valid_t
    where
      nonzero : (es : List (Entry A)) → find h (stored t.table_size es) ≡ some old → h ≢ 0
      nonzero es f same = ground arith

      entry :
          (es : List (Entry A))
          → find h (stored t.table_size es) ≡ some old
          → find_entry h es ≡ some old
      entry es f = ground arith

      by_table :
          (o : Option (List (Entry A)))
          → find h (record t { table = o }) ≡ some old
          → IsTable (record t { table = o })
          → Updates h (some op) (record t { table = o }) (write_back h op (record t { table = o }))
      by_table none f v = ground arith
      by_table (some es) f (distinct, size) =
          let written = write_entry-Placed h op old es (nonzero es f) (entry es f) distinct in
          list-Updates h t.table_size (some op) es (write_entry h op es) (nonzero es f) written.0
            (λ k other positive. written.1 k other) written.2 size written.4
