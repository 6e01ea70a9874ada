-- ===== src/OperationTable/Adding.antt =====
-- operation_table.cpp: what Add does to the table on each of its branches.
use platform_system_keymaste.Common.{
  ℕ, ◌==◌, ◌≡◌, inl, inr, refl, ◌∙◌, Bool, true, false, List, Option, none, some, replicate, length,
  length-replicate, Bool-cases, Option-cases, if◌then◌else◌,
}
use platform_system_keymaste.Defs.{KeymasterError, is_ok}
use platform_system_keymaste.OperationTable.{
  Entry, OperationTable, Random, random, rand_failed, empty_entry, place, add_to, add, find,
}
use platform_system_keymaste.OperationTable.Laws.{AreDistinct, IsTable}
use platform_system_keymaste.OperationTable.Map.{
  Updates, stored, replicate-AreDistinct, find-replicate, add-Updates,
}

module _ {A : Type 0} where
  -- The random handle is not in use, or the error of the random numbers is one.
  abbrev pub IsFresh : Random → OperationTable A → Type 0
  IsFresh (random h) t = find h t ≡ none
  IsFresh (rand_failed err) t = is_ok err ≡ false

  -- The table finds what it found.
  abbrev pub Keeps : OperationTable A → OperationTable A → Type 0
  Keeps t t' = ((k : ℕ) → find k t' ≡ find k t) × IsTable t'

  -- With KM_ERROR_OK the handle that is written names the operation; with an error the table finds what
  -- it found.
  abbrev pub IsAdded : A → OperationTable A → KeymasterError × Option ℕ × OperationTable A → Type 0
  IsAdded op t (err, written, t') =
      if is_ok err then ((h : ℕ) × (written ≡ some h) × Updates h (some op) t t') else Keeps t t'

  abbrev with_table : OperationTable A → Option (List (Entry A)) → OperationTable A
  with_table t o = record t { table = o }

  stored-IsAdded :
      (rand : Random) (op : A) (es : List (Entry A)) (n : ℕ)
      → AreDistinct es
      → length es ≡ n
      → IsFresh rand (stored n es)
      → IsAdded op (stored n es) (add true rand op (stored n es))
  unfolding add add_to
  stored-IsAdded (rand_failed err) op es n distinct size wrong =
      rw wrong (λ k. refl, (distinct, size))
  stored-IsAdded (random h) op es n distinct size missing = elim (Bool-cases (h == 0)) [
    | inl zero_h ↦ rw zero_h (λ k. refl, (distinct, size))
    | inr nonzero ↦ (elim (Option-cases (place h op es)) [
      | inl full ↦ rw (nonzero, full) (λ k. refl, (distinct, size))
      | inr (es', placed) ↦
          rw (nonzero, placed)
            (
              h,
              refl,
              add-Updates true h op (stored n es) (stored n es') (distinct, size) missing
                  (rw (nonzero, placed) refl),
            )
    ])
  ]

  allocated-IsAdded :
      (n : ℕ) (op : A) (q : KeymasterError × Option ℕ × OperationTable A)
      → IsAdded op (stored n (replicate n empty_entry)) q
      → IsAdded op (record { table = none; table_size = n }) q
  allocated-IsAdded n op (err, written, t') added = by_error (is_ok err) added
    where
      by_error :
          (b : Bool)
          → (if b
              then ((h : ℕ) × (written ≡ some h)
                  × Updates h (some op) (stored n (replicate n empty_entry)) t')
              else Keeps (stored n (replicate n empty_entry)) t')
          → (if b
              then ((h : ℕ) × (written ≡ some h)
                  × Updates h (some op) (record { table = none; table_size = n }) t')
              else Keeps (record { table = none; table_size = n }) t')
      by_error true (h, out, u) =
          (h, out, (u.0, λ k other. u.1 k other ∙ find-replicate n k, u.2, u.3))
      by_error false (same, fine) = (λ k. same k ∙ find-replicate n k, fine)

module _ (A : Type 0) where
  fresh_lem :
      (rand : Random) (n : ℕ)
      → IsFresh {A = A} rand (record { table = none; table_size = n })
      → IsFresh rand (stored n (replicate n (empty_entry {A = A})))
  fresh_lem (random h) n missing = find-replicate n h ∙ missing
  fresh_lem (rand_failed err) n wrong = wrong

module _ {A : Type 0} where
  -- `Add` with a handle that is not in use.
  pub add-IsAdded :
      (granted : Bool) (rand : Random) (op : A) (t : OperationTable A)
      → IsTable t
      → IsFresh rand t
      → IsAdded op t (add granted rand op t)
  unfolding add
  add-IsAdded granted rand op t fine_t fresh = by_table t.table granted fine_t fresh
    where
      by_table :
          (o : Option (List (Entry A))) (b : Bool)
          → IsTable (with_table t o)
          → IsFresh rand (with_table t o)
          → IsAdded op (with_table t o) (add b rand op (with_table t o))
      by_table (some es) b (distinct, size) unused =
          stored-IsAdded rand op es t.table_size distinct size unused
      by_table none false fine unused = (λ k. refl, tt)
      by_table none true fine unused =
          let es = replicate t.table_size (empty_entry {A = A}) in
          allocated-IsAdded t.table_size op (add true rand op (stored t.table_size es)) (
            stored-IsAdded rand op es t.table_size (replicate-AreDistinct A t.table_size)
              (length-replicate t.table_size empty_entry) (fresh_lem A rand t.table_size unused))
