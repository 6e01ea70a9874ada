-- ===== src/OperationTable/Map.antt =====
-- operation_table.cpp: Add, Find and Delete as operations of a map from handles to operations.
use platform_system_keymaste.Common.{
  ℕ, zero, suc, ◌==◌, ◌≡◌, ◌≢◌, inl, inr, refl, ap, sym, subst, ◌∙◌, Bool, true, false, List, [],
  ◌∷◌, Option, none, some, replicate, arith, length, length-replicate, Bool-cases,
}
use platform_system_keymaste.Defs.{KeymasterError}
use platform_system_keymaste.OperationTable.{
  Entry, OperationTable, random, empty_entry, place, add_to, add, find_entry, find, clear_entry,
  deleted, delete,
}
use platform_system_keymaste.OperationTable.Laws.{
  Unused, AreDistinct, IsTable, place-Placed, clear_entry-Cleared, find-Unused,
}

module _ (A : Type 0) where
  pub replicate-AreDistinct : (n : ℕ) → AreDistinct (replicate {A = Entry A} n empty_entry)
  replicate-AreDistinct zero = tt
  replicate-AreDistinct (suc n) = (inl (refl, refl), replicate-AreDistinct n)

  replicate-Unused : (n h : ℕ) → h ≢ 0 → Unused h (replicate {A = Entry A} n empty_entry)
  replicate-Unused zero h nonzero = tt
  replicate-Unused (suc n) h nonzero = ((λ same. nonzero (sym same)), replicate-Unused n h nonzero)

module _ {A : Type 0} where
  -- A handle that finds nothing is not in use.
  none-Unused :
      (h : ℕ) (es : List (Entry A)) → h ≢ 0 → AreDistinct es → find_entry h es ≡ none → Unused h es
  unfolding find_entry
  none-Unused h [] nonzero distinct missing = tt
  none-Unused h (e ∷ es) nonzero (inl (zero_handle, empty), rest) missing =
      ((λ same. nonzero (sym same ∙ zero_handle)), none-Unused h es nonzero rest (ground arith))
  none-Unused h (e ∷ es) nonzero (inr (positive, unused, held), rest) missing =
      ((λ same. ground arith), none-Unused h es nonzero rest (ground arith))

  -- The table holds this operation under this handle, and is otherwise what it was.
  abbrev pub Updates : ℕ → Option A → OperationTable A → OperationTable A → Type 0
  Updates h entry t t' =
      (find h t' ≡ entry)
      × ((k : ℕ) → k ≢ h → find k t' ≡ find k t)
      × (t'.table_size ≡ t.table_size)
      × IsTable t'

  -- The table with these entries.
  abbrev pub stored : ℕ → List (Entry A) → OperationTable A
  stored n es = record { table = some es; table_size = n }

  pub list-Updates :
      (h n : ℕ) (entry : Option A) (es es' : List (Entry A))
      → h ≢ 0
      → find_entry h es' ≡ entry
      → ((k : ℕ) → k ≢ h → k ≢ 0 → find_entry k es' ≡ find_entry k es)
      → length es' ≡ length es
      → length es ≡ n
      → AreDistinct es'
      → Updates h entry (stored n es) (stored n es')
  unfolding find
  list-Updates h n entry es es' nonzero hit others same size distinct =
      (ground arith, λ k other. ground (arith, others k other), refl, (distinct, same ∙ size))

  add_to-place :
      (h : ℕ) (op : A) (es : List (Entry A))
      → (add_to (random h) op es).0 ≡ KeymasterError.ok
      → (h ≢ 0) × (place h op es ≡ some (add_to (random h) op es).2)
  unfolding add_to
  add_to-place h op es fine = ground arith

  add_to-Updates :
      (h n : ℕ) (op : A) (es : List (Entry A))
      → (add_to (random h) op es).0 ≡ KeymasterError.ok
      → AreDistinct es
      → length es ≡ n
      → Unused h es
      → Updates h (some op) (stored n es) (stored n (add_to (random h) op es).2)
  add_to-Updates h n op es fine distinct size fresh =
      let (nonzero, placed) = add_to-place h op es fine in
      let (hit, others, same, unused, distinct') =
        place-Placed h op es _ placed nonzero distinct fresh in
      list-Updates h n (some op) es _ nonzero hit others same size distinct'

  -- A table of empty entries finds nothing, as one that is not allocated.
  pub find-replicate :
      (n k : ℕ)
      → find k (stored n (replicate n (empty_entry {A = A})))
        ≡ find k (record { table = none; table_size = n })
  unfolding find
  find-replicate n k = elim (Bool-cases (k == 0)) [
    | inl zero_k ↦ rw zero_k refl
    | inr nonzero ↦ rw nonzero (find-Unused k _ (replicate-Unused A n k (λ same. ground arith)))
  ]

  -- An `Add` that succeeds, with a random handle that no operation has, makes `Find` give the operation
  -- for the handle and leaves every other handle's operation as it was.
  pub add-Updates :
      (granted : Bool) (h : ℕ) (op : A) (t t' : OperationTable A)
      → IsTable t
      → find h t ≡ none
      → add granted (random h) op t ≡ (KeymasterError.ok, some h, t')
      → Updates h (some op) t t'
  unfolding add add_to find
  add-Updates granted h op t t' valid_t missing h_add =
      by_table t.table granted valid_t missing h_add
    where
      by_table :
          (o : Option (List (Entry A))) (b : Bool)
          → IsTable (record t { table = o })
          → find h (record t { table = o }) ≡ none
          → add b (random h) op (record t { table = o }) ≡ (KeymasterError.ok, some h, t')
          → Updates h (some op) (record t { table = o }) t'
      by_table (some es) b (distinct, size) gone eq =
          let fine = ap (λ q. q.0) eq in
          subst (Updates h (some op) (stored t.table_size es)) (ap (λ q. q.2) eq) (
            add_to-Updates h t.table_size op es fine distinct size (
              none-Unused h es (add_to-place h op es fine).0 distinct
                (found_lem es (add_to-place h op es fine).0 gone)))
        where
          found_lem :
              (es : List (Entry A))
              → h ≢ 0
              → find h (stored t.table_size es) ≡ none
              → find_entry h es ≡ none
          found_lem es nonzero gone = ground arith
      by_table none false fine_t gone eq = ground arith
      by_table none true fine_t gone eq =
          let fine = ap (λ q. q.0) eq in
          let es = replicate t.table_size (empty_entry {A = A}) in
          let (nonzero, placed) = add_to-place h op es fine in
          let u =
            add_to-Updates h t.table_size op es fine (replicate-AreDistinct A t.table_size)
              (length-replicate t.table_size empty_entry)
              (replicate-Unused A t.table_size h nonzero) in
          subst (Updates h (some op) (record t { table = none })) (ap (λ q. q.2) eq)
            (u.0, λ k other. u.1 k other ∙ find-replicate t.table_size k, u.2, u.3)

  pub clear_entry-missing :
      (h : ℕ) (es : List (Entry A)) → clear_entry h es ≡ none → find_entry h es ≡ none
  unfolding clear_entry find_entry
  clear_entry-missing h [] eq = refl
  clear_entry-missing h (e ∷ es) eq = ground (arith, clear_entry-missing h es)

  -- `Delete` of a handle other than 0 makes `Find` give nothing for it and leaves every other handle's
  -- operation as it was.
  pub delete-Updates :
      (h : ℕ) (t : OperationTable A) → h ≢ 0 → IsTable t → Updates h none t (delete h t).1
  unfolding delete deleted find
  delete-Updates h t nonzero valid_t = by_table t.table valid_t
    where
      by_list :
          (es : List (Entry A)) (o : Option (List (Entry A)))
          → clear_entry h es ≡ o
          → AreDistinct es
          → length es ≡ t.table_size
          → Updates h none (stored t.table_size es) (deleted (stored t.table_size es) o).1
      by_list es (some es') eq distinct size =
          let (gone, others, same, unused, distinct') =
            clear_entry-Cleared h es es' eq nonzero distinct in
          list-Updates h t.table_size none es es' nonzero gone others same size distinct'
      by_list es none eq distinct size = (
        (let gone = clear_entry-missing h es eq in ground arith),
        λ k other. refl,
        refl,
        (distinct, size),
      )

      by_table :
          (o : Option (List (Entry A)))
          → IsTable (record t { table = o })
          → Updates h none (record t { table = o }) (delete h (record t { table = o })).1
      by_table none fine_t = (ground arith, λ k other. refl, refl, tt)
      by_table (some es) (distinct, size) = by_list es (clear_entry h es) refl distinct size
