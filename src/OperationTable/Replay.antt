-- ===== src/OperationTable/Replay.antt =====
-- Add, Find and Delete of operation_table.cpp against the map that the clients see.
use platform_system_keymaste.Common.{
  ℕ, ◌-◌, ◌==◌, ◌≡◌, ◌≢◌, inl, inr, refl, ap, sym, subst, ◌∙◌, Bool, true, false, ltb, List, [],
  ◌∷◌, Option, none, some, length, length-replicate, replicate, arith, Bool-cases, Option-cases,
  ==_iff,
}
use mathlib.Core.Path.{ap₂}
use platform_system_keymaste.Defs.{KeymasterError}
use platform_system_keymaste.OperationTable.{
  Entry, OperationTable, Random, random, rand_failed, empty_entry, place, add_to, add, find, delete,
  deleted, clear_entry,
}
use platform_system_keymaste.OperationTable.Laws.{AreDistinct, IsTable}
use platform_system_keymaste.OperationTable.Map.{
  Updates, stored, clear_entry-missing, delete-Updates, add-Updates, replicate-AreDistinct,
}
use platform_system_keymaste.OperationTable.Client.{
  Call, Outcome, adds, finds, deletes, added, removed, Handles, call, run, takes, step, steps,
  IsFree, IsUnused, AreUnused, live_entries, view,
}
use platform_system_keymaste.OperationTable.Places.{
  place-live, place-full, clear_entry-found, clear_entry-zero, clear_entry-full, view-Updates,
  view-replicate,
}

module _ {A : Type 0} where
  -- What a call answers, with what its table stands for.
  abbrev pub seen : {O : Type 0} → O × OperationTable A → O × Handles A
  seen (o, t) = (o, view t)

  -- A call on the table against the same call on the map.
  abbrev IsImplemented : Call A → OperationTable A → Type 0
  IsImplemented c t = (seen (call c t) ≡ step c (view t)) × IsTable (call c t).1

  deletes-zero :
      (n : ℕ) (es : List (Entry A))
      → AreDistinct es
      → length es ≡ n
      → IsImplemented (deletes 0) (stored n es)
  unfolding call delete deleted
  deletes-zero n es distinct size = elim (Option-cases (clear_entry 0 es)) [
    | inl absent ↦
        (let full = clear_entry-full es distinct absent in
          let none_left : ltb (live_entries es) n ≡ false = ground arith in
          rw (absent, none_left) (refl, (distinct, size)))
    | inr (es', cleared) ↦
        (let (same, less) = clear_entry-zero es es' distinct cleared in
          let left : ltb (live_entries es) n ≡ true = ground arith in
          rw (cleared, left, same) (refl, (distinct, size)))
  ]

  deletes-nonzero :
      (h n : ℕ) (es : List (Entry A))
      → (h == 0) ≡ false
      → AreDistinct es
      → length es ≡ n
      → IsImplemented (deletes h) (stored n es)
  unfolding call delete deleted find
  deletes-nonzero h n es nonzero distinct size = elim (Option-cases (clear_entry h es)) [
    | inl absent ↦
        (let missing = clear_entry-missing h es absent in
          rw (absent, nonzero, missing) (refl, (distinct, size)))
    | inr (es', cleared) ↦
        (let positive : h ≢ 0 = λ same. ground arith in
          let ((op, there), less) = clear_entry-found h es es' positive distinct cleared in
          let u : Updates h none (stored n es) (stored n es') =
            subst (λ o. Updates h none (stored n es) (deleted (stored n es) o).1) cleared
              (delete-Updates h (stored n es) positive (distinct, size)) in
          let left : live_entries es' ≡ live_entries es - 1 = omega arith in
          rw (cleared, nonzero, there)
            (ap (λ s. (removed true, s)) (view-Updates h _ n none es es' u left), u.3))
  ]

  -- An addition to a table with entries.
  abbrev adds_stored : Random → A → ℕ → List (Entry A) → Outcome A × OperationTable A
  unfolding call
  adds_stored rand op n es = call (adds true rand op) (stored n es)

  adds-stored :
      (rand : Random) (op : A) (n : ℕ) (es : List (Entry A))
      → AreDistinct es
      → length es ≡ n
      → IsUnused (adds true rand op) (view (stored n es))
      → (seen (adds_stored rand op n es) ≡ takes rand op (view (stored n es)))
        × IsTable (adds_stored rand op n es).1
  unfolding call add add_to
  adds-stored (rand_failed err) op n es distinct size unused = (refl, (distinct, size))
  adds-stored (random h) op n es distinct size unused = elim (Bool-cases (h == 0)) [
    | inl zero_h ↦ rw zero_h (refl, (distinct, size))
    | inr nonzero ↦ (elim (Option-cases (place h op es)) [
      | inl full ↦
          (let filled = place-full h op es full in
            let none_left : ltb (live_entries es) n ≡ false = ground arith in
            rw (nonzero, full, none_left) (refl, (distinct, size)))
      | inr (es', placed) ↦
          (let (more, less) = place-live h op es es' placed in
            let left : ltb (live_entries es) n ≡ true = ground arith in
            let u : Updates h (some op) (stored n es) (stored n es') =
              add-Updates true h op (stored n es) (stored n es') (distinct, size) unused
                (rw (nonzero, placed) refl) in
            rw (nonzero, placed, left)
              (
                ap (λ s. (added KeymasterError.ok (some h), s))
                    (view-Updates h _ n (some op) es es' u more),
                u.3,
              ))
    ])
  ]

  call-view :
      (c : Call A) (t : OperationTable A) → IsTable t → IsUnused c (view t) → IsImplemented c t
  unfolding call add delete find
  call-view (finds h) t fine unused = (refl, fine)
  call-view (deletes h) t fine unused = by_table t.table fine
    where
      by_table :
          (o : Option (List (Entry A)))
          → IsTable (record t { table = o })
          → IsImplemented (deletes h) (record t { table = o })
      by_table none fine = elim (Bool-cases (h == 0)) [
        | inl zero_h ↦ rw zero_h (refl, tt)
        | inr nonzero ↦ rw nonzero (refl, tt)
      ]
      by_table (some es) (distinct, size) = elim (Bool-cases (h == 0)) [
        | inl zero_h ↦
            subst (λ k. IsImplemented (deletes k) (stored t.table_size es))
              (sym ((==_iff h 0).0 zero_h)) (deletes-zero t.table_size es distinct size)
        | inr nonzero ↦ deletes-nonzero h t.table_size es nonzero distinct size
      ]
  call-view (adds granted rand op) t fine unused = by_table t.table granted fine unused
    where
      by_table :
          (o : Option (List (Entry A))) (b : Bool)
          → IsTable (record t { table = o })
          → IsUnused (adds b rand op) (view (record t { table = o }))
          → IsImplemented (adds b rand op) (record t { table = o })
      by_table (some es) b (distinct, size) unused =
          adds-stored rand op t.table_size es distinct size unused
      by_table none false fine unused = (refl, tt)
      by_table none true fine unused =
          let empty = replicate t.table_size empty_entry in
          let (same, fine') =
            adds-stored rand op t.table_size empty (replicate-AreDistinct A t.table_size)
              (length-replicate t.table_size empty_entry)
              (subst (λ s. IsFree rand s.lookup) (sym (view-replicate A t.table_size)) unused) in
          (same ∙ ap (takes rand op) (view-replicate A t.table_size), fine')

  -- Any sequence of Add, Find and Delete answers as the calls on the map of handles do, and leaves a table
  -- of the map that they leave: for a table whose handles in use differ, and random handles that are not
  -- in use. Add stores the operation exactly where there are the table or memory for it, a random handle
  -- other than 0 and a free place; Delete of 0 answers whether the table has a free place.
  pub run-steps :
      (cs : List (Call A)) (t : OperationTable A)
      → IsTable t
      → AreUnused cs (view t)
      → seen (run cs t) ≡ steps cs (view t)
  unfolding run
  run-steps [] t fine unused = refl
  run-steps (c ∷ cs) t fine (first, rest) =
      let (same, fine') = call-view c t fine first in
      let again =
        run-steps cs (call c t).1 fine' (subst (AreUnused cs) (sym (ap (λ q. q.1) same)) rest) in
      ap₂ (λ o q. (o ∷ q.0, q.1)) (ap (λ q. q.0) same) again
      ∙ ap (λ s. (((step c (view t)).0 ∷ (steps cs s).0), (steps cs s).1)) (ap (λ q. q.1) same)
