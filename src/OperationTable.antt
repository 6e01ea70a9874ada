-- ===== src/OperationTable.antt =====
-- OperationTable of operation_table.h and operation_table.cpp. An operation is any type; the heap object
-- behind an entry's pointer stands in the entry.
pub mod Laws
pub mod Map
pub mod Write
pub mod Adding
pub mod Client
pub mod Places
pub mod Replay
use platform_system_keymaste.Common.{
  ℕ, ◌==◌, Bool, true, false, List, [], ◌∷◌, Option, none, some, replicate, if◌then◌else◌,
}
use platform_system_keymaste.Defs.{KeymasterError}

-- OperationTable::Entry.
pub record Entry (A : Type 0) : Type 0 where
  pub handle : ℕ
  pub operation : Option A

-- `table` is none until the first `Add` allocates it.
pub record OperationTable (A : Type 0) : Type 0 where
  pub table : Option (List (Entry A))
  pub table_size : ℕ

-- What RAND_bytes writes to the handle, or the error that TranslateLastOpenSslError gives.
pub data Random : Type 0 where
  random : ℕ → Random
  rand_failed : KeymasterError → Random

module _ {A : Type 0} where
  abbrev pub empty_entry : Entry A
  empty_entry = record { handle = 0; operation = none }

  -- The loop of `Add`: the first entry without an operation takes this one.
  unfoldable pub place : ℕ → A → List (Entry A) → Option (List (Entry A))
  place op_handle op [] = none
  place op_handle op (e ∷ es) =
      let rest = place op_handle op es in
      elim e.operation [
        | none ↦ some (record { handle = op_handle; operation = some op } ∷ es)
        | some other ↦ elim rest [ none ↦ none | some es' ↦ some (e ∷ es') ]
      ]

  -- `Add` behind the allocation.
  unfoldable pub add_to : Random → A → List (Entry A) → KeymasterError × Option ℕ × List (Entry A)
  unfolding place
  add_to (rand_failed err) op es = (err, none, es)
  add_to (random op_handle) op es =
      if op_handle == 0
      then (KeymasterError.unknown_error, some op_handle, es)
      else elim (place op_handle op es) [
        | some es' ↦ (KeymasterError.ok, some op_handle, es')
        | none ↦ (KeymasterError.too_many_operations, some op_handle, es)
      ]

  -- `Add`: the error, what is written to the handle, and the table. `granted` is the answer of `new`.
  unfoldable pub add :
      Bool → Random → A → OperationTable A → KeymasterError × Option ℕ × OperationTable A
  unfolding add_to
  add granted rand op t = elim t.table [
    | some es ↦
        let (err, written, es') = add_to rand op es in (err, written, record t { table = some es' })
    | none ↦
        if granted
        then (let (err, written, es') = add_to rand op (replicate t.table_size empty_entry) in
            (err, written, record t { table = some es' }))
        else (KeymasterError.memory_allocation_failed, none, t)
  ]

  -- The loop of `Find`.
  unfoldable pub find_entry : ℕ → List (Entry A) → Option A
  find_entry op_handle [] = none
  find_entry op_handle (e ∷ es) =
      if e.handle == op_handle then e.operation else find_entry op_handle es

  unfoldable pub find : ℕ → OperationTable A → Option A
  unfolding find_entry
  find op_handle t =
      if op_handle == 0
      then none
      else elim t.table [ none ↦ none | some es ↦ find_entry op_handle es ]

  -- The loop of `Delete`: none if no entry has the handle.
  unfoldable pub clear_entry : ℕ → List (Entry A) → Option (List (Entry A))
  clear_entry op_handle [] = none
  clear_entry op_handle (e ∷ es) =
      let rest = clear_entry op_handle es in
      if e.handle == op_handle
      then some (empty_entry ∷ es)
      else elim rest [ none ↦ none | some es' ↦ some (e ∷ es') ]

  -- The result of the loop, and the table.
  unfoldable pub deleted : OperationTable A → Option (List (Entry A)) → Bool × OperationTable A
  deleted t none = (false, t)
  deleted t (some es) = (true, record t { table = some es })

  unfoldable pub delete : ℕ → OperationTable A → Bool × OperationTable A
  unfolding clear_entry deleted
  delete op_handle t = elim t.table [
    | none ↦ (false, t)
    | some es ↦ deleted t (clear_entry op_handle es)
  ]

  -- A method that the pointer from `Find` is used for changes the object in its entry.
  unfoldable pub write_entry : ℕ → A → List (Entry A) → List (Entry A)
  write_entry op_handle op [] = []
  write_entry op_handle op (e ∷ es) =
      let rest = write_entry op_handle op es in
      if e.handle == op_handle then record e { operation = some op } ∷ es else e ∷ rest

  unfoldable pub write_back : ℕ → A → OperationTable A → OperationTable A
  unfolding write_entry
  write_back op_handle op t = elim t.table [
    | none ↦ t
    | some es ↦ record t { table = some (write_entry op_handle op es) }
  ]
