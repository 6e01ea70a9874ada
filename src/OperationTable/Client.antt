-- ===== src/OperationTable/Client.antt =====
-- OperationTable of operation_table.cpp as its clients see it: a map from handles to operations of a
-- limited size, with what each call answers and leaves.
use platform_system_keymaste.Common.{
  ℕ, ◌+◌, ◌-◌, ◌==◌, ◌≡◌, Bool, true, false, ◌&&◌, ◌||◌, ltb, List, [], ◌∷◌, Option, none, some,
  if◌then◌else◌,
}
use platform_system_keymaste.Defs.{KeymasterError}
use platform_system_keymaste.OperationTable.{
  Entry, OperationTable, Random, random, rand_failed, add, find, delete,
}

pub data Call (A : Type 0) : Type 0 where
  adds : Bool → Random → A → Call A
  finds : ℕ → Call A
  deletes : ℕ → Call A

pub data Outcome (A : Type 0) : Type 0 where
  added : KeymasterError → Option ℕ → Outcome A
  found : Option A → Outcome A
  removed : Bool → Outcome A

-- What the clients see: whether the table has been allocated, how many operations it takes and has, and
-- the operation of each handle.
pub record Handles (A : Type 0) : Type 0 where
  pub allocated : Bool
  pub capacity : ℕ
  pub live : ℕ
  pub lookup : ℕ → Option A

abbrev pub is_some : {A : Type 0} → Option A → Bool
is_some none = false
is_some (some a) = true

module _ {A : Type 0} where
  -- A call on the table.
  unfoldable pub call : Call A → OperationTable A → Outcome A × OperationTable A
  unfolding add find delete
  call (adds granted rand op) t =
      let (err, written, t') = add granted rand op t in (added err written, t')
  call (finds h) t = (found (find h t), t)
  call (deletes h) t = let (b, t') = delete h t in (removed b, t')

  unfoldable pub run : List (Call A) → OperationTable A → List (Outcome A) × OperationTable A
  unfolding call
  run [] t = ([], t)
  run (c ∷ cs) t = let (o, t1) = call c t in let (os, t2) = run cs t1 in (o ∷ os, t2)

  abbrev pub with_entry : ℕ → Option A → (ℕ → Option A) → ℕ → Option A
  with_entry h entry m k = if k == h then entry else m k

  -- An addition once there is a table: the random handle is 0, or takes a place if there is one left.
  abbrev pub takes : Random → A → Handles A → Outcome A × Handles A
  takes (rand_failed err) op s = (added err none, s)
  takes (random h) op s =
      if h == 0
      then (added KeymasterError.unknown_error (some h), s)
      else if ltb s.live s.capacity
      then (
        added KeymasterError.ok (some h),
        record s { live = s.live + 1; lookup = with_entry h (some op) s.lookup },
      )
      else (added KeymasterError.too_many_operations (some h), s)

  -- A call on the map. A deletion of the handle 0 only says whether a place is left.
  abbrev pub step : Call A → Handles A → Outcome A × Handles A
  step (finds h) s = (found (s.lookup h), s)
  step (deletes h) s =
      if h == 0 then (removed (s.allocated && ltb s.live s.capacity), s) else elim (s.lookup h) [
        | none ↦ (removed false, s)
        | some op ↦
            (removed true, record s { live = s.live - 1; lookup = with_entry h none s.lookup })
      ]
  step (adds granted rand op) s =
      if s.allocated || granted
      then takes rand op (record s { allocated = true })
      else (added KeymasterError.memory_allocation_failed none, s)

  abbrev pub steps : List (Call A) → Handles A → List (Outcome A) × Handles A
  steps [] s = ([], s)
  steps (c ∷ cs) s = let (o, s1) = step c s in let (os, s2) = steps cs s1 in (o ∷ os, s2)

  abbrev pub IsFree : Random → (ℕ → Option A) → Type 0
  IsFree (random h) m = m h ≡ none
  IsFree (rand_failed err) m = Unit

  -- The random handles are not in use when they are drawn.
  abbrev pub IsUnused : Call A → Handles A → Type 0
  IsUnused (adds granted rand op) s = IsFree rand s.lookup
  IsUnused _ s = Unit

  abbrev pub AreUnused : List (Call A) → Handles A → Type 0
  AreUnused [] s = Unit
  AreUnused (c ∷ cs) s = IsUnused c s × AreUnused cs (step c s).1

  abbrev pub live_entries : List (Entry A) → ℕ
  live_entries [] = 0
  live_entries (e ∷ es) = (elim e.operation [ none ↦ 0 | some op ↦ 1 ]) + live_entries es

  -- What the clients see of a table.
  abbrev pub view : OperationTable A → Handles A
  view t = record {
    allocated = is_some t.table;
    capacity = t.table_size;
    live = elim t.table [ none ↦ 0 | some es ↦ live_entries es ];
    lookup = λ k. find k t;
  }

  abbrev pub handles : Bool → ℕ → ℕ → (ℕ → Option A) → Handles A
  handles a n l f = record { allocated = a; capacity = n; live = l; lookup = f }
