-- ===== src/AndroidKeymaster/Lifecycle.antt =====
-- The operations of AndroidKeymaster in android_keymaster.cpp against the table of operations: which
-- handles name an operation after each call.
use platform_system_keymaste.Common.{
  ℕ, ◌≡◌, ◌≢◌, ◌⊎◌, inl, inr, refl, subst, ◌∙◌, Bool, true, false, ◌&&◌, List, Option, none, some,
  if◌then◌else◌, arith,
}
use platform_system_keymaste.Defs.{KeymasterError, is_ok}
use platform_system_keymaste.AuthSet.{AuthorizationSet}
use platform_system_keymaste.OperationTable.{OperationTable, find, write_back}
use platform_system_keymaste.OperationTable.Laws.{IsTable}
use platform_system_keymaste.OperationTable.Map.{Updates, delete-Updates}
use platform_system_keymaste.OperationTable.Write.{write_back-Updates}
use platform_system_keymaste.Interfaces.{Operation, Output, KeymasterContext, Surroundings}
use platform_system_keymaste.AndroidKeymaster.{
  AndroidKeymaster, Response, failed, enforce_running, remove, after_call, run_found,
  update_operation, finish_operation, abort_operation,
}

and-true : (b : Bool) → b && true ≡ b
and-true b = ground arith

and-false : (b : Bool) → b && false ≡ false
and-false b = ground arith

module _ {S : Type 0} where
  -- The handle's operation is gone, or still there if `kept`; every other handle has the operation that
  -- it had, and the table is well formed.
  abbrev pub Ends : Bool → ℕ → AndroidKeymaster S → AndroidKeymaster S → Type 0
  Ends kept h k k' =
      (if kept
        then ((op : Operation S) × (find h k'.operation_table ≡ some op))
        else find h k'.operation_table ≡ none)
      × ((other : ℕ) → other ≢ h → find other k'.operation_table ≡ find other k.operation_table)
      × IsTable k'.operation_table

  -- A call on a handle: an unknown one is refused and changes nothing, and one in use ends by `ends`.
  abbrev pub IsHandled :
      (KeymasterError → Bool) → ℕ → AndroidKeymaster S → Response × AndroidKeymaster S → Type 0
  IsHandled stays h k (r, k') =
      ((find h k.operation_table ≡ none)
        × (r.error ≡ KeymasterError.invalid_operation_handle)
        × (k' ≡ k))
      ⊎ (((op : Operation S) × (find h k.operation_table ≡ some op)) × Ends (stays r.error) h k k')

  found-nonzero :
      (h : ℕ) (t : OperationTable (Operation S)) (op : Operation S) → find h t ≡ some op → h ≢ 0
  unfolding find
  found-nonzero h t op found same = ground arith

  remove-Ends :
      (h : ℕ) (k : AndroidKeymaster S)
      → h ≢ 0
      → IsTable k.operation_table
      → Ends false h k (remove h k)
  unfolding remove
  remove-Ends h k nonzero fine =
      let u = delete-Updates h k.operation_table nonzero fine in (u.0, u.1, u.3)

  after_call-Ends :
      (kept : Bool) (h : ℕ) (op : Operation S) (q : KeymasterError × S × Output)
      (k : AndroidKeymaster S)
      → find h k.operation_table ≡ some op
      → IsTable k.operation_table
      → Ends (is_ok (q.0) && kept) h k ((after_call kept h op q k).1)
  unfolding after_call
  after_call-Ends kept h op (ended, body, out) k found fine = by_error (is_ok ended && kept)
    where
      op' : Operation S
      op' = record op { body = body }

      k' : AndroidKeymaster S
      k' = record k { operation_table = write_back h op' k.operation_table }

      written : Updates h (some op') k.operation_table (write_back h op' k.operation_table)
      written = write_back-Updates h op' op k.operation_table found fine

      by_error : (b : Bool) → Ends b h k (if b then k' else remove h k')
      by_error true = ((op', written.0), written.1, written.3)
      by_error false =
          let ends = remove-Ends h k' (found-nonzero h k.operation_table op found) written.3 in
          (ends.0, λ other differs. ends.1 other differs ∙ written.1 other differs, ends.2)

  run_found-Ends :
      (c : KeymasterContext S) (w : Surroundings) (call : S → KeymasterError × S × Output)
      (kept : Bool) (h : ℕ) (params : AuthorizationSet) (op : Operation S) (k : AndroidKeymaster S)
      → find h k.operation_table ≡ some op
      → IsTable k.operation_table
      → Ends
          (is_ok ((run_found c w call kept h params op k).0.error) && kept)
          h
          k
          ((run_found c w call kept h params op k).1)
  unfolding run_found
  run_found-Ends c w call kept h params op k found fine = by_error _ refl
    where
      k' : AndroidKeymaster S
      k' = record k { enforcement = (enforce_running c w op params h k.enforcement).1 }

      err : KeymasterError
      err = (enforce_running c w op params h k.enforcement).0

      result : Bool → Response × AndroidKeymaster S
      result b = if b then after_call kept h op (call op.body) k' else (failed err, remove h k')

      by_error :
          (b : Bool) → is_ok err ≡ b → Ends (is_ok ((result b).0.error) && kept) h k ((result b).1)
      by_error true fine_err = after_call-Ends kept h op (call op.body) k' found fine
      by_error false wrong =
          rw wrong (remove-Ends h k' (found-nonzero h k.operation_table op found) fine)

  -- `UpdateOperation`: an unknown handle is refused and changes nothing; else the operation stays if the
  -- response is KM_ERROR_OK, any error removes it, and no other operation changes.
  pub update_operation-IsHandled :
      (c : KeymasterContext S) (w : Surroundings) (h : ℕ) (params : AuthorizationSet)
      (input : List ℕ) (k : AndroidKeymaster S)
      → IsTable k.operation_table
      → IsHandled is_ok h k (update_operation c w h params input k)
  unfolding update_operation
  update_operation-IsHandled c w h params input k fine = by_find (find h k.operation_table) refl
    where
      by_find :
          (o : Option (Operation S))
          → find h k.operation_table ≡ o
          → IsHandled is_ok h k (elim o as (λ x. Response × AndroidKeymaster S) [
            | none ↦ (failed KeymasterError.invalid_operation_handle, k)
            | some op ↦ run_found c w (λ s. c.methods.update s params input) true h params op k
          ])
      by_find none missing = inl (missing, refl, refl)
      by_find (some op) found = inr (
        (op, found),
        subst
            (λ b.
              Ends b h k
                ((run_found c w (λ s. c.methods.update s params input) true h params op k).1))
            (and-true _)
            (run_found-Ends c w (λ s. c.methods.update s params input) true h params op k found
              fine),
      )

  -- `FinishOperation`: an unknown handle is refused and changes nothing; else the operation is removed
  -- whatever the response is, and no other operation changes.
  pub finish_operation-IsHandled :
      (c : KeymasterContext S) (w : Surroundings) (h : ℕ) (params : AuthorizationSet)
      (input signature : List ℕ) (k : AndroidKeymaster S)
      → IsTable k.operation_table
      → IsHandled (λ err. false) h k (finish_operation c w h params input signature k)
  unfolding finish_operation
  finish_operation-IsHandled c w h params input signature k fine =
      by_find (find h k.operation_table) refl
    where
      by_find :
          (o : Option (Operation S))
          → find h k.operation_table ≡ o
          → IsHandled
              (λ err. false)
              h
              k
              (elim o as (λ x. Response × AndroidKeymaster S) [
                | none ↦ (failed KeymasterError.invalid_operation_handle, k)
                | some op ↦
                    run_found c w
                      (λ s. c.methods.finish s params input signature)
                      false
                      h
                      params
                      op
                      k
              ])
      by_find none missing = inl (missing, refl, refl)
      by_find (some op) found = inr (
        (op, found),
        subst
            (λ b. Ends b h k (
              (run_found c w (λ s. c.methods.finish s params input signature) false h params op
                k).1))
            (and-false _)
            (run_found-Ends c w (λ s. c.methods.finish s params input signature) false h params op k
              found fine),
      )

  -- `AbortOperation`: an unknown handle is refused and changes nothing; else the operation is removed
  -- whatever `Abort` returns, and no other operation changes.
  pub abort_operation-IsHandled :
      (c : KeymasterContext S) (h : ℕ) (k : AndroidKeymaster S)
      → IsTable k.operation_table
      → IsHandled (λ err. false) h k (abort_operation c h k)
  unfolding abort_operation
  abort_operation-IsHandled c h k fine = by_find (find h k.operation_table) refl
    where
      by_find :
          (o : Option (Operation S))
          → find h k.operation_table ≡ o
          → IsHandled
              (λ err. false)
              h
              k
              (elim o as (λ x. Response × AndroidKeymaster S) [
                | none ↦ (failed KeymasterError.invalid_operation_handle, k)
                | some op ↦ (failed (c.methods.abort op.body), remove h k)
              ])
      by_find none missing = inl (missing, refl, refl)
      by_find (some op) found =
          inr ((op, found), remove-Ends h k (found-nonzero h k.operation_table op found) fine)
