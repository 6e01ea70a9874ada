-- ===== src/Tests/Replaying.antt =====
-- Witness for sequences of calls on the table of operation_table.cpp.
use platform_system_keymaste.Common.{ℕ, ◌≡◌, refl, true, List, [], ◌∷◌}
use platform_system_keymaste.OperationTable.{random, find}
use platform_system_keymaste.OperationTable.Client.{
  Call, adds, finds, deletes, AreUnused, view, steps, run,
}
use platform_system_keymaste.OperationTable.Replay.{seen, run-steps}
use platform_system_keymaste.Tests.Running.{numbers, numbers-IsTable}

-- A third operation does not fit; the first is deleted, and the unused handle 0 as well.
abbrev calls : List (Call ℕ)
calls =
    adds true (random 6) 60
    ∷ adds true (random 7) 70
    ∷ finds 6
    ∷ deletes 5
    ∷ finds 5
    ∷ deletes 0
    ∷ []

calls-AreUnused : AreUnused calls (view numbers)
unfolding find
calls-AreUnused = (refl, (refl, (tt, (tt, (tt, (tt, tt))))))

run-steps_example : seen (run calls numbers) ≡ steps calls (view numbers)
run-steps_example = run-steps calls numbers numbers-IsTable calls-AreUnused
