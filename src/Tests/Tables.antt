-- ===== src/Tests/Tables.antt =====
-- Witnesses for the tables of keymaster_enforcement.cpp.
use platform_system_keymaste.Common.{◌≤◌, ◌≡◌, [], ◌∷◌, length, arith}
use platform_system_keymaste.Enforcement.{AccessTimeMap, AccessCountMap}
use platform_system_keymaste.Enforcement.Tables.{update_key_access_time, increment_key_access_count}
use platform_system_keymaste.Enforcement.Tables.Times.{IsUpdated, update_key_access_time-IsUpdated}
use platform_system_keymaste.Enforcement.Tables.Counts.{
  Counts, increment_key_access_count-IsCounted,
}

abbrev times : AccessTimeMap
times = record {
  last_access_list =
      record { keyid = 1; access_time = 10; timeout = 5 }
      ∷ record { keyid = 2; access_time = 18; timeout = 5 }
      ∷ [];
  max_size = 2;
}

update_key_access_time-IsUpdated_example :
    IsUpdated times 3 20 (update_key_access_time times 3 20 7)
update_key_access_time-IsUpdated_example =
    update_key_access_time-IsUpdated times 3 20 7 (omega arith)

abbrev counts : AccessCountMap
counts = record { access_count_list = record { keyid = 1; access_count = 4 } ∷ []; max_size = 2 }

increment_key_access_count-IsCounted_example :
    Counts counts 1 (increment_key_access_count counts 1)
    × ((increment_key_access_count counts 1).1.max_size ≡ 2)
    × (length ((increment_key_access_count counts 1).1.access_count_list) ≤ 2)
increment_key_access_count-IsCounted_example =
    increment_key_access_count-IsCounted counts 1 (omega arith)
