-- ===== src/Enforcement/Tables.antt =====
-- AccessTimeMap and AccessCountMap of keymaster_enforcement.cpp: their operations.
pub mod Counts
pub mod Times
use platform_system_keymaste.Common.{
  ℕ, ◌+◌, ◌-◌, ◌%◌, ◌^◌, Bool, true, false, List, [], ◌∷◌, Option, none, some, ltb, leb, ◌==◌,
  length, if◌then◌else◌,
}
use platform_system_keymaste.Enforcement.{AccessTime, AccessTimeMap, AccessCount, AccessCountMap}

-- The loop of `LastKeyAccessTime`.
unfoldable pub last_access : ℕ → List AccessTime → Option ℕ
last_access keyid [] = none
last_access keyid (e ∷ es) = if e.keyid == keyid then some e.access_time else last_access keyid es

unfoldable pub last_key_access_time : AccessTimeMap → ℕ → Option ℕ
unfolding last_access
last_key_access_time m keyid = last_access keyid m.last_access_list

-- `current_time - iter->access_time >= iter->timeout` on uint32_t.
abbrev pub expired : ℕ → AccessTime → Bool
expired now e = leb e.timeout ((now + 2 ^ 32 - e.access_time) % 2 ^ 32)

-- The loop of `UpdateKeyAccessTime`: whether the key was found, and the list without the entries that
-- expired on the way.
unfoldable pub touch : ℕ → ℕ → List AccessTime → Bool × List AccessTime
touch keyid now [] = (false, [])
touch keyid now (e ∷ es) =
    let (found, rest) = touch keyid now es in
    if e.keyid == keyid
    then (true, record e { access_time = now } ∷ es)
    else if expired now e
    then (found, rest)
    else (found, e ∷ rest)

-- What follows the loop.
unfoldable pub add_access :
    AccessTimeMap → AccessTime → Bool × List AccessTime → Bool × AccessTimeMap
add_access m entry (true, es) = (true, record m { last_access_list = es })
add_access m entry (false, es) =
    if leb m.max_size (length es)
    then (false, record m { last_access_list = es })
    else (true, record m { last_access_list = entry ∷ es })

unfoldable pub update_key_access_time : AccessTimeMap → ℕ → ℕ → ℕ → Bool × AccessTimeMap
unfolding touch add_access
update_key_access_time m keyid now timeout =
    add_access m (record { keyid = keyid; access_time = now; timeout = timeout })
      (touch keyid now m.last_access_list)

-- The loop of `KeyAccessCount`; the result is narrowed to uint32_t.
unfoldable pub count_of : ℕ → List AccessCount → Option ℕ
count_of keyid [] = none
count_of keyid (e ∷ es) =
    if e.keyid == keyid then some (e.access_count % 2 ^ 32) else count_of keyid es

unfoldable pub key_access_count : AccessCountMap → ℕ → Option ℕ
unfolding count_of
key_access_count m keyid = count_of keyid m.access_count_list

-- `if (entry.access_count < UINT64_MAX) ++entry.access_count`.
abbrev pub increment : ℕ → ℕ
increment n = if ltb n (2 ^ 64 - 1) then n + 1 else n

-- The loop of `IncrementKeyAccessCount`.
unfoldable pub bump : ℕ → List AccessCount → Option (List AccessCount)
bump keyid [] = none
bump keyid (e ∷ es) =
    let rest = bump keyid es in
    if e.keyid == keyid
    then some (record e { access_count = increment e.access_count } ∷ es)
    else elim rest [ none ↦ none | some es' ↦ some (e ∷ es') ]

-- What follows the loop.
unfoldable pub add_count : AccessCountMap → ℕ → Option (List AccessCount) → Bool × AccessCountMap
add_count m keyid (some es) = (true, record m { access_count_list = es })
add_count m keyid none = if leb m.max_size (length m.access_count_list) then (false, m) else (
  true,
  record m { access_count_list = record { keyid = keyid; access_count = 1 } ∷ m.access_count_list },
)

unfoldable pub increment_key_access_count : AccessCountMap → ℕ → Bool × AccessCountMap
unfolding bump add_count
increment_key_access_count m keyid = add_count m keyid (bump keyid m.access_count_list)
