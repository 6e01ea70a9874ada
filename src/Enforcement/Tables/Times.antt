-- ===== src/Enforcement/Tables/Times.antt =====
-- AccessTimeMap of keymaster_enforcement.cpp: what UpdateKeyAccessTime does to each key.
use platform_system_keymaste.Common.{
  ℕ, ◌≤◌, ◌≡◌, refl, ap, ◌≢◌, Bool, true, false, List, [], ◌∷◌, Option, none, some, leb, ◌==◌,
  length, if◌then◌else◌, arith, All, Bool-cases, inl, inr, ==_refl,
}
use platform_system_keymaste.Enforcement.{AccessTime, AccessTimeMap}
use platform_system_keymaste.Enforcement.Tables.{
  last_access, expired, touch, add_access, update_key_access_time,
}

-- The first entry of a key.
abbrev pub entry_of : ℕ → List AccessTime → Option AccessTime
entry_of keyid [] = none
entry_of keyid (e ∷ es) = if e.keyid == keyid then some e else entry_of keyid es

-- The other keys' entries that are not expired stay.
abbrev KeepsOthers : ℕ → ℕ → List AccessTime → List AccessTime → Type 0
KeepsOthers keyid now es es' =
    (k : ℕ) (e : AccessTime)
    → k ≢ keyid
    → entry_of k es ≡ some e
    → expired now e ≡ false
    → entry_of k es' ≡ some e

abbrev IsTouched : ℕ → ℕ → List AccessTime → Bool × List AccessTime → Type 0
IsTouched keyid now es (true, es') =
    (last_access keyid es' ≡ some now) × (length es' ≤ length es) × KeepsOthers keyid now es es'
IsTouched keyid now es (false, es') =
    All (λ e. expired now e ≡ false) es' × (length es' ≤ length es) × KeepsOthers keyid now es es'

touch-IsTouched :
    (keyid now : ℕ) (es : List AccessTime) → IsTouched keyid now es (touch keyid now es)
unfolding touch last_access
touch-IsTouched keyid now [] = (tt, omega arith, λ k e other h live. h)
touch-IsTouched keyid now (e ∷ es) = elim (Bool-cases (e.keyid == keyid)) [
  | inl same ↦ rw same (rw same refl, omega arith, λ k f other h live. ground arith)
  | inr other ↦
      rw other
        (by_expiry (expired now e) refl (touch keyid now es) (touch-IsTouched keyid now es) other)
]
  where
    by_expiry :
        (b : Bool)
        → expired now e ≡ b
        → (q : Bool × List AccessTime) → IsTouched keyid now es q
        → (e.keyid == keyid) ≡ false
        → IsTouched keyid now (e ∷ es) (if b then q else (q.0, e ∷ q.1))
    by_expiry true old (true, rest) (last, le, keeps) other =
        (last, omega arith, λ k f differs h live. keeps k f differs (ground arith) live)
    by_expiry false old (true, rest) (last, le, keeps) other =
        (rw other last, omega arith, λ k f differs h live. ground (arith, keeps k f))
    by_expiry true old (false, rest) (all, le, keeps) other =
        (all, omega arith, λ k f differs h live. keeps k f differs (ground arith) live)
    by_expiry false old (false, rest) (all, le, keeps) other =
        ((old, all), omega arith, λ k f differs h live. ground (arith, keeps k f))

-- What `UpdateKeyAccessTime` does, by its result.
abbrev pub IsUpdated : AccessTimeMap → ℕ → ℕ → Bool × AccessTimeMap → Type 0
IsUpdated m keyid now (added, m') =
    (if added
      then last_access keyid m'.last_access_list ≡ some now
      else (m.max_size ≤ length m'.last_access_list)
        × All (λ e. expired now e ≡ false) m'.last_access_list)
    × KeepsOthers keyid now m.last_access_list m'.last_access_list
    × (m'.max_size ≡ m.max_size)
    × (length m'.last_access_list ≤ m.max_size)

add_access-IsUpdated :
    (m : AccessTimeMap) (entry : AccessTime) (now : ℕ) (q : Bool × List AccessTime)
    → IsTouched entry.keyid now m.last_access_list q
    → entry.access_time ≡ now
    → length m.last_access_list ≤ m.max_size
    → IsUpdated m entry.keyid now (add_access m entry q)
unfolding add_access last_access
add_access-IsUpdated m entry now (true, es) (last, le, keeps) same fits =
    (last, keeps, refl, omega arith)
add_access-IsUpdated m entry now (false, es) (all, le, keeps) same fits =
    elim (Bool-cases (leb m.max_size (length es))) [
      | inl full ↦ rw full ((ground arith, all), keeps, refl, omega arith)
      | inr room ↦ rw room (
        rw (==_refl entry.keyid) (ap some same),
        λ k f differs h live. ground (arith, keeps k f),
        refl,
        ground arith,
      )
    ]

-- After an update of a table within its size, the key's last access is the given time, or
-- the table is full of entries that have not expired; every other key's first entry, if it has not
-- expired, stays its first, and the table keeps to its size.
pub update_key_access_time-IsUpdated :
    (m : AccessTimeMap) (keyid now timeout : ℕ)
    → length m.last_access_list ≤ m.max_size
    → IsUpdated m keyid now (update_key_access_time m keyid now timeout)
unfolding update_key_access_time
update_key_access_time-IsUpdated m keyid now timeout fits =
    add_access-IsUpdated m (record { keyid = keyid; access_time = now; timeout = timeout }) now
      (touch keyid now m.last_access_list) (touch-IsTouched keyid now m.last_access_list) refl fits
