-- ===== src/AuthSet/Order.antt =====
-- Sort and Deduplicate of authorization_set.cpp. qsort of the C library and keymaster_param_compare of
-- hardware/keymaster_defs.h are not in the repository: they are parameters, for the bytes that the blobs
-- point into.
pub mod Unique
use platform_system_keymaste.Common.{
  ℕ, ◌+◌, ◌==◌, Bool, true, false, List, [], ◌∷◌, drop, if◌then◌else◌,
}
use platform_system_keymaste.Defs.{KeymasterDefs, KeyParam, Tag}
use platform_system_keymaste.AuthSet.{AuthorizationSet}

-- The sign of the `int` that the comparison returns.
pub data Comparison : Type 0 where
  below alike above : Comparison

abbrev pub is_alike : Comparison → Bool
is_alike alike = true
is_alike _ = false

pub record ParamOrder : Type 0 where
  pub compare : List ℕ → KeyParam → KeyParam → Comparison
  pub sorted : List ℕ → List KeyParam → List KeyParam

unfoldable pub sort : ParamOrder → AuthorizationSet → AuthorizationSet
sort q s = record s { elems = q.sorted s.indirect_data s.elems }

-- The loop of `Deduplicate` and the test of the last element behind it: from the element `x` on, the
-- elements with duplicates marked as invalid, and the number of the invalid ones.
unfoldable pub mark_from :
    ℕ → (KeyParam → KeyParam → Comparison) → KeyParam → List KeyParam → List KeyParam × ℕ
mark_from invalid_tag compare x [] = (x ∷ [], if x.tag == invalid_tag then 1 else 0)
mark_from invalid_tag compare x (y ∷ ys) =
    let (marked, invalid_count) = mark_from invalid_tag compare y ys in
    if x.tag == invalid_tag
    then (x ∷ marked, invalid_count + 1)
    else if is_alike (compare x y)
    then (record x { tag = invalid_tag } ∷ marked, invalid_count + 1)
    else (x ∷ marked, invalid_count)

unfoldable pub mark : ℕ → (KeyParam → KeyParam → Comparison) → List KeyParam → List KeyParam × ℕ
unfolding mark_from
mark invalid_tag compare [] = ([], 0)
mark invalid_tag compare (x ∷ xs) = mark_from invalid_tag compare x xs

unfoldable pub deduplicate : KeymasterDefs → ParamOrder → AuthorizationSet → AuthorizationSet
unfolding sort mark
deduplicate d q s =
    let once = sort q s in
    let (marked, invalid_count) =
      mark (d.tag_value Tag.invalid) (q.compare s.indirect_data) once.elems in
    if invalid_count == 0
    then once
    else record s { elems = drop invalid_count (q.sorted s.indirect_data marked) }
