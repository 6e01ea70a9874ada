-- ===== src/Tests/Storing.antt =====
-- Witnesses for the storage and the searches of authorization_set.cpp.
use mathlib.Core.Option
use platform_system_keymaste.Common.{
  ◌≡◌, refl, [], ◌∷◌, ◌++◌, map, none, arith, length, get_elem?, ◌==◌, if◌then◌else◌,
}
use platform_system_keymaste.Defs.{long_integer, SourceParam, Tag, enumerated, integer}
use platform_system_keymaste.AuthSet.{empty_set, push_back, push_back_set}
use platform_system_keymaste.AuthSet.View.{view, kept}
use platform_system_keymaste.AuthSet.Storage.{IsBounded, Ensures, empty_set-IsSound}
use platform_system_keymaste.AuthSet.Push.{push_back-Ensures}
use platform_system_keymaste.AuthSet.Fill.{push_back_set-Ensures}
use platform_system_keymaste.AuthSet.Lookup.{
  get_tag_count, get_tag_value_enum_rep, get_tag_value_int_rep, get_tag_value_long_rep,
  get_only_enum,
}
use platform_system_keymaste.AuthSet.Lookup.Laws.{
  tagged, get_tag_count-length, get_tag_value_rep-tagged, get_only_enum-tagged,
}
use platform_system_keymaste.Tests.{test_defs, test_tag, test_allocator, test_key}

test_allocator-IsBounded : IsBounded test_allocator
test_allocator-IsBounded = record {
  elems_bounded = λ n h. ground arith;
  bytes_bounded = λ n h. ground arith;
}

abbrev nonce : SourceParam
nonce = record { tag = test_tag Tag.nonce; word = 0; blob = 1 ∷ 2 ∷ 3 ∷ [] }

abbrev limit : SourceParam
limit = record { tag = test_tag Tag.max_uses_per_boot; word = 1; blob = [] }

push_back-Ensures_example :
    Ensures test_defs
      (λ t. view test_defs t ≡ view test_defs empty_set ++ (kept test_defs nonce ∷ []))
      (push_back test_defs test_allocator nonce empty_set)
push_back-Ensures_example =
    push_back-Ensures test_defs test_allocator test_allocator-IsBounded nonce empty_set
      (empty_set-IsSound test_defs) (omega arith)

push_back_set-Ensures_example :
    Ensures test_defs
      (λ t.
        view test_defs t
        ≡ view test_defs empty_set ++ map (kept test_defs) (nonce ∷ limit ∷ nonce ∷ []))
      (push_back_set test_defs test_allocator (nonce ∷ limit ∷ nonce ∷ []) empty_set)
push_back_set-Ensures_example =
    push_back_set-Ensures test_defs test_allocator test_allocator-IsBounded
      (nonce ∷ limit ∷ nonce ∷ []) empty_set (empty_set-IsSound test_defs)
      (omega arith, (omega arith, (omega arith, tt)))

get_tag_count-length_example :
    get_tag_count test_key (test_tag Tag.purpose)
    ≡ length (tagged (test_tag Tag.purpose) test_key.elems)
get_tag_count-length_example = get_tag_count-length test_key (test_tag Tag.purpose) refl

get_tag_value_rep-tagged_example :
    (get_tag_value_enum_rep test_key (test_tag Tag.purpose) 0
      ≡ Option.map enumerated (get_elem? (tagged (test_tag Tag.purpose) test_key.elems) 0))
    × (get_tag_value_int_rep test_key (test_tag Tag.purpose) 0
        ≡ Option.map integer (get_elem? (tagged (test_tag Tag.purpose) test_key.elems) 0))
    × (get_tag_value_long_rep test_key (test_tag Tag.purpose) 0
        ≡ Option.map long_integer (get_elem? (tagged (test_tag Tag.purpose) test_key.elems) 0))
get_tag_value_rep-tagged_example = get_tag_value_rep-tagged test_key (test_tag Tag.purpose) refl 0

get_only_enum-tagged_example : get_only_enum test_key (test_tag Tag.purpose) ≡ (
    if length (tagged (test_tag Tag.purpose) test_key.elems) == 1
    then Option.map enumerated (get_elem? (tagged (test_tag Tag.purpose) test_key.elems) 0)
    else none)
get_only_enum-tagged_example = get_only_enum-tagged test_key (test_tag Tag.purpose) refl
