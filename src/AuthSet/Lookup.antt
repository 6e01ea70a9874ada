-- ===== src/AuthSet/Lookup.antt =====
-- Searching and editing an authorization set: `find`, `erase`, `operator[]`, `GetTagCount`,
-- `Contains` and the `GetTagValue` family of authorization_set.cpp and authorization_set.h.
-- An `int` result of -1 is `none`; positions and sizes fit an `int`.

pub mod Laws
pub mod Erase
use platform_system_keymaste.Common.{
  ℕ, zero, suc, ◌+◌, Bool, true, false, List, [], ◌∷◌, Option, none, some, ltb, ◌==◌, length, drop,
  get_elem?, if◌then◌else◌, ◌&&◌, ◌||◌,
}
use platform_system_keymaste.Defs.{KeyParam, enumerated, integer, long_integer, date_time, boolean}
use platform_system_keymaste.AuthSet.{AuthorizationSet, is_valid}

-- The `while` of `find`, at position `i`.
unfoldable pub find_loop : ℕ → ℕ → List KeyParam → Option ℕ
find_loop tag i [] = none
find_loop tag i (p ∷ ps) = if p.tag == tag then some i else find_loop tag (i + 1) ps

-- `find(tag, begin)`, where `from` is `begin + 1`. A start behind the end is returned as it is.
unfoldable pub find_from : AuthorizationSet → ℕ → ℕ → Option ℕ
unfolding find_loop
find_from s tag from =
    if is_valid s.error
    then if ltb (length s.elems) from then some from else find_loop tag from (drop from s.elems)
    else none

-- `find(tag)`.
unfoldable pub find : AuthorizationSet → ℕ → Option ℕ
unfolding find_from
find s tag = find_from s tag 0

unfoldable pub contains : AuthorizationSet → ℕ → Bool
unfolding find
contains s tag = elim (find s tag) [ none ↦ false | some i ↦ true ]

-- `GetTagCount`: the loop, with one round of fuel for each position.
unfoldable pub count_loop : AuthorizationSet → ℕ → ℕ → ℕ → Option ℕ → ℕ
unfolding find_from
count_loop s tag fuel n none = n
count_loop s tag zero n (some i) = n
count_loop s tag (suc fuel) n (some i) = count_loop s tag fuel (n + 1) (find_from s tag (i + 1))

unfoldable pub get_tag_count : AuthorizationSet → ℕ → ℕ
unfolding count_loop find
get_tag_count s tag = count_loop s tag (length s.elems) 0 (find s tag)

-- The value of the element at a position that `find` gave.
unfoldable pub read_at {ℓ} : {A : Type ℓ} → (KeyParam → A) → List KeyParam → Option ℕ → Option A
read_at f ps none = none
read_at f ps (some i) = elim (get_elem? ps i) [ none ↦ none | some p ↦ some (f p) ]

unfoldable pub get_tag_value_enum : AuthorizationSet → ℕ → Option ℕ
unfolding read_at find
get_tag_value_enum s tag = read_at enumerated s.elems (find s tag)

unfoldable pub get_tag_value_int : AuthorizationSet → ℕ → Option ℕ
unfolding read_at find
get_tag_value_int s tag = read_at integer s.elems (find s tag)

unfoldable pub get_tag_value_long : AuthorizationSet → ℕ → Option ℕ
unfolding read_at find
get_tag_value_long s tag = read_at long_integer s.elems (find s tag)

unfoldable pub get_tag_value_date : AuthorizationSet → ℕ → Option ℕ
unfolding read_at find
get_tag_value_date s tag = read_at date_time s.elems (find s tag)

unfoldable pub get_tag_value_bool : AuthorizationSet → ℕ → Bool
unfolding read_at find
get_tag_value_bool s tag = elim (read_at boolean s.elems (find s tag)) [ none ↦ false | some b ↦ b ]

-- The blob as the offset and the length of its bytes.
unfoldable pub get_tag_value_blob : AuthorizationSet → ℕ → Option (ℕ × ℕ)
unfolding read_at find
get_tag_value_blob s tag = read_at (λ p. (p.offset, p.data_length)) s.elems (find s tag)

-- `while (count <= instance) pos = find(tag, pos)`, for the rounds that are left.
unfoldable pub instance_loop : AuthorizationSet → ℕ → ℕ → ℕ → Option ℕ
unfolding find_from
instance_loop s tag zero from = find_from s tag from
instance_loop s tag (suc n) from = elim (find_from s tag from) [
  | none ↦ none
  | some i ↦ instance_loop s tag n (i + 1)
]

unfoldable pub get_tag_value_enum_rep : AuthorizationSet → ℕ → ℕ → Option ℕ
unfolding read_at instance_loop
get_tag_value_enum_rep s tag n = read_at enumerated s.elems (instance_loop s tag n 0)

unfoldable pub get_tag_value_int_rep : AuthorizationSet → ℕ → ℕ → Option ℕ
unfolding read_at instance_loop
get_tag_value_int_rep s tag n = read_at integer s.elems (instance_loop s tag n 0)

unfoldable pub get_tag_value_long_rep : AuthorizationSet → ℕ → ℕ → Option ℕ
unfolding read_at instance_loop
get_tag_value_long_rep s tag n = read_at long_integer s.elems (instance_loop s tag n 0)

-- `GetTagValue` of a repeatable enumeration tag: exactly one instance is wanted.
unfoldable pub get_only_enum : AuthorizationSet → ℕ → Option ℕ
unfolding get_tag_count get_tag_value_enum_rep
get_only_enum s tag = if get_tag_count s tag == 1 then get_tag_value_enum_rep s tag 0 else none

unfoldable pub contains_value : (KeyParam → ℕ) → ℕ → ℕ → List KeyParam → Bool
contains_value f tag value [] = false
contains_value f tag value (p ∷ ps) = p.tag == tag && f p == value || contains_value f tag value ps

unfoldable pub contains_enum_value : AuthorizationSet → ℕ → ℕ → Bool
unfolding contains_value
contains_enum_value s tag value = contains_value enumerated tag value s.elems

unfoldable pub contains_int_value : AuthorizationSet → ℕ → ℕ → Bool
unfolding contains_value
contains_int_value s tag value = contains_value integer tag value s.elems

abbrev pub remove_at {ℓ} : {A : Type ℓ} → ℕ → List A → List A
remove_at i [] = []
remove_at zero (x ∷ xs) = xs
remove_at (suc i) (x ∷ xs) = x ∷ remove_at i xs

-- `erase(index)`. The indirect data stays as it is.
unfoldable pub erase : AuthorizationSet → ℕ → Bool × AuthorizationSet
erase s index =
    if ltb index (length s.elems)
    then (true, record s { elems = remove_at index s.elems })
    else (false, s)

-- `{KM_TAG_INVALID, {}}`, for the numeric value of KM_TAG_INVALID.
abbrev pub empty_param : ℕ → KeyParam
empty_param tag = record { tag = tag; word = 0; offset = 0; data_length = 0 }

-- `operator[]` at an index that is not negative.
unfoldable pub at : ℕ → AuthorizationSet → ℕ → KeyParam
at invalid_tag s i =
    if is_valid s.error
    then elim (get_elem? s.elems i) [ none ↦ empty_param invalid_tag | some p ↦ p ]
    else empty_param invalid_tag
