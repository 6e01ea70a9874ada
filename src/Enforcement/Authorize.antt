-- ===== src/Enforcement/Authorize.antt =====
-- The decisions of KeymasterEnforcement in keymaster_enforcement.cpp: AuthorizeOperation,
-- AuthorizeUpdateOrFinish, AuthorizeBegin, and the checks they call. An index that is -1 in the source
-- is `none`. The asserts on the indices hold: every index is a position of the set.
pub mod Scan
pub mod Begin
pub mod Uses
pub mod Rate
use platform_system_keymaste.Common.{
  ℕ, zero, suc, ◌+◌, ◌-◌, ◌^◌, bit_and, Bool, true, false, ◌&&◌, ◌||◌, List, [], ◌∷◌, Option, none,
  some, ltb, leb, ◌==◌, length, if◌then◌else◌, not,
}
use platform_system_keymaste.Defs.{
  KeymasterDefs, KeyParam, Tag, Purpose, KeymasterError, is_ok, tag_name, integer, long_integer,
  date_time,
}
use platform_system_keymaste.AuthSet.{AuthorizationSet}
use platform_system_keymaste.AuthSet.View.{slice}
use platform_system_keymaste.AuthSet.Lookup.{
  find, get_tag_value_enum, get_tag_value_blob, contains_enum_value, at,
}
use platform_system_keymaste.Utils.{ntoh}
use platform_system_keymaste.Enforcement.{HwAuthToken, Context, KeymasterEnforcement}
use platform_system_keymaste.Enforcement.Tables.{
  last_key_access_time, update_key_access_time, key_access_count, increment_key_access_count,
}

abbrev pub uint32_max : ℕ
uint32_max = 2 ^ 32 - 1

unfoldable pub is_public_key_algorithm : KeymasterDefs → AuthorizationSet → Bool
unfolding get_tag_value_enum
is_public_key_algorithm d s = elim (get_tag_value_enum s (d.tag_value Tag.algorithm)) [
  | none ↦ false
  | some a ↦ a == d.algorithm_rsa || a == d.algorithm_ec
]

-- The `switch` on the purpose: those that a key can name.
abbrev pub is_operation_purpose : Purpose → Bool
is_operation_purpose Purpose.verify = true
is_operation_purpose Purpose.encrypt = true
is_operation_purpose Purpose.sign = true
is_operation_purpose Purpose.decrypt = true
is_operation_purpose _ = false

unfoldable pub authorized_purpose : KeymasterDefs → Purpose → AuthorizationSet → KeymasterError
unfolding contains_enum_value
authorized_purpose d p s =
    if is_operation_purpose p
    then if contains_enum_value s (d.tag_value Tag.purpose) (d.purpose_value p)
      then KeymasterError.ok
      else KeymasterError.incompatible_purpose
    else KeymasterError.unsupported_purpose

abbrev pub is_origination_purpose : Purpose → Bool
is_origination_purpose Purpose.encrypt = true
is_origination_purpose Purpose.sign = true
is_origination_purpose _ = false

abbrev pub is_usage_purpose : Purpose → Bool
is_usage_purpose Purpose.decrypt = true
is_usage_purpose Purpose.verify = true
is_usage_purpose _ = false

-- `min_time_between <= static_cast<int64_t>(get_current_time()) - last_access_time`, a comparison of
-- signed 64-bit numbers.
unfoldable pub min_time_between_ops_passed : Context → KeymasterEnforcement → ℕ → ℕ → Bool
unfolding last_key_access_time
min_time_between_ops_passed c e min_time_between keyid = elim e.access_time_map [
  | none ↦ false
  | some m ↦ elim (last_key_access_time m keyid) [
    | none ↦ true
    | some last ↦ leb (min_time_between + last) c.time_checked
  ]
]

unfoldable pub max_uses_per_boot_not_exceeded : KeymasterEnforcement → ℕ → ℕ → Bool
unfolding key_access_count
max_uses_per_boot_not_exceeded e keyid max_uses = elim e.access_count_map [
  | none ↦ false
  | some m ↦ elim (key_access_count m keyid) [ none ↦ true | some count ↦ ltb count max_uses ]
]

-- The test of the token's authenticator type against the key's mask.
unfoldable pub auth_type_matches : KeymasterDefs → AuthorizationSet → Option ℕ → HwAuthToken → Bool
unfolding at ntoh
auth_type_matches d s none t = false
auth_type_matches d s (some i) t =
    let p = at (d.tag_value Tag.invalid) s i in
    leb i (length s.elems)
    && p.tag == d.tag_value Tag.user_auth_type
    && not (bit_and (integer p) (ntoh 4 t.authenticator_type) == 0)

-- The test of the token's age, at the begin of an operation of a key with a timeout.
unfoldable pub timeout_passed :
    KeymasterDefs → Context → AuthorizationSet → Option ℕ → Bool → HwAuthToken → Bool
unfolding at
timeout_passed d c s none is_begin t = true
timeout_passed d c s (some i) is_begin t =
    let p = at (d.tag_value Tag.invalid) s i in
    not is_begin
    || p.tag == d.tag_value Tag.auth_timeout && not (c.auth_token_timed_out t (integer p))

-- `auth_timeout_index == -1 && op_handle && op_handle != auth_token.challenge` refuses.
abbrev pub challenge_matches : Option ℕ → ℕ → HwAuthToken → Bool
challenge_matches (some i) op_handle t = true
challenge_matches none op_handle t = op_handle == 0 || op_handle == t.challenge

-- `AuthTokenMatches` behind the `memcpy` of the token: each test that fails returns false.
unfoldable pub token_accepted :
    KeymasterDefs
    → Context
    → AuthorizationSet
    → ℕ
    → Option ℕ
    → Option ℕ
    → ℕ
    → Bool
    → HwAuthToken
    → Bool
unfolding auth_type_matches timeout_passed
token_accepted d c s user_secure_id type_index timeout_index op_handle is_begin t =
    t.version == c.token_version
    && c.validate_token_signature t
    && challenge_matches timeout_index op_handle t
    && (user_secure_id == t.user_id || user_secure_id == t.authenticator_id)
    && auth_type_matches d s type_index t
    && timeout_passed d c s timeout_index is_begin t

unfoldable pub auth_token_matches :
    KeymasterDefs
    → Context
    → AuthorizationSet
    → AuthorizationSet
    → ℕ
    → Option ℕ
    → Option ℕ
    → ℕ
    → Bool
    → Bool
unfolding token_accepted get_tag_value_blob
auth_token_matches d c s params user_secure_id type_index timeout_index op_handle is_begin =
    elim (get_tag_value_blob params (d.tag_value Tag.auth_token)) [
      | none ↦ false
      | some (offset, data_length) ↦
          data_length == c.token_size
          && token_accepted d c s user_secure_id type_index timeout_index op_handle is_begin
              (c.read_token (slice offset data_length params.indirect_data))
    ]

-- The indices that the first loops of `AuthorizeBegin` and `AuthorizeUpdateOrFinish` collect.
pub record Indices : Type 0 where
  pub auth_timeout_index : Option ℕ
  pub auth_type_index : Option ℕ
  pub no_auth_required_index : Option ℕ

abbrev pub no_indices : Indices
no_indices = record {
  auth_timeout_index = none;
  auth_type_index = none;
  no_auth_required_index = none;
}

-- The `switch` of the first loop of `AuthorizeBegin` on the tag at a position.
abbrev pub note_index : ℕ → Tag → Indices → Indices
note_index pos Tag.auth_timeout ix = record ix { auth_timeout_index = some pos }
note_index pos Tag.user_auth_type ix = record ix { auth_type_index = some pos }
note_index pos Tag.no_auth_required ix = record ix { no_auth_required_index = some pos }
note_index pos _ ix = ix

-- The loop itself; the first argument counts the positions that are left.
unfoldable pub find_indices : KeymasterDefs → AuthorizationSet → ℕ → ℕ → Indices → Indices
unfolding at tag_name
find_indices d s zero pos ix = ix
find_indices d s (suc left) pos ix =
    find_indices d s left (pos + 1)
      (note_index pos (tag_name d (at (d.tag_value Tag.invalid) s pos).tag) ix)

-- The first loop of `AuthorizeUpdateOrFinish`: `none` where it returns KM_ERROR_OK, else the index of
-- KM_TAG_USER_AUTH_TYPE.
unfoldable pub find_auth_type :
    KeymasterDefs → AuthorizationSet → ℕ → ℕ → Option ℕ → Option (Option ℕ)
unfolding at tag_name
find_auth_type d s zero pos index = some index
find_auth_type d s (suc left) pos index =
    elim (tag_name d (at (d.tag_value Tag.invalid) s pos).tag) [
      | Tag.no_auth_required ↦ none
      | Tag.auth_timeout ↦ none
      | Tag.user_auth_type ↦ find_auth_type d s left (pos + 1) (some pos)
      | _ ↦ find_auth_type d s left (pos + 1) index
    ]

-- The second loop, with `authentication_required`, and what the function returns behind it.
unfoldable pub match_secure_ids :
    KeymasterDefs
    → Context
    → AuthorizationSet
    → AuthorizationSet
    → Option ℕ
    → ℕ
    → Bool
    → List KeyParam
    → KeymasterError
unfolding auth_token_matches
match_secure_ids d c s params index op_handle required [] =
    if required then KeymasterError.key_user_not_authenticated else KeymasterError.ok
match_secure_ids d c s params index op_handle required (p ∷ ps) =
    if p.tag == d.tag_value Tag.user_secure_id
    then if auth_token_matches d c s params (long_integer p) index none op_handle false
      then KeymasterError.ok
      else match_secure_ids d c s params index op_handle true ps
    else match_secure_ids d c s params index op_handle required ps

-- `index != -1`.
abbrev pub is_some {ℓ} : {A : Type ℓ} → Option A → Bool
is_some none = false
is_some (some a) = true

unfoldable pub authorize_update_or_finish :
    KeymasterDefs → Context → AuthorizationSet → AuthorizationSet → ℕ → KeymasterError
unfolding find_auth_type match_secure_ids
authorize_update_or_finish d c s params op_handle =
    elim (find_auth_type d s (length s.elems) 0 none) [
      | none ↦ KeymasterError.ok
      | some index ↦ match_secure_ids d c s params index op_handle (is_some index) s.elems
    ]
