-- ===== src/Enforcement/Authorize/Scan.antt =====
-- KeymasterEnforcement::AuthorizeBegin and AuthorizeOperation of keymaster_enforcement.cpp: the loop
-- over the key's authorizations, and what follows it.
pub mod Checks
use platform_system_keymaste.Common.{
  ℕ, Bool, true, false, ◌&&◌, ◌||◌, List, [], ◌∷◌, Option, none, some, ◌==◌, length, if◌then◌else◌,
  not,
}
use platform_system_keymaste.Defs.{
  KeymasterDefs, KeyParam, Tag, Purpose, KeymasterError, is_ok, tag_name, integer, long_integer,
  date_time,
}
use platform_system_keymaste.AuthSet.{AuthorizationSet}
use platform_system_keymaste.AuthSet.Lookup.{find}
use platform_system_keymaste.Enforcement.{Context, KeymasterEnforcement}
use platform_system_keymaste.Enforcement.Tables.{update_key_access_time, increment_key_access_count}
use platform_system_keymaste.Enforcement.Authorize.{
  uint32_max, is_public_key_algorithm, authorized_purpose, is_origination_purpose, is_usage_purpose,
  min_time_between_ops_passed, max_uses_per_boot_not_exceeded, auth_token_matches, Indices,
  no_indices, find_indices, is_some, authorize_update_or_finish,
}

-- The variables that the loop of `AuthorizeBegin` sets.
pub record Scan : Type 0 where
  pub min_ops_timeout : ℕ
  pub update_access_count : Bool
  pub caller_nonce_authorized_by_key : Bool
  pub authentication_required : Bool
  pub auth_token_matched : Bool

abbrev pub initial_scan : Scan
initial_scan = record {
  min_ops_timeout = uint32_max;
  update_access_count = false;
  caller_nonce_authorized_by_key = false;
  authentication_required = false;
  auth_token_matched = false;
}

-- What the body of the loop does: return an error, or go on.
pub data Checked : Type 0 where
  stop : KeymasterError → Checked
  go : Scan → Checked

-- A call of `AuthorizeBegin` with what its first loop found.
pub record Request : Type 0 where
  pub defs : KeymasterDefs
  pub context : Context
  pub enforcement : KeymasterEnforcement
  pub purpose : Purpose
  pub keyid : ℕ
  pub auth_set : AuthorizationSet
  pub operation_params : AuthorizationSet
  pub indices : Indices

-- The case KM_TAG_USER_SECURE_ID.
unfoldable pub check_secure_id : Request → KeyParam → Scan → Checked
unfolding auth_token_matches
check_secure_id r p v = elim r.indices.no_auth_required_index [
  | some i ↦ stop KeymasterError.invalid_key_blob
  | none ↦ elim r.indices.auth_timeout_index [
    | none ↦ go v
    | some i ↦ go (record v {
      authentication_required = true;
      auth_token_matched =
          v.auth_token_matched
          || auth_token_matches r.defs r.context r.auth_set r.operation_params (long_integer p)
              r.indices.auth_type_index (some i) 0 true;
    })
  ]
]

-- The `switch` on the parameter's tag; the enumerators without a line, and the values that are none,
-- have nothing to check.
unfoldable pub check_tag : Request → KeyParam → Scan → Tag → Checked
unfolding min_time_between_ops_passed max_uses_per_boot_not_exceeded check_secure_id
check_tag r p v Tag.active_datetime =
    if not (r.context.activation_date_valid (date_time p))
    then stop KeymasterError.key_not_yet_valid
    else go v
check_tag r p v Tag.origination_expire_datetime =
    if is_origination_purpose r.purpose && r.context.expiration_date_passed (date_time p)
    then stop KeymasterError.key_expired
    else go v
check_tag r p v Tag.usage_expire_datetime =
    if is_usage_purpose r.purpose && r.context.expiration_date_passed (date_time p)
    then stop KeymasterError.key_expired
    else go v
check_tag r p v Tag.min_seconds_between_ops =
    if not (min_time_between_ops_passed r.context r.enforcement (integer p) r.keyid)
    then stop KeymasterError.key_rate_limit_exceeded
    else go (record v { min_ops_timeout = integer p })
check_tag r p v Tag.max_uses_per_boot =
    if not (max_uses_per_boot_not_exceeded r.enforcement r.keyid (integer p))
    then stop KeymasterError.key_max_ops_exceeded
    else go (record v { update_access_count = true })
check_tag r p v Tag.user_secure_id = check_secure_id r p v
check_tag r p v Tag.caller_nonce = go (record v { caller_nonce_authorized_by_key = true })
check_tag r p v Tag.invalid = stop KeymasterError.invalid_key_blob
check_tag r p v Tag.auth_token = stop KeymasterError.invalid_key_blob
check_tag r p v Tag.root_of_trust = stop KeymasterError.invalid_key_blob
check_tag r p v Tag.application_data = stop KeymasterError.invalid_key_blob
check_tag r p v Tag.attestation_challenge = stop KeymasterError.invalid_key_blob
check_tag r p v Tag.bootloader_only = stop KeymasterError.invalid_key_blob
check_tag r p v _ = go v

-- The body of the loop.
unfoldable pub check_param : Request → KeyParam → Scan → Checked
unfolding check_tag tag_name
check_param r p v =
    if p.tag == r.defs.tag_value Tag.padding_old || p.tag == r.defs.tag_value Tag.digest_old
    then go v
    else check_tag r p v (tag_name r.defs p.tag)

unfoldable pub check_params : Request → List KeyParam → Scan → Checked
unfolding check_param
check_params r [] v = go v
check_params r (p ∷ ps) v = elim (check_param r p v) [
  | stop x ↦ stop x
  | go w ↦ check_params r ps w
]

-- `if (min_ops_timeout != UINT32_MAX)` and its body: the error to return, or KM_ERROR_OK to go on.
unfoldable pub record_access :
    Context → KeymasterEnforcement → ℕ → ℕ → KeymasterError × KeymasterEnforcement
unfolding update_key_access_time
record_access c e keyid timeout =
    if timeout == uint32_max then (KeymasterError.ok, e) else elim e.access_time_map [
      | none ↦ (KeymasterError.memory_allocation_failed, e)
      | some m ↦
          let (added, m') = update_key_access_time m keyid c.time_updated timeout in
          (
            (if added then KeymasterError.ok else KeymasterError.too_many_operations),
            record e { access_time_map = some m' },
          )
    ]

-- `if (update_access_count)` and its body.
unfoldable pub record_use : KeymasterEnforcement → ℕ → Bool → KeymasterError × KeymasterEnforcement
unfolding increment_key_access_count
record_use e keyid update =
    if update
    then elim e.access_count_map [
      | none ↦ (KeymasterError.memory_allocation_failed, e)
      | some m ↦
          let (added, m') = increment_key_access_count m keyid in
          (
            (if added then KeymasterError.ok else KeymasterError.too_many_operations),
            record e { access_count_map = some m' },
          )
    ]
    else (KeymasterError.ok, e)

-- A return on any error but KM_ERROR_OK.
abbrev pub unless_error :
    KeymasterError × KeymasterEnforcement
    → (KeymasterEnforcement → KeymasterError × KeymasterEnforcement)
    → KeymasterError × KeymasterEnforcement
unless_error (err, e) rest = if is_ok err then rest e else (err, e)

-- What follows the loop.
unfoldable pub after_scan : Request → Scan → KeymasterError × KeymasterEnforcement
unfolding record_access record_use find
after_scan r v =
    if v.authentication_required && not v.auth_token_matched
    then (KeymasterError.key_user_not_authenticated, r.enforcement)
    else if not v.caller_nonce_authorized_by_key
        && is_origination_purpose r.purpose
        && is_some (find r.operation_params (r.defs.tag_value Tag.nonce))
    then (KeymasterError.caller_nonce_prohibited, r.enforcement)
    else unless_error (record_access r.context r.enforcement r.keyid v.min_ops_timeout)
        (λ e. record_use e r.keyid v.update_access_count)

unfoldable pub finish_scan : Request → Checked → KeymasterError × KeymasterEnforcement
unfolding after_scan
finish_scan r (stop err) = (err, r.enforcement)
finish_scan r (go v) = after_scan r v

abbrev pub request :
    KeymasterDefs
    → Context
    → KeymasterEnforcement
    → Purpose
    → ℕ
    → AuthorizationSet
    → AuthorizationSet
    → Request
request d c e purpose keyid s params = record {
  defs = d;
  context = c;
  enforcement = e;
  purpose = purpose;
  keyid = keyid;
  auth_set = s;
  operation_params = params;
  indices = find_indices d s (length s.elems) 0 no_indices;
}

unfoldable pub authorize_begin :
    KeymasterDefs
    → Context
    → KeymasterEnforcement
    → Purpose
    → ℕ
    → AuthorizationSet
    → AuthorizationSet
    → KeymasterError × KeymasterEnforcement
unfolding find_indices authorized_purpose check_params finish_scan
authorize_begin d c e purpose keyid s params =
    let err = authorized_purpose d purpose s in
    if is_ok err
    then (let r = request d c e purpose keyid s params in
        finish_scan r (check_params r s.elems initial_scan))
    else (err, e)

-- The public-key purposes that are always authorized.
abbrev pub is_public_purpose : Purpose → Bool
is_public_purpose Purpose.encrypt = true
is_public_purpose Purpose.verify = true
is_public_purpose _ = false

unfoldable pub authorize_operation :
    KeymasterDefs
    → Context
    → KeymasterEnforcement
    → Purpose
    → ℕ
    → AuthorizationSet
    → AuthorizationSet
    → ℕ
    → Bool
    → KeymasterError × KeymasterEnforcement
unfolding is_public_key_algorithm authorize_begin authorize_update_or_finish
authorize_operation d c e purpose keyid s params op_handle is_begin =
    if is_public_key_algorithm d s && is_public_purpose purpose
    then (KeymasterError.ok, e)
    else if is_begin
    then authorize_begin d c e purpose keyid s params
    else (authorize_update_or_finish d c s params op_handle, e)
