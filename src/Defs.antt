-- ===== src/Defs.antt =====
-- hardware/keymaster_defs.h and hw_auth_token.h as the code under include/keymaster sees them. The
-- headers are not in the repository, so the numeric values are a parameter, `KeymasterDefs`; the
-- enumerators themselves are those that the sources name.
use platform_system_keymaste.Common.{
  ℕ, ◌%◌, ◌^◌, Bool, true, false, List, [], ◌∷◌, ◌==◌, if◌then◌else◌, not,
}

-- keymaster_tag_type_t; `km_unknown` stands for a value that is none of the enumerators.
pub data TagType : Type 0 where
  km_invalid km_enum km_enum_rep km_uint km_uint_rep km_ulong km_ulong_rep : TagType
  km_date km_bool km_bignum km_bytes km_unknown : TagType

-- The enumerators of keymaster_tag_t that the enforcement code names; `unnamed` is any other value.
pub data Tag : Type 0 where
  invalid auth_token root_of_trust application_data attestation_challenge : Tag
  active_datetime origination_expire_datetime usage_expire_datetime : Tag
  min_seconds_between_ops max_uses_per_boot user_secure_id caller_nonce bootloader_only : Tag
  no_auth_required user_auth_type auth_timeout : Tag
  purpose algorithm key_size block_mode digest mac_length padding nonce min_mac_length kdf : Tag
  ec_curve blob_usage_requirements exportable rsa_public_exponent ecies_single_hash_mode : Tag
  creation_datetime origin rollback_resistant associated_data all_applications : Tag
  application_id os_version os_patchlevel user_id all_users include_unique_id unique_id : Tag
  reset_since_id_rotation allow_while_on_body padding_old digest_old unnamed : Tag

-- keymaster_purpose_t; the argument of `other` is a value that is no enumerator.
pub data Purpose : Type 0 where
  encrypt decrypt sign verify derive_key : Purpose
  other : ℕ → Purpose

-- keymaster_error_t, the enumerators that the modelled code returns; `error_code` carries what the
-- code passes on from elsewhere.
pub data KeymasterError : Type 0 where
  ok unknown_error invalid_key_blob memory_allocation_failed : KeymasterError
  incompatible_purpose unsupported_purpose key_user_not_authenticated key_not_yet_valid :
      KeymasterError
  key_expired key_rate_limit_exceeded key_max_ops_exceeded caller_nonce_prohibited : KeymasterError
  too_many_operations invalid_operation_handle unsupported_algorithm : KeymasterError
  key_requires_upgrade unsupported_padding_mode incompatible_padding_mode : KeymasterError
  unsupported_digest incompatible_digest unsupported_key_size unsupported_ec_curve : KeymasterError
  invalid_argument missing_mac_length unsupported_mac_length invalid_mac_length : KeymasterError
  verification_failed : KeymasterError
  error_code : ℕ → KeymasterError

-- `error == KM_ERROR_OK`.
abbrev pub is_ok : KeymasterError → Bool
is_ok ok = true
is_ok _ = false

pub record KeymasterDefs : Type 0 where
  -- The value of each enumerator.
  pub tag_value : Tag → ℕ
  pub purpose_value : Purpose → ℕ
  pub algorithm_rsa : ℕ
  pub algorithm_ec : ℕ
  -- `keymaster_tag_get_type`.
  pub get_type : ℕ → TagType
  -- `sizeof(keymaster_key_param_t)`.
  pub param_size : ℕ

-- The named enumerators, `unnamed` left out.
abbrev pub named_tags : List Tag
named_tags =
    invalid ∷ auth_token ∷ root_of_trust ∷ application_data ∷ attestation_challenge
    ∷ active_datetime ∷ origination_expire_datetime ∷ usage_expire_datetime
    ∷ min_seconds_between_ops ∷ max_uses_per_boot ∷ user_secure_id ∷ caller_nonce ∷ bootloader_only
    ∷ no_auth_required ∷ user_auth_type ∷ auth_timeout ∷ purpose ∷ algorithm ∷ key_size ∷ block_mode
    ∷ digest ∷ mac_length ∷ padding ∷ nonce ∷ min_mac_length ∷ kdf ∷ ec_curve
    ∷ blob_usage_requirements ∷ exportable ∷ rsa_public_exponent ∷ ecies_single_hash_mode
    ∷ creation_datetime ∷ origin ∷ rollback_resistant ∷ associated_data ∷ all_applications
    ∷ application_id ∷ os_version ∷ os_patchlevel ∷ user_id ∷ all_users ∷ include_unique_id
    ∷ unique_id ∷ reset_since_id_rotation ∷ allow_while_on_body ∷ padding_old ∷ digest_old ∷ []

unfoldable pub first_named : KeymasterDefs → List Tag → ℕ → Tag
first_named d [] n = unnamed
first_named d (t ∷ ts) n = if d.tag_value t == n then t else first_named d ts n

-- The enumerator that a `switch` on the value takes.
unfoldable pub tag_name : KeymasterDefs → ℕ → Tag
unfolding first_named
tag_name d n = first_named d named_tags n

-- keymaster_key_param_t. `word` is the union's scalar, and `offset` is where `blob.data` points,
-- counted from the set's indirect data.
pub record KeyParam : Type 0 where
  pub tag : ℕ
  pub word : ℕ
  pub offset : ℕ
  pub data_length : ℕ

-- The union's members of 32 and of 64 bits, and its `bool`.
abbrev pub enumerated : KeyParam → ℕ
enumerated p = p.word % 2 ^ 32

abbrev pub integer : KeyParam → ℕ
integer p = p.word % 2 ^ 32

abbrev pub long_integer : KeyParam → ℕ
long_integer p = p.word % 2 ^ 64

abbrev pub date_time : KeyParam → ℕ
date_time p = p.word % 2 ^ 64

abbrev pub boolean : KeyParam → Bool
boolean p = not (p.word % 256 == 0)

-- A parameter that a caller passes in, with the bytes that its `blob` points at.
pub record SourceParam : Type 0 where
  pub tag : ℕ
  pub word : ℕ
  pub blob : List ℕ

abbrev pub is_blob_type : TagType → Bool
is_blob_type km_bytes = true
is_blob_type km_bignum = true
is_blob_type _ = false

abbrev pub is_blob_tag : KeymasterDefs → ℕ → Bool
is_blob_tag d tag = is_blob_type (d.get_type tag)
