-- ===== src/Tests.antt =====
-- Concrete inputs for the witnesses in the modules below: tag values, a clock, an allocator, and a key.
mod Tables
mod Enforcing
mod Storing
mod Wiring
mod Running
mod Buffering
mod Curving
mod Messaging
mod Beginning
mod Loading
mod Sorting
mod Replaying
mod Signing
mod Deriving
use platform_system_keymaste.Common.{
  ℕ, ◌+◌, ◌*◌, ◌/◌, ◌^◌, ◌==◌, Bool, true, false, List, [], ◌∷◌, Option, none, some, get_elem?, leb,
  if◌then◌else◌,
}
use platform_system_keymaste.Defs.{KeymasterDefs, KeyParam, Tag, TagType, Purpose}
use platform_system_keymaste.AuthSet.{AuthorizationSet, Allocator, valid}
use platform_system_keymaste.Enforcement.{
  HwAuthToken, Context, AccessTime, AccessTimeMap, AccessCount, AccessCountMap,
  KeymasterEnforcement,
}

-- A tag's value: its type in the high four bits, its number below.
abbrev tagged_value : ℕ → ℕ → ℕ
tagged_value type number = type * 2 ^ 28 + number

abbrev pub test_tag : Tag → ℕ
test_tag Tag.invalid = 0
test_tag Tag.purpose = tagged_value 2 1
test_tag Tag.algorithm = tagged_value 1 2
test_tag Tag.key_size = tagged_value 3 3
test_tag Tag.block_mode = tagged_value 2 4
test_tag Tag.digest = tagged_value 2 5
test_tag Tag.padding = tagged_value 2 6
test_tag Tag.caller_nonce = tagged_value 7 7
test_tag Tag.min_mac_length = tagged_value 3 8
test_tag Tag.kdf = tagged_value 2 9
test_tag Tag.ec_curve = tagged_value 1 10
test_tag Tag.rsa_public_exponent = tagged_value 5 200
test_tag Tag.ecies_single_hash_mode = tagged_value 7 201
test_tag Tag.include_unique_id = tagged_value 7 202
test_tag Tag.blob_usage_requirements = tagged_value 1 301
test_tag Tag.bootloader_only = tagged_value 7 302
test_tag Tag.active_datetime = tagged_value 6 400
test_tag Tag.origination_expire_datetime = tagged_value 6 401
test_tag Tag.usage_expire_datetime = tagged_value 6 402
test_tag Tag.min_seconds_between_ops = tagged_value 3 403
test_tag Tag.max_uses_per_boot = tagged_value 3 404
test_tag Tag.all_users = tagged_value 7 500
test_tag Tag.user_id = tagged_value 3 501
test_tag Tag.user_secure_id = tagged_value 10 502
test_tag Tag.no_auth_required = tagged_value 7 503
test_tag Tag.user_auth_type = tagged_value 1 504
test_tag Tag.auth_timeout = tagged_value 3 505
test_tag Tag.allow_while_on_body = tagged_value 7 506
test_tag Tag.all_applications = tagged_value 7 600
test_tag Tag.application_id = tagged_value 9 601
test_tag Tag.exportable = tagged_value 7 602
test_tag Tag.application_data = tagged_value 9 700
test_tag Tag.creation_datetime = tagged_value 6 701
test_tag Tag.origin = tagged_value 1 702
test_tag Tag.rollback_resistant = tagged_value 7 703
test_tag Tag.root_of_trust = tagged_value 9 704
test_tag Tag.os_version = tagged_value 3 705
test_tag Tag.os_patchlevel = tagged_value 3 706
test_tag Tag.unique_id = tagged_value 9 707
test_tag Tag.attestation_challenge = tagged_value 9 708
test_tag Tag.associated_data = tagged_value 9 1000
test_tag Tag.nonce = tagged_value 9 1001
test_tag Tag.auth_token = tagged_value 9 1002
test_tag Tag.mac_length = tagged_value 3 1003
test_tag Tag.reset_since_id_rotation = tagged_value 7 1004
test_tag Tag.padding_old = tagged_value 1 7
test_tag Tag.digest_old = tagged_value 1 5
test_tag Tag.unnamed = 15

abbrev test_types : List TagType
test_types =
    TagType.km_invalid ∷ TagType.km_enum ∷ TagType.km_enum_rep ∷ TagType.km_uint
    ∷ TagType.km_uint_rep ∷ TagType.km_ulong ∷ TagType.km_date ∷ TagType.km_bool ∷ TagType.km_bignum
    ∷ TagType.km_bytes ∷ TagType.km_ulong_rep ∷ []

abbrev test_type : Option TagType → TagType
test_type none = TagType.km_unknown
test_type (some t) = t

abbrev test_purpose : Purpose → ℕ
test_purpose Purpose.encrypt = 0
test_purpose Purpose.decrypt = 1
test_purpose Purpose.sign = 2
test_purpose Purpose.verify = 3
test_purpose Purpose.derive_key = 4
test_purpose (Purpose.other n) = n

abbrev pub test_defs : KeymasterDefs
test_defs = record {
  tag_value = test_tag;
  purpose_value = test_purpose;
  algorithm_rsa = 1;
  algorithm_ec = 3;
  get_type = λ tag. test_type (get_elem? test_types (tag / 2 ^ 28));
  param_size = 24;
}

-- Arrays of up to 4096 elements are granted.
abbrev pub test_allocator : Allocator
test_allocator = record { grants_elems = λ n. leb n 4096; grants_bytes = λ n. leb n 4096 }

abbrev test_token : HwAuthToken
test_token = record {
  version = 0;
  challenge = 0;
  user_id = 0;
  authenticator_id = 0;
  authenticator_type = 0;
  timestamp = 0;
}

abbrev pub test_context : ℕ → Context
test_context now = record {
  activation_date_valid = λ date. leb date now;
  expiration_date_passed = λ date. leb date now;
  auth_token_timed_out = λ t timeout. false;
  validate_token_signature = λ t. true;
  time_checked = now;
  time_updated = now;
  token_size = 69;
  token_version = 0;
  read_token = λ bytes. test_token;
}

abbrev pub test_param : Tag → ℕ → KeyParam
test_param tag word = record { tag = test_tag tag; word = word; offset = 0; data_length = 0 }

-- A set of one nonce of three bytes.
abbrev pub nonce_set : AuthorizationSet
nonce_set = record {
  elems = record { tag = test_tag Tag.nonce; word = 0; offset = 0; data_length = 3 } ∷ [];
  elems_capacity = 1;
  indirect_data = 1 ∷ 2 ∷ 3 ∷ [];
  indirect_data_capacity = 3;
  allocated = 3;
  error = valid;
}

abbrev pub test_set : List KeyParam → ℕ → AuthorizationSet
test_set ps n = record {
  elems = ps;
  elems_capacity = n;
  indirect_data = [];
  indirect_data_capacity = 0;
  allocated = 0;
  error = valid;
}

-- An AES key that decrypts, at most once per boot and once in five seconds.
abbrev pub test_key : AuthorizationSet
test_key =
    test_set
      (test_param Tag.purpose 1
        ∷ test_param Tag.algorithm 32
        ∷ test_param Tag.max_uses_per_boot 1
        ∷ test_param Tag.min_seconds_between_ops 5
        ∷ [])
      4

abbrev pub no_params : AuthorizationSet
no_params = test_set [] 0

abbrev pub test_enforcement : List AccessTime → List AccessCount → KeymasterEnforcement
test_enforcement times counts = record {
  access_time_map = some (record { last_access_list = times; max_size = 2 });
  access_count_map = some (record { access_count_list = counts; max_size = 2 });
}
