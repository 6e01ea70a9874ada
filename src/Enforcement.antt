-- ===== src/Enforcement.antt =====
-- keymaster_enforcement.cpp and include/keymaster/keymaster_enforcement.h: the state of
-- KeymasterEnforcement, its two tables, and what the subclass supplies.
pub mod Tables
pub mod Authorize
use platform_system_keymaste.Common.{ℕ, Bool, List, Option}

-- hw_auth_token_t.
pub record HwAuthToken : Type 0 where
  pub version : ℕ
  pub challenge : ℕ
  pub user_id : ℕ
  pub authenticator_id : ℕ
  pub authenticator_type : ℕ
  pub timestamp : ℕ

-- The virtual methods of KeymasterEnforcement during one call, and the layout of hw_auth_token_t,
-- whose header is not in the repository. `time_checked` is what `get_current_time` gives while the
-- parameters are checked, `time_updated` what it gives when the table of access times is updated.
pub record Context : Type 0 where
  pub activation_date_valid : ℕ → Bool
  pub expiration_date_passed : ℕ → Bool
  pub auth_token_timed_out : HwAuthToken → ℕ → Bool
  pub validate_token_signature : HwAuthToken → Bool
  pub time_checked : ℕ
  pub time_updated : ℕ
  pub token_size : ℕ
  pub token_version : ℕ
  pub read_token : List ℕ → HwAuthToken

-- AccessTimeMap::AccessTime.
pub record AccessTime : Type 0 where
  pub keyid : ℕ
  pub access_time : ℕ
  pub timeout : ℕ

pub record AccessTimeMap : Type 0 where
  pub last_access_list : List AccessTime
  pub max_size : ℕ

-- AccessCountMap::AccessCount.
pub record AccessCount : Type 0 where
  pub keyid : ℕ
  pub access_count : ℕ

pub record AccessCountMap : Type 0 where
  pub access_count_list : List AccessCount
  pub max_size : ℕ

-- A table is `none` where its allocation failed in the constructor.
pub record KeymasterEnforcement : Type 0 where
  pub access_time_map : Option AccessTimeMap
  pub access_count_map : Option AccessCountMap
