-- ===== src/OperationFactory.antt =====
-- OperationFactory and Operation::UpdateForFinish of operation.h and operation.cpp. The arrays that
-- a factory gives are lists.
pub mod Laws
use platform_system_keymaste.Common.{
  ℕ, ◌==◌, Bool, true, false, ◌&&◌, ◌||◌, not, List, [], ◌∷◌, Option, none, some, length, ltb,
  if◌then◌else◌,
}
use platform_system_keymaste.Defs.{KeymasterDefs, KeymasterError, is_ok, Purpose, Tag}
use platform_system_keymaste.AuthSet.{AuthorizationSet}
use platform_system_keymaste.AuthSet.Lookup.{get_only_enum, contains_enum_value}
use platform_system_keymaste.Buffers.{Buffer, available_read, readable}
use platform_system_keymaste.Interfaces.{Operation, OperationFactory, OperationMethods, Output}

-- The loop of the three methods `supported`.
unfoldable pub supported : List ℕ → ℕ → Bool
supported [] mode = false
supported (x ∷ xs) mode = x == mode || supported xs mode

unfoldable pub is_public_key_algorithm : KeymasterDefs → ℕ → Bool
is_public_key_algorithm d algorithm = algorithm == d.algorithm_rsa || algorithm == d.algorithm_ec

-- The `switch` on the purpose.
abbrev pub uses_public_key : Purpose → Bool
uses_public_key Purpose.verify = true
uses_public_key Purpose.encrypt = true
uses_public_key _ = false

unfoldable pub is_public_key_operation : {S : Type 0} → KeymasterDefs → OperationFactory S → Bool
unfolding is_public_key_algorithm
is_public_key_operation d f =
    if not (is_public_key_algorithm d f.algorithm) then false else uses_public_key f.purpose

-- What GetAndValidatePadding and GetAndValidateDigest differ in: the tags, the modes and the errors.
pub record Mode : Type 0 where
  pub tag : Tag
  pub old_tag : Tag
  pub modes : List ℕ
  pub unsupported : KeymasterError
  pub incompatible : KeymasterError

-- The result, the mode that is written, and the error.
unfoldable pub get_and_validate :
    {S : Type 0}
    → Mode
    → KeymasterDefs
    → OperationFactory S
    → AuthorizationSet
    → AuthorizationSet
    → Bool × Option ℕ × KeymasterError
unfolding get_only_enum supported is_public_key_operation contains_enum_value
get_and_validate m d f begin_params key = elim (get_only_enum begin_params (d.tag_value m.tag)) [
  | none ↦ (false, none, m.unsupported)
  | some v ↦
      if not (supported m.modes v)
      then (false, some v, m.unsupported)
      else if not (is_public_key_operation d f)
          && (not (contains_enum_value key (d.tag_value m.tag) v)
              && not (contains_enum_value key (d.tag_value m.old_tag) v))
      then (false, some v, m.incompatible)
      else (true, some v, KeymasterError.ok)
]

abbrev pub padding_mode : {S : Type 0} → OperationFactory S → Mode
padding_mode f = record {
  tag = Tag.padding;
  old_tag = Tag.padding_old;
  modes = f.supported_padding_modes;
  unsupported = KeymasterError.unsupported_padding_mode;
  incompatible = KeymasterError.incompatible_padding_mode;
}

abbrev pub digest_mode : {S : Type 0} → OperationFactory S → Mode
digest_mode f = record {
  tag = Tag.digest;
  old_tag = Tag.digest_old;
  modes = f.supported_digests;
  unsupported = KeymasterError.unsupported_digest;
  incompatible = KeymasterError.incompatible_digest;
}

unfoldable pub get_and_validate_padding :
    {S : Type 0}
    → KeymasterDefs
    → OperationFactory S
    → AuthorizationSet
    → AuthorizationSet
    → Bool × Option ℕ × KeymasterError
unfolding get_and_validate
get_and_validate_padding d f = get_and_validate (padding_mode f) d f

unfoldable pub get_and_validate_digest :
    {S : Type 0}
    → KeymasterDefs
    → OperationFactory S
    → AuthorizationSet
    → AuthorizationSet
    → Bool × Option ℕ × KeymasterError
unfolding get_and_validate
get_and_validate_digest d f = get_and_validate (digest_mode f) d f

-- `UpdateForFinish`, for the method `Update` and the bytes that the input holds: the error and the
-- operation's new state. The asserts on the outputs are off.
unfoldable pub update_for_finish :
    {S : Type 0}
    → (S → AuthorizationSet → List ℕ → KeymasterError × S × Output)
    → S
    → AuthorizationSet
    → List ℕ
    → KeymasterError × S
update_for_finish update s input_params input =
    let updated = update s input_params input in
    if not (length input_params.elems == 0) || ltb 0 (length input)
    then (updated.0, updated.1)
    else (KeymasterError.ok, s)
