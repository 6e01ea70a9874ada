-- ===== src/Tests/Loading.antt =====
-- Witnesses for LoadKey of android_keymaster.cpp and for operation.cpp.
use platform_system_keymaste.Common.{◌≡◌, refl, [], ◌∷◌, some}
use platform_system_keymaste.Defs.{KeymasterError, Tag}
use platform_system_keymaste.AuthSet.{AuthorizationSet}
use platform_system_keymaste.AndroidKeymaster.{load_key}
use platform_system_keymaste.AndroidKeymaster.Loading.{IsLoaded, load_key-IsLoaded}
use platform_system_keymaste.OperationFactory.{padding_mode, get_and_validate_padding}
use platform_system_keymaste.OperationFactory.Laws.{
  IsValidated, get_and_validate_padding-IsValidated,
}
use platform_system_keymaste.Tests.{test_defs, test_key, no_params, test_set, test_param}
use platform_system_keymaste.Tests.Beginning.{
  number_context, number_factory, number_key, number_operations,
}

key_loaded :
    load_key number_context (1 ∷ 2 ∷ []) no_params
    ≡ (KeymasterError.ok, some (number_factory, number_key test_key))
unfolding load_key
key_loaded = refl

load_key-IsLoaded_example :
    IsLoaded number_context (1 ∷ 2 ∷ []) no_params number_factory (number_key test_key)
load_key-IsLoaded_example =
    load_key-IsLoaded number_context (1 ∷ 2 ∷ []) no_params number_factory (number_key test_key)
      key_loaded

-- Parameters that name the padding mode 64.
abbrev padded : AuthorizationSet
padded = test_set (test_param Tag.padding 64 ∷ []) 1

get_and_validate_padding-IsValidated_example :
    IsValidated
      (padding_mode number_operations)
      test_defs
      number_operations
      padded
      padded
      (get_and_validate_padding test_defs number_operations padded padded)
get_and_validate_padding-IsValidated_example =
    get_and_validate_padding-IsValidated test_defs number_operations padded padded refl
