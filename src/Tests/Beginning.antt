-- ===== src/Tests/Beginning.antt =====
-- Witness for BeginOperation of android_keymaster.cpp: a context with one factory.
use platform_system_keymaste.Common.{ℕ, refl, [], ◌∷◌, some, arith}
use platform_system_keymaste.Defs.{KeymasterError, Purpose}
use platform_system_keymaste.AuthSet.{AuthorizationSet}
use platform_system_keymaste.OperationTable.{find}
use platform_system_keymaste.OperationTable.Adding.{IsFresh}
use platform_system_keymaste.Interfaces.{
  KeymasterContext, KeyFactory, Key, CreatedKey, OperationFactory,
}
use platform_system_keymaste.AndroidKeymaster.{begin_operation, load_key}
use platform_system_keymaste.AndroidKeymaster.Begin.{
  IsStarted, IsAuthorized, HasCreators, begin_operation-IsStarted,
}
use platform_system_keymaste.Tests.{no_params}
use platform_system_keymaste.Tests.Running.{
  test_blob, test_keymaster_context, surroundings, running, running-IsTable,
}

abbrev pub number_operations : OperationFactory ℕ
number_operations = record {
  algorithm = 32;
  purpose = Purpose.decrypt;
  supported_padding_modes = 1 ∷ 64 ∷ [];
  supported_block_modes = 1 ∷ [];
  supported_digests = [];
  create_operation = λ key params. (KeymasterError.ok, some (Purpose.decrypt, 0));
}

abbrev pub number_key : AuthorizationSet → Key
number_key auths = record {
  authorizations = auths;
  formatted_key_material = λ format. (KeymasterError.unsupported_algorithm, []);
  generate_attestation =
      λ params hw sw. (KeymasterError.unsupported_algorithm, record { entries = [] });
}

abbrev created : CreatedKey
created = record { key_blob = test_blob; hw_enforced = no_params; sw_enforced = no_params }

abbrev pub number_factory : KeyFactory ℕ
number_factory = record {
  generate_key = λ description. (KeymasterError.ok, created);
  import_key = λ description format material. (KeymasterError.ok, created);
  supported_import_formats = [];
  supported_export_formats = [];
  load_key = λ material params hw sw. (KeymasterError.ok, number_key hw);
  get_operation_factory = λ purpose. some number_operations;
}

abbrev pub number_context : KeymasterContext ℕ
number_context = record test_keymaster_context {
  get_key_factory = λ algorithm. some number_factory;
}

number_context-HasCreators : HasCreators number_context
unfolding load_key
number_context-HasCreators f key_blob params key loaded purpose factory found key' params' missing =
    ground arith

surroundings-IsFresh : IsFresh surroundings.handle running.operation_table
unfolding find
surroundings-IsFresh = refl

begin_operation-IsStarted_example :
    IsStarted
      (IsAuthorized number_context surroundings Purpose.decrypt
        (1 ∷ 2 ∷ [])
        no_params
        running.enforcement)
      running.operation_table
      (begin_operation number_context surroundings Purpose.decrypt (1 ∷ 2 ∷ []) no_params running)
begin_operation-IsStarted_example =
    begin_operation-IsStarted number_context surroundings Purpose.decrypt (1 ∷ 2 ∷ []) no_params
      running number_context-HasCreators running-IsTable surroundings-IsFresh
