-- ===== src/Tests/Running.antt =====
-- Witnesses for operation_table.cpp and android_keymaster.cpp: operations whose state is a number.
use platform_system_keymaste.Common.{ℕ, refl, inl, inr, true, false, [], ◌∷◌, some, none, arith}
use platform_system_keymaste.Defs.{KeymasterError, is_ok, Purpose}
use platform_system_keymaste.OperationTable.{OperationTable, random, empty_entry}
use platform_system_keymaste.OperationTable.Laws.{IsTable}
use platform_system_keymaste.Interfaces.{no_output, KeymasterContext, Surroundings}
use platform_system_keymaste.AndroidKeymaster.{
  AndroidKeymaster, update_operation, finish_operation, abort_operation,
}
use platform_system_keymaste.AndroidKeymaster.Lifecycle.{
  IsHandled, update_operation-IsHandled, finish_operation-IsHandled, abort_operation-IsHandled,
}
use platform_system_keymaste.Messages.{KeyBlob}
use platform_system_keymaste.Tests.{
  test_defs, test_context, test_allocator, test_key, no_params, test_enforcement,
}

abbrev pub numbers : OperationTable ℕ
numbers = record {
  table = some (record { handle = 5; operation = some 50 } ∷ empty_entry ∷ []);
  table_size = 2;
}

pub numbers-IsTable : IsTable numbers
numbers-IsTable =
    ((inr ((λ h. omega arith), ((λ h. omega arith), tt), (50, refl)), (inl (refl, refl), tt)), refl)

abbrev pub test_blob : KeyBlob
test_blob = record { key_material = 1 ∷ 2 ∷ 3 ∷ []; key_material_size = 3 }

abbrev pub test_keymaster_context : KeymasterContext ℕ
test_keymaster_context = record {
  defs = test_defs;
  methods = record {
    begin = λ s params. (KeymasterError.ok, s, no_params);
    update = λ s params input. (KeymasterError.ok, s, no_output);
    finish = λ s params input signature. (KeymasterError.ok, s, no_output);
    abort = λ s. KeymasterError.ok;
  };
  parse_key_blob = λ key_blob params. (
    KeymasterError.ok,
    record { key_material = key_blob; hw_enforced = test_key; sw_enforced = no_params },
  );
  os_version = 1;
  os_patchlevel = 1;
  get_key_factory = λ algorithm. none;
  create_key_id = λ key_blob. some 7;
  get_operation_factory = λ algorithm purpose. none;
  supported_algorithms = [];
  upgrade_key_blob = λ key_blob params. (KeymasterError.ok, test_blob);
  delete_key = λ key_blob. KeymasterError.ok;
  delete_all_keys = KeymasterError.ok;
  add_rng_entropy = λ bytes. KeymasterError.ok;
}

abbrev pub surroundings : Surroundings
surroundings = record {
  context = test_context 100;
  allocator = test_allocator;
  table_granted = true;
  handle = random 6;
}

abbrev pub running : AndroidKeymaster ℕ
running = record {
  operation_table = record {
    table = some (
        record {
          handle = 5;
          operation =
              some
                (record { purpose = Purpose.decrypt; key_id = 7; key_auths = test_key; body = 0 });
        }
        ∷ empty_entry
        ∷ []);
    table_size = 2;
  };
  enforcement = some (test_enforcement [] []);
}

pub running-IsTable : IsTable running.operation_table
running-IsTable =
    ((inr ((λ h. omega arith), ((λ h. omega arith), tt), (_, refl)), (inl (refl, refl), tt)), refl)

update_operation-IsHandled_example :
    IsHandled is_ok 5 running
      (update_operation test_keymaster_context surroundings 5 no_params (1 ∷ 2 ∷ []) running)
update_operation-IsHandled_example =
    update_operation-IsHandled test_keymaster_context surroundings 5 no_params (1 ∷ 2 ∷ []) running
      running-IsTable

finish_operation-IsHandled_example :
    IsHandled
      (λ err. false)
      5
      running
      (finish_operation test_keymaster_context surroundings 5 no_params (1 ∷ []) [] running)
finish_operation-IsHandled_example =
    finish_operation-IsHandled test_keymaster_context surroundings 5 no_params (1 ∷ []) [] running
      running-IsTable

abort_operation-IsHandled_example :
    IsHandled (λ err. false) 5 running (abort_operation test_keymaster_context 5 running)
abort_operation-IsHandled_example =
    abort_operation-IsHandled test_keymaster_context 5 running running-IsTable
