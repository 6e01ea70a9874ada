-- ===== src/AndroidKeymaster.antt =====
-- AndroidKeymaster of android_keymaster.cpp: loading a key and the life of an operation.
pub mod Lifecycle
pub mod Begin
pub mod Loading
pub mod Queries
pub mod Keys
use platform_system_keymaste.Common.{
  ℕ, Bool, true, false, ◌&&◌, List, [], Option, none, some, ltb, if◌then◌else◌,
}
use platform_system_keymaste.Defs.{KeymasterDefs, Tag, Purpose, KeymasterError, is_ok}
use platform_system_keymaste.AuthSet.{
  AuthorizationSet, Allocator, done, out_of_bounds, empty_set, reinitialize, clear,
}
use platform_system_keymaste.AuthSet.View.{view}
use platform_system_keymaste.AuthSet.Lookup.{get_tag_value_int, get_tag_value_enum}
use platform_system_keymaste.Enforcement.{Context, KeymasterEnforcement}
use platform_system_keymaste.Enforcement.Authorize.Scan.{authorize_operation}
use platform_system_keymaste.Interfaces.{
  no_output, Operation, Output, OperationMethods, Key, OperationFactory, KeyFactory, ParsedKey,
  KeymasterContext, Surroundings,
}
use platform_system_keymaste.OperationTable.{OperationTable, Random, add, find, delete, write_back}

-- `enforcement` is none where `enforcement_policy()` is null.
pub record AndroidKeymaster (S : Type 0) : Type 0 where
  pub operation_table : OperationTable (Operation S)
  pub enforcement : Option KeymasterEnforcement

-- `a.GetTagValue(...) || b.GetTagValue(...)`.
abbrev pub either_value : Option ℕ → Option ℕ → Option ℕ
either_value (some n) other = some n
either_value none other = other

unfoldable pub check_version_info :
    KeymasterDefs → AuthorizationSet → AuthorizationSet → ℕ → KeymasterError
unfolding get_tag_value_int
check_version_info d tee_enforced sw_enforced os_patchlevel =
    elim (either_value (get_tag_value_int tee_enforced (d.tag_value Tag.os_patchlevel))
      (get_tag_value_int sw_enforced (d.tag_value Tag.os_patchlevel))) [
        | none ↦ KeymasterError.ok
        | some key_os_patchlevel ↦
            if ltb key_os_patchlevel os_patchlevel
            then KeymasterError.key_requires_upgrade
            else if ltb os_patchlevel key_os_patchlevel
            then KeymasterError.invalid_key_blob
            else KeymasterError.ok
      ]

-- A response: the error, the handle and the outputs.
pub record Response : Type 0 where
  pub error : KeymasterError
  pub op_handle : ℕ
  pub result : Output

abbrev pub failed : KeymasterError → Response
failed err = record { error = err; op_handle = 0; result = no_output }

module _ {S : Type 0} where
  unfoldable pub get_key_factory :
      KeymasterContext S
      → AuthorizationSet
      → AuthorizationSet
      → KeymasterError × Option (KeyFactory S)
  unfolding get_tag_value_enum
  get_key_factory c hw_enforced sw_enforced =
      elim (either_value (get_tag_value_enum hw_enforced (c.defs.tag_value Tag.algorithm))
        (get_tag_value_enum sw_enforced (c.defs.tag_value Tag.algorithm))) [
          | none ↦ (KeymasterError.unsupported_algorithm, none)
          | some algorithm ↦ elim (c.get_key_factory algorithm) [
            | none ↦ (KeymasterError.unsupported_algorithm, none)
            | some factory ↦ (KeymasterError.ok, some factory)
          ]
        ]

  -- `LoadKey`: the error, the factory and the key.
  unfoldable pub load_key :
      KeymasterContext S → List ℕ → AuthorizationSet → KeymasterError × Option (KeyFactory S × Key)
  unfolding check_version_info get_key_factory
  load_key c key_blob params =
      let (error, parsed) = c.parse_key_blob key_blob params in
      if is_ok error
      then (let version =
            check_version_info c.defs parsed.hw_enforced parsed.sw_enforced c.os_patchlevel in
          if is_ok version
          then (let (found, factory) = get_key_factory c parsed.hw_enforced parsed.sw_enforced in
              elim factory [
                | none ↦ (found, none)
                | some f ↦
                    let (loaded, key) =
                      f.load_key parsed.key_material params parsed.hw_enforced parsed.sw_enforced in
                    (loaded, some (f, key))
              ])
          else (version, none))
      else (error, none)

  -- The enforcement's part of `BeginOperation`: the error, the key's id and the new enforcement.
  unfoldable pub enforce_begin :
      KeymasterContext S
      → Surroundings
      → Option KeymasterEnforcement
      → Purpose
      → List ℕ
      → AuthorizationSet
      → AuthorizationSet
      → KeymasterError × ℕ × Option KeymasterEnforcement
  unfolding authorize_operation
  enforce_begin c w none purpose key_blob key params = (KeymasterError.ok, 0, none)
  enforce_begin c w (some e) purpose key_blob key params = elim (c.create_key_id key_blob) [
    | none ↦ (KeymasterError.unknown_error, 0, some e)
    | some key_id ↦
        let (err, e') = authorize_operation c.defs w.context e purpose key_id key params 0 true in
        (err, key_id, some e')
  ]

  -- `SetAuthorizations`, whose result the code drops.
  unfoldable pub set_authorizations :
      KeymasterDefs → Allocator → AuthorizationSet → Operation S → Operation S
  unfolding reinitialize
  set_authorizations d al auths op = elim (reinitialize d al (view d auths) op.key_auths) [
    | done b s ↦ record op { key_auths = s }
    | out_of_bounds ↦ op
  ]

  -- `BeginOperation` from `operation->Begin` on.
  unfoldable pub start_operation :
      KeymasterContext S
      → Surroundings
      → AuthorizationSet
      → AuthorizationSet
      → Operation S
      → AndroidKeymaster S
      → Response × AndroidKeymaster S
  unfolding set_authorizations add
  start_operation c w key params op k =
      let (begun, body, output_params) = c.methods.begin op.body params in
      let out = record no_output { output_params = output_params } in
      if is_ok begun
      then (let op' = set_authorizations c.defs w.allocator key (record op { body = body }) in
          let (added, written, table) = add w.table_granted w.handle op' k.operation_table in
          (
            record {
              error = added;
              op_handle = elim written [ none ↦ 0 | some h ↦ h ];
              result = out;
            },
            record k { operation_table = table },
          ))
      else (record { error = begun; op_handle = 0; result = out }, k)

  -- `BeginOperation` from the created operation on; the policy is asked for the request's purpose.
  unfoldable pub authorize_and_start :
      KeymasterContext S
      → Surroundings
      → Purpose
      → List ℕ
      → AuthorizationSet
      → AuthorizationSet
      → Purpose × S
      → AndroidKeymaster S
      → Response × AndroidKeymaster S
  unfolding enforce_begin start_operation empty_set
  authorize_and_start c w purpose key_blob key params (created, body) k =
      let (err, key_id, e) = enforce_begin c w k.enforcement purpose key_blob key params in
      let k' = record k { enforcement = e } in
      if is_ok err
      then start_operation c w key params
          (record { purpose = created; key_id = key_id; key_auths = empty_set; body = body }) k'
      else (failed err, k')

  -- `BeginOperation` from the loaded key on.
  unfoldable pub create_and_start :
      KeymasterContext S
      → Surroundings
      → Purpose
      → List ℕ
      → AuthorizationSet
      → KeyFactory S
      → Key
      → AndroidKeymaster S
      → Response × AndroidKeymaster S
  unfolding authorize_and_start get_tag_value_enum
  create_and_start c w purpose key_blob params f key k =
      elim (get_tag_value_enum key.authorizations (c.defs.tag_value Tag.algorithm)) [
        | none ↦ (failed KeymasterError.unknown_error, k)
        | some algorithm ↦ elim (f.get_operation_factory purpose) [
          | none ↦ (failed KeymasterError.unsupported_purpose, k)
          | some factory ↦
              let (err, body) = factory.create_operation key params in
              elim body [
                | none ↦ (failed err, k)
                | some s ↦ authorize_and_start c w purpose key_blob key.authorizations params s k
              ]
        ]
      ]

  unfoldable pub begin_operation :
      KeymasterContext S
      → Surroundings
      → Purpose
      → List ℕ
      → AuthorizationSet
      → AndroidKeymaster S
      → Response × AndroidKeymaster S
  unfolding load_key create_and_start
  begin_operation c w purpose key_blob params k =
      let (err, loaded) = load_key c key_blob params in
      if is_ok err
      then elim loaded [
        | none ↦ (failed err, k)
        | some (f, key) ↦ create_and_start c w purpose key_blob params f key k
      ]
      else (failed err, k)

  -- The enforcement's part of `UpdateOperation` and `FinishOperation`.
  unfoldable pub enforce_running :
      KeymasterContext S
      → Surroundings
      → Operation S
      → AuthorizationSet
      → ℕ
      → Option KeymasterEnforcement
      → KeymasterError × Option KeymasterEnforcement
  unfolding authorize_operation
  enforce_running c w op params op_handle none = (KeymasterError.ok, none)
  enforce_running c w op params op_handle (some e) =
      let (err, e') =
        authorize_operation c.defs w.context e op.purpose op.key_id op.key_auths params op_handle
          false in
      (err, some e')

  -- `operation_table_->Delete(op_handle)`, whose result the code drops.
  unfoldable pub remove : ℕ → AndroidKeymaster S → AndroidKeymaster S
  unfolding delete
  remove op_handle k = record k { operation_table = (delete op_handle k.operation_table).1 }

  -- What follows the call of `Update` or `Finish`, for its error, the operation's new state and the
  -- outputs; `kept` says whether an operation that the call ends with KM_ERROR_OK stays in the table.
  unfoldable pub after_call :
      Bool
      → ℕ
      → Operation S
      → KeymasterError × S × Output
      → AndroidKeymaster S
      → Response × AndroidKeymaster S
  unfolding write_back remove
  after_call kept op_handle op (ended, body, out) k =
      let k' = record k {
        operation_table = write_back op_handle (record op { body = body }) k.operation_table;
      } in
      (
        record { error = ended; op_handle = 0; result = out },
        (if is_ok ended && kept then k' else remove op_handle k'),
      )

  -- `UpdateOperation` and `FinishOperation` with the operation found: `call` is the method.
  unfoldable pub run_found :
      KeymasterContext S
      → Surroundings
      → (S → KeymasterError × S × Output)
      → Bool
      → ℕ
      → AuthorizationSet
      → Operation S
      → AndroidKeymaster S
      → Response × AndroidKeymaster S
  unfolding enforce_running after_call remove
  run_found c w call kept op_handle params op k =
      let (err, e) = enforce_running c w op params op_handle k.enforcement in
      let k' = record k { enforcement = e } in
      if is_ok err
      then after_call kept op_handle op (call op.body) k'
      else (failed err, remove op_handle k')

  unfoldable pub update_operation :
      KeymasterContext S
      → Surroundings
      → ℕ
      → AuthorizationSet
      → List ℕ
      → AndroidKeymaster S
      → Response × AndroidKeymaster S
  unfolding find run_found
  update_operation c w op_handle params input k = elim (find op_handle k.operation_table) [
    | none ↦ (failed KeymasterError.invalid_operation_handle, k)
    | some op ↦ run_found c w (λ s. c.methods.update s params input) true op_handle params op k
  ]

  unfoldable pub finish_operation :
      KeymasterContext S
      → Surroundings
      → ℕ
      → AuthorizationSet
      → List ℕ
      → List ℕ
      → AndroidKeymaster S
      → Response × AndroidKeymaster S
  unfolding find run_found
  finish_operation c w op_handle params input signature k =
      elim (find op_handle k.operation_table) [
        | none ↦ (failed KeymasterError.invalid_operation_handle, k)
        | some op ↦
            run_found c w (λ s. c.methods.finish s params input signature) false op_handle params op
              k
      ]

  unfoldable pub abort_operation :
      KeymasterContext S → ℕ → AndroidKeymaster S → Response × AndroidKeymaster S
  unfolding find remove
  abort_operation c op_handle k = elim (find op_handle k.operation_table) [
    | none ↦ (failed KeymasterError.invalid_operation_handle, k)
    | some op ↦ (failed (c.methods.abort op.body), remove op_handle k)
  ]

  unfoldable pub has_operation : ℕ → AndroidKeymaster S → Bool
  unfolding find
  has_operation op_handle k = elim (find op_handle k.operation_table) [
    | none ↦ false
    | some op ↦ true
  ]
