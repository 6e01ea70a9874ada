-- ===== src/Messages/Running/Laws.antt =====
-- The messages of android_keymaster_messages.cpp about running operations, in each version: what each
-- carries to its receiver.
use platform_system_keymaste.Common.{ℕ, ◌<◌, ◌≤◌, ◌^◌, refl, arith, if◌then◌else◌, ltb}
use platform_system_keymaste.Defs.{KeymasterDefs}
use platform_system_keymaste.AuthSet.{Allocator}
use platform_system_keymaste.AuthSet.Wire.Input.{loaded}
use platform_system_keymaste.Buffers.{clear_buffer}
use platform_system_keymaste.AuthSet.{empty_set}
use platform_system_keymaste.Messages.Running.{
  BeginOperationResponse, UpdateOperationRequest, UpdateOperationResponse, FinishOperationRequest,
  FinishOperationResponse, AbortOperationRequest, abort_operation_request, begin_operation_response,
  update_operation_request, update_operation_response, finish_operation_request,
  finish_operation_response,
}
use platform_system_keymaste.Messages.Parts.{Part-then, Part-give, Part-same, Carries}
use platform_system_keymaste.Messages.Fields.{
  IsSent, IsQueued, refilled, word-Part, long_word-Part, buffer-Part, set-Part, since-Part,
}

pub abort_operation_request-Carries :
    (m : AbortOperationRequest) → m.op_handle < 2 ^ 64 → Carries abort_operation_request m m
unfolding abort_operation_request
abort_operation_request-Carries m low =
    Part-same (Part-then (λ n. _) (long_word-Part m.op_handle low) (Part-give _)) (omega arith) refl

-- A field as it arrives: that of a new message where the version leaves it out.
abbrev pub sent_since : {A : Type 0} → ℕ → ℕ → A → A → A
sent_since n version fresh v = if ltb n version then v else fresh

module _ (d : KeymasterDefs) (al : Allocator) where
  pub begin_operation_response-Carries :
      (version : ℕ) (m : BeginOperationResponse)
      → m.op_handle < 2 ^ 64
      → IsSent d al m.output_params
      → Carries
          (begin_operation_response d al version)
          m
          (record m { output_params = sent_since 0 version empty_set (loaded m.output_params) })
  unfolding begin_operation_response
  begin_operation_response-Carries version m low sent =
      Part-same
        (Part-then (λ n. _) (long_word-Part m.op_handle low)
          (Part-then (λ s. _)
            (since-Part (ltb 0 version) empty_set (set-Part d al m.output_params sent))
            (Part-give _)))
        (ground arith) refl

  pub update_operation_request-Carries :
      (version : ℕ) (m : UpdateOperationRequest)
      → m.op_handle < 2 ^ 64
      → IsQueued al m.input
      → IsSent d al m.additional_params
      → Carries (update_operation_request d al version) m (record m {
        input = refilled m.input;
        additional_params = sent_since 0 version empty_set (loaded m.additional_params);
      })
  unfolding update_operation_request
  update_operation_request-Carries version m low queued sent =
      Part-same
        (Part-then (λ n. _) (long_word-Part m.op_handle low)
          (Part-then (λ b. _) (buffer-Part al m.input queued)
            (Part-then (λ s. _)
              (since-Part (ltb 0 version) empty_set (set-Part d al m.additional_params sent))
              (Part-give _))))
        (ground arith) refl

  pub update_operation_response-Carries :
      (version : ℕ) (m : UpdateOperationResponse)
      → version ≤ 3
      → m.input_consumed < 2 ^ 32
      → IsQueued al m.output
      → IsSent d al m.output_params
      → Carries (update_operation_response d al version) m (record {
        output = refilled m.output;
        input_consumed = sent_since 0 version 0 m.input_consumed;
        output_params = sent_since 1 version empty_set (loaded m.output_params);
      })
  unfolding update_operation_response
  update_operation_response-Carries version m known low queued sent =
      Part-same
        (Part-then (λ b. _) (buffer-Part al m.output queued)
          (Part-then (λ n. _) (since-Part (ltb 0 version) 0 (word-Part m.input_consumed low))
            (Part-then (λ s. _)
              (since-Part (ltb 1 version) empty_set (set-Part d al m.output_params sent))
              (Part-give _))))
        (ground arith) refl

  pub finish_operation_request-Carries :
      (version : ℕ) (m : FinishOperationRequest)
      → version ≤ 3
      → m.op_handle < 2 ^ 64
      → IsQueued al m.signature
      → IsSent d al m.additional_params
      → IsQueued al m.input
      → Carries (finish_operation_request d al version) m (record {
        op_handle = m.op_handle;
        input = sent_since 2 version clear_buffer (refilled m.input);
        signature = refilled m.signature;
        additional_params = sent_since 0 version empty_set (loaded m.additional_params);
      })
  unfolding finish_operation_request
  finish_operation_request-Carries version m known low queued sent queued' =
      Part-same
        (Part-then (λ n. _) (long_word-Part m.op_handle low)
          (Part-then (λ b. _) (buffer-Part al m.signature queued)
            (Part-then (λ s. _)
              (since-Part (ltb 0 version) empty_set (set-Part d al m.additional_params sent))
              (Part-then (λ c. _)
                (since-Part (ltb 2 version) clear_buffer (buffer-Part al m.input queued'))
                (Part-give _)))))
        (ground arith) refl

  pub finish_operation_response-Carries :
      (version : ℕ) (m : FinishOperationResponse)
      → IsQueued al m.output
      → IsSent d al m.output_params
      → Carries (finish_operation_response d al version) m (record {
        output = refilled m.output;
        output_params = sent_since 1 version empty_set (loaded m.output_params);
      })
  unfolding finish_operation_response
  finish_operation_response-Carries version m queued sent =
      Part-same
        (Part-then (λ b. _) (buffer-Part al m.output queued)
          (Part-then (λ s. _)
            (since-Part (ltb 1 version) empty_set (set-Part d al m.output_params sent))
            (Part-give _)))
        (ground arith) refl
