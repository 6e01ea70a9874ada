-- ===== src/Messages/Laws.antt =====
-- The requests of android_keymaster_messages.cpp: what each carries to its receiver.
use platform_system_keymaste.Common.{◌<◌, ◌^◌, refl, arith}
use platform_system_keymaste.Defs.{KeymasterDefs}
use platform_system_keymaste.AuthSet.{Allocator}
use platform_system_keymaste.AuthSet.Wire.Input.{loaded}
use platform_system_keymaste.Messages.{key_blob_size}
use platform_system_keymaste.Messages.Requests.{
  GenerateKeyRequest, KeyRequest, ImportKeyRequest, ExportKeyRequest, DeleteKeyRequest,
  AddEntropyRequest, SupportedByAlgorithmRequest, SupportedByAlgorithmAndPurposeRequest,
  supported_by_algorithm_request, supported_by_algorithm_and_purpose_request, generate_key_request,
  key_request, import_key_request, export_key_request, delete_key_request, add_entropy_request,
}
use platform_system_keymaste.Messages.Running.{BeginOperationRequest, begin_operation_request}
use platform_system_keymaste.Messages.Parts.{Part-then, Part-give, Part-same, Carries}
use platform_system_keymaste.Messages.Fields.{
  IsWhole, IsSent, IsQueued, refilled, word-Part, blob-Part, buffer-Part, set-Part,
}

module _ (d : KeymasterDefs) (al : Allocator) where
  pub begin_operation_request-Carries :
      (m : BeginOperationRequest)
      → m.purpose < 2 ^ 32
      → IsWhole al m.key_blob
      → IsSent d al m.additional_params
      → Carries
          (begin_operation_request d al)
          m
          (record m { additional_params = loaded m.additional_params })
  unfolding begin_operation_request
  begin_operation_request-Carries m low whole sent =
      Part-same
        (Part-then (λ purpose. _) (word-Part m.purpose low)
          (Part-then (λ b. _) (blob-Part al m.key_blob whole)
            (Part-then (λ s. _) (set-Part d al m.additional_params sent) (Part-give _))))
        (omega arith) refl

  pub generate_key_request-Carries :
      (m : GenerateKeyRequest)
      → IsSent d al m.key_description
      → Carries
          (generate_key_request d al)
          m
          (record { key_description = loaded m.key_description })
  unfolding generate_key_request
  generate_key_request-Carries m sent =
      Part-same (Part-then (λ s. _) (set-Part d al m.key_description sent) (Part-give _))
        (omega arith) refl

  pub key_request-Carries :
      (m : KeyRequest)
      → IsWhole al m.key_blob
      → IsSent d al m.params
      → Carries (key_request d al) m (record m { params = loaded m.params })
  unfolding key_request
  key_request-Carries m whole sent =
      Part-same
        (Part-then (λ b. _) (blob-Part al m.key_blob whole)
          (Part-then (λ s. _) (set-Part d al m.params sent) (Part-give _)))
        (omega arith) refl

  pub export_key_request-Carries :
      (m : ExportKeyRequest)
      → IsSent d al m.additional_params
      → m.key_format < 2 ^ 32
      → IsWhole al m.key_blob
      → Carries
          (export_key_request d al)
          m
          (record m { additional_params = loaded m.additional_params })
  unfolding export_key_request
  export_key_request-Carries m sent low whole =
      Part-same
        (Part-then (λ s. _) (set-Part d al m.additional_params sent)
          (Part-then (λ n. _) (word-Part m.key_format low)
            (Part-then (λ b. _) (blob-Part al m.key_blob whole) (Part-give _))))
        (omega arith) refl

  pub import_key_request-Carries :
      (m : ImportKeyRequest)
      → IsSent d al m.key_description
      → m.key_format < 2 ^ 32
      → IsWhole al m.key_data
      → Carries
          (import_key_request d al)
          m
          (record m { key_description = loaded m.key_description })
  unfolding import_key_request key_blob_size
  import_key_request-Carries m sent low whole =
      Part-same
        (Part-then (λ s. _) (set-Part d al m.key_description sent)
          (Part-then (λ n. _) (word-Part m.key_format low)
            (Part-then (λ b. _) (blob-Part al m.key_data whole) (Part-give _))))
        (omega arith) refl

  pub delete_key_request-Carries :
      (m : DeleteKeyRequest) → IsWhole al m.key_blob → Carries (delete_key_request d al) m m
  unfolding delete_key_request
  delete_key_request-Carries m whole =
      Part-same (Part-then (λ b. _) (blob-Part al m.key_blob whole) (Part-give _)) (omega arith)
        refl

  pub add_entropy_request-Carries :
      (m : AddEntropyRequest)
      → IsQueued al m.random_data
      → Carries (add_entropy_request d al) m (record { random_data = refilled m.random_data })
  unfolding add_entropy_request
  add_entropy_request-Carries m queued =
      Part-same (Part-then (λ b. _) (buffer-Part al m.random_data queued) (Part-give _))
        (omega arith) refl

pub supported_by_algorithm_request-Carries :
    (m : SupportedByAlgorithmRequest)
    → m.algorithm < 2 ^ 32
    → Carries supported_by_algorithm_request m m
unfolding supported_by_algorithm_request
supported_by_algorithm_request-Carries m low =
    Part-same (Part-then (λ n. _) (word-Part m.algorithm low) (Part-give _)) (omega arith) refl

pub supported_by_algorithm_and_purpose_request-Carries :
    (m : SupportedByAlgorithmAndPurposeRequest)
    → m.algorithm < 2 ^ 32
    → m.purpose < 2 ^ 32
    → Carries supported_by_algorithm_and_purpose_request m m
unfolding supported_by_algorithm_and_purpose_request
supported_by_algorithm_and_purpose_request-Carries m low low' =
    Part-same
      (Part-then (λ n. _) (word-Part m.algorithm low)
        (Part-then (λ k. _) (word-Part m.purpose low') (Part-give _)))
      (omega arith) refl
