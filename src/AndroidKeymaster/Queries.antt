-- ===== src/AndroidKeymaster/Queries.antt =====
-- The queries of android_keymaster.cpp: the version, and what the factories support. `response` is not
-- null; the enumerator of an error is its number in the messages, and a query gives the error itself.
use platform_system_keymaste.Common.{
  ℕ, Bool, List, [], Option, none, some, length, ◌==◌, if◌then◌else◌,
}
use platform_system_keymaste.Defs.{KeymasterError, Purpose}
use platform_system_keymaste.Interfaces.{OperationFactory, KeyFactory, KeymasterContext}
use platform_system_keymaste.Messages.Responses.{Results, Version, set_results}

-- MAJOR_VER, MINOR_VER and SUBMINOR_VER.
unfoldable pub get_version : KeymasterError × Version
get_version = (KeymasterError.ok, record { major_ver = 1; minor_ver = 1; subminor_ver = 0 })

abbrev pub no_results : Results
no_results = record { results = [] }

module _ {S : Type 0} (c : KeymasterContext S) (alloc : ℕ → Bool) where
  -- `check_supported`: the factory, or none with its error.
  unfoldable pub check_supported : ℕ → Option (KeyFactory S)
  check_supported algorithm = c.get_key_factory algorithm

  -- Where the allocation fails, the length of the null array stays in the response.
  unfoldable pub supported_algorithms : KeymasterError × Results
  supported_algorithms =
      if length c.supported_algorithms == 0
      then (KeymasterError.ok, no_results)
      else if alloc (length c.supported_algorithms)
      then (KeymasterError.ok, record { results = c.supported_algorithms })
      else (KeymasterError.memory_allocation_failed, no_results)

  unfoldable pub get_supported :
      ℕ → Purpose → (OperationFactory S → List ℕ) → KeymasterError × Results
  unfolding check_supported set_results
  get_supported algorithm purpose method = elim (check_supported algorithm) [
    | none ↦ (KeymasterError.unsupported_algorithm, no_results)
    | some key_factory ↦ elim (c.get_operation_factory algorithm purpose) [
      | none ↦ (KeymasterError.unsupported_purpose, no_results)
      | some factory ↦ set_results alloc (method factory)
    ]
  ]

  unfoldable pub supported_block_modes : ℕ → Purpose → KeymasterError × Results
  unfolding get_supported
  supported_block_modes algorithm purpose =
      get_supported algorithm purpose (λ f. f.supported_block_modes)

  unfoldable pub supported_padding_modes : ℕ → Purpose → KeymasterError × Results
  unfolding get_supported
  supported_padding_modes algorithm purpose =
      get_supported algorithm purpose (λ f. f.supported_padding_modes)

  unfoldable pub supported_digests : ℕ → Purpose → KeymasterError × Results
  unfolding get_supported
  supported_digests algorithm purpose = get_supported algorithm purpose (λ f. f.supported_digests)

  unfoldable pub supported_import_formats : ℕ → KeymasterError × Results
  unfolding check_supported set_results
  supported_import_formats algorithm = elim (check_supported algorithm) [
    | none ↦ (KeymasterError.unsupported_algorithm, no_results)
    | some key_factory ↦ set_results alloc key_factory.supported_import_formats
  ]

  unfoldable pub supported_export_formats : ℕ → KeymasterError × Results
  unfolding check_supported set_results
  supported_export_formats algorithm = elim (check_supported algorithm) [
    | none ↦ (KeymasterError.unsupported_algorithm, no_results)
    | some key_factory ↦ set_results alloc key_factory.supported_export_formats
  ]
