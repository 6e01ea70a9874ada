-- ===== src/AndroidKeymaster/Keys.antt =====
-- The methods of android_keymaster.cpp that make, describe, hand out and remove keys. `response` is not
-- null, and its fields as they were are an input where the code may leave them. A key blob's copy is the
-- blob.
use platform_system_keymaste.Common.{ℕ, List, Option, none, some, if◌then◌else◌}
use platform_system_keymaste.Defs.{KeymasterError, is_ok, Tag}
use platform_system_keymaste.AuthSet.{AuthorizationSet}
use platform_system_keymaste.AuthSet.Lookup.{get_tag_value_enum}
use platform_system_keymaste.Buffers.{Buffer, readable}
use platform_system_keymaste.Interfaces.{CreatedKey, KeyFactory, ParsedKey, KeymasterContext}
use platform_system_keymaste.Messages.{KeyBlob}
use platform_system_keymaste.Messages.Responses.{NewKey, Characteristics}
use platform_system_keymaste.Messages.Chain.{CertificateChain}
use platform_system_keymaste.AndroidKeymaster.{check_version_info, get_key_factory, load_key}

module _ {S : Type 0} (c : KeymasterContext S) where
  unfoldable pub add_rng_entropy : Buffer → KeymasterError
  unfolding readable
  add_rng_entropy random_data = c.add_rng_entropy (readable random_data)

  -- What a response keeps of a new key: the blob only with KM_ERROR_OK.
  abbrev pub answered : NewKey → KeymasterError × CreatedKey → KeymasterError × NewKey
  answered response (err, k) = (
    err,
    record {
      key_blob = if is_ok err then k.key_blob else response.key_blob;
      enforced = k.hw_enforced;
      unenforced = k.sw_enforced;
    },
  )

  -- The algorithm of the description and its factory.
  unfoldable pub described_factory : AuthorizationSet → Option (KeyFactory S)
  unfolding get_tag_value_enum
  described_factory description =
      elim (get_tag_value_enum description (c.defs.tag_value Tag.algorithm)) [
        | none ↦ none
        | some algorithm ↦ c.get_key_factory algorithm
      ]

  unfoldable pub generate_key : AuthorizationSet → NewKey → KeymasterError × NewKey
  unfolding described_factory
  generate_key key_description response = elim (described_factory key_description) [
    | none ↦ (KeymasterError.unsupported_algorithm, response)
    | some factory ↦ answered response (factory.generate_key key_description)
  ]

  unfoldable pub import_key : AuthorizationSet → ℕ → List ℕ → NewKey → KeymasterError × NewKey
  unfolding described_factory
  import_key key_description key_format key_data response =
      elim (described_factory key_description) [
        | none ↦ (KeymasterError.unsupported_algorithm, response)
        | some factory ↦ answered response (factory.import_key key_description key_format key_data)
      ]

  unfoldable pub get_key_characteristics :
      List ℕ → AuthorizationSet → KeymasterError × Characteristics
  unfolding check_version_info
  get_key_characteristics key_blob additional_params =
      let (err, parsed) = c.parse_key_blob key_blob additional_params in
      let characteristics : Characteristics = record {
        enforced = parsed.hw_enforced;
        unenforced = parsed.sw_enforced;
      } in
      if is_ok err
      then (
        check_version_info c.defs parsed.hw_enforced parsed.sw_enforced c.os_patchlevel,
        characteristics,
      )
      else (err, characteristics)

  -- `ExportKey` from the factory on: the error and the exported bytes, none where there are none.
  unfoldable pub export_from :
      KeyFactory S → ParsedKey → AuthorizationSet → ℕ → KeymasterError × Option (List ℕ)
  export_from factory parsed additional_params key_format =
      let (err, key) =
        factory.load_key parsed.key_material additional_params parsed.hw_enforced
          parsed.sw_enforced in
      if is_ok err
      then (let (exported, bytes) = key.formatted_key_material key_format in
          if is_ok exported then (exported, some bytes) else (exported, none))
      else (err, none)

  unfoldable pub export_key : List ℕ → AuthorizationSet → ℕ → KeymasterError × Option (List ℕ)
  unfolding get_key_factory export_from
  export_key key_blob additional_params key_format =
      let (err, parsed) = c.parse_key_blob key_blob additional_params in
      if is_ok err
      then (let (found, factory) = get_key_factory c parsed.hw_enforced parsed.sw_enforced in
          elim factory [
            | none ↦ (found, none)
            | some f ↦ export_from f parsed additional_params key_format
          ])
      else (err, none)

  unfoldable pub attest_key :
      List ℕ → AuthorizationSet → CertificateChain → KeymasterError × CertificateChain
  unfolding load_key
  attest_key key_blob attest_params chain =
      let (err, loaded) = load_key c key_blob attest_params in
      let parsed = (c.parse_key_blob key_blob attest_params).1 in
      if is_ok err
      then elim loaded [
        | none ↦ (err, chain)
        | some (f, key) ↦
            key.generate_attestation attest_params parsed.hw_enforced parsed.sw_enforced
      ]
      else (err, chain)

  unfoldable pub upgrade_key : List ℕ → AuthorizationSet → KeyBlob → KeymasterError × KeyBlob
  upgrade_key key_blob upgrade_params upgraded_key =
      let (err, blob) = c.upgrade_key_blob key_blob upgrade_params in
      if is_ok err then (err, blob) else (err, upgraded_key)

  unfoldable pub delete_key : List ℕ → KeymasterError
  delete_key key_blob = c.delete_key key_blob

  unfoldable pub delete_all_keys : KeymasterError
  delete_all_keys = c.delete_all_keys
