-- ===== src/Hmac.antt =====
-- HmacOperation and HmacOperationFactory of hmac_operation.h and hmac_operation.cpp. The HMAC functions of
-- OpenSSL are the fields of a record; a value of type C is an HMAC_CTX.
pub mod Signatures
pub mod Signing
use platform_system_keymaste.Common.{
  ℕ, ◌-◌, ◌/◌, ◌^◌, Bool, true, false, ◌||◌, List, [], ◌∷◌, Option, none, some, length, take, ltb,
  if◌then◌else◌,
}
use platform_system_keymaste.Defs.{KeymasterDefs, KeymasterError, is_ok, Purpose, Tag}
use platform_system_keymaste.AuthSet.{AuthorizationSet, empty_set}
use platform_system_keymaste.AuthSet.Lookup.{get_tag_value_int, get_only_enum}
use platform_system_keymaste.Interfaces.{Output, no_output}
use platform_system_keymaste.OperationFactory.{update_for_finish}

-- keymaster_digest_t; `undefined` is a value that is no enumerator.
pub data Digest : Type 0 where
  no_digest md5 sha1 sha_2_224 sha_2_256 sha_2_384 sha_2_512 undefined : Digest

-- The digests with an EVP_MD, and OpenSSL's functions on them: `none` is a failure, for which
-- `last_error` is what TranslateLastOpenSslError gives.
pub record HmacLibrary (C : Type 0) : Type 0 where
  pub ctx_init : C
  pub md_size : Digest → ℕ
  pub init : Digest → List ℕ → C
  pub update : C → List ℕ → Option C
  pub final : C → Option (List ℕ)
  pub last_error : KeymasterError
  -- `CRYPTO_memcmp(a, b, n) == 0`.
  pub memory_equal : List ℕ → List ℕ → ℕ → Bool

pub record HmacOperation (C : Type 0) : Type 0 where
  pub purpose : Purpose
  pub ctx : C
  pub error : KeymasterError
  pub mac_length : ℕ
  pub min_mac_length : ℕ

-- kMinHmacLengthBits / 8.
abbrev pub min_hmac_length : ℕ
min_hmac_length = 64 / 8

-- The `switch` on the digest.
abbrev pub has_md : Digest → Bool
has_md Digest.no_digest = false
has_md Digest.md5 = false
has_md Digest.undefined = false
has_md _ = true

abbrev pub is_sign : Purpose → Bool
is_sign Purpose.sign = true
is_sign _ = false

abbrev pub is_verify : Purpose → Bool
is_verify Purpose.verify = true
is_verify _ = false

-- `mac_length_bits`, or the error of a length that is there for a verification or missing for a
-- signature; UINT32_MAX where there is none.
unfoldable pub requested_bits : Purpose → Option ℕ → KeymasterError × ℕ
requested_bits purpose (some bits) =
    if is_verify purpose then (KeymasterError.invalid_argument, bits) else (KeymasterError.ok, bits)
requested_bits purpose none =
    if is_sign purpose
    then (KeymasterError.missing_mac_length, 2 ^ 32 - 1)
    else (KeymasterError.ok, 2 ^ 32 - 1)

module _ {C : Type 0} (lib : HmacLibrary C) where
  -- The error that the constructor leaves.
  unfoldable pub mac_length_error : Purpose → Digest → ℕ → ℕ → KeymasterError
  mac_length_error purpose digest mac_length min_mac_length =
      if is_sign purpose
      then if ltb (lib.md_size digest) mac_length || ltb mac_length min_hmac_length
        then KeymasterError.unsupported_mac_length
        else if ltb mac_length min_mac_length
        then KeymasterError.invalid_mac_length
        else KeymasterError.ok
      else KeymasterError.ok

  -- The constructor's object with this error and context.
  abbrev pub with_error : Purpose → ℕ → ℕ → C → KeymasterError → HmacOperation C
  with_error purpose mac_length min_mac_length ctx err = record {
    purpose = purpose;
    ctx = ctx;
    error = err;
    mac_length = mac_length;
    min_mac_length = min_mac_length;
  }

  -- The constructor.
  unfoldable pub new_operation : Purpose → List ℕ → Digest → ℕ → ℕ → HmacOperation C
  unfolding mac_length_error
  new_operation purpose key_data digest mac_length min_mac_length =
      let err = mac_length_error purpose digest mac_length min_mac_length in
      if has_md digest
      then if is_ok err
        then with_error purpose mac_length min_mac_length (lib.init digest key_data) err
        else with_error purpose mac_length min_mac_length lib.ctx_init err
      else with_error purpose mac_length min_mac_length lib.ctx_init
          KeymasterError.unsupported_digest

  -- `CreateOperation` behind the reads of the parameters; `granted` is the answer of `new`.
  unfoldable pub create_with :
      Bool → Purpose → List ℕ → Digest → ℕ → ℕ → KeymasterError × Option (HmacOperation C)
  unfolding new_operation
  create_with granted purpose key_data digest mac_length_bits min_mac_length_bits =
      let op =
        new_operation purpose key_data digest (mac_length_bits / 8) (min_mac_length_bits / 8) in
      if granted
      then if is_ok op.error then (KeymasterError.ok, some op) else (op.error, none)
      else (KeymasterError.memory_allocation_failed, none)

  -- `HmacOperationFactory::CreateOperation` for a key with these authorizations and bytes; `digest_name`
  -- is the enumerator of a value.
  unfoldable pub create_operation :
      KeymasterDefs
      → (ℕ → Digest)
      → Bool
      → Purpose
      → AuthorizationSet
      → List ℕ
      → AuthorizationSet
      → KeymasterError × Option (HmacOperation C)
  unfolding get_tag_value_int get_only_enum requested_bits create_with
  create_operation d digest_name granted purpose key key_data begin_params =
      elim (get_tag_value_int key (d.tag_value Tag.min_mac_length)) [
        | none ↦ (KeymasterError.invalid_key_blob, none)
        | some min_mac_length_bits ↦
            let (err, bits) =
              requested_bits purpose
                (get_tag_value_int begin_params (d.tag_value Tag.mac_length)) in
            if is_ok err
            then elim (get_only_enum key (d.tag_value Tag.digest)) [
              | none ↦ (KeymasterError.invalid_key_blob, none)
              | some digest ↦
                  create_with granted purpose key_data (digest_name digest) bits min_mac_length_bits
            ]
            else (err, none)
      ]

  unfoldable pub begin :
      HmacOperation C → AuthorizationSet → KeymasterError × HmacOperation C × AuthorizationSet
  unfolding empty_set
  begin op input_params = (op.error, op, empty_set)

  unfoldable pub update :
      HmacOperation C → AuthorizationSet → List ℕ → KeymasterError × HmacOperation C × Output
  update op additional_params input = elim (lib.update op.ctx input) [
    | none ↦ (lib.last_error, op, no_output)
    | some ctx ↦ (
      KeymasterError.ok,
      record op { ctx = ctx },
      record no_output { input_consumed = length input },
    )
  ]

  -- `Finish` of a signature, from the digest on; `alloc` answers the output's `reserve`.
  unfoldable pub sign_with : (ℕ → Bool) → HmacOperation C → List ℕ → KeymasterError × List ℕ
  sign_with alloc op digest =
      if ltb (length digest) op.mac_length
      then (KeymasterError.unsupported_mac_length, [])
      else if alloc op.mac_length
      then (KeymasterError.ok, take op.mac_length digest)
      else (KeymasterError.memory_allocation_failed, [])

  -- `Finish` of a verification, from the digest on.
  unfoldable pub verify_with : HmacOperation C → List ℕ → List ℕ → KeymasterError
  verify_with op signature digest =
      if ltb (length digest) (length signature) || ltb (length signature) min_hmac_length
      then KeymasterError.unsupported_mac_length
      else if ltb (length signature) op.min_mac_length
      then KeymasterError.invalid_mac_length
      else if lib.memory_equal signature digest (length signature)
      then KeymasterError.ok
      else KeymasterError.verification_failed

  -- The `switch` on the purpose.
  unfoldable pub finish_with :
      (ℕ → Bool) → HmacOperation C → List ℕ → List ℕ → KeymasterError × List ℕ
  unfolding sign_with verify_with
  finish_with alloc op signature digest =
      if is_sign op.purpose
      then sign_with alloc op digest
      else if is_verify op.purpose
      then (verify_with op signature digest, [])
      else (KeymasterError.unsupported_purpose, [])

  -- The error and the output.
  unfoldable pub finish :
      (ℕ → Bool) → HmacOperation C → AuthorizationSet → List ℕ → List ℕ → KeymasterError × List ℕ
  unfolding update update_for_finish finish_with
  finish alloc op additional_params input signature =
      let (err, op') = update_for_finish update op additional_params input in
      if is_ok err
      then elim (lib.final op'.ctx) [
        | none ↦ (lib.last_error, [])
        | some digest ↦ finish_with alloc op' signature digest
      ]
      else (err, [])

  unfoldable pub abort : HmacOperation C → KeymasterError
  abort op = KeymasterError.ok
