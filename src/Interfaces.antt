-- ===== src/Interfaces.antt =====
-- The interfaces that AndroidKeymaster works with: Operation and OperationFactory of operation.h, Key of
-- key.h, KeyFactory of include/keymaster/key_factory.h and KeymasterContext of
-- include/keymaster/keymaster_context.h. A record of functions stands for an object, and a value of type S
-- for the state of an operation's implementation.
use platform_system_keymaste.Common.{ℕ, Bool, List, [], Option}
use platform_system_keymaste.Defs.{KeymasterDefs, Purpose, KeymasterError}
use platform_system_keymaste.AuthSet.{AuthorizationSet, Allocator, empty_set}
use platform_system_keymaste.Enforcement.{Context}
use platform_system_keymaste.OperationTable.{Random}
use platform_system_keymaste.Messages.{KeyBlob}
use platform_system_keymaste.Messages.Chain.{CertificateChain}

-- What the base class Operation keeps.
pub record Operation (S : Type 0) : Type 0 where
  pub purpose : Purpose
  pub key_id : ℕ
  pub key_auths : AuthorizationSet
  pub body : S

-- The outputs of a call of `Update` or `Finish`.
pub record Output : Type 0 where
  pub output_params : AuthorizationSet
  pub output : List ℕ
  pub input_consumed : ℕ

abbrev pub no_output : Output
unfolding empty_set
no_output = record { output_params = empty_set; output = []; input_consumed = 0 }

-- The virtual methods of Operation: the error, the new state and the outputs.
pub record OperationMethods (S : Type 0) : Type 0 where
  pub begin : S → AuthorizationSet → KeymasterError × S × AuthorizationSet
  pub update : S → AuthorizationSet → List ℕ → KeymasterError × S × Output
  pub finish : S → AuthorizationSet → List ℕ → List ℕ → KeymasterError × S × Output
  pub abort : S → KeymasterError

-- A Key: its authorizations, and its virtual methods with the error and the outputs.
pub record Key : Type 0 where
  pub authorizations : AuthorizationSet
  pub formatted_key_material : ℕ → KeymasterError × List ℕ
  pub generate_attestation :
      AuthorizationSet → AuthorizationSet → AuthorizationSet → KeymasterError × CertificateChain

-- An OperationFactory: the registry key's algorithm and purpose, the supported modes, and
-- `CreateOperation` with the error and the operation, none for a null pointer: the purpose that its
-- constructor sets and its state.
pub record OperationFactory (S : Type 0) : Type 0 where
  pub algorithm : ℕ
  pub purpose : Purpose
  pub supported_padding_modes : List ℕ
  pub supported_block_modes : List ℕ
  pub supported_digests : List ℕ
  pub create_operation : Key → AuthorizationSet → KeymasterError × Option (Purpose × S)

-- What GenerateKey and ImportKey write: the blob, and the hardware's and the software's authorizations.
pub record CreatedKey : Type 0 where
  pub key_blob : KeyBlob
  pub hw_enforced : AuthorizationSet
  pub sw_enforced : AuthorizationSet

pub record KeyFactory (S : Type 0) : Type 0 where
  pub generate_key : AuthorizationSet → KeymasterError × CreatedKey
  pub import_key : AuthorizationSet → ℕ → List ℕ → KeymasterError × CreatedKey
  pub supported_import_formats : List ℕ
  pub supported_export_formats : List ℕ
  pub load_key :
      List ℕ → AuthorizationSet → AuthorizationSet → AuthorizationSet → KeymasterError × Key
  pub get_operation_factory : Purpose → Option (OperationFactory S)

-- A blob's key material with the hardware's and the software's authorizations.
pub record ParsedKey : Type 0 where
  pub key_material : List ℕ
  pub hw_enforced : AuthorizationSet
  pub sw_enforced : AuthorizationSet

pub record KeymasterContext (S : Type 0) : Type 0 where
  pub defs : KeymasterDefs
  pub methods : OperationMethods S
  pub parse_key_blob : List ℕ → AuthorizationSet → KeymasterError × ParsedKey
  pub os_version : ℕ
  pub os_patchlevel : ℕ
  pub get_key_factory : ℕ → Option (KeyFactory S)
  pub create_key_id : List ℕ → Option ℕ
  pub get_operation_factory : ℕ → Purpose → Option (OperationFactory S)
  pub supported_algorithms : List ℕ
  pub upgrade_key_blob : List ℕ → AuthorizationSet → KeymasterError × KeyBlob
  pub delete_key : List ℕ → KeymasterError
  pub delete_all_keys : KeymasterError
  pub add_rng_entropy : List ℕ → KeymasterError

-- What one call meets outside: the clock and the tokens, the allocator, and the random handle.
pub record Surroundings : Type 0 where
  pub context : Context
  pub allocator : Allocator
  pub table_granted : Bool
  pub handle : Random
