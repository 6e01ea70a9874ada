-- ===== src/Lib.antt =====
-- Verification of the keymaster: the authorizations that a key carries, their serialized form, the
-- enforcement of a key's authorizations, and the life of an operation.
--
-- The program. An AuthorizationSet (authorization_set.cpp) is a list of tagged parameters with the bytes
-- of its blobs in one array; it travels in messages and key blobs in the form of serializable.h.
-- AndroidKeymaster (android_keymaster.cpp) loads a key, asks KeymasterEnforcement
-- (keymaster_enforcement.cpp) whether the key's authorizations allow the operation, and keeps running
-- operations in an OperationTable (operation_table.cpp). Clients call it by the messages of
-- android_keymaster_messages.cpp.
--
-- The modules.
--   Common: names of the libraries, Boolean tests, lists over the native numbers.
--   Defs: the types of hardware/keymaster_defs.h and hw_auth_token.h, which are not in the repository.
--     Their numeric values, the type of a tag and the size of a parameter are the record KeymasterDefs.
--   Serial: the append_ and copy_ functions of include/keymaster/serializable.h and serializable.cpp. A
--     Writer is the pointers `buf` and `end` with the bytes written; a Cursor is an address with the
--     bytes up to `end`. Pointers are numbers of 64 bits whose sums wrap.
--   Buffers: class Buffer of the same two files, its memory as a list and its positions as numbers.
--   AuthSet: the storage of AuthorizationSet. Offsets stand for the pointers into the indirect data, and
--     `allocated` records what the array behind `indirect_data_` has room for, so that a write outside it
--     is the outcome `out_of_bounds`. AuthSet/Wire has SerializedSize, Serialize and Deserialize,
--     AuthSet/Lookup the searches, `erase` and `operator[]`, AuthSet/Order Sort and Deduplicate.
--   Utils: byte order, comparison of blocks and curve sizes of android_keymaster_utils.h and
--     android_keymaster_utils.cpp.
--   Enforcement: AccessTimeMap and AccessCountMap (Enforcement/Tables) and AuthorizeOperation with what
--     it calls (Enforcement/Authorize). The virtual methods are the record Context; ntoh, the tables and
--     the searches are those of the other modules.
--   Messages: android_keymaster_messages.h and android_keymaster_messages.cpp. The interface
--     Serializable of include/keymaster/serializable.h is a record; Messages/Requests,
--     Messages/Responses, Messages/Running and Messages/Chain give one for each message, and
--     Messages/Commands chooses the request and the response of each command. Messages/Parts has the
--     parts that messages are made of, Messages/Fields those of the fields.
--   OperationTable: Add, Find and Delete; the random handle is an input. OperationTable/Client has the map
--     of handles that the clients of the table see, with the same calls.
--   Interfaces: Operation and OperationFactory of operation.h, Key, KeyFactory and KeymasterContext; the
--     virtual methods are fields.
--   OperationFactory: the supported modes, the validation of padding and digest, and UpdateForFinish of
--     operation.cpp.
--   Hmac: hmac_operation.h and hmac_operation.cpp; an HMAC_CTX of OpenSSL is a value of any type.
--   Kdf: kdf.h, kdf.cpp, hkdf.cpp, iso18033kdf.cpp and HmacSha256 of hmac.cpp; OpenSSL's functions are parameters.
--   AndroidKeymaster: LoadKey, BeginOperation, UpdateOperation, FinishOperation and AbortOperation, with
--     the queries in AndroidKeymaster/Queries and the methods on keys in AndroidKeymaster/Keys.
--   Tests: concrete inputs for the theorems.
--
-- Bounds and fuel. A 32-bit or 64-bit value keeps its wrap written out. Loops are recursions on the list
-- or on the positions that are left; `GetTagCount` runs on fuel, one round for each element, which is
-- enough since each round moves past a position. Positions and sizes of sets fit an `int`.
--
-- Not modelled: CopyToParamSet and the builder of sets; the operations of the algorithms but HMAC, and
-- the keys, key blobs, engines and devices, which are mostly calls of OpenSSL or of hardware modules;
-- logging; the vendored ocb.c and List.h. Two tests of one begin that read the clock see the same time. A
-- message is read into a new one, and a message whose Deserialize fails is not used.
pub mod Common
pub mod Defs
pub mod Serial
pub mod Buffers
pub mod AuthSet
pub mod Utils
pub mod Enforcement
pub mod Messages
pub mod OperationTable
pub mod Interfaces
pub mod OperationFactory
pub mod Hmac
pub mod Kdf
pub mod AndroidKeymaster
pub mod Tests
