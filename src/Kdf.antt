-- ===== src/Kdf.antt =====
-- Key derivation: kdf.h, kdf.cpp, hkdf.cpp, iso18033kdf.cpp and HmacSha256 of hmac.cpp. The functions of
-- OpenSSL are parameters, `none` for a failure. A pointer with its length is a list, `none` for null;
-- the pointer to the output is not null.
pub mod Blocks
pub mod Derivation
pub mod Initialization
use platform_system_keymaste.Common.{
  ℕ, zero, suc, ◌+◌, ◌-◌, ◌*◌, ◌/◌, ◌%◌, ◌^◌, Bool, true, false, List, [], ◌∷◌, ◌++◌, Option, none,
  some, length, take, replicate, ltb, leb, ◌==◌, if◌then◌else◌,
}
use platform_system_keymaste.Hmac.{Digest}
use platform_system_keymaste.Utils.{dup_buffer}

-- class Kdf, with null pointers before `Init`.
pub record Kdf : Type 0 where
  pub secret_key : Option (List ℕ)
  pub salt : Option (List ℕ)
  pub is_initialized : Bool
  pub digest_type : Digest
  pub digest_size : ℕ

-- The `switch` of `Init`: the digest's size, none for a digest that it refuses.
abbrev pub kdf_digest_size : Digest → Option ℕ
kdf_digest_size Digest.sha1 = some 20
kdf_digest_size Digest.sha_2_256 = some 32
kdf_digest_size _ = none

module _ (alloc : ℕ → Bool) where
  -- `Init` from the copy of the salt on.
  unfoldable pub init_salt : Option (List ℕ) → Kdf → Bool × Kdf
  unfolding dup_buffer
  init_salt none k = (true, record k { salt = none; is_initialized = true })
  init_salt (some []) k = (true, record k { salt = none; is_initialized = true })
  init_salt (some (x ∷ xs)) k = elim (dup_buffer alloc (x ∷ xs)) [
    | none ↦ (false, record k { salt = none })
    | some copy ↦ (true, record k { salt = some copy; is_initialized = true })
  ]

  -- `Init` from the secret on.
  unfoldable pub init_secret : Option (List ℕ) → Option (List ℕ) → Kdf → Bool × Kdf
  unfolding dup_buffer init_salt
  init_secret none salt k = (false, k)
  init_secret (some []) salt k = (false, k)
  init_secret (some (x ∷ xs)) salt k = elim (dup_buffer alloc (x ∷ xs)) [
    | none ↦ (false, record k { secret_key = none })
    | some copy ↦ init_salt salt (record k { secret_key = some copy })
  ]

  unfoldable pub init : Digest → Option (List ℕ) → Option (List ℕ) → Kdf → Bool × Kdf
  unfolding init_secret
  init digest_type secret salt k = elim (kdf_digest_size digest_type) [
    | none ↦ (false, record k { is_initialized = false })
    | some n ↦
        init_secret secret salt
          (record k { is_initialized = false; digest_type = digest_type; digest_size = n })
  ]

-- `Uint32ToBigEndianByteArray` of a number, which is cut to 32 bits.
unfoldable pub uint32_to_big_endian_byte_array : ℕ → List ℕ
uint32_to_big_endian_byte_array number =
    number / 2 ^ 24 % 256 ∷ number / 2 ^ 16 % 256 ∷ number / 2 ^ 8 % 256 ∷ number % 256 ∷ []

-- `(output_len + digest_size_ - 1) / digest_size_` in 64 bits.
unfoldable pub num_blocks : ℕ → ℕ → ℕ
num_blocks output_len digest_size = (output_len + (digest_size - 1)) % 2 ^ 64 / digest_size

-- The bytes of a block that the output still takes.
unfoldable pub block_length : ℕ → ℕ → ℕ → ℕ
block_length output_len digest_size i =
    if ltb digest_size (output_len - i * digest_size)
    then digest_size
    else output_len - i * digest_size

-- The bytes of a pointer, none behind a null pointer.
abbrev pub bytes_of : Option (List ℕ) → List ℕ
bytes_of none = []
bytes_of (some xs) = xs

-- The salt, or zeros of the digest's size where there is none.
abbrev pub salt_bytes : ℕ → Option (List ℕ) → List ℕ
salt_bytes digest_size none = replicate digest_size 0
salt_bytes digest_size (some []) = replicate digest_size 0
salt_bytes digest_size (some (x ∷ xs)) = x ∷ xs

-- `hmac key data` is HMAC(EVP_sha256(), ...).
module _ (hmac : List ℕ → List ℕ → Option (List ℕ)) where
  -- HmacSha256::Sign.
  unfoldable pub hmac_sign : List ℕ → List ℕ → ℕ → Option (List ℕ)
  hmac_sign key bytes digest_len = elim (hmac key bytes) [
    | none ↦ none
    | some digest ↦ some (take digest_len digest)
  ]

  -- The loop of Rfc5869Sha256Kdf::GenerateKey, for the blocks that are left: block `i`, behind the digest
  -- of the block before. The blocks lie one behind the other in the output.
  unfoldable pub expand : List ℕ → List ℕ → ℕ → ℕ → ℕ → ℕ → List ℕ → Option (List ℕ)
  unfolding hmac_sign block_length
  expand key info digest_size output_len zero i digest = some []
  expand key info digest_size output_len (suc left) i digest =
      let before = if i == 0 then [] else digest in
      elim (hmac_sign key (before ++ (info ++ ((i + 1) % 256 ∷ []))) digest_size) [
        | none ↦ none
        | some next ↦ elim (expand key info digest_size output_len left (i + 1) next) [
          | none ↦ none
          | some rest ↦ some (take (block_length output_len digest_size i) next ++ rest)
        ]
      ]

  -- Rfc5869Sha256Kdf::GenerateKey: the output, none where it returns false. SHA256_DIGEST_LENGTH is 32.
  unfoldable pub hkdf_generate_key : (ℕ → Bool) → Kdf → List ℕ → ℕ → Option (List ℕ)
  unfolding hmac_sign expand num_blocks dup_buffer
  hkdf_generate_key alloc k info output_len =
      if k.is_initialized
      then elim (dup_buffer alloc (salt_bytes k.digest_size k.salt)) [
        | none ↦ none
        | some salt ↦
            if k.digest_size == 32
            then elim (hmac_sign salt (bytes_of k.secret_key) k.digest_size) [
              | none ↦ none
              | some pseudo_random_key ↦
                  if leb 256 (num_blocks output_len k.digest_size)
                  then none
                  else elim (dup_buffer alloc pseudo_random_key) [
                    | none ↦ none
                    | some key ↦
                        expand key info k.digest_size output_len
                          (num_blocks output_len k.digest_size) 0 []
                  ]
            ]
            else none
      ]
      else none

-- The `switch` of the loop of Iso18033Kdf::GenerateKey: the digests that it has a case for.
abbrev pub is_kdf_digest : Digest → Bool
is_kdf_digest Digest.sha1 = true
is_kdf_digest Digest.sha_2_256 = true
is_kdf_digest _ = false

-- `hash md data` is EVP_DigestInit_ex, EVP_DigestUpdate of the pieces and EVP_DigestFinal_ex.
module _ (hash : Digest → List ℕ → Option (List ℕ)) (start_counter : ℕ) where
  -- The loop of Iso18033Kdf::GenerateKey, for the blocks that are left.
  unfoldable pub iso_blocks : Kdf → List ℕ → ℕ → ℕ → ℕ → Option (List ℕ)
  unfolding uint32_to_big_endian_byte_array block_length
  iso_blocks k info output_len zero block = some []
  iso_blocks k info output_len (suc left) block =
      let rest = iso_blocks k info output_len left (block + 1) in
      if is_kdf_digest k.digest_type
      then (let counter = uint32_to_big_endian_byte_array ((block + start_counter) % 2 ^ 32) in
          elim (hash k.digest_type (bytes_of k.secret_key ++ (counter ++ info))) [
            | none ↦ none
            | some digest ↦
                if length digest == k.digest_size
                then elim rest [
                  | none ↦ none
                  | some bs ↦ some (take (block_length output_len k.digest_size block) digest ++ bs)
                ]
                else none
          ])
      else none

  unfoldable pub iso_generate_key : Kdf → List ℕ → ℕ → Option (List ℕ)
  unfolding iso_blocks num_blocks
  iso_generate_key k info output_len =
      if k.is_initialized
      then if ltb ((2 ^ 32 - 1 + start_counter) * k.digest_size) output_len
        then none
        else iso_blocks k info output_len (num_blocks output_len k.digest_size) 0
      else none
