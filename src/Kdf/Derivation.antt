-- ===== src/Kdf/Derivation.antt =====
-- What the key derivations of hkdf.cpp and iso18033kdf.cpp give, against the functions of RFC 5869 and
-- ISO/IEC 18033-2.
use platform_system_keymaste.Common.{
  ℕ, zero, suc, ◌+◌, ◌-◌, ◌*◌, ◌/◌, ◌%◌, ◌^◌, ◌<◌, ◌≤◌, ◌≡◌, ◌≢◌, ◌⊎◌, inl, inr, refl, ap, sym, ◌∙◌,
  Bool, true, false, List, [], ◌∷◌, ◌++◌, Option, none, some, arith, length, take, ltb, leb, ◌==◌,
  if◌then◌else◌, Bool-cases, ==_refl,
}
use platform_system_keymaste.Hmac.{Digest}
use platform_system_keymaste.Utils.{dup_buffer}
use platform_system_keymaste.Kdf.{
  is_kdf_digest, Kdf, num_blocks, hmac_sign, expand, hkdf_generate_key,
  uint32_to_big_endian_byte_array, iso_blocks, iso_generate_key, salt_bytes,
}
use platform_system_keymaste.Kdf.Blocks.{blocks, take-blocks, take_whole}

take_nil : (k : ℕ) → take {A = ℕ} k [] ≡ []
take_nil zero = refl
take_nil (suc k) = refl

-- As many blocks as the output needs.
abbrev pub needed : ℕ → ℕ → ℕ
needed output_len size = (output_len + (size - 1)) / size

needed_lem :
    (output_len size : ℕ)
    → (size ≡ 20) ⊎ (size ≡ 32)
    → output_len + size ≤ 2 ^ 64
    → num_blocks output_len size ≡ needed output_len size
unfolding num_blocks
needed_lem output_len size (inl twenty) low = rw twenty (omega (arith, twenty))
needed_lem output_len size (inr thirty_two) low = rw thirty_two (omega (arith, thirty_two))

-- T(0), T(1) and so on of RFC 5869.
abbrev pub rfc_block : (List ℕ → List ℕ → List ℕ) → List ℕ → List ℕ → ℕ → List ℕ
rfc_block mac key info zero = []
rfc_block mac key info (suc i) = mac key (rfc_block mac key info i ++ (info ++ (suc i ∷ [])))

-- HKDF of RFC 5869: the first bytes of T(1) | T(2) | ... under the extracted key.
abbrev pub hkdf : (List ℕ → List ℕ → List ℕ) → List ℕ → List ℕ → List ℕ → ℕ → List ℕ
hkdf mac salt secret info output_len =
    take output_len
      (blocks (λ i. rfc_block mac (mac salt secret) info (suc i)) (needed output_len 32) 0)

-- OpenSSL computes this HMAC-SHA256 and does not fail.
abbrev pub IsMac : (List ℕ → List ℕ → Option (List ℕ)) → (List ℕ → List ℕ → List ℕ) → Type 0
IsMac hmac mac =
    (key bytes : List ℕ) → (hmac key bytes ≡ some (mac key bytes)) × (length (mac key bytes) ≡ 32)

-- An object that `Init` has filled.
abbrev pub initialized : Digest → ℕ → List ℕ → Option (List ℕ) → Kdf
initialized digest_type digest_size secret salt = record {
  secret_key = some secret;
  salt = salt;
  is_initialized = true;
  digest_type = digest_type;
  digest_size = digest_size;
}

pub dup_buffer-some :
    (alloc : ℕ → Bool) (xs : List ℕ)
    → ((n : ℕ) → alloc n ≡ true)
    → length xs < 2 ^ 24
    → dup_buffer alloc xs ≡ some xs
unfolding dup_buffer
dup_buffer-some alloc xs grants short = let granted = grants (length xs) in ground arith

module _ (hmac : List ℕ → List ℕ → Option (List ℕ)) (mac : List ℕ → List ℕ → List ℕ)
    (computes : IsMac hmac mac) where
  hmac_sign-mac : (key bytes : List ℕ) → hmac_sign hmac key bytes 32 ≡ some (mac key bytes)
  unfolding hmac_sign
  hmac_sign-mac key bytes =
      let (signed, size) = computes key bytes in
      rw (signed, hmac_sign) (ap some (take_whole 32 (mac key bytes) (omega arith)))

  expand-blocks :
      (key info : List ℕ) (output_len left i : ℕ) (digest : List ℕ)
      → i + left ≤ 255
      → (i ≢ 0 → digest ≡ rfc_block mac key info i)
      → expand hmac key info 32 output_len left i digest
        ≡ some (take (output_len - i * 32) (blocks (λ j. rfc_block mac key info (suc j)) left i))
  unfolding expand
  expand-blocks key info output_len zero i digest low known =
      ap some (sym (take_nil (output_len - i * 32)))
  expand-blocks key info output_len (suc left) i digest low known =
      let again =
        expand-blocks key info output_len left (i + 1) (rfc_block mac key info (suc i))
          (omega arith) (λ positive. ap (rfc_block mac key info) {x = suc i} (omega arith)) in
      let octet : (i + 1) % 256 ≡ suc i = omega arith in
      rw (expand, before_lem i known, octet, hmac_sign-mac key _, again)
        (ap some (
          take-blocks (λ j. rfc_block mac key info (suc j)) output_len 32 left i
            (computes key _).1))
    where
      before_lem :
          (i : ℕ)
          → (i ≢ 0 → digest ≡ rfc_block mac key info i)
          → (if i == 0 then [] else digest) ≡ rfc_block mac key info i
      before_lem zero known = refl
      before_lem (suc i) known =
          let counted : (suc i == 0) ≡ false = ground arith in
          rw counted (known (λ same. omega arith))

-- Rfc5869Sha256Kdf gives the output of HKDF of RFC 5869 for up to 255 blocks, and fails for more. For an
-- object initialized with SHA-256, an OpenSSL that computes HMAC-SHA256, memory for the copies, a salt
-- shorter than 16 MiB, and an output whose rounded length fits 64 bits.
pub hkdf_generate_key-hkdf :
    (hmac : List ℕ → List ℕ → Option (List ℕ)) (mac : List ℕ → List ℕ → List ℕ) (alloc : ℕ → Bool)
    (secret : List ℕ) (salt : Option (List ℕ)) (info : List ℕ) (output_len : ℕ)
    → IsMac hmac mac
    → ((n : ℕ) → alloc n ≡ true)
    → length (salt_bytes 32 salt) < 2 ^ 24
    → output_len + 32 ≤ 2 ^ 64
    → hkdf_generate_key hmac alloc (initialized Digest.sha_2_256 32 secret salt) info output_len ≡ (
        if leb output_len (255 * 32)
        then some (hkdf mac (salt_bytes 32 salt) secret info output_len)
        else none)
unfolding hkdf_generate_key
hkdf_generate_key-hkdf hmac mac alloc secret salt info output_len computes grants short low =
    let extracted = mac (salt_bytes 32 salt) secret in
    let count = needed_lem output_len 32 (inr refl) low in
    let room = dup_buffer-some alloc (salt_bytes 32 salt) grants short in
    let room' =
      dup_buffer-some alloc extracted grants
        (let e = (computes (salt_bytes 32 salt) secret).1 in omega arith) in
    let signed = hmac_sign-mac hmac mac computes (salt_bytes 32 salt) secret in
    rw (hkdf_generate_key, room, signed, room', count)
      (elim (Bool-cases (leb output_len (255 * 32))) [
        | inl few ↦
            (let under : leb 256 (needed output_len 32) ≡ false = ground arith in
              rw (few, under)
                (expand-blocks hmac mac computes extracted info output_len (needed output_len 32) 0
                    [] (ground arith) (λ positive. absurd (positive refl))
                  ∙ ap
                      (λ n. some (
                        take n (
                          blocks (λ j. rfc_block mac extracted info (suc j)) (needed output_len 32)
                            0)))
                      (omega arith)))
        | inr many ↦
            (let over : leb 256 (needed output_len 32) ≡ true = ground arith in
              rw (many, over) refl)
      ])

-- OpenSSL computes this digest, of the size of the digest's outputs, and does not fail.
abbrev pub IsHash : (Digest → List ℕ → Option (List ℕ)) → Digest → ℕ → (List ℕ → List ℕ) → Type 0
IsHash hash md size h =
    (bytes : List ℕ) → (hash md bytes ≡ some (h bytes)) × (length (h bytes) ≡ size)

-- A number of `n` octets, the most significant one first.
abbrev pub octets : ℕ → ℕ → List ℕ
octets zero v = []
octets (suc n) v = v / 256 ^ n % 256 ∷ octets n v

big_endian-octets : (n : ℕ) → uint32_to_big_endian_byte_array n ≡ octets 4 n
unfolding uint32_to_big_endian_byte_array
big_endian-octets n =
    let last : n % 256 ≡ n / 1 % 256 = omega arith in
    ap (λ o. n / 2 ^ 24 % 256 ∷ n / 2 ^ 16 % 256 ∷ n / 2 ^ 8 % 256 ∷ o ∷ []) last

-- A block of the KDFs of ISO/IEC 18033-2 and ANSI X9.42, with a counter of 32 bits.
abbrev pub counter_block : (List ℕ → List ℕ) → ℕ → List ℕ → List ℕ → ℕ → List ℕ
counter_block h start secret info i = h (secret ++ (octets 4 ((i + start) % 2 ^ 32) ++ info))

-- SHA-1 has digests of 20 bytes, SHA-256 of 32.
abbrev pub IsKdfDigest : Digest → ℕ → Type 0
IsKdfDigest md size = (md ≡ Digest.sha1 × size ≡ 20) ⊎ (md ≡ Digest.sha_2_256 × size ≡ 32)

IsKdfDigest-is_kdf_digest : (md : Digest) (size : ℕ) → IsKdfDigest md size → is_kdf_digest md ≡ true
IsKdfDigest-is_kdf_digest md size (inl (named, sized)) = rw named refl
IsKdfDigest-is_kdf_digest md size (inr (named, sized)) = rw named refl

IsKdfDigest-size : (md : Digest) (size : ℕ) → IsKdfDigest md size → (size ≡ 20) ⊎ (size ≡ 32)
IsKdfDigest-size md size (inl (named, sized)) = inl sized
IsKdfDigest-size md size (inr (named, sized)) = inr sized

module _ (hash : Digest → List ℕ → Option (List ℕ)) (md : Digest) (size : ℕ) (h : List ℕ → List ℕ)
    (computes : IsHash hash md size h) (known : is_kdf_digest md ≡ true) where
  iso_blocks-blocks :
      (start : ℕ) (secret info : List ℕ) (salt : Option (List ℕ)) (output_len left i : ℕ)
      → iso_blocks hash start (initialized md size secret salt) info output_len left i
        ≡ some (take (output_len - i * size) (blocks (counter_block h start secret info) left i))
  unfolding iso_blocks
  iso_blocks-blocks start secret info salt output_len zero i =
      ap some (sym (take_nil (output_len - i * size)))
  iso_blocks-blocks start secret info salt output_len (suc left) i =
      let again = iso_blocks-blocks start secret info salt output_len left (i + 1) in
      let count = (i + start) % 2 ^ 32 in
      let (hashed, sized) = computes (secret ++ (octets 4 count ++ info)) in
      let hashed' = ap (λ o. hash md (secret ++ (o ++ info))) (big_endian-octets count) ∙ hashed in
      rw (iso_blocks, known, hashed', sized, ==_refl size, again)
        (ap some (take-blocks (counter_block h start secret info) output_len size left i sized))

leb-not_ltb : (a b : ℕ) → ltb a b ≡ false → leb b a ≡ true
leb-not_ltb a b h = ground arith

leb-ltb : (a b : ℕ) → ltb a b ≡ true → leb b a ≡ false
leb-ltb a b h = ground arith

-- Iso18033Kdf gives the first bytes of hash(secret | counter | info) for the counters from the start on, cut
-- to 32 bits and written with the most significant octet first, up to 2^32 - 1 + start blocks, and fails for
-- more. For an object initialized with SHA-1 or SHA-256, an OpenSSL that computes the digest, and an output
-- whose rounded length fits 64 bits.
pub iso_generate_key-blocks :
    (hash : Digest → List ℕ → Option (List ℕ)) (md : Digest) (size : ℕ) (h : List ℕ → List ℕ)
    (start : ℕ) (secret info : List ℕ) (salt : Option (List ℕ)) (output_len : ℕ)
    → IsHash hash md size h
    → IsKdfDigest md size
    → output_len + size ≤ 2 ^ 64
    → iso_generate_key hash start (initialized md size secret salt) info output_len ≡ (
        if leb output_len ((2 ^ 32 - 1 + start) * size)
        then some (
            take output_len (blocks (counter_block h start secret info) (needed output_len size) 0))
        else none)
unfolding iso_generate_key
iso_generate_key-blocks hash md size h start secret info salt output_len computes known low =
    let count = needed_lem output_len size (IsKdfDigest-size md size known) low in
    rw (iso_generate_key, count)
      (elim (Bool-cases (ltb ((2 ^ 32 - 1 + start) * size) output_len)) [
        | inl many ↦ rw (many, leb-ltb _ output_len many) refl
        | inr few ↦
            rw (few, leb-not_ltb _ output_len few)
              (iso_blocks-blocks hash md size h computes (IsKdfDigest-is_kdf_digest md size known)
                  start secret info salt output_len (needed output_len size) 0
                ∙ ap
                    (λ n. some (
                      take n
                        (blocks (counter_block h start secret info) (needed output_len size) 0)))
                    (omega arith))
      ])
