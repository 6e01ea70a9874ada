-- ===== src/Kdf/Initialization.antt =====
-- What Kdf::Init of kdf.cpp accepts, and what it leaves.
use platform_system_keymaste.Common.{
  ℕ, ◌<◌, ◌^◌, ◌≡◌, refl, Bool, true, false, List, [], ◌∷◌, Option, none, some, length,
}
use platform_system_keymaste.Hmac.{Digest}
use platform_system_keymaste.Kdf.{Kdf, kdf_digest_size, bytes_of, init, init_secret, init_salt}
use platform_system_keymaste.Kdf.Derivation.{initialized, dup_buffer-some}

-- The salt that is kept: none where it is null or empty.
abbrev pub kept : Option (List ℕ) → Option (List ℕ)
kept (some (x ∷ xs)) = some (x ∷ xs)
kept _ = none

-- What Init leaves: for SHA-1 and SHA-256 with a secret that is not empty the object that the arguments
-- describe, with digests of 20 and 32 bytes; for anything else one that is not initialized.
abbrev pub IsInitialized : Digest → Option (List ℕ) → Option (List ℕ) → Bool × Kdf → Type 0
IsInitialized Digest.sha1 (some (x ∷ xs)) salt r =
    r ≡ (true, initialized Digest.sha1 20 (x ∷ xs) (kept salt))
IsInitialized Digest.sha_2_256 (some (x ∷ xs)) salt r =
    r ≡ (true, initialized Digest.sha_2_256 32 (x ∷ xs) (kept salt))
IsInitialized md _ salt (done, k) = (done ≡ false) × (k.is_initialized ≡ false)

-- The same for the size that the `switch` gives.
abbrev IsSized : Digest → Option ℕ → Option (List ℕ) → Option (List ℕ) → Bool × Kdf → Type 0
IsSized md (some n) (some (x ∷ xs)) salt r = r ≡ (true, initialized md n (x ∷ xs) (kept salt))
IsSized md _ _ salt (done, k) = (done ≡ false) × (k.is_initialized ≡ false)

IsSized-IsInitialized :
    (md : Digest) (secret salt : Option (List ℕ)) (r : Bool × Kdf)
    → IsSized md (kdf_digest_size md) secret salt r
    → IsInitialized md secret salt r
IsSized-IsInitialized Digest.sha1 none salt r h = h
IsSized-IsInitialized Digest.sha1 (some []) salt r h = h
IsSized-IsInitialized Digest.sha1 (some (x ∷ xs)) salt r h = h
IsSized-IsInitialized Digest.sha_2_256 none salt r h = h
IsSized-IsInitialized Digest.sha_2_256 (some []) salt r h = h
IsSized-IsInitialized Digest.sha_2_256 (some (x ∷ xs)) salt r h = h
IsSized-IsInitialized Digest.no_digest secret salt r h = h
IsSized-IsInitialized Digest.md5 secret salt r h = h
IsSized-IsInitialized Digest.sha_2_224 secret salt r h = h
IsSized-IsInitialized Digest.sha_2_384 secret salt r h = h
IsSized-IsInitialized Digest.sha_2_512 secret salt r h = h
IsSized-IsInitialized Digest.undefined secret salt r h = h

module _ (alloc : ℕ → Bool) (grants : (n : ℕ) → alloc n ≡ true) where
  init_salt-kept :
      (salt : Option (List ℕ)) (k : Kdf)
      → length (bytes_of salt) < 2 ^ 24
      → init_salt alloc salt k ≡ (true, record k { salt = kept salt; is_initialized = true })
  unfolding init_salt
  init_salt-kept none k short = refl
  init_salt-kept (some []) k short = refl
  init_salt-kept (some (x ∷ xs)) k short =
      rw (init_salt, dup_buffer-some alloc (x ∷ xs) grants short) refl

  init_secret-IsSized :
      (md : Digest) (n : ℕ) (secret salt : Option (List ℕ)) (k : Kdf)
      → k.is_initialized ≡ false
      → k.digest_type ≡ md
      → k.digest_size ≡ n
      → length (bytes_of secret) < 2 ^ 24
      → length (bytes_of salt) < 2 ^ 24
      → IsSized md (some n) secret salt (init_secret alloc secret salt k)
  unfolding init_secret
  init_secret-IsSized md n none salt k fresh typed sized short short' = (refl, fresh)
  init_secret-IsSized md n (some []) salt k fresh typed sized short short' = (refl, fresh)
  init_secret-IsSized md n (some (x ∷ xs)) salt k fresh typed sized short short' =
      let room = dup_buffer-some alloc (x ∷ xs) grants short in
      let salted = init_salt-kept salt (record k { secret_key = some (x ∷ xs) }) short' in
      rw (init_secret, room, salted, typed, sized) refl

-- Init succeeds for SHA-1 and SHA-256 with a secret that is not empty, and leaves the object that its
-- arguments describe, with a digest size of 20 or 32; for anything else it fails and leaves one that is not initialized. For buffers
-- shorter than 16 MiB and memory for the copies.
pub init-IsInitialized :
    (alloc : ℕ → Bool) (md : Digest) (secret salt : Option (List ℕ)) (k : Kdf)
    → ((n : ℕ) → alloc n ≡ true)
    → length (bytes_of secret) < 2 ^ 24
    → length (bytes_of salt) < 2 ^ 24
    → IsInitialized md secret salt (init alloc md secret salt k)
unfolding init
init-IsInitialized alloc md secret salt k grants short short' =
    IsSized-IsInitialized md secret salt _ (by_size (kdf_digest_size md) refl)
  where
    by_size :
        (size : Option ℕ)
        → kdf_digest_size md ≡ size
        → IsSized md size secret salt (init alloc md secret salt k)
    by_size none unsupported = rw (init, unsupported) (refl, refl)
    by_size (some n) supported =
        rw (init, supported)
          (init_secret-IsSized alloc grants md n secret salt
            (record k { is_initialized = false; digest_type = md; digest_size = n }) refl refl refl
            short short')
