-- ===== src/Tests/Deriving.antt =====
-- Witnesses for kdf.cpp, hkdf.cpp and iso18033kdf.cpp: functions that repeat the sum of their bytes.
use platform_system_keymaste.Common.{
  ℕ, ◌+◌, ◌-◌, ◌*◌, ◌^◌, ◌≡◌, refl, inl, true, List, [], ◌∷◌, some, none, arith, take, replicate,
  leb, if◌then◌else◌,
}
use platform_system_keymaste.Hmac.{Digest}
use platform_system_keymaste.Kdf.{init, hkdf_generate_key, iso_generate_key, salt_bytes}
use platform_system_keymaste.Kdf.Initialization.{IsInitialized, init-IsInitialized}
use platform_system_keymaste.Kdf.Blocks.{blocks}
use platform_system_keymaste.Kdf.Derivation.{
  IsMac, IsHash, hkdf, initialized, counter_block, needed, hkdf_generate_key-hkdf,
  iso_generate_key-blocks,
}

abbrev sum : List ℕ → ℕ
sum [] = 0
sum (x ∷ xs) = x + sum xs

abbrev test_mac : List ℕ → List ℕ → List ℕ
test_mac key bytes = replicate 32 (sum key + sum bytes)

abbrev test_hash : List ℕ → List ℕ
test_hash bytes = replicate 20 (sum bytes)

test_mac-IsMac : IsMac (λ key bytes. some (test_mac key bytes)) test_mac
test_mac-IsMac key bytes = (refl, refl)

test_hash-IsHash : IsHash (λ md bytes. some (test_hash bytes)) Digest.sha1 20 test_hash
test_hash-IsHash bytes = (refl, refl)

hkdf_generate_key-hkdf_example :
    hkdf_generate_key
      (λ key bytes. some (test_mac key bytes))
      (λ n. true)
      (initialized Digest.sha_2_256 32 (1 ∷ 2 ∷ []) none)
      (7 ∷ [])
      40
    ≡ (if leb 40 (255 * 32)
        then some (hkdf test_mac (salt_bytes 32 none) (1 ∷ 2 ∷ []) (7 ∷ []) 40)
        else none)
hkdf_generate_key-hkdf_example =
    hkdf_generate_key-hkdf (λ key bytes. some (test_mac key bytes)) test_mac (λ n. true)
      (1 ∷ 2 ∷ []) none (7 ∷ []) 40 test_mac-IsMac (λ n. refl) (omega arith) (omega arith)

iso_generate_key-blocks_example :
    iso_generate_key
      (λ md bytes. some (test_hash bytes))
      1
      (initialized Digest.sha1 20 (1 ∷ 2 ∷ []) none)
      (7 ∷ [])
      50
    ≡ (if leb 50 ((2 ^ 32 - 1 + 1) * 20)
        then some
            (take 50 (blocks (counter_block test_hash 1 (1 ∷ 2 ∷ []) (7 ∷ [])) (needed 50 20) 0))
        else none)
iso_generate_key-blocks_example =
    iso_generate_key-blocks (λ md bytes. some (test_hash bytes)) Digest.sha1 20 test_hash 1
      (1 ∷ 2 ∷ []) (7 ∷ []) none 50 test_hash-IsHash (inl (refl, refl)) (omega arith)

init-IsInitialized_example : IsInitialized Digest.sha_2_256 (some (1 ∷ 2 ∷ [])) (some []) (
    init
      (λ n. true)
      Digest.sha_2_256
      (some (1 ∷ 2 ∷ []))
      (some [])
      (initialized Digest.sha1 20 [] none))
init-IsInitialized_example =
    init-IsInitialized (λ n. true) Digest.sha_2_256 (some (1 ∷ 2 ∷ [])) (some [])
      (initialized Digest.sha1 20 [] none) (λ n. refl) (omega arith) (omega arith)
