-- ===== src/Tests/Signing.antt =====
-- Witnesses for hmac_operation.cpp: an HMAC that repeats the sum of the bytes ten times.
use platform_system_keymaste.Common.{
  ℕ, ◌+◌, ◌-◌, ◌^◌, ◌/◌, ◌≡◌, ◌↔◌, refl, ap, sym, ◌∙◌, Bool, true, false, List, [], ◌∷◌, ◌++◌, some,
  arith, take, replicate, length-replicate, ◌==◌, if◌then◌else◌, ◌&&◌, ==_iff,
}
use mathlib.Core.Path.{ap₂}
use platform_system_keymaste.Defs.{KeymasterError, Purpose, Tag}
use platform_system_keymaste.AuthSet.{AuthorizationSet}
use platform_system_keymaste.AuthSet.Lookup.{get_tag_value_int, get_only_enum}
use platform_system_keymaste.Hmac.{Digest, HmacLibrary, HmacOperation, create_operation, finish}
use platform_system_keymaste.Hmac.Signatures.{
  IsHmac, IsSignature, feed, all_bytes, verification-IsSignature,
}
use platform_system_keymaste.Hmac.Signing.{IsReliable, signature-IsAccepted}
use platform_system_keymaste.Tests.{test_defs, test_set, test_param, no_params}

abbrev Context : Type 0
Context = Digest × List ℕ × List ℕ

-- The sum of the bytes.
abbrev total : List ℕ → ℕ
total [] = 0
total (x ∷ xs) = x + total xs

abbrev sum_mac : Digest → List ℕ → List ℕ → List ℕ
sum_mac md key bytes = replicate 10 (total key + total bytes)

abbrev equal_lists : List ℕ → List ℕ → Bool
equal_lists [] [] = true
equal_lists (x ∷ xs) (y ∷ ys) = x == y && equal_lists xs ys
equal_lists _ _ = false

abbrev sum_library : HmacLibrary Context
sum_library = record {
  ctx_init = (Digest.no_digest, [], []);
  md_size = λ md. 10;
  init = λ md key. (md, key, []);
  update = λ (md, key, bytes) xs. some (md, key, bytes ++ xs);
  final = λ (md, key, bytes). some (sum_mac md key bytes);
  last_error = KeymasterError.unknown_error;
  memory_equal = λ xs ys n. equal_lists (take n xs) (take n ys);
}

equal_lists_lem : (xs ys : List ℕ) → (equal_lists xs ys ≡ true) ↔ (xs ≡ ys)
equal_lists_lem [] [] = ((λ h. refl), λ h. refl)
equal_lists_lem [] (y ∷ ys) = ((λ h. ground arith), λ h. ground arith)
equal_lists_lem (x ∷ xs) [] = ((λ h. ground arith), λ h. ground arith)
equal_lists_lem (x ∷ xs) (y ∷ ys) =
    let (f, g) = equal_lists_lem xs ys in
    let at = ==_iff x y in
    (
      λ h.
          let first : x ≡ y = at.0 (ground arith) in
          let rest : xs ≡ ys = f (ground arith) in ap₂ (◌∷◌) first rest,
      λ h. ground (arith, at, g),
    )

updated :
    (c c' : Context) (md : Digest) (key before xs : List ℕ)
    → c ≡ (md, key, before)
    → sum_library.update c xs ≡ some c'
    → c' ≡ (md, key, before ++ xs)
updated (m, k, b) c' md key before xs known taken =
    let same : Path Context (m, k, b ++ xs) c' = ground arith in
    sym same ∙ ap (λ (q : Context). (q.0, q.1, q.2 ++ xs)) known

computed_lem :
    (c : Context) (md : Digest) (key bytes out : List ℕ)
    → c ≡ (md, key, bytes)
    → sum_library.final c ≡ some out
    → out ≡ sum_mac md key bytes
computed_lem (m, k, b) md key bytes out known computed =
    let same : sum_mac m k b ≡ out = ground arith in
    sym same ∙ ap (λ (q : Context). sum_mac (q.0) (q.1) (q.2)) known

sum_library-IsHmac : IsHmac sum_library sum_mac
sum_library-IsHmac = record {
  state = λ c. c;
  started = λ md key. refl;
  fed = λ c c' md key before xs known taken. updated c c' md key before xs known taken;
  result = λ c md key bytes out known computed. computed_lem c md key bytes out known computed;
  sized = λ md key bytes. length-replicate 10 (total key + total bytes);
  fails = refl;
  compares = λ xs ys n. equal_lists_lem (take n xs) (take n ys);
}

-- A key with the digest 4 and signatures of at least 64 bits.
abbrev hmac_key : AuthorizationSet
hmac_key = test_set (test_param Tag.digest 4 ∷ test_param Tag.min_mac_length 64 ∷ []) 2

abbrev sign_params : AuthorizationSet
sign_params = test_set (test_param Tag.mac_length 72 ∷ []) 1

abbrev digest_name : ℕ → Digest
digest_name n = if n == 4 then Digest.sha_2_256 else Digest.undefined

abbrev signer : List ℕ → HmacOperation Context
signer bytes = record {
  purpose = Purpose.sign;
  ctx = (Digest.sha_2_256, 5 ∷ [], bytes);
  error = KeymasterError.ok;
  mac_length = 9;
  min_mac_length = 8;
}

abbrev verifier : List ℕ → HmacOperation Context
verifier bytes = record {
  purpose = Purpose.verify;
  ctx = (Digest.sha_2_256, 5 ∷ [], bytes);
  error = KeymasterError.ok;
  mac_length = (2 ^ 32 - 1) / 8;
  min_mac_length = 8;
}

abbrev signature : List ℕ
signature = replicate 9 15

signer-created :
    create_operation sum_library test_defs digest_name true Purpose.sign hmac_key
      (5 ∷ [])
      sign_params
    ≡ (KeymasterError.ok, some (signer []))
unfolding create_operation
signer-created = refl

verifier-created :
    create_operation sum_library test_defs digest_name true Purpose.verify hmac_key
      (5 ∷ [])
      no_params
    ≡ (KeymasterError.ok, some (verifier []))
unfolding create_operation
verifier-created = refl

signer-fed :
    feed sum_library (signer []) ((no_params, 1 ∷ 2 ∷ []) ∷ []) ≡ some (signer (1 ∷ 2 ∷ []))
unfolding feed
signer-fed = refl

verifier-fed : feed sum_library (verifier []) ((no_params, 1 ∷ []) ∷ []) ≡ some (verifier (1 ∷ []))
unfolding feed
verifier-fed = refl

signed :
    finish sum_library (λ n. true) (signer (1 ∷ 2 ∷ [])) no_params (3 ∷ 4 ∷ []) []
    ≡ (KeymasterError.ok, signature)
unfolding finish
signed = refl

accepted :
    (finish sum_library (λ n. true) (verifier (1 ∷ [])) no_params (2 ∷ 3 ∷ 4 ∷ []) signature).0
    ≡ KeymasterError.ok
unfolding finish
accepted = refl

sum_library-IsReliable : IsReliable sum_library sum_mac sum_library-IsHmac
sum_library-IsReliable = ((λ c xs. (_, refl)), λ c. (_, refl))

verification-IsSignature_example :
    (bits : ℕ) × (digest : ℕ) × (get_tag_value_int hmac_key (test_defs.tag_value Tag.min_mac_length)
      ≡ some bits)
    × (get_only_enum hmac_key (test_defs.tag_value Tag.digest) ≡ some digest)
    × IsSignature sum_library sum_mac sum_library-IsHmac
        (digest_name digest)
        (5 ∷ [])
        (all_bytes ((no_params, 1 ∷ []) ∷ []) ++ (2 ∷ 3 ∷ 4 ∷ []))
        (bits / 8)
        signature
verification-IsSignature_example =
    verification-IsSignature sum_library sum_mac sum_library-IsHmac test_defs digest_name true
      hmac_key (5 ∷ []) no_params (verifier []) (verifier (1 ∷ [])) ((no_params, 1 ∷ []) ∷ [])
      (λ n. true) no_params (2 ∷ 3 ∷ 4 ∷ []) signature verifier-created verifier-fed accepted

signature-IsAccepted_example :
    (finish sum_library (λ n. true) (verifier (1 ∷ [])) no_params (2 ∷ 3 ∷ 4 ∷ []) signature).0
    ≡ KeymasterError.ok
signature-IsAccepted_example =
    signature-IsAccepted sum_library sum_mac sum_library-IsHmac test_defs digest_name true true
      hmac_key (5 ∷ []) sign_params no_params (signer []) (signer (1 ∷ 2 ∷ [])) (verifier [])
      (verifier (1 ∷ [])) ((no_params, 1 ∷ 2 ∷ []) ∷ []) ((no_params, 1 ∷ []) ∷ []) (λ n. true)
      no_params no_params (3 ∷ 4 ∷ []) (2 ∷ 3 ∷ 4 ∷ []) [] signature signer-created verifier-created
      signer-fed verifier-fed refl signed sum_library-IsReliable
