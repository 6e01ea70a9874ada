-- ===== src/Hmac/Signing.antt =====
-- hmac_operation.cpp: the signatures that an HMAC operation makes.
use platform_system_keymaste.Common.{
  ℕ, ◌/◌, ◌≤◌, ◌≡◌, refl, ap, sym, subst, ◌∙◌, inl, inr, Bool, true, false, List, [], ◌++◌, some,
  arith, length, take, length-take, Bool-cases, Option-cases,
}
use platform_system_keymaste.Defs.{KeymasterDefs, KeymasterError, is_ok, Purpose, Tag}
use platform_system_keymaste.AuthSet.{AuthorizationSet}
use platform_system_keymaste.AuthSet.Lookup.{get_tag_value_int, get_only_enum}
use platform_system_keymaste.OperationFactory.{update_for_finish}
use platform_system_keymaste.Hmac.{
  Digest, HmacLibrary, HmacOperation, min_hmac_length, has_md, is_sign, is_verify, mac_length_error,
  new_operation, create_operation, update, sign_with, verify_with, finish_with, finish,
}
use platform_system_keymaste.Hmac.Signatures.{
  IsHmac, IsSignature, finished, feed, feed-taken, created, all_bytes, verify_with-IsSignature,
  create_with-made, create_operation-made, ok-eq,
}

module _ {C : Type 0} (lib : HmacLibrary C) where
  -- The length that a new signature has is long enough for the key and fits the digest.
  abbrev IsLength : Digest → ℕ → ℕ → Type 0
  IsLength md min_length n = (min_hmac_length ≤ n) × (min_length ≤ n) × (n ≤ lib.md_size md)

  new_operation-IsLength :
      (key_data : List ℕ) (md : Digest) (mac_length min_mac_length : ℕ)
      → is_ok (new_operation lib Purpose.sign key_data md mac_length min_mac_length).error ≡ true
      → IsLength md min_mac_length
          (new_operation lib Purpose.sign key_data md mac_length min_mac_length).mac_length
  unfolding new_operation
  new_operation-IsLength key_data md mac_length min_mac_length fine =
      elim (Bool-cases (has_md md)) [
        | inr none_of ↦ absurd (ground arith)
        | inl has ↦
            (elim (Bool-cases
              (is_ok (mac_length_error lib Purpose.sign md mac_length min_mac_length))) [
                | inr wrong ↦ absurd (ground arith)
                | inl right ↦ rw (has, right) (length_lem md mac_length min_mac_length right)
              ])
      ]
    where
      length_lem :
          (md : Digest) (mac_length min_mac_length : ℕ)
          → is_ok (mac_length_error lib Purpose.sign md mac_length min_mac_length) ≡ true
          → IsLength md min_mac_length mac_length
      length_lem md mac_length min_mac_length right = (ground arith, ground arith, ground arith)

module _ {C : Type 0} (lib : HmacLibrary C) (mac : Digest → List ℕ → List ℕ → List ℕ)
    (hmac : IsHmac lib mac) where
  finish-prefix :
      (alloc : ℕ → Bool) (op : HmacOperation C) (params : AuthorizationSet) (md : Digest)
      (key before input signature out : List ℕ)
      → op.purpose ≡ Purpose.sign
      → hmac.state op.ctx ≡ (md, key, before)
      → finish lib alloc op params input signature ≡ (KeymasterError.ok, out)
      → out ≡ take op.mac_length (mac md key (before ++ input))
  unfolding finish finish_with sign_with
  finish-prefix alloc op params md key before input signature out signing known made =
      by_update _ refl
    where
      by_update :
          (q : KeymasterError × HmacOperation C)
          → update_for_finish (update lib) op params input ≡ q
          → out ≡ take op.mac_length (mac md key (before ++ input))
      by_update (err, op') done = elim (Bool-cases (is_ok err)) [
        | inr failed ↦ absurd (ground arith)
        | inl fine ↦ (elim (Option-cases (lib.final op'.ctx)) [
          | inl failed ↦ absurd (let wrong = hmac.fails in ground arith)
          | inr (digest, computed) ↦
              (let (context, same_purpose, same_length, same_min) =
                  finished lib mac hmac op op' params md key before input known
                    (done ∙ ap (λ e. (e, op')) (ok-eq err fine)) in
                let is = hmac.result op'.ctx md key (before ++ input) digest context computed in
                let signs : is_sign op'.purpose ≡ true = ap is_sign (same_purpose ∙ signing) in
                let first : out ≡ take op'.mac_length digest = ground arith in
                first ∙ ap (λ n. take n digest) same_length ∙ ap (take op.mac_length) is)
        ])
      ]

  -- What the factory and the updates have made of an operation for a signature.
  signing-IsLength :
      (d : KeymasterDefs) (digest_name : ℕ → Digest) (granted : Bool) (key : AuthorizationSet)
      (key_data : List ℕ) (begin_params : AuthorizationSet) (op : HmacOperation C) (bits digest : ℕ)
      → create_operation lib d digest_name granted Purpose.sign key key_data begin_params
        ≡ (KeymasterError.ok, some op)
      → get_tag_value_int key (d.tag_value Tag.min_mac_length) ≡ some bits
      → get_only_enum key (d.tag_value Tag.digest) ≡ some digest
      → IsLength lib (digest_name digest) (bits / 8) op.mac_length
  signing-IsLength d digest_name granted key key_data begin_params op bits digest made least named =
      let (same, fine) =
        create_with-made lib granted Purpose.sign key_data (digest_name digest) _ bits op (
          create_operation-made lib d digest_name granted Purpose.sign key key_data begin_params op
            bits digest made least named) in
      subst (IsLength lib (digest_name digest) (bits / 8)) (ap (λ o. o.mac_length) same) (
        new_operation-IsLength lib key_data (digest_name digest) _ (bits / 8)
          (subst (λ o. is_ok o.error ≡ true) (sym same) fine))

  prefix-IsSignature :
      (md : Digest) (key bytes out : List ℕ) (n least : ℕ)
      → IsLength lib md least n
      → out ≡ take n (mac md key bytes)
      → IsSignature lib mac hmac md key bytes least out
  prefix-IsSignature md key bytes out n least (eight, enough, fits) prefix =
      let size : length out ≡ n =
        ap length prefix
        ∙ length-take n (mac md key bytes) (let whole = hmac.sized md key bytes in omega arith) in
      (
        omega arith,
        omega arith,
        omega arith,
        prefix ∙ ap (λ k. take k (mac md key bytes)) (sym size),
      )

  -- OpenSSL does not fail.
  abbrev pub IsReliable : Type 0
  IsReliable =
      ((c : C) (xs : List ℕ) → (c' : C) × (lib.update c xs ≡ some c'))
      × ((c : C) → (out : List ℕ) × (lib.final c ≡ some out))

  update_for_finish-ok :
      (op : HmacOperation C) (params : AuthorizationSet) (input : List ℕ)
      → IsReliable
      → is_ok (update_for_finish (update lib) op params input).0 ≡ true
  unfolding update_for_finish update
  update_for_finish-ok op params input reliable =
      let (c, taken) = reliable.0 op.ctx input in ground arith

  finish-accepts :
      (alloc : ℕ → Bool) (op : HmacOperation C) (params : AuthorizationSet) (md : Digest)
      (key before input signature : List ℕ)
      → op.purpose ≡ Purpose.verify
      → hmac.state op.ctx ≡ (md, key, before)
      → IsReliable
      → IsSignature lib mac hmac md key (before ++ input) op.min_mac_length signature
      → (finish lib alloc op params input signature).0 ≡ KeymasterError.ok
  unfolding finish finish_with
  finish-accepts alloc op params md key before input signature verifying known reliable fits =
      by_update _ refl
    where
      by_update :
          (q : KeymasterError × HmacOperation C)
          → update_for_finish (update lib) op params input ≡ q
          → (finish lib alloc op params input signature).0 ≡ KeymasterError.ok
      by_update (err, op') done =
          let fine : is_ok err ≡ true =
            subst (λ r. is_ok (r.0) ≡ true) done (update_for_finish-ok op params input reliable) in
          let (context, same_purpose, same_length, same_min) =
            finished lib mac hmac op op' params md key before input known
              (done ∙ ap (λ e. (e, op')) (ok-eq err fine)) in
          let (digest, computed) = reliable.1 op'.ctx in
          let is = hmac.result op'.ctx md key (before ++ input) digest context computed in
          let purpose = same_purpose ∙ verifying in
          let verifies : is_verify op'.purpose ≡ true = ap is_verify purpose in
          let signs_not : is_sign op'.purpose ≡ false = ap is_sign purpose in
          let passed : verify_with lib op' signature digest ≡ KeymasterError.ok =
            subst (λ o. verify_with lib op' signature o ≡ KeymasterError.ok) (sym is)
              ((verify_with-IsSignature lib mac hmac op' md key (before ++ input) signature).1 (
                subst (λ n. IsSignature lib mac hmac md key (before ++ input) n signature)
                  (sym same_min) fits)) in
          ground arith

-- A signature that an operation has made with a key is accepted by a verification with the same key over
-- the same bytes, however each has got them in pieces. For operations that the factories created for a
-- key that names one digest and a least length, updates that succeeded, and an OpenSSL that does not fail
-- in the verification.
pub signature-IsAccepted :
    {C : Type 0} (lib : HmacLibrary C) (mac : Digest → List ℕ → List ℕ → List ℕ)
    (hmac : IsHmac lib mac) (d : KeymasterDefs) (digest_name : ℕ → Digest) (granted granted' : Bool)
    (key : AuthorizationSet) (key_data : List ℕ) (begin_params begin_params' : AuthorizationSet)
    (s s' v v' : HmacOperation C) (chunks chunks' : List (AuthorizationSet × List ℕ))
    (alloc : ℕ → Bool) (params params' : AuthorizationSet) (input input' unused out : List ℕ)
    → create_operation lib d digest_name granted Purpose.sign key key_data begin_params
      ≡ (KeymasterError.ok, some s)
    → create_operation lib d digest_name granted' Purpose.verify key key_data begin_params'
      ≡ (KeymasterError.ok, some v)
    → feed lib s chunks ≡ some s'
    → feed lib v chunks' ≡ some v'
    → all_bytes chunks ++ input ≡ all_bytes chunks' ++ input'
    → finish lib alloc s' params input unused ≡ (KeymasterError.ok, out)
    → IsReliable lib mac hmac
    → (finish lib alloc v' params' input' out).0 ≡ KeymasterError.ok
signature-IsAccepted lib mac hmac d digest_name granted granted' key key_data begin_params
      begin_params' s s' v v' chunks chunks' alloc params params' input input' unused out made made'
      taken taken' same_bytes signed reliable =
    let (of, (bits, least, min_length), (digest, named, context)) =
      created lib mac hmac d digest_name granted Purpose.sign key key_data begin_params s made in
    let (of', (bits', least', min_length'), (digest', named', context')) =
      created lib mac hmac d digest_name granted' Purpose.verify key key_data begin_params' v
        made' in
    let (fed, s_purpose, s_length, s_min) =
      feed-taken lib mac hmac s s' chunks (digest_name digest) key_data [] context taken in
    let (fed', v_purpose, v_length, v_min) =
      feed-taken lib mac hmac v v' chunks' (digest_name digest') key_data [] context' taken' in
    let fits = subst (IsLength lib (digest_name digest) (bits / 8)) (sym s_length) (
      signing-IsLength lib mac hmac d digest_name granted key key_data begin_params s bits digest
        made least named) in
    let prefix =
      finish-prefix lib mac hmac alloc s' params (digest_name digest) key_data (all_bytes chunks)
        input unused out (s_purpose ∙ of) fed signed in
    let signature =
      prefix-IsSignature lib mac hmac (digest_name digest) key_data (all_bytes chunks ++ input) out
        s'.mac_length (bits / 8) fits prefix in
    let same_bits : bits ≡ bits' = ground (arith, least, least') in
    let same_digest : digest ≡ digest' = ground (arith, named, named') in
    finish-accepts lib mac hmac alloc v' params' (digest_name digest') key_data (all_bytes chunks')
      input' out (v_purpose ∙ of') fed' reliable
      (rw (sym same_digest, sym same_bytes, v_min, min_length', sym same_bits) signature)
