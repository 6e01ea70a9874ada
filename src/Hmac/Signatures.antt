-- ===== src/Hmac/Signatures.antt =====
-- hmac_operation.cpp: what an HMAC operation signs, and which signatures it accepts.
use platform_system_keymaste.Common.{
  ℕ, ◌/◌, ◌≤◌, ◌≡◌, refl, ap, sym, subst, ◌∙◌, ◌↔◌, inl, inr, Bool, true, false, ◌||◌, not, List,
  [], ◌∷◌, ◌++◌, Option, none, some, arith, length, take, append-nil, append_assoc, ltb,
  if◌then◌else◌, ◌==◌, Bool-cases, Option-cases,
}
use platform_system_keymaste.Defs.{KeymasterDefs, KeymasterError, is_ok, Purpose, Tag}
use platform_system_keymaste.AuthSet.{AuthorizationSet}
use platform_system_keymaste.AuthSet.Lookup.{get_tag_value_int, get_only_enum}
use platform_system_keymaste.OperationFactory.{update_for_finish}
use platform_system_keymaste.Hmac.{
  Digest, HmacLibrary, HmacOperation, min_hmac_length, has_md, is_sign, is_verify, mac_length_error,
  new_operation, requested_bits, create_with, create_operation, update, verify_with, finish_with,
  finish,
}

-- OpenSSL computes this HMAC: a context stands for a digest, a key and the bytes so far.
pub record IsHmac {C : Type 0} (lib : HmacLibrary C) (mac : Digest → List ℕ → List ℕ → List ℕ)
    : Type 0 where
  pub state : C → Digest × List ℕ × List ℕ
  pub started : (md : Digest) (key : List ℕ) → state (lib.init md key) ≡ (md, key, [])
  pub fed :
      (c c' : C) (md : Digest) (key before xs : List ℕ)
      → state c ≡ (md, key, before)
      → lib.update c xs ≡ some c'
      → state c' ≡ (md, key, before ++ xs)
  pub result :
      (c : C) (md : Digest) (key bytes out : List ℕ)
      → state c ≡ (md, key, bytes)
      → lib.final c ≡ some out
      → out ≡ mac md key bytes
  pub sized : (md : Digest) (key bytes : List ℕ) → length (mac md key bytes) ≡ lib.md_size md
  pub fails : is_ok lib.last_error ≡ false
  pub compares :
      (xs ys : List ℕ) (n : ℕ) → (lib.memory_equal xs ys n ≡ true) ↔ (take n xs ≡ take n ys)

no-bytes : (xs : List ℕ) → ltb 0 (length xs) ≡ false → xs ≡ []
no-bytes [] h = refl
no-bytes (x ∷ xs) h = ground arith

pub ok-eq : (err : KeymasterError) → is_ok err ≡ true → err ≡ KeymasterError.ok
ok-eq err h = ground arith

pub take_all : (xs : List ℕ) → take (length xs) xs ≡ xs
take_all [] = refl
take_all (x ∷ xs) = ap (◌∷◌ x) (take_all xs)

abbrev pub all_bytes : List (AuthorizationSet × List ℕ) → List ℕ
all_bytes [] = []
all_bytes ((params, xs) ∷ rest) = xs ++ all_bytes rest

module _ {C : Type 0} (lib : HmacLibrary C) where
  -- The updates of an operation, each with these bytes, all of them successful.
  unfoldable pub feed :
      HmacOperation C → List (AuthorizationSet × List ℕ) → Option (HmacOperation C)
  unfolding update
  feed op [] = some op
  feed op ((params, xs) ∷ rest) =
      let (err, op', out) = update lib op params xs in if is_ok err then feed op' rest else none

  pub create_with-made :
      (granted : Bool) (purpose : Purpose) (key_data : List ℕ) (md : Digest) (bits min_bits : ℕ)
      (op : HmacOperation C)
      → create_with lib granted purpose key_data md bits min_bits ≡ (KeymasterError.ok, some op)
      → (new_operation lib purpose key_data md (bits / 8) (min_bits / 8) ≡ op)
        × (is_ok op.error ≡ true)
  unfolding create_with
  create_with-made granted purpose key_data md bits min_bits op made =
      let new : HmacOperation C = new_operation lib purpose key_data md (bits / 8) (min_bits / 8) in
      elim (Bool-cases granted) [
        | inr refused ↦ absurd (ground arith)
        | inl given ↦ (elim (Bool-cases (is_ok new.error)) [
          | inr failed ↦ absurd (ground arith)
          | inl fine ↦
              (let same : new ≡ op = ground arith in
                (same, subst (λ o. is_ok o.error ≡ true) same fine))
        ])
      ]

  pub create_operation-made :
      (d : KeymasterDefs) (digest_name : ℕ → Digest) (granted : Bool) (purpose : Purpose)
      (key : AuthorizationSet) (key_data : List ℕ) (begin_params : AuthorizationSet)
      (op : HmacOperation C) (bits digest : ℕ)
      → create_operation lib d digest_name granted purpose key key_data begin_params
        ≡ (KeymasterError.ok, some op)
      → get_tag_value_int key (d.tag_value Tag.min_mac_length) ≡ some bits
      → get_only_enum key (d.tag_value Tag.digest) ≡ some digest
      → create_with lib granted purpose key_data
          (digest_name digest)
          (requested_bits purpose (get_tag_value_int begin_params (d.tag_value Tag.mac_length))).1
          bits
        ≡ (KeymasterError.ok, some op)
  unfolding create_operation
  create_operation-made d digest_name granted purpose key key_data begin_params op bits digest made
        least named =
      ground arith

module _ {C : Type 0} (lib : HmacLibrary C) (mac : Digest → List ℕ → List ℕ → List ℕ)
    (hmac : IsHmac lib mac) where
  -- What `Finish` finds in the context behind its own update.
  pub finished :
      (op op' : HmacOperation C) (params : AuthorizationSet) (md : Digest)
      (key before input : List ℕ)
      → hmac.state op.ctx ≡ (md, key, before)
      → update_for_finish (update lib) op params input ≡ (KeymasterError.ok, op')
      → (hmac.state op'.ctx ≡ (md, key, before ++ input))
        × (op'.purpose ≡ op.purpose)
        × (op'.mac_length ≡ op.mac_length)
        × (op'.min_mac_length ≡ op.min_mac_length)
  unfolding update_for_finish update
  finished op op' params md key before input known done =
      elim (Bool-cases (not (length params.elems == 0) || ltb 0 (length input))) [
        | inr idle ↦
            (let same : op ≡ op' = ground arith in
              let nothing : input ≡ [] = no-bytes input (ground arith) in
              (
                subst (λ o. hmac.state o.ctx ≡ (md, key, before ++ input)) same
                    (rw (nothing, append-nil before) known),
                ap (λ o. o.purpose) (sym same),
                ap (λ o. o.mac_length) (sym same),
                ap (λ o. o.min_mac_length) (sym same),
              ))
        | inl busy ↦ (elim (Option-cases (lib.update op.ctx input)) [
          | inl failed ↦ absurd (let wrong = hmac.fails in ground arith)
          | inr (c, taken) ↦
              (let same : record op { ctx = c } ≡ op' = ground arith in
                (
                  subst (λ o. hmac.state o.ctx ≡ (md, key, before ++ input)) same
                      (hmac.fed op.ctx c md key before input known taken),
                  ap (λ o. o.purpose) (sym same),
                  ap (λ o. o.mac_length) (sym same),
                  ap (λ o. o.min_mac_length) (sym same),
                ))
        ])
      ]

  -- The signature is that many bytes of the HMAC: at least eight, at least what the key asks for, and at
  -- most the size of the digest.
  abbrev pub IsSignature : Digest → List ℕ → List ℕ → ℕ → List ℕ → Type 0
  IsSignature md key bytes min_length signature =
      (min_hmac_length ≤ length signature)
      × (min_length ≤ length signature)
      × (length signature ≤ lib.md_size md)
      × (signature ≡ take (length signature) (mac md key bytes))

  pub verify_with-IsSignature :
      (op : HmacOperation C) (md : Digest) (key bytes signature : List ℕ)
      → (verify_with lib op signature (mac md key bytes) ≡ KeymasterError.ok)
        ↔ IsSignature md key bytes op.min_mac_length signature
  unfolding verify_with
  verify_with-IsSignature op md key bytes signature =
      let same = hmac.compares signature (mac md key bytes) (length signature) in
      let size = hmac.sized md key bytes in
      let whole = take_all signature in
      (
        λ accepted.
            let equal : lib.memory_equal signature (mac md key bytes) (length signature) ≡ true =
              ground arith in
            (ground arith, ground arith, ground arith, sym whole ∙ same.0 equal),
        λ (least, enough, most, prefix). let equal = same.1 (whole ∙ prefix) in ground arith,
      )

  -- `Finish` of a verification, when it can compute the HMAC.
  finish-IsSignature :
      (alloc : ℕ → Bool) (op : HmacOperation C) (params : AuthorizationSet) (md : Digest)
      (key before input signature : List ℕ)
      → op.purpose ≡ Purpose.verify
      → hmac.state op.ctx ≡ (md, key, before)
      → (finish lib alloc op params input signature).0 ≡ KeymasterError.ok
      → IsSignature md key (before ++ input) op.min_mac_length signature
  unfolding finish finish_with
  finish-IsSignature alloc op params md key before input signature verifying known accepted =
      by_update _ refl
    where
      by_update :
          (q : KeymasterError × HmacOperation C)
          → update_for_finish (update lib) op params input ≡ q
          → IsSignature md key (before ++ input) op.min_mac_length signature
      by_update (err, op') done = elim (Bool-cases (is_ok err)) [
        | inr failed ↦ absurd (ground arith)
        | inl fine ↦ (elim (Option-cases (lib.final op'.ctx)) [
          | inl failed ↦ absurd (let wrong = hmac.fails in ground arith)
          | inr (out, computed) ↦
              (let (context, same_purpose, same_length, same_min) =
                  finished op op' params md key before input known
                    (done ∙ ap (λ e. (e, op')) (ok-eq err fine)) in
                let made = hmac.result op'.ctx md key (before ++ input) out context computed in
                let purpose = same_purpose ∙ verifying in
                let verifies : is_verify op'.purpose ≡ true = ap is_verify purpose in
                let signs_not : is_sign op'.purpose ≡ false = ap is_sign purpose in
                let passed : verify_with lib op' signature out ≡ KeymasterError.ok = ground arith in
                subst (λ n. IsSignature md key (before ++ input) n signature) same_min
                  ((verify_with-IsSignature op' md key (before ++ input) signature).0
                    (subst (λ o. verify_with lib op' signature o ≡ KeymasterError.ok) made passed)))
        ])
      ]

  pub feed-taken :
      (op op' : HmacOperation C) (chunks : List (AuthorizationSet × List ℕ)) (md : Digest)
      (key before : List ℕ)
      → hmac.state op.ctx ≡ (md, key, before)
      → feed lib op chunks ≡ some op'
      → (hmac.state op'.ctx ≡ (md, key, before ++ all_bytes chunks))
        × (op'.purpose ≡ op.purpose)
        × (op'.mac_length ≡ op.mac_length)
        × (op'.min_mac_length ≡ op.min_mac_length)
  unfolding feed update
  feed-taken op op' [] md key before known done =
      let same : op ≡ op' = ground arith in
      (
        subst (λ o. hmac.state o.ctx ≡ (md, key, before ++ [])) same (rw (append-nil before) known),
        ap (λ o. o.purpose) (sym same),
        ap (λ o. o.mac_length) (sym same),
        ap (λ o. o.min_mac_length) (sym same),
      )
  feed-taken op op' ((params, xs) ∷ rest) md key before known done =
      elim (Option-cases (lib.update op.ctx xs)) [
        | inl failed ↦ absurd (let wrong = hmac.fails in ground arith)
        | inr (c, taken) ↦
            (let again : feed lib (record op { ctx = c }) rest ≡ some op' = ground arith in
              let (context, purpose, mac_length, min_length) =
                feed-taken (record op { ctx = c }) op' rest md key (before ++ xs)
                  (hmac.fed op.ctx c md key before xs known taken) again in
              (
                context ∙ ap (λ b. (md, key, b)) (append_assoc before xs (all_bytes rest)),
                purpose,
                mac_length,
                min_length,
              ))
      ]

  new_operation-made :
      (purpose : Purpose) (key_data : List ℕ) (md : Digest) (mac_length min_mac_length : ℕ)
      → is_ok (new_operation lib purpose key_data md mac_length min_mac_length).error ≡ true
      → let op = new_operation lib purpose key_data md mac_length min_mac_length in
        (op.purpose ≡ purpose)
        × (op.min_mac_length ≡ min_mac_length)
        × (op.ctx ≡ lib.init md key_data)
  unfolding new_operation
  new_operation-made purpose key_data md mac_length min_mac_length fine =
      elim (Bool-cases (has_md md)) [
        | inr none_of ↦ absurd (ground arith)
        | inl has ↦
            (elim (Bool-cases (is_ok (mac_length_error lib purpose md mac_length min_mac_length))) [
              | inr wrong ↦ absurd (ground arith)
              | inl right ↦ rw (has, right) (refl, refl, refl)
            ])
      ]

  -- The operation of a factory for a key: what it has been made for.
  pub created :
      (d : KeymasterDefs) (digest_name : ℕ → Digest) (granted : Bool) (purpose : Purpose)
      (key : AuthorizationSet) (key_data : List ℕ) (begin_params : AuthorizationSet)
      (op : HmacOperation C)
      → create_operation lib d digest_name granted purpose key key_data begin_params
        ≡ (KeymasterError.ok, some op)
      → (op.purpose ≡ purpose)
        × ((bits : ℕ) × (get_tag_value_int key (d.tag_value Tag.min_mac_length) ≡ some bits)
            × (op.min_mac_length ≡ bits / 8))
        × ((digest : ℕ) × (get_only_enum key (d.tag_value Tag.digest) ≡ some digest)
            × (hmac.state op.ctx ≡ (digest_name digest, key_data, [])))
  unfolding create_operation
  created d digest_name granted purpose key key_data begin_params op made =
      elim (Option-cases (get_tag_value_int key (d.tag_value Tag.min_mac_length))) [
        | inl missing ↦ absurd (ground arith)
        | inr (bits, least) ↦ (elim (Option-cases (get_only_enum key (d.tag_value Tag.digest))) [
          | inl missing ↦ absurd (ground arith)
          | inr (digest, named) ↦
              (let (same, fine) =
                  create_with-made lib granted purpose key_data (digest_name digest) asked bits op (
                    create_operation-made lib d digest_name granted purpose key key_data
                      begin_params op bits digest made least named) in
                let (of, least_length, context) =
                  new_operation-made purpose key_data (digest_name digest) (asked / 8) (bits / 8)
                    (subst (λ o. is_ok o.error ≡ true) (sym same) fine) in
                (
                  ap (λ o. o.purpose) (sym same) ∙ of,
                  (bits, least, ap (λ o. o.min_mac_length) (sym same) ∙ least_length),
                  (
                    digest,
                    named,
                    ap hmac.state (ap (λ o. o.ctx) (sym same) ∙ context)
                        ∙ hmac.started (digest_name digest) key_data,
                  ),
                ))
        ])
      ]
    where
      asked : ℕ
      asked =
          (requested_bits purpose (get_tag_value_int begin_params (d.tag_value Tag.mac_length))).1

-- An HMAC verification that gives KM_ERROR_OK has been given a signature that is the beginning of the HMAC,
-- under the key's bytes and the digest of its authorizations, of all that its updates and its finish were
-- given: at least eight bytes, at least the key's KM_TAG_MIN_MAC_LENGTH / 8, at most the digest's size. For
-- an operation that the factory created, with updates that succeeded.
pub verification-IsSignature :
    {C : Type 0} (lib : HmacLibrary C) (mac : Digest → List ℕ → List ℕ → List ℕ)
    (hmac : IsHmac lib mac) (d : KeymasterDefs) (digest_name : ℕ → Digest) (granted : Bool)
    (key : AuthorizationSet) (key_data : List ℕ) (begin_params : AuthorizationSet)
    (op op' : HmacOperation C) (chunks : List (AuthorizationSet × List ℕ)) (alloc : ℕ → Bool)
    (params : AuthorizationSet) (input signature : List ℕ)
    → create_operation lib d digest_name granted Purpose.verify key key_data begin_params
      ≡ (KeymasterError.ok, some op)
    → feed lib op chunks ≡ some op'
    → (finish lib alloc op' params input signature).0 ≡ KeymasterError.ok
    → (bits : ℕ) × (digest : ℕ) × (get_tag_value_int key (d.tag_value Tag.min_mac_length)
        ≡ some bits)
      × (get_only_enum key (d.tag_value Tag.digest) ≡ some digest)
      × IsSignature lib mac hmac
          (digest_name digest)
          key_data
          (all_bytes chunks ++ input)
          (bits / 8)
          signature
verification-IsSignature lib mac hmac d digest_name granted key key_data begin_params op op' chunks
      alloc params input signature made taken accepted =
    let (of, (bits, least, min_length), (digest, named, context)) =
      created lib mac hmac d digest_name granted Purpose.verify key key_data begin_params op made in
    let (context', of', same_length, same_min) =
      feed-taken lib mac hmac op op' chunks (digest_name digest) key_data [] context taken in
    (
      bits,
      digest,
      least,
      named,
      subst
          (λ n.
            IsSignature lib mac hmac (digest_name digest) key_data (all_bytes chunks ++ input) n
              signature)
          (same_min ∙ min_length)
          (finish-IsSignature lib mac hmac alloc op' params (digest_name digest) key_data
            (all_bytes chunks) input signature (of' ∙ of) context' accepted),
    )
