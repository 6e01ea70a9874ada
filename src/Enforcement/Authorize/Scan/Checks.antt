-- ===== src/Enforcement/Authorize/Scan/Checks.antt =====
-- The loop of AuthorizeBegin in keymaster_enforcement.cpp against the conditions that each
-- authorization of the key states.
use platform_system_keymaste.Common.{
  ℕ, ◌≡◌, refl, subst, ◌⊎◌, inl, inr, Bool, true, false, ◌||◌, List, [], ◌∷◌, none, some, ◌==◌,
  if◌then◌else◌, All, Any, Bool-cases, arith,
}
use platform_system_keymaste.Defs.{KeyParam, Tag, tag_name, integer, long_integer, date_time}
use platform_system_keymaste.Enforcement.Authorize.{
  min_time_between_ops_passed, max_uses_per_boot_not_exceeded, is_origination_purpose,
  is_usage_purpose, auth_token_matches,
}
use platform_system_keymaste.Enforcement.Authorize.Scan.{
  Request, Scan, Checked, stop, go, check_tag, check_param, check_params, check_secure_id,
}

-- What an authorization with the tag demands of the call.
abbrev pub Demands : Request → KeyParam → Tag → Type 0
Demands r p Tag.active_datetime = r.context.activation_date_valid (date_time p) ≡ true
Demands r p Tag.origination_expire_datetime =
    is_origination_purpose r.purpose ≡ true → r.context.expiration_date_passed (date_time p) ≡ false
Demands r p Tag.usage_expire_datetime =
    is_usage_purpose r.purpose ≡ true → r.context.expiration_date_passed (date_time p) ≡ false
Demands r p Tag.min_seconds_between_ops =
    min_time_between_ops_passed r.context r.enforcement (integer p) r.keyid ≡ true
Demands r p Tag.max_uses_per_boot =
    max_uses_per_boot_not_exceeded r.enforcement r.keyid (integer p) ≡ true
Demands r p Tag.user_secure_id = r.indices.no_auth_required_index ≡ none
Demands r p Tag.invalid = ⊥
Demands r p Tag.auth_token = ⊥
Demands r p Tag.root_of_trust = ⊥
Demands r p Tag.application_data = ⊥
Demands r p Tag.attestation_challenge = ⊥
Demands r p Tag.bootloader_only = ⊥
Demands r p _ = Unit

check_tag-Demands :
    (r : Request) (p : KeyParam) (v w : Scan) (t : Tag) → check_tag r p v t ≡ go w → Demands r p t
unfolding check_tag check_secure_id
check_tag-Demands r p v w Tag.active_datetime h = ground arith
check_tag-Demands r p v w Tag.origination_expire_datetime h = λ u. ground arith
check_tag-Demands r p v w Tag.usage_expire_datetime h = λ u. ground arith
check_tag-Demands r p v w Tag.min_seconds_between_ops h = ground arith
check_tag-Demands r p v w Tag.max_uses_per_boot h = ground arith
check_tag-Demands r p v w Tag.user_secure_id h = ground arith
check_tag-Demands r p v w Tag.invalid h = ground arith
check_tag-Demands r p v w Tag.auth_token h = ground arith
check_tag-Demands r p v w Tag.root_of_trust h = ground arith
check_tag-Demands r p v w Tag.application_data h = ground arith
check_tag-Demands r p v w Tag.attestation_challenge h = ground arith
check_tag-Demands r p v w Tag.bootloader_only h = ground arith
check_tag-Demands r p v w _ h = ground arith

-- The loop's `continue` on KM_TAG_PADDING_OLD and KM_TAG_DIGEST_OLD.
abbrev pub is_ignored : Request → KeyParam → Bool
is_ignored r p =
    p.tag == r.defs.tag_value Tag.padding_old || p.tag == r.defs.tag_value Tag.digest_old

-- The parameter reaches the `switch` with this tag.
abbrev pub IsTagged : Request → Tag → KeyParam → Type 0
IsTagged r t p = (is_ignored r p ≡ false) × (tag_name r.defs p.tag ≡ t)

-- The parameter names a user whose token the call carries.
abbrev pub HasToken : Request → KeyParam → Type 0
HasToken r p =
    (i : ℕ) × (r.indices.auth_timeout_index ≡ some i)
    × (auth_token_matches r.defs r.context r.auth_set r.operation_params (long_integer p)
          r.indices.auth_type_index (some i) 0 true
        ≡ true)

-- How one round of the loop changes its variables.
abbrev Round : Request → KeyParam → Scan → Scan → Tag → Type 0
Round r p v w t =
    Demands r p t
    × (v.authentication_required ≡ true → w.authentication_required ≡ true)
    × (v.update_access_count ≡ true → w.update_access_count ≡ true)
    × (w.auth_token_matched ≡ true
        → (v.auth_token_matched ≡ true) ⊎ ((t ≡ Tag.user_secure_id) × HasToken r p))
    × (w.caller_nonce_authorized_by_key ≡ true
        → (v.caller_nonce_authorized_by_key ≡ true) ⊎ (t ≡ Tag.caller_nonce))
    × ((i : ℕ)
        → t ≡ Tag.user_secure_id
        → r.indices.auth_timeout_index ≡ some i
        → w.authentication_required ≡ true)
    × (t ≡ Tag.max_uses_per_boot → w.update_access_count ≡ true)

secure_id-Round :
    (r : Request) (p : KeyParam) (v w : Scan)
    → check_secure_id r p v ≡ go w
    → Round r p v w Tag.user_secure_id
unfolding check_secure_id
secure_id-Round r p v w h = ground arith

check_tag-Round :
    (r : Request) (p : KeyParam) (v w : Scan) (t : Tag) → check_tag r p v t ≡ go w → Round r p v w t
unfolding check_tag
check_tag-Round r p v w Tag.user_secure_id h = secure_id-Round r p v w h
check_tag-Round r p v w _ h = ground arith

-- An authorization that is not ignored has its demand met.
abbrev pub IsMet : Request → KeyParam → Type 0
IsMet r p = is_ignored r p ≡ false → Demands r p (tag_name r.defs p.tag)

-- What a part of the loop does to its variables.
abbrev pub Rounds : Request → List KeyParam → Scan → Scan → Type 0
Rounds r ps v w =
    All (IsMet r) ps
    × (v.authentication_required ≡ true → w.authentication_required ≡ true)
    × (v.update_access_count ≡ true → w.update_access_count ≡ true)
    × (w.auth_token_matched ≡ true
        → (v.auth_token_matched ≡ true)
          ⊎ Any (λ p. IsTagged r Tag.user_secure_id p × HasToken r p) ps)
    × (w.caller_nonce_authorized_by_key ≡ true
        → (v.caller_nonce_authorized_by_key ≡ true) ⊎ Any (IsTagged r Tag.caller_nonce) ps)
    × ((i : ℕ)
        → Any (IsTagged r Tag.user_secure_id) ps
        → r.indices.auth_timeout_index ≡ some i
        → w.authentication_required ≡ true)
    × (Any (IsTagged r Tag.max_uses_per_boot) ps → w.update_access_count ≡ true)

check_param-Rounds :
    (r : Request) (p : KeyParam) (v w : Scan) → check_param r p v ≡ go w → Rounds r (p ∷ []) v w
unfolding check_param
check_param-Rounds r p v w h = elim (Bool-cases (is_ignored r p)) [
  | inl skip ↦ ground arith
  | inr kept ↦
      let round = check_tag-Round r p v w (tag_name r.defs p.tag) (kept_lem kept h) in ground arith
]
  where
    kept_lem :
        is_ignored r p ≡ false
        → (if is_ignored r p then go v else check_tag r p v (tag_name r.defs p.tag)) ≡ go w
        → check_tag r p v (tag_name r.defs p.tag) ≡ go w
    kept_lem k e =
        subst (λ b. (if b then go v else check_tag r p v (tag_name r.defs p.tag)) ≡ go w) k e

Rounds-then :
    (r : Request) (p : KeyParam) (ps : List KeyParam) (u v w : Scan)
    → Rounds r (p ∷ []) u v
    → Rounds r ps v w
    → Rounds r (p ∷ ps) u w
Rounds-then r p ps u v w a b = ground arith

pub check_params-Rounds :
    (r : Request) (ps : List KeyParam) (v w : Scan) → check_params r ps v ≡ go w → Rounds r ps v w
unfolding check_params
check_params-Rounds r [] v w h = ground arith
check_params-Rounds r (p ∷ ps) v w h =
    rest (λ u k. check_params-Rounds r ps u w k) (check_param r p v) refl h
  where
    rest :
        ((u : Scan) → check_params r ps u ≡ go w → Rounds r ps u w)
        → (x : Checked) → check_param r p v ≡ x
        → elim x [ stop err ↦ stop err | go u ↦ check_params r ps u ] ≡ go w
        → Rounds r (p ∷ ps) v w
    rest rec (stop err) e k = ground arith
    rest rec (go u) e k = Rounds-then r p ps v u w (check_param-Rounds r p v u e) (rec u k)
