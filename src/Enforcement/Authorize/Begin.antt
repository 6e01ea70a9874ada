-- ===== src/Enforcement/Authorize/Begin.antt =====
-- What a begin that AuthorizeBegin of keymaster_enforcement.cpp allows has passed, and what a begin
-- that it refuses leaves of the tables.
use platform_system_keymaste.Common.{
  ℕ, ◌≡◌, refl, sym, ap, ◌∙◌, ◌≢◌, ◌⊎◌, inl, inr, Bool, true, false, ◌&&◌, List, [], ◌∷◌, some, not,
  All, Any, if-taken, if-skipped, Bool-cases, arith,
}
use platform_system_keymaste.Defs.{
  KeymasterDefs, KeyParam, Tag, Purpose, KeymasterError, is_ok, tag_name,
}
use platform_system_keymaste.AuthSet.{AuthorizationSet}
use platform_system_keymaste.AuthSet.Lookup.{find, contains_enum_value}
use platform_system_keymaste.Enforcement.{Context, KeymasterEnforcement}
use platform_system_keymaste.Enforcement.Authorize.{
  authorized_purpose, is_operation_purpose, is_origination_purpose, is_some,
}
use platform_system_keymaste.Enforcement.Authorize.Scan.{
  Request, Scan, Checked, stop, go, initial_scan, check_tag, check_secure_id, check_param,
  check_params, record_access, record_use, unless_error, after_scan, finish_scan, request,
  authorize_begin,
}
use platform_system_keymaste.Enforcement.Authorize.Scan.Checks.{
  IsTagged, HasToken, IsMet, check_params-Rounds,
}

-- The conditions under which an operation may begin.
pub record IsAuthorized (r : Request) : Type 0 where
  pub purpose_named :
      contains_enum_value r.auth_set (r.defs.tag_value Tag.purpose) (r.defs.purpose_value r.purpose)
      ≡ true
  pub purpose_known : is_operation_purpose r.purpose ≡ true
  pub params_met : All (IsMet r) r.auth_set.elems
  pub user_authenticated :
      (i : ℕ)
      → r.indices.auth_timeout_index ≡ some i
      → Any (IsTagged r Tag.user_secure_id) r.auth_set.elems
      → Any (λ p. IsTagged r Tag.user_secure_id p × HasToken r p) r.auth_set.elems
  pub nonce_allowed :
      is_origination_purpose r.purpose ≡ true
      → is_some (find r.operation_params (r.defs.tag_value Tag.nonce)) ≡ true
      → Any (IsTagged r Tag.caller_nonce) r.auth_set.elems

purpose-lem :
    (d : KeymasterDefs) (p : Purpose) (s : AuthorizationSet)
    → is_ok (authorized_purpose d p s) ≡ true
    → (contains_enum_value s (d.tag_value Tag.purpose) (d.purpose_value p) ≡ true)
      × (is_operation_purpose p ≡ true)
unfolding authorized_purpose
purpose-lem d p s h = ground arith

-- What follows the loop, where it succeeds.
after_scan-allowed :
    (r : Request) (v : Scan) (e : KeymasterEnforcement)
    → after_scan r v ≡ (KeymasterError.ok, e)
    → (v.authentication_required ≡ true → v.auth_token_matched ≡ true)
      × (is_origination_purpose r.purpose ≡ true
          → is_some (find r.operation_params (r.defs.tag_value Tag.nonce)) ≡ true
          → v.caller_nonce_authorized_by_key ≡ true)
unfolding after_scan
after_scan-allowed r v e h = ground arith

check_tag-stop :
    (r : Request) (p : KeyParam) (v : Scan) (t : Tag) → check_tag r p v t ≢ stop KeymasterError.ok
unfolding check_tag check_secure_id
check_tag-stop r p v Tag.user_secure_id h = ground arith
check_tag-stop r p v _ h = ground arith

check_param-stop :
    (r : Request) (p : KeyParam) (v : Scan) → check_param r p v ≢ stop KeymasterError.ok
unfolding check_param
check_param-stop r p v h = ground (arith, check_tag-stop r p v (tag_name r.defs p.tag))

-- The loop stops with an error only.
pub check_params-stop :
    (r : Request) (ps : List KeyParam) (v : Scan) → check_params r ps v ≢ stop KeymasterError.ok
unfolding check_params
check_params-stop r [] v h = ground arith
check_params-stop r (p ∷ ps) v h =
    rest (λ w. check_params-stop r ps w) (check_param r p v) (check_param-stop r p v) h
  where
    rest :
        ((w : Scan) → check_params r ps w ≢ stop KeymasterError.ok)
        → (x : Checked) → x ≢ stop KeymasterError.ok
        → elim x [ stop err ↦ stop err | go w ↦ check_params r ps w ] ≢ stop KeymasterError.ok
    rest rec (stop err) never k = never k
    rest rec (go w) never k = rec w k

unless_absurd : {A : Type 0} → (false ≡ true) ⊎ A → A
unless_absurd h = ground arith

refused-lem :
    {x : KeymasterError} {e e' : KeymasterEnforcement}
    → ◌≡◌ {A = KeymasterError × KeymasterEnforcement} (x, e) (KeymasterError.ok, e')
    → is_ok x ≡ false
    → ⊥
refused-lem h refused = ground arith

scan-IsAuthorized :
    (r : Request) (e : KeymasterEnforcement)
    → is_ok (authorized_purpose r.defs r.purpose r.auth_set) ≡ true
    → finish_scan r (check_params r r.auth_set.elems initial_scan) ≡ (KeymasterError.ok, e)
    → IsAuthorized r
unfolding finish_scan
scan-IsAuthorized r e fine h = go_lem (check_params r r.auth_set.elems initial_scan) refl h
  where
    go_lem :
        (x : Checked)
        → check_params r r.auth_set.elems initial_scan ≡ x
        → finish_scan r x ≡ (KeymasterError.ok, e)
        → IsAuthorized r
    go_lem (stop err) k h' =
        absurd (check_params-stop r r.auth_set.elems initial_scan (k ∙ ap stop (ap (λ q. q.0) h')))
    go_lem (go v) k h' =
        let named = purpose-lem r.defs r.purpose r.auth_set fine in
        let rounds = check_params-Rounds r r.auth_set.elems initial_scan v k in
        let after = after_scan-allowed r v e h' in
        record {
          purpose_named = named.0;
          purpose_known = named.1;
          params_met = rounds.0;
          user_authenticated =
              λ i there any. unless_absurd (rounds.3 (after.0 (rounds.5 i any there)));
          nonce_allowed = λ o n. unless_absurd (rounds.4 (after.1 o n));
        }

-- A begin that is allowed meets every condition: the key names the purpose, each of its
-- authorizations has its demand met, a key for a named user with a timeout has a matching token, and
-- a nonce for an encryption or a signature comes only with KM_TAG_CALLER_NONCE.
pub authorize_begin-IsAuthorized :
    (d : KeymasterDefs) (c : Context) (e e' : KeymasterEnforcement) (p : Purpose) (keyid : ℕ)
    (s params : AuthorizationSet)
    → authorize_begin d c e p keyid s params ≡ (KeymasterError.ok, e')
    → IsAuthorized (request d c e p keyid s params)
unfolding authorize_begin
authorize_begin-IsAuthorized d c e e' p keyid s params h =
    elim (Bool-cases (is_ok (authorized_purpose d p s))) [
      | inl fine ↦ scan-IsAuthorized (request d c e p keyid s params) e' fine (if-taken _ _ fine h)
      | inr refused ↦ absurd (refused-lem (if-skipped _ _ refused h) refused)
    ]

-- An error that names a full table or a table that is missing.
abbrev pub is_table_error : KeymasterError → Bool
is_table_error KeymasterError.too_many_operations = true
is_table_error KeymasterError.memory_allocation_failed = true
is_table_error _ = false

-- The tables' steps give no other error.
record_access-is_table_error :
    (c : Context) (e : KeymasterEnforcement) (keyid timeout : ℕ)
    → is_ok ((record_access c e keyid timeout).0) ≡ false
    → is_table_error ((record_access c e keyid timeout).0) ≡ true
unfolding record_access
record_access-is_table_error c e keyid timeout h = ground arith

record_use-is_table_error :
    (e : KeymasterEnforcement) (keyid : ℕ) (update : Bool)
    → is_ok ((record_use e keyid update).0) ≡ false
    → is_table_error ((record_use e keyid update).0) ≡ true
unfolding record_use
record_use-is_table_error e keyid update h = ground arith

tables-lem :
    (a : KeymasterError × KeymasterEnforcement)
    (f : KeymasterEnforcement → KeymasterError × KeymasterEnforcement) (x : KeymasterError)
    (e : KeymasterEnforcement)
    → (is_ok (a.0) ≡ false → is_table_error (a.0) ≡ true)
    → ((e : KeymasterEnforcement) → is_ok ((f e).0) ≡ false → is_table_error ((f e).0) ≡ true)
    → unless_error a f ≡ (x, e)
    → is_ok x ≡ false
    → is_table_error x ≡ false
    → ⊥
tables-lem (y, e0) f x e ha hf h refused kept = elim (Bool-cases (is_ok y)) [
  | inl fine ↦
      (let same = ap (λ q. q.0) (if-taken _ _ fine h) in
        let table = hf e0 (ap is_ok same ∙ refused) in
        unless_absurd (inl (sym kept ∙ sym (ap is_table_error same) ∙ table)))
  | inr failed ↦
      (let same = ap (λ q. q.0) (if-skipped _ _ failed h) in
        unless_absurd (inl (sym kept ∙ sym (ap is_table_error same) ∙ ha failed)))
]

after_scan-unchanged :
    (r : Request) (v : Scan) (x : KeymasterError) (e : KeymasterEnforcement)
    → after_scan r v ≡ (x, e)
    → is_ok x ≡ false
    → is_table_error x ≡ false
    → e ≡ r.enforcement
unfolding after_scan
after_scan-unchanged r v x e h refused kept =
    elim (Bool-cases (v.authentication_required && not v.auth_token_matched)) [
      | inl unknown ↦ sym (ap (λ q. q.1) (if-taken _ _ unknown h))
      | inr known ↦
          elim (Bool-cases (
            not v.caller_nonce_authorized_by_key
            && is_origination_purpose r.purpose
            && is_some (find r.operation_params (r.defs.tag_value Tag.nonce)))) [
              | inl given ↦ sym (ap (λ q. q.1) (if-taken _ _ given (if-skipped _ _ known h)))
              | inr absent ↦ absurd (
                  tables-lem (record_access r.context r.enforcement r.keyid v.min_ops_timeout)
                    (λ e. record_use e r.keyid v.update_access_count) x e
                    (record_access-is_table_error r.context r.enforcement r.keyid v.min_ops_timeout)
                    (λ e. record_use-is_table_error e r.keyid v.update_access_count)
                    (if-skipped _ _ absent (if-skipped _ _ known h)) refused kept)
            ]
    ]

-- A refused begin leaves both tables as they were, unless its error is that of a table that is full or
-- missing.
pub authorize_begin-unchanged :
    (d : KeymasterDefs) (c : Context) (e e' : KeymasterEnforcement) (p : Purpose) (keyid : ℕ)
    (s params : AuthorizationSet) (x : KeymasterError)
    → authorize_begin d c e p keyid s params ≡ (x, e')
    → is_ok x ≡ false
    → is_table_error x ≡ false
    → e' ≡ e
unfolding authorize_begin finish_scan
authorize_begin-unchanged d c e e' p keyid s params x h refused kept =
    let r = request d c e p keyid s params in
    elim (Bool-cases (is_ok (authorized_purpose d p s))) [
      | inl fine ↦ go_lem r (check_params r s.elems initial_scan) (if-taken _ _ fine h)
      | inr wrong ↦ sym (ap (λ q. q.1) (if-skipped _ _ wrong h))
    ]
  where
    go_lem : (r : Request) (k : Checked) → finish_scan r k ≡ (x, e') → e' ≡ r.enforcement
    go_lem r (stop err) k = sym (ap (λ q. q.1) k)
    go_lem r (go v) k = after_scan-unchanged r v x e' k refused kept
