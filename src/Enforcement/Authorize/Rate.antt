-- ===== src/Enforcement/Authorize/Rate.antt =====
-- KM_TAG_MIN_SECONDS_BETWEEN_OPS in AuthorizeBegin of keymaster_enforcement.cpp: what a begin records for
-- the next one.
use platform_system_keymaste.Common.{
  ℕ, ◌+◌, ◌≤◌, ◌≡◌, ◌≢◌, ◌⊎◌, inl, inr, refl, ap, sym, subst, ◌∙◌, Bool, true, false, ◌&&◌, not,
  List, [], ◌∷◌, Option, none, some, All, Any, arith, leb→le, ◌==◌, length, if-taken, if-skipped,
  Bool-cases,
}
use platform_system_keymaste.Defs.{
  KeymasterDefs, KeyParam, Tag, Purpose, KeymasterError, is_ok, integer, tag_name,
}
use platform_system_keymaste.AuthSet.{AuthorizationSet}
use platform_system_keymaste.AuthSet.Lookup.{find}
use platform_system_keymaste.Enforcement.{Context, KeymasterEnforcement, AccessTimeMap}
use platform_system_keymaste.Enforcement.Tables.{
  last_access, last_key_access_time, update_key_access_time,
}
use platform_system_keymaste.Enforcement.Tables.Times.{IsUpdated, update_key_access_time-IsUpdated}
use platform_system_keymaste.Enforcement.Authorize.{
  min_time_between_ops_passed, uint32_max, is_origination_purpose, is_some, authorized_purpose,
}
use platform_system_keymaste.Enforcement.Authorize.Scan.{
  Request, Scan, Checked, stop, go, initial_scan, check_tag, check_secure_id, check_param,
  check_params, record_access, record_use, unless_error, after_scan, finish_scan, authorize_begin,
  request,
}
use platform_system_keymaste.Enforcement.Authorize.Scan.Checks.{
  Demands, IsTagged, IsMet, is_ignored,
}
use platform_system_keymaste.Enforcement.Authorize.Begin.{
  authorize_begin-IsAuthorized, check_params-stop,
}

-- The parameter asks for a distance of the operations; UINT32_MAX would not be recorded.
abbrev pub IsRated : Request → KeyParam → Type 0
IsRated r p = IsTagged r Tag.min_seconds_between_ops p

abbrev pub AreRecorded : Request → List KeyParam → Type 0
AreRecorded r = All (λ p. IsRated r p → integer p ≢ uint32_max)

check_tag-recorded :
    (r : Request) (p : KeyParam) (v w : Scan) (t : Tag)
    → check_tag r p v t ≡ go w
    → (t ≡ Tag.min_seconds_between_ops → integer p ≢ uint32_max)
    → (v.min_ops_timeout ≢ uint32_max) ⊎ (t ≡ Tag.min_seconds_between_ops)
    → w.min_ops_timeout ≢ uint32_max
unfolding check_tag check_secure_id
check_tag-recorded r p v w Tag.user_secure_id h small start = ground arith
check_tag-recorded r p v w _ h small start = ground arith

check_param-recorded :
    (r : Request) (p : KeyParam) (v w : Scan)
    → check_param r p v ≡ go w
    → (IsRated r p → integer p ≢ uint32_max)
    → (v.min_ops_timeout ≢ uint32_max) ⊎ IsRated r p
    → w.min_ops_timeout ≢ uint32_max
unfolding check_param
check_param-recorded r p v w h small start = elim (Bool-cases (is_ignored r p)) [
  | inl skip ↦ skipped skip (if-taken _ _ skip h) start
  | inr kept ↦
      check_tag-recorded r p v w (tag_name r.defs p.tag) (if-skipped _ _ kept h)
        (λ named. small (kept, named)) (named_lem start)
]
  where
    skipped :
        is_ignored r p ≡ true
        → go v ≡ go w
        → (v.min_ops_timeout ≢ uint32_max) ⊎ IsRated r p
        → w.min_ops_timeout ≢ uint32_max
    skipped skip same (inl there) = ground arith
    skipped skip same (inr (kept, named)) = ground arith

    named_lem :
        (v.min_ops_timeout ≢ uint32_max) ⊎ IsRated r p
        → (v.min_ops_timeout ≢ uint32_max) ⊎ (tag_name r.defs p.tag ≡ Tag.min_seconds_between_ops)
    named_lem (inl there) = inl there
    named_lem (inr (kept, named)) = inr named

check_params-recorded :
    (r : Request) (ps : List KeyParam) (v w : Scan)
    → check_params r ps v ≡ go w
    → AreRecorded r ps
    → (v.min_ops_timeout ≢ uint32_max) ⊎ Any (IsRated r) ps
    → w.min_ops_timeout ≢ uint32_max
unfolding check_params
check_params-recorded r [] v w h small (inl there) = ground arith
check_params-recorded r [] v w h small (inr there) = elim there [ ]
check_params-recorded r (p ∷ ps) v w h (small, smalls) start =
    rest (λ u k begun. check_params-recorded r ps u w k smalls begun) (check_param r p v) refl h
      start
  where
    rest :
        ((u : Scan)
          → check_params r ps u ≡ go w
          → (u.min_ops_timeout ≢ uint32_max) ⊎ Any (IsRated r) ps
          → w.min_ops_timeout ≢ uint32_max)
        → (x : Checked) → check_param r p v ≡ x
        → elim x as (λ y. Checked) [ stop err ↦ stop err | go u ↦ check_params r ps u ] ≡ go w
        → (v.min_ops_timeout ≢ uint32_max) ⊎ Any (IsRated r) (p ∷ ps)
        → w.min_ops_timeout ≢ uint32_max
    rest rec (stop err) e k start = ground arith
    rest rec (go u) e k (inl there) =
        rec u k (inl (check_param-recorded r p v u e small (inl there)))
    rest rec (go u) e k (inr (inl rated)) =
        rec u k (inl (check_param-recorded r p v u e small (inr rated)))
    rest rec (go u) e k (inr (inr more)) = rec u k (inr more)

-- The table has the time of this begin for the key.
abbrev pub IsRecorded : ℕ → ℕ → KeymasterEnforcement → Type 0
IsRecorded keyid now e =
    (m : AccessTimeMap) × (e.access_time_map ≡ some m) × (last_key_access_time m keyid ≡ some now)

-- The table, if there is one, keeps to its size.
abbrev pub Fits : KeymasterEnforcement → Type 0
Fits e = (m : AccessTimeMap) → e.access_time_map ≡ some m → length m.last_access_list ≤ m.max_size

record_access-IsRecorded :
    (c : Context) (e : KeymasterEnforcement) (keyid timeout : ℕ)
    → Fits e
    → timeout ≢ uint32_max
    → is_ok ((record_access c e keyid timeout).0) ≡ true
    → IsRecorded keyid c.time_updated ((record_access c e keyid timeout).1)
unfolding record_access last_key_access_time
record_access-IsRecorded c e keyid timeout fits small fine = by_map e.access_time_map fits fine
  where
    updated :
        (m : AccessTimeMap) (q : Bool × AccessTimeMap)
        → IsUpdated m keyid c.time_updated q
        → q.0 ≡ true
        → last_access keyid (q.1).last_access_list ≡ some c.time_updated
    updated m (true, m') u added = u.0
    updated m (false, m') u added = absurd (ground arith)

    by_map :
        (o : Option AccessTimeMap)
        → Fits (record e { access_time_map = o })
        → is_ok ((record_access c (record e { access_time_map = o }) keyid timeout).0) ≡ true
        → IsRecorded keyid c.time_updated
            ((record_access c (record e { access_time_map = o }) keyid timeout).1)
    by_map none fits fine = absurd (ground arith)
    by_map (some m) fits fine =
        let other : (timeout == uint32_max) ≡ false = ground arith in
        let q = update_key_access_time m keyid c.time_updated timeout in
        let added : q.0 ≡ true = ground arith in
        rw other (
          q.1,
          refl,
          updated m q
              (update_key_access_time-IsUpdated m keyid c.time_updated timeout (fits m refl)) added,
        )

unless_error-IsRecorded :
    (keyid now : ℕ) (update : Bool) (a : KeymasterError × KeymasterEnforcement)
    (e' : KeymasterEnforcement)
    → (is_ok (a.0) ≡ true → IsRecorded keyid now (a.1))
    → unless_error a (λ e. record_use e keyid update) ≡ (KeymasterError.ok, e')
    → IsRecorded keyid now e'
unfolding record_use
unless_error-IsRecorded keyid now update (x, e) e' recorded h = elim (Bool-cases (is_ok x)) [
  | inl fine ↦
      (let (m, held, last) = recorded fine in
        let kept : e'.access_time_map ≡ e.access_time_map = used update (if-taken _ _ fine h) in
        (m, kept ∙ held, last))
  | inr failed ↦ absurd (clash (sym failed ∙ ap (λ q. is_ok (q.0)) (if-skipped _ _ failed h)))
]
  where
    clash : false ≢ true
    clash h = ground arith

    used :
        (b : Bool)
        → record_use e keyid b ≡ (KeymasterError.ok, e')
        → e'.access_time_map ≡ e.access_time_map
    used false h = ground arith
    used true h = ground arith

after_scan-IsRecorded :
    (r : Request) (v : Scan) (e' : KeymasterEnforcement)
    → Fits r.enforcement
    → v.min_ops_timeout ≢ uint32_max
    → after_scan r v ≡ (KeymasterError.ok, e')
    → IsRecorded r.keyid r.context.time_updated e'
unfolding after_scan
after_scan-IsRecorded r v e' fits small h =
    elim (Bool-cases (v.authentication_required && not v.auth_token_matched)) [
      | inl unknown ↦ absurd (wrong refl (if-taken _ _ unknown h))
      | inr known ↦
          elim (Bool-cases (
            not v.caller_nonce_authorized_by_key
            && is_origination_purpose r.purpose
            && is_some (find r.operation_params (r.defs.tag_value Tag.nonce)))) [
              | inl given ↦ absurd (wrong refl (if-taken _ _ given (if-skipped _ _ known h)))
              | inr absent ↦
                  unless_error-IsRecorded r.keyid r.context.time_updated v.update_access_count
                    (record_access r.context r.enforcement r.keyid v.min_ops_timeout) e'
                    (record_access-IsRecorded r.context r.enforcement r.keyid v.min_ops_timeout fits
                      small)
                    (if-skipped _ _ absent (if-skipped _ _ known h))
            ]
    ]
  where
    wrong :
        {x : KeymasterError} {e : KeymasterEnforcement}
        → is_ok x ≡ false
        → ◌≡◌ {A = KeymasterError × KeymasterEnforcement} (x, e) (KeymasterError.ok, e')
        → ⊥
    wrong failed same = ground arith

scan-IsRecorded :
    (r : Request) (e' : KeymasterEnforcement)
    → Fits r.enforcement
    → AreRecorded r r.auth_set.elems
    → Any (IsRated r) r.auth_set.elems
    → finish_scan r (check_params r r.auth_set.elems initial_scan) ≡ (KeymasterError.ok, e')
    → IsRecorded r.keyid r.context.time_updated e'
unfolding finish_scan
scan-IsRecorded r e' fits small rated h =
    by_scan (check_params r r.auth_set.elems initial_scan) refl h
  where
    by_scan :
        (x : Checked)
        → check_params r r.auth_set.elems initial_scan ≡ x
        → finish_scan r x ≡ (KeymasterError.ok, e')
        → IsRecorded r.keyid r.context.time_updated e'
    by_scan (stop err) k done =
        absurd
          (check_params-stop r r.auth_set.elems initial_scan (k ∙ ap stop (ap (λ q. q.0) done)))
    by_scan (go v) k done =
        after_scan-IsRecorded r v e' fits
          (check_params-recorded r r.auth_set.elems initial_scan v k small (inr rated)) done

authorize_begin-IsRecorded :
    (d : KeymasterDefs) (c : Context) (e e' : KeymasterEnforcement) (p : Purpose) (keyid : ℕ)
    (s params : AuthorizationSet)
    → Fits e
    → AreRecorded (request d c e p keyid s params) s.elems
    → Any (IsRated (request d c e p keyid s params)) s.elems
    → authorize_begin d c e p keyid s params ≡ (KeymasterError.ok, e')
    → IsRecorded keyid c.time_updated e'
unfolding authorize_begin
authorize_begin-IsRecorded d c e e' p keyid s params fits small rated h =
    elim (Bool-cases (is_ok (authorized_purpose d p s))) [
      | inl fine ↦
          scan-IsRecorded (request d c e p keyid s params) e' fits small rated (if-taken _ _ fine h)
      | inr refused ↦ absurd (clash refused (ap (λ q. is_ok (q.0)) (if-skipped _ _ refused h)))
    ]
  where
    clash : is_ok (authorized_purpose d p s) ≡ false → is_ok (authorized_purpose d p s) ≡ true → ⊥
    clash h k = ground arith

-- A parameter that asks for this distance.
abbrev pub Asks : Request → ℕ → KeyParam → Type 0
Asks r seconds p = IsRated r p × (integer p ≡ seconds)

Any-passed :
    (r : Request) (seconds : ℕ) (ps : List KeyParam)
    → All (IsMet r) ps
    → Any (Asks r seconds) ps
    → min_time_between_ops_passed r.context r.enforcement seconds r.keyid ≡ true
Any-passed r seconds [] met there = elim there [ ]
Any-passed r seconds (p ∷ ps) (met, mets) (inl ((kept, named), same)) =
    subst (λ n. min_time_between_ops_passed r.context r.enforcement n r.keyid ≡ true) same
      (subst (Demands r p) named (met kept))
Any-passed r seconds (p ∷ ps) (met, mets) (inr more) = Any-passed r seconds ps mets more

passed-IsRecorded :
    (c : Context) (e : KeymasterEnforcement) (seconds keyid last : ℕ)
    → IsRecorded keyid last e
    → min_time_between_ops_passed c e seconds keyid ≡ true
    → seconds + last ≤ c.time_checked
unfolding min_time_between_ops_passed
passed-IsRecorded c e seconds keyid last (m, held, there) passed =
    leb→le (seconds + last) c.time_checked
      (sym (rw (held, min_time_between_ops_passed, there) refl) ∙ passed)

-- Two begins of a key that AuthorizeBegin allows, the second where the first has left the tables, come at
-- least as many seconds apart as KM_TAG_MIN_SECONDS_BETWEEN_OPS asks for: for a key that carries the tag in
-- both calls, in the first never with UINT32_MAX, and a table of accesses within its size.
pub authorize_begin-spaced :
    (d : KeymasterDefs) (c c' : Context) (e e1 e2 : KeymasterEnforcement) (p p' : Purpose)
    (keyid seconds : ℕ) (s s' params params' : AuthorizationSet)
    → Fits e
    → AreRecorded (request d c e p keyid s params) s.elems
    → Any (IsRated (request d c e p keyid s params)) s.elems
    → Any (Asks (request d c' e1 p' keyid s' params') seconds) s'.elems
    → authorize_begin d c e p keyid s params ≡ (KeymasterError.ok, e1)
    → authorize_begin d c' e1 p' keyid s' params' ≡ (KeymasterError.ok, e2)
    → seconds + c.time_updated ≤ c'.time_checked
authorize_begin-spaced d c c' e e1 e2 p p' keyid seconds s s' params params' fits small rated asks
      first second =
    let recorded = authorize_begin-IsRecorded d c e e1 p keyid s params fits small rated first in
    let authorized = authorize_begin-IsAuthorized d c' e1 e2 p' keyid s' params' second in
    passed-IsRecorded c' e1 seconds keyid c.time_updated recorded
      (Any-passed (request d c' e1 p' keyid s' params') seconds s'.elems authorized.params_met asks)
