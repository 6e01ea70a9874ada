-- ===== src/Enforcement/Authorize/Uses.antt =====
-- KM_TAG_MAX_USES_PER_BOOT in keymaster_enforcement.cpp: sequences of calls of AuthorizeBegin on one
-- table of access counts.
use platform_system_keymaste.Common.{
  ℕ, ◌+◌, ◌^◌, ◌≤◌, ◌<◌, ◌≡◌, refl, sym, ap, subst, ◌∙◌, ◌≢◌, ◌⊎◌, inl, inr, Bool, true, false,
  ◌&&◌, ◌||◌, List, [], ◌∷◌, Option, none, some, ltb, ◌==◌, ==_iff, if◌then◌else◌, not, All, Any,
  Bool-cases, arith,
}
use platform_system_keymaste.Defs.{
  KeymasterDefs, KeyParam, Tag, Purpose, KeymasterError, is_ok, tag_name, integer,
}
use platform_system_keymaste.AuthSet.{AuthorizationSet}
use platform_system_keymaste.Enforcement.{
  Context, KeymasterEnforcement, AccessCount, AccessCountMap,
}
use platform_system_keymaste.Enforcement.Tables.{count_of, key_access_count, increment}
use platform_system_keymaste.Enforcement.Tables.Counts.{
  uses, Counts, increment_key_access_count-Counts,
}
use platform_system_keymaste.Enforcement.Authorize.{
  authorized_purpose, max_uses_per_boot_not_exceeded, is_public_key_algorithm,
}
use platform_system_keymaste.Enforcement.Authorize.Scan.{
  Request, Scan, Checked, stop, go, initial_scan, check_params, record_access, record_use,
  unless_error, after_scan, finish_scan, request, authorize_begin, authorize_operation,
  is_public_purpose,
}
use platform_system_keymaste.Enforcement.Authorize.Begin.{check_params-stop}
use platform_system_keymaste.Enforcement.Authorize.Scan.Checks.{
  Demands, is_ignored, IsTagged, IsMet, Rounds, check_params-Rounds,
}

-- The uses of a key that the enforcement has counted.
abbrev pub counted : ℕ → KeymasterEnforcement → ℕ
counted keyid e = elim e.access_count_map [ none ↦ 0 | some m ↦ uses keyid m.access_count_list ]

-- How a step that may count one use of a key changes the counts, by its result.
abbrev Effect : ℕ → Bool → KeymasterEnforcement → KeymasterError × KeymasterEnforcement → Type 0
Effect keyid update e (x, e') =
    ((k : ℕ) → is_ok x ≡ false → counted k e' ≡ counted k e)
    × ((k : ℕ) → k ≢ keyid → counted k e' ≡ counted k e)
    × (is_ok x ≡ true → update ≡ true → counted keyid e' ≡ increment (counted keyid e))

record_use-Effect :
    (e : KeymasterEnforcement) (keyid : ℕ) (update : Bool)
    → Effect keyid update e (record_use e keyid update)
unfolding record_use
record_use-Effect e keyid false = (λ k x. refl, λ k x. refl, λ x u. absurd (true≢ u))
  where
    true≢ : false ≢ true
    true≢ u = ground arith
record_use-Effect e keyid true = by_map e.access_count_map
  where
    add : Bool × AccessCountMap → KeymasterError × KeymasterEnforcement
    add (b, m') = (
      (if b then KeymasterError.ok else KeymasterError.too_many_operations),
      record e { access_count_map = some m' },
    )

    by_result :
        (m : AccessCountMap) (q : Bool × AccessCountMap)
        → Counts m keyid q
        → Effect keyid true (record e { access_count_map = some m }) (add q)
    by_result m (true, m') c = ground arith
    by_result m (false, m') c = ground arith

    by_map :
        (o : Option AccessCountMap)
        → Effect keyid true
            (record e { access_count_map = o })
            (record_use (record e { access_count_map = o }) keyid true)
    by_map none = ground arith
    by_map (some m) = by_result m _ (increment_key_access_count-Counts m keyid)

record_access-counted :
    (c : Context) (e : KeymasterEnforcement) (keyid timeout k : ℕ)
    → counted k ((record_access c e keyid timeout).1) ≡ counted k e
unfolding record_access
record_access-counted c e keyid timeout k = ground arith

-- A refusal that keeps the state.
refused-Effect :
    (keyid : ℕ) (update : Bool) (e : KeymasterEnforcement) (x : KeymasterError)
    → is_ok x ≡ false
    → Effect keyid update e (x, e)
refused-Effect keyid update e x h =
    (λ k r. refl, λ k r. refl, λ fine u. absurd (clash (sym fine ∙ h)))
  where
    clash : true ≢ false
    clash u = ground arith

tables-Effect :
    (keyid : ℕ) (update : Bool) (e : KeymasterEnforcement)
    (a : KeymasterError × KeymasterEnforcement)
    → ((k : ℕ) → counted k (a.1) ≡ counted k e)
    → Effect keyid update e (unless_error a (λ e1. record_use e1 keyid update))
tables-Effect keyid update e (x, e1) same = elim (Bool-cases (is_ok x)) [
  | inl fine ↦
      subst (λ b. Effect keyid update e (if b then record_use e1 keyid update else (x, e1)))
        (sym fine)
        (let (a, b, c) = record_use-Effect e1 keyid update in
          (λ k r. a k r ∙ same k, λ k r. b k r ∙ same k, λ u v. c u v ∙ ap increment (same keyid)))
  | inr failed ↦
      subst (λ b. Effect keyid update e (if b then record_use e1 keyid update else (x, e1)))
        (sym failed) (λ k r. same k, λ k r. same k, λ u v. absurd (clash (sym u ∙ failed)))
]
  where
    clash : true ≢ false
    clash u = ground arith

after_scan-Effect :
    (r : Request) (v : Scan) → Effect r.keyid v.update_access_count r.enforcement (after_scan r v)
unfolding after_scan
after_scan-Effect r v =
    if-Effect (v.authentication_required && not v.auth_token_matched)
      KeymasterError.key_user_not_authenticated _ refl
      (if-Effect _ KeymasterError.caller_nonce_prohibited _ refl (
        tables-Effect r.keyid v.update_access_count r.enforcement
          (record_access r.context r.enforcement r.keyid v.min_ops_timeout)
          (record_access-counted r.context r.enforcement r.keyid v.min_ops_timeout)))
  where
    if-Effect :
        (b : Bool) (x : KeymasterError) (a : KeymasterError × KeymasterEnforcement)
        → is_ok x ≡ false
        → Effect r.keyid v.update_access_count r.enforcement a
        → Effect r.keyid v.update_access_count r.enforcement (if b then (x, r.enforcement) else a)
    if-Effect true x a h k = refused-Effect r.keyid v.update_access_count r.enforcement x h
    if-Effect false x a h k = k

-- One call of `AuthorizeBegin`.
pub record Call : Type 0 where
  pub context : Context
  pub purpose : Purpose
  pub keyid : ℕ
  pub auth_set : AuthorizationSet
  pub operation_params : AuthorizationSet

abbrev pub begin :
    KeymasterDefs → KeymasterEnforcement → Call → KeymasterError × KeymasterEnforcement
begin d e q = authorize_begin d q.context e q.purpose q.keyid q.auth_set q.operation_params

abbrev request_of : KeymasterDefs → KeymasterEnforcement → Call → Request
request_of d e q = request d q.context e q.purpose q.keyid q.auth_set q.operation_params

-- The key carries KM_TAG_MAX_USES_PER_BOOT with a value of at most `limit`.
abbrev pub IsLimited : KeymasterDefs → ℕ → Call → Type 0
IsLimited d limit q =
    Any
      (λ p.
        (p.tag == d.tag_value Tag.padding_old || p.tag == d.tag_value Tag.digest_old) ≡ false
        × (tag_name d p.tag ≡ Tag.max_uses_per_boot)
        × (integer p ≤ limit))
      q.auth_set.elems

-- A limited key has room for one use more, where the demands of its authorizations are met.
Any-room :
    (r : Request) (limit : ℕ) (ps : List KeyParam)
    → All (IsMet r) ps
    → Any
        (λ p.
          (is_ignored r p ≡ false)
          × (tag_name r.defs p.tag ≡ Tag.max_uses_per_boot)
          × (integer p ≤ limit))
        ps
    → (n : ℕ) × (max_uses_per_boot_not_exceeded r.enforcement r.keyid n ≡ true)
      × (n ≤ limit)
      × Any (IsTagged r Tag.max_uses_per_boot) ps
Any-room r limit [] met there = elim there [ ]
Any-room r limit (p ∷ ps) (met, mets) (inl (kept, named, small)) =
    (integer p, subst (Demands r p) named (met kept), small, inl (kept, named))
Any-room r limit (p ∷ ps) (met, mets) (inr more) =
    let (n, room, small, there) = Any-room r limit ps mets more in (n, room, small, inr there)

-- The count that the table holds is below the limit, where the test passes.
count_of-uses :
    (keyid n : ℕ) (es : List AccessCount)
    → uses keyid es < 2 ^ 32
    → (elim (count_of keyid es) [ none ↦ true | some c ↦ ltb c n ]) ≡ true
    → (uses keyid es < n) ⊎ (uses keyid es ≡ 0)
unfolding count_of
count_of-uses keyid n [] small h = inr refl
count_of-uses keyid n (e ∷ es) small h = ground (arith, count_of-uses keyid n es)

room-lem :
    (e : KeymasterEnforcement) (keyid n : ℕ)
    → counted keyid e < 2 ^ 32
    → max_uses_per_boot_not_exceeded e keyid n ≡ true
    → (counted keyid e < n) ⊎ (counted keyid e ≡ 0)
unfolding max_uses_per_boot_not_exceeded key_access_count
room-lem e keyid n small h = by_map e.access_count_map small h
  where
    by_map :
        (o : Option AccessCountMap)
        → counted keyid (record e { access_count_map = o }) < 2 ^ 32
        → max_uses_per_boot_not_exceeded (record e { access_count_map = o }) keyid n ≡ true
        → (counted keyid (record e { access_count_map = o }) < n)
          ⊎ (counted keyid (record e { access_count_map = o }) ≡ 0)
    by_map none s k = inr refl
    by_map (some m) s k = count_of-uses keyid n m.access_count_list s k

-- One begin: what it does to the counts, and that a limited key has room where it succeeds.
abbrev IsCountedBegin :
    KeymasterDefs → KeymasterEnforcement → Call → KeymasterError × KeymasterEnforcement → Type 0
IsCountedBegin d e q (x, e') =
    ((k : ℕ) → is_ok x ≡ false → counted k e' ≡ counted k e)
    × ((k : ℕ) → k ≢ q.keyid → counted k e' ≡ counted k e)
    × ((limit : ℕ)
        → is_ok x ≡ true
        → 1 ≤ limit
        → counted q.keyid e < 2 ^ 32
        → IsLimited d limit q
        → (counted q.keyid e < limit) × (counted q.keyid e' ≡ counted q.keyid e + 1))

refused-IsCountedBegin :
    (d : KeymasterDefs) (e : KeymasterEnforcement) (q : Call) (x : KeymasterError)
    → is_ok x ≡ false
    → IsCountedBegin d e q (x, e)
refused-IsCountedBegin d e q x h =
    (λ k r. refl, λ k r. refl, λ limit fine one small lim. absurd (clash (sym fine ∙ h)))
  where
    clash : true ≢ false
    clash u = ground arith

increment-small : (n : ℕ) → n < 2 ^ 32 → increment n ≡ n + 1
increment-small n h = ground arith

scan-IsCountedBegin :
    (d : KeymasterDefs) (e : KeymasterEnforcement) (q : Call) (v : Scan)
    → Rounds (request_of d e q) q.auth_set.elems initial_scan v
    → IsCountedBegin d e q (after_scan (request_of d e q) v)
scan-IsCountedBegin d e q v rounds =
    let effect = after_scan-Effect (request_of d e q) v in
    (
      effect.0,
      effect.1,
      λ limit fine one small limited.
          let (n, room, le, there) =
            Any-room (request_of d e q) limit q.auth_set.elems rounds.0 limited in
          (
            below limit n one le (room-lem e q.keyid n small room),
            effect.2 fine (rounds.6 there) ∙ increment-small _ small,
          ),
    )
  where
    below :
        (limit n : ℕ)
        → 1 ≤ limit
        → n ≤ limit
        → (counted q.keyid e < n) ⊎ (counted q.keyid e ≡ 0)
        → counted q.keyid e < limit
    below limit n one le (inl h) = omega arith
    below limit n one le (inr h) = omega arith

begin-IsCountedBegin :
    (d : KeymasterDefs) (e : KeymasterEnforcement) (q : Call) → IsCountedBegin d e q (begin d e q)
unfolding authorize_begin finish_scan
begin-IsCountedBegin d e q =
    by_purpose (authorized_purpose d q.purpose q.auth_set) _
      (by_scan (check_params (request_of d e q) q.auth_set.elems initial_scan) refl)
  where
    by_scan :
        (k : Checked)
        → check_params (request_of d e q) q.auth_set.elems initial_scan ≡ k
        → IsCountedBegin d e q (finish_scan (request_of d e q) k)
    by_scan (stop err) h = refused-IsCountedBegin d e q err (
        not_ok err (λ same.
          check_params-stop (request_of d e q) q.auth_set.elems initial_scan (h ∙ ap stop same)))
      where
        not_ok : (err : KeymasterError) → err ≢ KeymasterError.ok → is_ok err ≡ false
        not_ok err h = ground arith
    by_scan (go v) h =
        scan-IsCountedBegin d e q v
          (check_params-Rounds (request_of d e q) q.auth_set.elems initial_scan v h)

    by_purpose :
        (x : KeymasterError) (a : KeymasterError × KeymasterEnforcement)
        → IsCountedBegin d e q a
        → IsCountedBegin d e q (if is_ok x then a else (x, e))
    by_purpose x a h = elim (Bool-cases (is_ok x)) [
      | inl fine ↦ subst (λ b. IsCountedBegin d e q (if b then a else (x, e))) (sym fine) h
      | inr wrong ↦
          subst (λ b. IsCountedBegin d e q (if b then a else (x, e))) (sym wrong)
            (refused-IsCountedBegin d e q x wrong)
    ]

-- What AuthorizeOperation lets through unseen: encryption and verification with a key of RSA or EC.
abbrev pub is_public : KeymasterDefs → Call → Bool
unfolding is_public_key_algorithm
is_public d q = is_public_key_algorithm d q.auth_set && is_public_purpose q.purpose

-- The call of AuthorizeOperation by BeginOperation.
abbrev pub ask : KeymasterDefs → KeymasterEnforcement → Call → KeymasterError × KeymasterEnforcement
unfolding authorize_operation
ask d e q = authorize_operation d q.context e q.purpose q.keyid q.auth_set q.operation_params 0 true

ask-public :
    (d : KeymasterDefs) (e : KeymasterEnforcement) (q : Call)
    → is_public d q ≡ true
    → (ask d e q).1 ≡ e
unfolding authorize_operation
ask-public d e q unseen = rw unseen refl

ask-begin :
    (d : KeymasterDefs) (e : KeymasterEnforcement) (q : Call)
    → is_public d q ≡ false
    → ask d e q ≡ begin d e q
unfolding authorize_operation
ask-begin d e q seen = rw seen refl

-- The begins with the key that a sequence of calls is allowed, without those of public keys.
abbrev pub allowed_begins : KeymasterDefs → ℕ → KeymasterEnforcement → List Call → ℕ
allowed_begins d keyid e [] = 0
allowed_begins d keyid e (q ∷ qs) =
    let (x, e') = ask d e q in
    let rest = allowed_begins d keyid e' qs in
    if not (is_public d q) && (q.keyid == keyid && is_ok x) then rest + 1 else rest

abbrev pub AreLimited : KeymasterDefs → ℕ → ℕ → List Call → Type 0
AreLimited d keyid limit = All (λ q. q.keyid ≡ keyid → IsLimited d limit q)

-- One call before the others, where `rest` is what they are allowed.
call-bounded :
    (d : KeymasterDefs) (keyid limit : ℕ) (e : KeymasterEnforcement) (q : Call)
    (a : KeymasterError × KeymasterEnforcement) (rest : ℕ)
    → IsCountedBegin d e q a
    → 1 ≤ limit
    → limit < 2 ^ 32
    → counted keyid e ≤ limit
    → (q.keyid ≡ keyid → IsLimited d limit q)
    → (counted keyid (a.1) ≤ limit → rest + counted keyid (a.1) ≤ limit)
    → (if q.keyid == keyid && is_ok (a.0) then rest + 1 else rest) + counted keyid e ≤ limit
call-bounded d keyid limit e q a rest (refused, others, allowed) one word within limited rec =
    elim (Bool-cases (q.keyid == keyid)) [
      | inl same ↦
          (let eq = (==_iff q.keyid keyid).0 same in
            elim (Bool-cases (is_ok (a.0))) [
              | inl fine ↦
                  (let (room, more) =
                      subst (λ k. (counted k e < limit) × (counted k (a.1) ≡ counted k e + 1)) eq
                        (allowed limit fine one
                          (subst (λ k. counted k e < 2 ^ 32) (sym eq) (omega arith))
                          (limited eq)) in
                    rw (same, fine) (step-taken rest _ _ room more rec))
              | inr failed ↦
                  rw (same, failed) (step-kept rest _ _ within (refused keyid failed) rec)
            ])
      | inr other ↦ rw other (step-kept rest _ _ within (others keyid (differs other)) rec)
    ]
  where
    differs : (q.keyid == keyid) ≡ false → keyid ≢ q.keyid
    differs h eq = ground arith

    step-taken :
        (rest before after : ℕ)
        → before < limit
        → after ≡ before + 1
        → (after ≤ limit → rest + after ≤ limit)
        → rest + 1 + before ≤ limit
    step-taken rest before after room more rec = ground arith

    step-kept :
        (rest before after : ℕ)
        → before ≤ limit
        → after ≡ before
        → (after ≤ limit → rest + after ≤ limit)
        → rest + before ≤ limit
    step-kept rest before after within same rec = ground arith

-- In any sequence of begins of any keys that AuthorizeOperation is asked for, a key that always carries
-- KM_TAG_MAX_USES_PER_BOOT with a value of at most `limit` is allowed at most `limit`, those that the table
-- had counted before included, and not counting encryption and verification with a key of RSA or EC, which
-- are not limited. The limit is a uint32_t other than 0.
pub allowed_begins-bounded :
    (d : KeymasterDefs) (keyid limit : ℕ) (e : KeymasterEnforcement) (qs : List Call)
    → 1 ≤ limit
    → limit < 2 ^ 32
    → counted keyid e ≤ limit
    → AreLimited d keyid limit qs
    → allowed_begins d keyid e qs + counted keyid e ≤ limit
allowed_begins-bounded d keyid limit e [] one word within limited = omega arith
allowed_begins-bounded d keyid limit e (q ∷ qs) one word within (first, others) =
    let rec : counted keyid ((ask d e q).1) ≤ limit
        → allowed_begins d keyid ((ask d e q).1) qs + counted keyid ((ask d e q).1) ≤ limit =
      λ le. allowed_begins-bounded d keyid limit (ask d e q).1 qs one word le others in
    elim (Bool-cases (is_public d q)) [
      | inl unseen ↦
          (let same = ap (counted keyid) (ask-public d e q unseen) in
            rw unseen (
              subst (λ n. allowed_begins d keyid ((ask d e q).1) qs + n ≤ limit) same
                (rec (subst (λ n. n ≤ limit) (sym same) within))))
      | inr seen ↦ rw seen (
          call-bounded d keyid limit e q (ask d e q) _
            (subst (IsCountedBegin d e q) (sym (ask-begin d e q seen)) (begin-IsCountedBegin d e q))
            one word within first rec)
    ]
