-- ===== src/Tests/Enforcing.antt =====
-- Witnesses for the decisions of keymaster_enforcement.cpp.
use platform_system_keymaste.Common.{ℕ, ◌+◌, ◌≤◌, ◌≡◌, refl, inl, inr, [], ◌∷◌, Any, arith}
use platform_system_keymaste.Defs.{Purpose, KeymasterError, Tag, tag_name}
use platform_system_keymaste.AuthSet.{AuthorizationSet}
use platform_system_keymaste.Enforcement.{KeymasterEnforcement}
use platform_system_keymaste.Enforcement.Authorize.Scan.{authorize_begin, request}
use platform_system_keymaste.Enforcement.Authorize.Begin.{
  IsAuthorized, authorize_begin-IsAuthorized, authorize_begin-unchanged,
}
use platform_system_keymaste.Enforcement.Authorize.Uses.{
  Call, counted, allowed_begins, allowed_begins-bounded, IsLimited,
}
use platform_system_keymaste.Enforcement.Authorize.Rate.{
  IsRated, AreRecorded, Asks, Fits, authorize_begin-spaced,
}
use platform_system_keymaste.Tests.{
  test_set, test_param, test_defs, test_context, test_key, no_params, test_enforcement,
}

abbrev before : KeymasterEnforcement
before = test_enforcement [] []

abbrev after : KeymasterEnforcement
after =
    test_enforcement (record { keyid = 7; access_time = 100; timeout = 5 } ∷ [])
      (record { keyid = 7; access_count = 1 } ∷ [])

first_begin :
    authorize_begin test_defs (test_context 100) before Purpose.decrypt 7 test_key no_params
    ≡ (KeymasterError.ok, after)
unfolding authorize_begin
first_begin = refl

second_begin :
    authorize_begin test_defs (test_context 200) after Purpose.decrypt 7 test_key no_params
    ≡ (KeymasterError.key_max_ops_exceeded, after)
unfolding authorize_begin
second_begin = refl

authorize_begin-IsAuthorized_example :
    IsAuthorized (request test_defs (test_context 100) before Purpose.decrypt 7 test_key no_params)
authorize_begin-IsAuthorized_example =
    authorize_begin-IsAuthorized test_defs (test_context 100) before after Purpose.decrypt 7
      test_key no_params first_begin

authorize_begin-unchanged_example : after ≡ after
authorize_begin-unchanged_example =
    authorize_begin-unchanged test_defs (test_context 200) after after Purpose.decrypt 7 test_key
      no_params KeymasterError.key_max_ops_exceeded second_begin refl refl

abbrev call : ℕ → Call
call now = record {
  context = test_context now;
  purpose = Purpose.decrypt;
  keyid = 7;
  auth_set = test_key;
  operation_params = no_params;
}

limited : (now : ℕ) → IsLimited test_defs 1 (call now)
unfolding tag_name
limited now = inr (inr (inl (refl, refl, omega arith)))

allowed_begins-bounded_example :
    allowed_begins test_defs 7 before (call 100 ∷ call 200 ∷ []) + counted 7 before ≤ 1
allowed_begins-bounded_example =
    allowed_begins-bounded test_defs 7 1 before (call 100 ∷ call 200 ∷ []) (omega arith)
      (omega arith) (omega arith) ((λ same. limited 100), ((λ same. limited 200), tt))

abbrev rated_key : AuthorizationSet
rated_key =
    test_set
      (test_param Tag.purpose 1
        ∷ test_param Tag.algorithm 32
        ∷ test_param Tag.min_seconds_between_ops 5
        ∷ [])
      3

abbrev used_at : ℕ → KeymasterEnforcement
used_at now = test_enforcement (record { keyid = 7; access_time = now; timeout = 5 } ∷ []) []

rated_begin :
    authorize_begin test_defs (test_context 100) before Purpose.decrypt 7 rated_key no_params
    ≡ (KeymasterError.ok, used_at 100)
unfolding authorize_begin
rated_begin = refl

next_begin :
    authorize_begin test_defs (test_context 110) (used_at 100) Purpose.decrypt 7 rated_key no_params
    ≡ (KeymasterError.ok, used_at 110)
unfolding authorize_begin
next_begin = refl

before-Fits : Fits before
before-Fits m held = ground arith

rated_key-AreRecorded :
    AreRecorded
      (request test_defs (test_context 100) before Purpose.decrypt 7 rated_key no_params)
      rated_key.elems
rated_key-AreRecorded =
    ((λ rated. omega arith), ((λ rated. omega arith), ((λ rated. omega arith), tt)))

rated_key-IsRated :
    Any
      (IsRated (request test_defs (test_context 100) before Purpose.decrypt 7 rated_key no_params))
      rated_key.elems
unfolding tag_name
rated_key-IsRated = inr (inr (inl (refl, refl)))

rated_key-Asks :
    Any
      (Asks
        (request test_defs (test_context 110) (used_at 100) Purpose.decrypt 7 rated_key no_params)
        5)
      rated_key.elems
unfolding tag_name
rated_key-Asks = inr (inr (inl ((refl, refl), refl)))

authorize_begin-spaced_example : 5 + 100 ≤ 110
authorize_begin-spaced_example =
    authorize_begin-spaced test_defs (test_context 100) (test_context 110) before (used_at 100)
      (used_at 110) Purpose.decrypt Purpose.decrypt 7 5 rated_key rated_key no_params no_params
      before-Fits rated_key-AreRecorded rated_key-IsRated rated_key-Asks rated_begin next_begin
