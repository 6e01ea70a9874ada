-- ===== src/AndroidKeymaster/Loading.antt =====
-- LoadKey of android_keymaster.cpp: what holds for a key that BeginOperation or AttestKey works with.
use platform_system_keymaste.Common.{ℕ, ◌≡◌, true, List, some, arith, inl, inr, Option-cases}
use platform_system_keymaste.Defs.{KeymasterDefs, KeymasterError, is_ok, Tag}
use platform_system_keymaste.AuthSet.{AuthorizationSet}
use platform_system_keymaste.AuthSet.Lookup.{get_tag_value_enum, get_tag_value_int}
use platform_system_keymaste.Interfaces.{Key, KeyFactory, KeymasterContext}
use platform_system_keymaste.AndroidKeymaster.{
  either_value, check_version_info, get_key_factory, load_key,
}

-- The value that the hardware's set has, or else the software's.
abbrev pub HasPatchlevel : KeymasterDefs → AuthorizationSet → AuthorizationSet → ℕ → Type 0
HasPatchlevel d hw sw n =
    either_value (get_tag_value_int hw (d.tag_value Tag.os_patchlevel))
      (get_tag_value_int sw (d.tag_value Tag.os_patchlevel))
    ≡ some n

abbrev pub HasAlgorithm : KeymasterDefs → AuthorizationSet → AuthorizationSet → ℕ → Type 0
HasAlgorithm d hw sw n =
    either_value (get_tag_value_enum hw (d.tag_value Tag.algorithm))
      (get_tag_value_enum sw (d.tag_value Tag.algorithm))
    ≡ some n

check_version_info-current :
    (d : KeymasterDefs) (hw sw : AuthorizationSet) (patchlevel n : ℕ)
    → check_version_info d hw sw patchlevel ≡ KeymasterError.ok
    → HasPatchlevel d hw sw n
    → n ≡ patchlevel
unfolding check_version_info
check_version_info-current d hw sw patchlevel n fine has = ground arith

module _ {S : Type 0} where
  get_key_factory-found :
      (c : KeymasterContext S) (hw sw : AuthorizationSet) (f : KeyFactory S)
      → (get_key_factory c hw sw).1 ≡ some f
      → (algorithm : ℕ) × HasAlgorithm c.defs hw sw algorithm
        × (c.get_key_factory algorithm ≡ some f)
  unfolding get_key_factory
  get_key_factory-found c hw sw f found =
      elim (Option-cases (
        either_value (get_tag_value_enum hw (c.defs.tag_value Tag.algorithm))
          (get_tag_value_enum sw (c.defs.tag_value Tag.algorithm)))) [
            | inl unnamed ↦ absurd (ground arith)
            | inr (algorithm, named) ↦ (algorithm, named, ground arith)
          ]

  abbrev pub IsLoaded : KeymasterContext S → List ℕ → AuthorizationSet → KeyFactory S → Key → Type 0
  IsLoaded c key_blob params f key =
      let (err, parsed) = c.parse_key_blob key_blob params in
      (err ≡ KeymasterError.ok)
      × ((n : ℕ)
          → HasPatchlevel c.defs parsed.hw_enforced parsed.sw_enforced n
          → n ≡ c.os_patchlevel)
      × ((algorithm : ℕ) × HasAlgorithm c.defs parsed.hw_enforced parsed.sw_enforced algorithm
          × (c.get_key_factory algorithm ≡ some f))
      × (f.load_key parsed.key_material params parsed.hw_enforced parsed.sw_enforced
          ≡ (KeymasterError.ok, key))

  pub load_key-IsLoaded :
      (c : KeymasterContext S) (key_blob : List ℕ) (params : AuthorizationSet) (f : KeyFactory S)
      (key : Key)
      → load_key c key_blob params ≡ (KeymasterError.ok, some (f, key))
      → IsLoaded c key_blob params f key
  unfolding load_key
  load_key-IsLoaded c key_blob params f key loaded =
      let parsed = (c.parse_key_blob key_blob params).1 in
      let hw = parsed.hw_enforced in
      let sw = parsed.sw_enforced in
      let fine : is_ok (c.parse_key_blob key_blob params).0 ≡ true = ground arith in
      let current : is_ok (check_version_info c.defs hw sw c.os_patchlevel) ≡ true = ground arith in
      let found : (get_key_factory c hw sw).1 ≡ some f = ground arith in
      (
        ground arith,
        λ n has. check_version_info-current c.defs hw sw c.os_patchlevel n (ground arith) has,
        get_key_factory-found c hw sw f found,
        ground arith,
      )
