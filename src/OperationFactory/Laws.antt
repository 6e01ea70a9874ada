-- ===== src/OperationFactory/Laws.antt =====
-- operation.cpp: when a padding mode or a digest is accepted.
use platform_system_keymaste.Common.{
  ℕ, ◌≡◌, ◌==◌, refl, sym, ◌∙◌, ◌⊎◌, inl, inr, ◌↔◌, Bool, true, false, ◌&&◌, not, List, [], ◌∷◌,
  Option, none, some, arith, length, get_elem?, Any, Bool-cases, ==_iff, if◌then◌else◌,
}
use mathlib.Core.Option
use platform_system_keymaste.Defs.{
  KeymasterDefs, KeymasterError, KeyParam, Tag, Purpose, enumerated,
}
use platform_system_keymaste.AuthSet.{AuthorizationSet, is_valid}
use platform_system_keymaste.AuthSet.Lookup.{get_only_enum, contains_value, contains_enum_value}
use platform_system_keymaste.AuthSet.Lookup.Laws.{tagged, get_only_enum-tagged}
use platform_system_keymaste.Interfaces.{OperationFactory}
use platform_system_keymaste.OperationFactory.{
  Mode, supported, is_public_key_algorithm, uses_public_key, is_public_key_operation,
  get_and_validate, padding_mode, digest_mode, get_and_validate_padding, get_and_validate_digest,
}

supported-Any : (modes : List ℕ) (v : ℕ) → (supported modes v ≡ true) ↔ Any (λ x. x ≡ v) modes
unfolding supported
supported-Any [] v = ((λ h. ground arith), λ h. absurd h)
supported-Any (x ∷ xs) v =
    let (f, g) = supported-Any xs v in
    let at = ==_iff x v in
    elim (Bool-cases (x == v)) [
      | inl hit ↦ ((λ h. inl (at.0 hit)), λ h. rw hit refl)
      | inr miss ↦ (
        (λ h. inr (f (ground (arith, h)))),
        λ h. elim h [ inl same ↦ ground (arith, at.1 same) | inr rest ↦ rw miss (g rest) ],
      )
    ]

-- The parameters name exactly this mode.
abbrev pub IsNamed : KeymasterDefs → Tag → AuthorizationSet → ℕ → Type 0
IsNamed d tag s v =
    (p : KeyParam) × (tagged (d.tag_value tag) s.elems ≡ p ∷ []) × (enumerated p ≡ v)

-- The set has the tag with this value.
abbrev pub HasValue : KeymasterDefs → Tag → AuthorizationSet → ℕ → Type 0
HasValue d tag s v = Any (λ p. (p.tag ≡ d.tag_value tag) × (enumerated p ≡ v)) s.elems

contains-Any :
    (tag v : ℕ) (ps : List KeyParam)
    → (contains_value enumerated tag v ps ≡ true) ↔ Any (λ p. (p.tag ≡ tag) × (enumerated p ≡ v)) ps
unfolding contains_value
contains-Any tag v [] = ((λ h. ground arith), λ h. absurd h)
contains-Any tag v (p ∷ ps) =
    let (f, g) = contains-Any tag v ps in
    let at = ==_iff p.tag tag in
    let is = ==_iff (enumerated p) v in
    elim (Bool-cases (p.tag == tag && enumerated p == v)) [
      | inl hit ↦ ((λ h. inl (at.0 (ground arith), is.0 (ground arith))), λ h. rw hit refl)
      | inr miss ↦ (
        (λ h. inr (f (ground (arith, h)))),
        λ h. elim h [
          | inl (same, value) ↦ ground (arith, at.1 same, is.1 value)
          | inr rest ↦ rw miss (g rest)
        ],
      )
    ]

get_only_enum-IsNamed :
    (d : KeymasterDefs) (tag : Tag) (s : AuthorizationSet) (v : ℕ)
    → is_valid s.error ≡ true
    → (get_only_enum s (d.tag_value tag) ≡ some v) ↔ IsNamed d tag s v
get_only_enum-IsNamed d tag s v fine =
    rw (get_only_enum-tagged s (d.tag_value tag) fine) (by_list (tagged (d.tag_value tag) s.elems))
  where
    by_list :
        (ps : List KeyParam)
        → ((if length ps == 1 then Option.map enumerated (get_elem? ps 0) else none) ≡ some v)
          ↔ ((p : KeyParam) × (ps ≡ p ∷ []) × (enumerated p ≡ v))
    by_list [] = ((λ h. absurd (ground arith)), λ (p, same, value). absurd (ground arith))
    by_list (p ∷ []) = ((λ h. (p, refl, ground arith)), λ (q, same, value). ground arith)
    by_list (p ∷ q ∷ ps) = ((λ h. absurd (ground arith)), λ (x, same, value). absurd (ground arith))

-- RSA and EC keys verify and encrypt with the public key.
abbrev pub IsPublic : {S : Type 0} → KeymasterDefs → OperationFactory S → Type 0
IsPublic d f =
    ((f.algorithm ≡ d.algorithm_rsa) ⊎ (f.algorithm ≡ d.algorithm_ec))
    × ((f.purpose ≡ Purpose.verify) ⊎ (f.purpose ≡ Purpose.encrypt))

uses_public_key_lem :
    (p : Purpose) → uses_public_key p ≡ true → (p ≡ Purpose.verify) ⊎ (p ≡ Purpose.encrypt)
uses_public_key_lem Purpose.verify h = inl refl
uses_public_key_lem Purpose.encrypt h = inr refl
uses_public_key_lem Purpose.decrypt h = absurd (ground arith)
uses_public_key_lem Purpose.sign h = absurd (ground arith)
uses_public_key_lem Purpose.derive_key h = absurd (ground arith)
uses_public_key_lem (Purpose.other n) h = absurd (ground arith)

is_public_key_operation_lem :
    {S : Type 0} (d : KeymasterDefs) (f : OperationFactory S)
    → (is_public_key_operation d f ≡ true) ↔ IsPublic d f
unfolding is_public_key_operation is_public_key_algorithm
is_public_key_operation_lem d f =
    let rsa = ==_iff f.algorithm d.algorithm_rsa in
    let ec = ==_iff f.algorithm d.algorithm_ec in
    (
      λ h. (elim (Bool-cases (is_public_key_algorithm d f.algorithm)) [
        | inl public ↦ (ground arith, uses_public_key_lem f.purpose (ground arith))
        | inr other ↦ absurd (ground arith)
      ]),
      λ (algorithm, purpose). elim purpose [
        | inl verify ↦ rw verify (ground arith)
        | inr encrypt ↦ rw encrypt (ground arith)
      ],
    )

module _ {S : Type 0} (m : Mode) (d : KeymasterDefs) (f : OperationFactory S)
    (begin_params key : AuthorizationSet) where
  -- The parameters name the mode, and the factory supports it.
  abbrev pub IsAccepted : ℕ → Type 0
  IsAccepted v = IsNamed d m.tag begin_params v × Any (λ x. x ≡ v) m.modes

  -- A public key needs no permission; another key names the mode under one of its tags.
  abbrev pub IsPermitted : ℕ → Type 0
  IsPermitted v = IsPublic d f ⊎ (HasValue d m.tag key v ⊎ HasValue d m.old_tag key v)

  abbrev pub IsValidated : Bool × Option ℕ × KeymasterError → Type 0
  IsValidated (valid, value, err) =
      if valid
      then ((v : ℕ) × (value ≡ some v) × (err ≡ KeymasterError.ok) × IsAccepted v × IsPermitted v)
      else ((err ≡ m.unsupported) × ((v : ℕ) → ¬ IsAccepted v))
      ⊎ ((v : ℕ) × (err ≡ m.incompatible) × IsAccepted v × (¬ IsPermitted v))

  abbrev is_refused : ℕ → Bool
  is_refused v =
      not (is_public_key_operation d f)
      && (not (contains_enum_value key (d.tag_value m.tag) v)
          && not (contains_enum_value key (d.tag_value m.old_tag) v))

  unpermitted : (v : ℕ) → is_refused v ≡ true → IsPermitted v → ⊥
  unfolding contains_enum_value
  unpermitted v refused (inl public) = ground (arith, (is_public_key_operation_lem d f).1 public)
  unpermitted v refused (inr (inl has)) =
      ground (arith, (contains-Any (d.tag_value m.tag) v key.elems).1 has)
  unpermitted v refused (inr (inr has)) =
      ground (arith, (contains-Any (d.tag_value m.old_tag) v key.elems).1 has)

  is_refused-IsPermitted : (v : ℕ) → is_refused v ≡ false → IsPermitted v
  unfolding contains_enum_value
  is_refused-IsPermitted v permitted = elim (Bool-cases (is_public_key_operation d f)) [
    | inl public ↦ inl ((is_public_key_operation_lem d f).0 public)
    | inr private ↦ (elim (Bool-cases (contains_enum_value key (d.tag_value m.tag) v)) [
      | inl has ↦ inr (inl ((contains-Any (d.tag_value m.tag) v key.elems).0 has))
      | inr lacks ↦ inr (inr ((contains-Any (d.tag_value m.old_tag) v key.elems).0 (ground arith)))
    ])
  ]

  get_and_validate-IsValidated :
      is_valid begin_params.error ≡ true → IsValidated (get_and_validate m d f begin_params key)
  unfolding get_and_validate
  get_and_validate-IsValidated fine = by_value (get_only_enum begin_params (d.tag_value m.tag)) refl
    where
      chosen : ℕ → Bool × Option ℕ × KeymasterError
      chosen v =
          if not (supported m.modes v)
          then (false, some v, m.unsupported)
          else if not (is_public_key_operation d f)
              && (not (contains_enum_value key (d.tag_value m.tag) v)
                  && not (contains_enum_value key (d.tag_value m.old_tag) v))
          then (false, some v, m.incompatible)
          else (true, some v, KeymasterError.ok)

      unnamed :
          (o : Option ℕ)
          → get_only_enum begin_params (d.tag_value m.tag) ≡ o
          → (v : ℕ) → IsAccepted v
          → o ≡ some v
      unnamed o e v (named, listed) =
          sym e ∙ (get_only_enum-IsNamed d m.tag begin_params v fine).1 named

      by_value :
          (o : Option ℕ)
          → get_only_enum begin_params (d.tag_value m.tag) ≡ o
          → IsValidated (elim o as (λ x. Bool × Option ℕ × KeymasterError) [
            | none ↦ (false, none, m.unsupported)
            | some v ↦ chosen v
          ])
      by_value none e = inl (refl, λ v accepted. ground (arith, unnamed none e v accepted))
      by_value (some v) e = elim (Bool-cases (supported m.modes v)) [
        | inr absent ↦
            rw absent (
              inl
                (refl, λ u accepted. absent_lem u absent accepted (unnamed (some v) e u accepted)))
        | inl listed ↦ (elim (Bool-cases (is_refused v)) [
          | inl refused ↦
              rw (listed, refused) (inr (v, refl, accepted v e listed, unpermitted v refused))
          | inr permitted ↦
              rw (listed, permitted)
                (v, refl, refl, accepted v e listed, is_refused-IsPermitted v permitted)
        ])
      ]
        where
          absent_lem :
              (u : ℕ)
              → supported m.modes v ≡ false
              → IsAccepted u
              → Path (Option ℕ) (some v) (some u)
              → ⊥
          absent_lem u absent (named, listed) same =
              ground (arith, (supported-Any m.modes u).1 listed)

          accepted :
              (u : ℕ)
              → get_only_enum begin_params (d.tag_value m.tag) ≡ some u
              → supported m.modes u ≡ true
              → IsAccepted u
          accepted u found listed = (
            (get_only_enum-IsNamed d m.tag begin_params u fine).0 found,
            (supported-Any m.modes u).0 listed,
          )

-- A padding mode is accepted exactly where the parameters name one mode, once, that the factory supports,
-- and the operation is with a public key or the key names the mode, under the present or the old tag;
-- else the error says which of the two fails. For valid parameters.
pub get_and_validate_padding-IsValidated :
    {S : Type 0} (d : KeymasterDefs) (f : OperationFactory S) (begin_params key : AuthorizationSet)
    → is_valid begin_params.error ≡ true
    → IsValidated
        (padding_mode f)
        d
        f
        begin_params
        key
        (get_and_validate_padding d f begin_params key)
unfolding get_and_validate_padding
get_and_validate_padding-IsValidated d f = get_and_validate-IsValidated (padding_mode f) d f

-- A digest, likewise.
pub get_and_validate_digest-IsValidated :
    {S : Type 0} (d : KeymasterDefs) (f : OperationFactory S) (begin_params key : AuthorizationSet)
    → is_valid begin_params.error ≡ true
    → IsValidated
        (digest_mode f)
        d
        f
        begin_params
        key
        (get_and_validate_digest d f begin_params key)
unfolding get_and_validate_digest
get_and_validate_digest-IsValidated d f = get_and_validate-IsValidated (digest_mode f) d f
