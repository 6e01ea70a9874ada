-- ===== src/AuthSet/Lookup/Laws.antt =====
-- The searches of an authorization set against the plain list of its elements with a tag.
use mathlib.Core.Option
use mathlib.Core.Path.{ap₂}
use platform_system_keymaste.Common.{
  ℕ, zero, suc, ◌+◌, ◌≤◌, ◌<◌, ◌≡◌, refl, ap, sym, subst, ◌∙◌, inl, inr, Bool-cases, true, false,
  List, [], ◌∷◌, Option, none, some, arith, length, length-drop, drop-drop, get_elem?-drop, le→ltb,
  drop, get_elem?, ◌==◌, if◌then◌else◌, ltb,
}
use platform_system_keymaste.Defs.{KeyParam, enumerated, integer, long_integer}
use platform_system_keymaste.AuthSet.{AuthorizationSet, is_valid}
use platform_system_keymaste.AuthSet.Lookup.{
  find_loop, find_from, find, count_loop, get_tag_count, read_at, instance_loop, get_only_enum,
  get_tag_value_enum_rep, get_tag_value_int_rep, get_tag_value_long_rep,
}

-- The elements with the tag, in order.
abbrev pub tagged : ℕ → List KeyParam → List KeyParam
tagged tag [] = []
tagged tag (p ∷ ps) = let rest = tagged tag ps in if p.tag == tag then p ∷ rest else rest

-- The result of a search from position `from` on, where `ps` begins: none if no element has the tag,
-- else the position of the first.
abbrev IsFirst : ℕ → ℕ → List KeyParam → Option ℕ → Type 0
IsFirst tag from ps none = tagged tag ps ≡ []
IsFirst tag from ps (some i) =
    (k : ℕ) × (p : KeyParam) × (i ≡ from + k)
    × (k < length ps)
    × (get_elem? ps k ≡ some p)
    × (tagged tag ps ≡ p ∷ tagged tag (drop (suc k) ps))

IsFirst-cons :
    (tag from : ℕ) (p : KeyParam) (ps : List KeyParam) (r : Option ℕ)
    → (p.tag == tag) ≡ false
    → IsFirst tag (from + 1) ps r
    → IsFirst tag from (p ∷ ps) r
IsFirst-cons tag from p ps none miss h = rw miss h
IsFirst-cons tag from p ps (some i) miss (k, q, e, lt, at, eq) =
    (suc k, q, omega arith, omega arith, at, rw miss eq)

find_loop-IsFirst :
    (tag from : ℕ) (ps : List KeyParam) → IsFirst tag from ps (find_loop tag from ps)
unfolding find_loop
find_loop-IsFirst tag from [] = refl
find_loop-IsFirst tag from (p ∷ ps) = elim (Bool-cases (p.tag == tag)) [
  | inl hit ↦ rw hit (0, p, omega arith, omega arith, refl, rw hit)
  | inr miss ↦
      subst (IsFirst tag from (p ∷ ps))
        (let same : find_loop tag (from + 1) ps
              ≡ (if p.tag == tag then some from else find_loop tag (from + 1) ps) =
            rw miss in
          same)
        (IsFirst-cons tag from p ps _ miss (find_loop-IsFirst tag (from + 1) ps))
]

-- The same in terms of the whole list, for a search that begins at `from`.
abbrev IsFirstIn : ℕ → ℕ → List KeyParam → Option ℕ → Type 0
IsFirstIn tag from ps none = tagged tag (drop from ps) ≡ []
IsFirstIn tag from ps (some i) =
    (p : KeyParam) × (from ≤ i)
    × (i < length ps)
    × (get_elem? ps i ≡ some p)
    × (tagged tag (drop from ps) ≡ p ∷ tagged tag (drop (suc i) ps))

IsFirst→IsFirstIn :
    (tag from : ℕ) (ps : List KeyParam) (r : Option ℕ)
    → IsFirst tag from (drop from ps) r
    → IsFirstIn tag from ps r
IsFirst→IsFirstIn tag from ps none h = h
IsFirst→IsFirstIn tag from ps (some i) (k, p, e, lt, at, eq) = (
  p,
  omega arith,
  omega (arith, length-drop from ps),
  rw e (sym (get_elem?-drop k from ps) ∙ at),
  eq
      ∙ ap (λ qs. p ∷ tagged tag qs)
          (drop-drop (suc k) from ps ∙ ap (λ j. drop j ps) {y = suc i} (omega arith)),
)

module _ (s : AuthorizationSet) (tag : ℕ) (fine : is_valid s.error ≡ true) where
  -- `find` gives the first element with the tag at or behind the start.
  find_from-IsFirstIn :
      (from : ℕ) → from ≤ length s.elems → IsFirstIn tag from s.elems (find_from s tag from)
  unfolding find_from
  find_from-IsFirstIn from h =
      subst (IsFirstIn tag from s.elems)
        (let same : find_loop tag from (drop from s.elems) ≡ (
              if is_valid s.error
              then if ltb (length s.elems) from
                then some from
                else find_loop tag from (drop from s.elems)
              else none) =
            rw (fine, le→ltb (length s.elems) from h) in
          same)
        (IsFirst→IsFirstIn tag from s.elems _ (find_loop-IsFirst tag from (drop from s.elems)))

  count_loop-length :
      (fuel n from : ℕ) (r : Option ℕ)
      → IsFirstIn tag from s.elems r
      → from ≤ length s.elems
      → length s.elems ≤ fuel + from
      → count_loop s tag fuel n r ≡ n + length (tagged tag (drop from s.elems))
  unfolding count_loop
  count_loop-length fuel n from none h low enough = omega (arith, ap length h)
  count_loop-length zero n from (some i) (p, ge, lt, at, eq) low enough = absurd (omega arith)
  count_loop-length (suc fuel) n from (some i) (p, ge, lt, at, eq) low enough =
      let rest =
        count_loop-length fuel (n + 1) (suc i) (find_from s tag (suc i))
          (find_from-IsFirstIn (suc i) lt) lt (omega arith) in
      ap (λ j. count_loop s tag fuel (n + 1) (find_from s tag j)) {y = suc i} (omega arith)
      ∙ rest
      ∙ omega (arith, ap length eq)

  -- `GetTagCount` is the number of elements with the tag, for a valid set.
  pub get_tag_count-length : get_tag_count s tag ≡ length (tagged tag s.elems)
  unfolding get_tag_count
  get_tag_count-length =
      count_loop-length (length s.elems) 0 0 (find s tag) (find_from-IsFirstIn 0 (omega arith))
        (omega arith) (omega arith)
      ∙ omega arith

  read_at-some :
      {A : Type 0} (f : KeyParam → A) (i : ℕ) {p : KeyParam}
      → get_elem? s.elems i ≡ some p
      → read_at f s.elems (some i) ≡ some (f p)
  unfolding read_at
  read_at-some f i at = rw (at, read_at)

  read_instance :
      {A : Type 0} (f : KeyParam → A) (n from : ℕ)
      → from ≤ length s.elems
      → read_at f s.elems (instance_loop s tag n from)
        ≡ Option.map f (get_elem? (tagged tag (drop from s.elems)) n)
  unfolding instance_loop find_from
  read_instance f zero from low = first (find_from s tag from) (find_from-IsFirstIn from low)
    where
      first :
          (r : Option ℕ)
          → IsFirstIn tag from s.elems r
          → read_at f s.elems r ≡ Option.map f (get_elem? (tagged tag (drop from s.elems)) 0)
      first none h = rw h (unfold read_at in refl)
      first (some i) (p, ge, lt, at, eq) = read_at-some f i at ∙ rw eq
  read_instance f (suc n) from low =
      first (find_from s tag from) (find_from-IsFirstIn from low) (read_instance f n)
    where
      first :
          (r : Option ℕ)
          → IsFirstIn tag from s.elems r
          → ((at : ℕ)
              → at ≤ length s.elems
              → read_at f s.elems (instance_loop s tag n at)
                ≡ Option.map f (get_elem? (tagged tag (drop at s.elems)) n))
          → read_at f s.elems (elim r [ none ↦ none | some i ↦ instance_loop s tag n (i + 1) ])
            ≡ Option.map f (get_elem? (tagged tag (drop from s.elems)) (suc n))
      first none h again = rw h (unfold read_at in refl)
      first (some i) (p, ge, lt, at, eq) again =
          ap (λ j. read_at f s.elems (instance_loop s tag n j)) {y = suc i} (omega arith)
          ∙ again (suc i) lt
          ∙ rw eq

  -- The three searches by instance give that member (enumerated, integer or long_integer) of the instance
  -- asked for, counted from 0 among the elements with the tag, and nothing where there are no more: for a
  -- valid set.
  pub get_tag_value_rep-tagged :
      (n : ℕ)
      → (get_tag_value_enum_rep s tag n ≡ Option.map enumerated (get_elem? (tagged tag s.elems) n))
        × (get_tag_value_int_rep s tag n ≡ Option.map integer (get_elem? (tagged tag s.elems) n))
        × (get_tag_value_long_rep s tag n
            ≡ Option.map long_integer (get_elem? (tagged tag s.elems) n))
  unfolding get_tag_value_enum_rep get_tag_value_int_rep get_tag_value_long_rep
  get_tag_value_rep-tagged n = (
    read_instance enumerated n 0 (omega arith),
    read_instance integer n 0 (omega arith),
    read_instance long_integer n 0 (omega arith),
  )

  -- `GetTagValue` of a repeatable enumeration tag gives a value exactly where one element has the
  -- tag, and then that element's, for a valid set.
  pub get_only_enum-tagged : get_only_enum s tag ≡ (
      if length (tagged tag s.elems) == 1
      then Option.map enumerated (get_elem? (tagged tag s.elems) 0)
      else none)
  unfolding get_only_enum get_tag_value_enum_rep
  get_only_enum-tagged =
      ap₂ (λ n v. if n == 1 then v else none) get_tag_count-length
        (read_instance enumerated 0 0 (omega arith))
