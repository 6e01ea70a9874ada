-- ===== src/AuthSet/Push.antt =====
-- `push_back` of one parameter: it stays inside the arrays, and readers see the parameter at the end.
use platform_system_keymaste.Common.{
  subst, ltb, Bool, false, Bool-cases, inl, inr, ap, sym, ◌∙◌, le→leb, ◌*◌, ◌%◌, append-nil, ℕ, ◌+◌,
  ◌≤◌, ◌<◌, ◌^◌, ◌≡◌, true, false, [], ◌∷◌, ◌++◌, arith, length, length-append, All-append,
}
use mathlib.Core.Path.{ap₂}
use mathlib.Core.List.{map-append}
use platform_system_keymaste.Defs.{KeymasterDefs, SourceParam, is_blob_tag}
use platform_system_keymaste.AuthSet.Storage.{
  max_array, IsBounded, IsSound, Ensures, All-InData-mono, and_then-Ensures, then-Ensures,
  else-Ensures, SameContents, SameContents-view, reserve_indirect-Ensures, grow_elems-Ensures,
}
use platform_system_keymaste.AuthSet.View.{
  view, kept, view_param, view_param-append, view_param-scalar, view_param-blob,
}
use platform_system_keymaste.AuthSet.{
  AuthorizationSet, Allocator, is_valid, append_blob, push_blob, push_elem, push_back, add_elem,
  blob_param, scalar_param, size_sub,
}

-- The set after a blob and its bytes have gone behind the rest.
abbrev with_blob : SourceParam → AuthorizationSet → AuthorizationSet
with_blob e s =
    add_elem (blob_param e (length s.indirect_data))
      (record s { indirect_data = s.indirect_data ++ e.blob })

module _ (d : KeymasterDefs) (e : SourceParam) (s : AuthorizationSet) (v : IsSound d s) where
  with_blob-IsSound :
      length s.elems < s.elems_capacity
      → length s.indirect_data + length e.blob ≤ s.indirect_data_capacity
      → IsSound d (with_blob e s)
  with_blob-IsSound more fits =
      let l = length-append s.indirect_data e.blob in
      record {
        elems_fit =
            omega (arith, length-append s.elems (blob_param e (length s.indirect_data) ∷ []));
        data_fit = omega arith;
        room = v.room;
        elems_small = v.elems_small;
        data_small = v.data_small;
        blobs_inside =
            All-append _ s.elems _
              (All-InData-mono d (length s.indirect_data) _ s.elems (omega arith) v.blobs_inside)
              (λ _. omega arith, tt);
      }

  view-with_blob : is_blob_tag d e.tag ≡ true → view d (with_blob e s) ≡ view d s ++ (kept d e ∷ [])
  view-with_blob blob =
      let xs = s.indirect_data in
      map-append (view_param d (xs ++ e.blob)) s.elems _
      ∙ ap₂ ◌++◌ (view_param-append d xs e.blob s.elems v.blobs_inside) (
          ap (λ p. p ∷ [])
            (ap (λ ys. view_param d (xs ++ ys) (blob_param e (length xs))) (sym (append-nil e.blob))
              ∙ view_param-blob d xs [] e blob))

  with_scalar-IsSound :
      length s.elems < s.elems_capacity
      → is_blob_tag d e.tag ≡ false
      → IsSound d (add_elem (scalar_param e) s)
  with_scalar-IsSound more scalar = record {
    elems_fit = omega (arith, length-append s.elems (scalar_param e ∷ []));
    data_fit = v.data_fit;
    room = v.room;
    elems_small = v.elems_small;
    data_small = v.data_small;
    blobs_inside = All-append _ s.elems _ v.blobs_inside (λ b. cc, tt);
  }

  view-with_scalar :
      is_blob_tag d e.tag ≡ false
      → view d (add_elem (scalar_param e) s) ≡ view d s ++ (kept d e ∷ [])
  view-with_scalar scalar =
      map-append (view_param d s.indirect_data) s.elems _
      ∙ ap (λ p. view d s ++ (p ∷ [])) (view_param-scalar d s.indirect_data e scalar)

module _ (d : KeymasterDefs) (al : Allocator) (bounded : IsBounded al) where
  -- One more element goes behind those that are there, and the set's readers see it there.
  append_blob-Ensures :
      (e : SourceParam) (s : AuthorizationSet)
      → IsSound d s
      → length s.elems < s.elems_capacity
      → length s.indirect_data + length e.blob ≤ s.indirect_data_capacity
      → is_blob_tag d e.tag ≡ true
      → Ensures d (λ t. view d t ≡ view d s ++ (kept d e ∷ [])) (append_blob e s)
  unfolding append_blob
  append_blob-Ensures e s v more fits blob =
      rw (le→leb (length s.indirect_data + length e.blob) s.allocated (omega (arith, v.room)))
        (with_blob-IsSound d e s v more fits, view-with_blob d e s v blob)

  push_blob-Ensures :
      (e : SourceParam) (s : AuthorizationSet)
      → IsSound d s
      → length s.elems < s.elems_capacity
      → length e.blob ≤ max_array
      → is_blob_tag d e.tag ≡ true
      → Ensures d (λ t. view d t ≡ view d s ++ (kept d e ∷ [])) (push_blob al e s)
  unfolding push_blob
  push_blob-Ensures e s v more small blob = elim (Bool-cases short) [
    | inl yes_short ↦ then-Ensures d _ _ _ short yes_short (
        and_then-Ensures d _ _ _ (append_blob e) (reserve_indirect-Ensures d al bounded size s v)
          enough)
    | inr no_short ↦
        else-Ensures d _ _ _ short no_short (append_blob-Ensures e s v more (ground arith) blob)
  ]
    where
      n : ℕ
      n = length s.indirect_data

      size : ℕ
      size = 2 * (s.indirect_data_capacity + length e.blob) % 2 ^ 64

      short : Bool
      short = ltb (size_sub s.indirect_data_capacity n) (length e.blob)

      enough :
          (t : AuthorizationSet)
          → IsSound d t
          → SameContents s t
            × (size ≤ t.indirect_data_capacity)
            × (t.elems_capacity ≡ s.elems_capacity)
          → Ensures d (λ u. view d u ≡ view d s ++ (kept d e ∷ [])) (append_blob e t)
      enough t w (same, big, kept_elems) =
          subst (λ vs. Ensures d (λ u. view d u ≡ vs ++ (kept d e ∷ [])) (append_blob e t))
            (SameContents-view d s t same)
            (append_blob-Ensures e t w (omega (arith, ap length same.0))
              (omega (arith, ap length same.1, v.data_fit, v.data_small)) blob)

  push_elem-Ensures :
      (e : SourceParam) (s : AuthorizationSet)
      → IsSound d s
      → length s.elems < s.elems_capacity
      → length e.blob ≤ max_array
      → Ensures d (λ t. view d t ≡ view d s ++ (kept d e ∷ [])) (push_elem d al e s)
  unfolding push_elem
  push_elem-Ensures e s v more small = elim (Bool-cases (is_blob_tag d e.tag)) [
    | inl blob ↦
        then-Ensures d _ _ _ (is_blob_tag d e.tag) blob (push_blob-Ensures e s v more small blob)
    | inr scalar ↦
        else-Ensures d _ _ _ (is_blob_tag d e.tag) scalar
          (with_scalar-IsSound d e s v more scalar, view-with_scalar d e s v scalar)
  ]

  -- `push_back` never leaves its arrays. Where it returns true, the set is sound and holds the
  -- parameter, with its own copy of the blob, behind what it held; where it returns false, the set
  -- is sound and marked invalid. For a sound set, a blob of at most 2 ^ 61 bytes, and an allocator
  -- that grants no larger array.
  pub push_back-Ensures :
      (e : SourceParam) (s : AuthorizationSet)
      → IsSound d s
      → length e.blob ≤ max_array
      → Ensures d (λ t. view d t ≡ view d s ++ (kept d e ∷ [])) (push_back d al e s)
  unfolding push_back
  push_back-Ensures e s v small = elim (Bool-cases (is_valid s.error)) [
    | inl fine ↦
        then-Ensures d _ _ _ (is_valid s.error) fine
          (and_then-Ensures d _ _ _ (push_elem d al e) (grow_elems-Ensures d al bounded s v) pushed)
    | inr broken ↦ else-Ensures d _ _ _ (is_valid s.error) broken (v, broken)
  ]
    where
      pushed :
          (t : AuthorizationSet)
          → IsSound d t
          → SameContents s t × (length s.elems < t.elems_capacity)
          → Ensures d (λ u. view d u ≡ view d s ++ (kept d e ∷ [])) (push_elem d al e t)
      pushed t w (same, more) =
          subst (λ vs. Ensures d (λ u. view d u ≡ vs ++ (kept d e ∷ [])) (push_elem d al e t))
            (SameContents-view d s t same)
            (push_elem-Ensures e t w (omega (arith, ap length same.0)) small)
