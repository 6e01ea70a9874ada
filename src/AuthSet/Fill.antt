-- ===== src/AuthSet/Fill.antt =====
-- `push_back` of a whole parameter set, and `Reinitialize`: what the set then holds.
use platform_system_keymaste.Common.{
  ◌+◌, ◌≤◌, ◌≡◌, ap, sym, ◌∙◌, subst, Bool-cases, inl, inr, List, [], ◌∷◌, ◌++◌, map, length, All,
  append_assoc, append-nil,
}
use platform_system_keymaste.Defs.{KeymasterDefs, SourceParam}
use platform_system_keymaste.AuthSet.{
  AuthorizationSet, Allocator, is_valid, returned, reserve_elems, push_back, push_all,
  push_back_set, source_indirect_size,
}
use platform_system_keymaste.AuthSet.View.{view, kept}
use platform_system_keymaste.AuthSet.Storage.{
  max_array, IsBounded, IsSound, Ensures, and_then-Ensures, then-Ensures, else-Ensures,
  SameContents, SameContents-view, reserve_elems-Ensures, reserve_indirect-Ensures,
}
use platform_system_keymaste.AuthSet.Push.{push_back-Ensures}

-- No blob is larger than an array can be.
abbrev pub AreSmall : List SourceParam → Type 0
AreSmall = All (λ e. length e.blob ≤ max_array)

module _ (d : KeymasterDefs) (al : Allocator) (bounded : IsBounded al) where
  push_all-Ensures :
      (es : List SourceParam) (s : AuthorizationSet)
      → IsSound d s
      → AreSmall es
      → Ensures d (λ t. view d t ≡ view d s ++ map (kept d) es) (push_all d al es s)
  unfolding push_all
  push_all-Ensures [] s v small = (v, sym (append-nil (view d s)))
  push_all-Ensures (e ∷ es) s v small =
      and_then-Ensures d _ _ (push_back d al e s) (push_all d al es)
        (push_back-Ensures d al bounded e s v small.0)
        λ t w eq.
          subst (λ vs. Ensures d (λ u. view d u ≡ vs) (push_all d al es t))
            (ap (λ vs. vs ++ map (kept d) es) eq ∙ append_assoc (view d s) (kept d e ∷ []) _)
            (push_all-Ensures es t w small.1)

  -- `push_back` of a parameter set: like that of one parameter, for all of them in order.
  pub push_back_set-Ensures :
      (es : List SourceParam) (s : AuthorizationSet)
      → IsSound d s
      → AreSmall es
      → Ensures d (λ t. view d t ≡ view d s ++ map (kept d) es) (push_back_set d al es s)
  unfolding push_back_set
  push_back_set-Ensures es s v small = elim (Bool-cases (is_valid s.error)) [
    | inr broken ↦ else-Ensures d _ _ _ (is_valid s.error) broken (v, broken)
    | inl fine ↦ then-Ensures d _ _ _ (is_valid s.error) fine (
        and_then-Ensures d (λ t. SameContents s t × (length s.elems + length es ≤ t.elems_capacity))
          _ (returned (reserve_elems al (length s.elems + length es) s)) _
          (reserve_elems-Ensures d al bounded (length s.elems + length es) s v)
          λ t w (same, _).
            and_then-Ensures d _ _ _ _
              (reserve_indirect-Ensures d al bounded
                (length t.indirect_data + source_indirect_size d es) t w)
              λ u x (same', _, _).
                subst (λ vs. Ensures d (λ r. view d r ≡ vs ++ map (kept d) es) (push_all d al es u))
                  (SameContents-view d t u same' ∙ SameContents-view d s t same)
                  (push_all-Ensures es u x small))
  ]
