-- ===== src/OperationTable/Places.antt =====
-- The free places of the table of operation_table.cpp, and what a change of the table leaves to see.
use mathlib.Core.Path.{fun_ext}
use platform_system_keymaste.Common.{
  ℕ, zero, suc, ◌+◌, ◌≤◌, ◌<◌, ◌==◌, ◌≡◌, ◌≢◌, inl, inr, refl, ap, sym, ◌∙◌, true, false, List, [],
  ◌∷◌, Option, none, some, length, replicate, arith, Bool-cases, Option-cases, ==_iff,
}
use mathlib.Core.Path.{ap₂}
use platform_system_keymaste.OperationTable.{
  Entry, empty_entry, place, find, find_entry, clear_entry,
}
use platform_system_keymaste.OperationTable.Laws.{AreDistinct}
use platform_system_keymaste.OperationTable.Map.{Updates, stored, find-replicate}
use platform_system_keymaste.OperationTable.Client.{with_entry, live_entries, view, handles}

module _ {A : Type 0} where
  live_entries-full : (es : List (Entry A)) → live_entries es ≤ length es
  live_entries-full [] = omega arith
  live_entries-full (e ∷ es) = ground (arith, live_entries-full es)

  pub place-live :
      (h : ℕ) (op : A) (es es' : List (Entry A))
      → place h op es ≡ some es'
      → (live_entries es' ≡ live_entries es + 1) × (live_entries es < length es)
  unfolding place
  place-live h op [] es' eq = ground arith
  place-live h op (e ∷ es) es' eq =
      let again = place-live h op es in
      elim (Option-cases (place h op es)) [
        | inl full ↦ ground (arith, live_entries-full es)
        | inr (es1, placed) ↦ ground (arith, live_entries-full es, again es1 placed)
      ]

  pub place-full :
      (h : ℕ) (op : A) (es : List (Entry A)) → place h op es ≡ none → live_entries es ≡ length es
  unfolding place
  place-full h op [] eq = refl
  place-full h op (e ∷ es) eq =
      let again = place-full h op es in
      elim (Option-cases (place h op es)) [
        | inl full ↦ ground (arith, again full)
        | inr (es1, placed) ↦ ground arith
      ]

  -- The removed entry held an operation.
  pub clear_entry-found :
      (h : ℕ) (es es' : List (Entry A))
      → h ≢ 0
      → AreDistinct es
      → clear_entry h es ≡ some es'
      → ((op : A) × (find_entry h es ≡ some op)) × (live_entries es ≡ live_entries es' + 1)
  unfolding clear_entry find_entry
  clear_entry-found h [] es' nonzero distinct eq = ground arith
  clear_entry-found h (e ∷ es) es' nonzero (inl (zero_handle, empty), rest) eq =
      let again = clear_entry-found h es in
      let miss : (e.handle == h) ≡ false = ground arith in
      elim (Option-cases (clear_entry h es)) [
        | inl absent ↦ ground arith
        | inr (es1, cleared) ↦
            (let (there, less) = again es1 nonzero rest cleared in rw miss (there, ground arith))
      ]
  clear_entry-found h (e ∷ es) es' nonzero (inr (positive, unused, (op, held)), rest) eq =
      let again = clear_entry-found h es in
      elim (Bool-cases (e.handle == h)) [
        | inl hit ↦ rw hit ((op, held), ground arith)
        | inr miss ↦ (elim (Option-cases (clear_entry h es)) [
          | inl absent ↦ ground arith
          | inr (es1, cleared) ↦
              (let (there, less) = again es1 nonzero rest cleared in rw miss (there, ground arith))
        ])
      ]

  -- The handle 0 stands in the entries without an operation, and clearing one changes nothing.
  pub clear_entry-zero :
      (es es' : List (Entry A))
      → AreDistinct es
      → clear_entry 0 es ≡ some es'
      → (es' ≡ es) × (live_entries es < length es)
  unfolding clear_entry
  clear_entry-zero [] es' distinct eq = ground arith
  clear_entry-zero (e ∷ es) es' (inl (zero_handle, empty), rest) eq =
      let same : empty_entry ∷ es ≡ es' = ground arith in
      (
        sym same
            ∙ ap₂ (λ h o. record { handle = h; operation = o } ∷ es) (sym zero_handle) (sym empty),
        ground (arith, live_entries-full es),
      )
  clear_entry-zero (e ∷ es) es' (inr (positive, unused, held), rest) eq =
      elim (Option-cases (clear_entry 0 es)) [
        | inl absent ↦ ground arith
        | inr (es1, cleared) ↦
            (let (same, less) = clear_entry-zero es es1 rest cleared in
              (ground arith, ground arith))
      ]

  pub clear_entry-full :
      (es : List (Entry A)) → AreDistinct es → clear_entry 0 es ≡ none → live_entries es ≡ length es
  unfolding clear_entry
  clear_entry-full [] distinct eq = refl
  clear_entry-full (e ∷ es) (inl (zero_handle, empty), rest) eq = ground arith
  clear_entry-full (e ∷ es) (inr (positive, unused, (op, held)), rest) eq =
      let again = clear_entry-full es rest in
      elim (Option-cases (clear_entry 0 es)) [
        | inl absent ↦ ground (arith, again absent)
        | inr (es1, cleared) ↦ ground arith
      ]

module _ (A : Type 0) where
  live_entries-replicate : (n : ℕ) → live_entries (replicate n (empty_entry {A = A})) ≡ 0
  live_entries-replicate zero = refl
  live_entries-replicate (suc n) = let rest = live_entries-replicate n in omega (arith, rest)

module _ {A : Type 0} where
  pub view-Updates :
      (h l n : ℕ) (entry : Option A) (es es' : List (Entry A))
      → Updates h entry (stored n es) (stored n es')
      → live_entries es' ≡ l
      → view (stored n es') ≡ handles true n l (with_entry h entry (λ k. find k (stored n es)))
  view-Updates h l n entry es es' u count =
      ap (λ x. handles true n x (λ k. find k (stored n es'))) count
      ∙ ap (handles true n l) (fun_ext at)
    where
      at : (k : ℕ) → find k (stored n es') ≡ with_entry h entry (λ j. find j (stored n es)) k
      at k = elim (Bool-cases (k == h)) [
        | inl hit ↦ rw (hit, (==_iff k h).0 hit) u.0
        | inr miss ↦ rw miss (u.1 k (λ same. ground (arith, ==_iff k h)))
      ]

module _ (A : Type 0) where
  pub view-replicate :
      (n : ℕ)
      → view (stored n (replicate n (empty_entry {A = A})))
        ≡ handles true n 0 (λ k. find k (record { table = none; table_size = n }))
  view-replicate n =
      ap (λ l. handles true n l (λ k. find k (stored n (replicate n (empty_entry {A = A})))))
        (live_entries-replicate A n)
      ∙ ap (handles true n 0) (fun_ext (λ k. find-replicate n k))
