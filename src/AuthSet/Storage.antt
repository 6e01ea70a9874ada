-- ===== src/AuthSet/Storage.antt =====
-- The storage invariant of AuthorizationSet, kept by every method that adds or drops elements.
use platform_system_keymaste.Common.{
  Bool, false, if◌then◌else◌, ◌==◌, ◌*◌, ◌%◌, map, ℕ, ◌≤◌, ◌<◌, ◌^◌, ◌≡◌, refl, true, false, List,
  [], ◌∷◌, arith, length, All,
}
use mathlib.Core.Path.{ap₂}
use platform_system_keymaste.Defs.{KeymasterDefs, KeyParam}
use platform_system_keymaste.AuthSet.View.{InData, view, view_param}
use platform_system_keymaste.AuthSet.{
  AuthorizationSet, Allocator, Outcome, done, out_of_bounds, SetError, allocation_failure, is_valid,
  empty_set, free_data, set_invalid, returned, reserve_elems, reserve_indirect, grow_elems,
  and_then, starting_elems_capacity,
}

-- No array takes more than an eighth of the address space.
abbrev pub max_array : ℕ
max_array = 2 ^ 61

pub record IsBounded (al : Allocator) : Type 0 where
  pub elems_bounded : (n : ℕ) → al.grants_elems n ≡ true → n ≤ max_array
  pub bytes_bounded : (n : ℕ) → al.grants_bytes n ≡ true → n ≤ max_array

pub record IsSound (d : KeymasterDefs) (s : AuthorizationSet) : Type 0 where
  pub elems_fit : length s.elems ≤ s.elems_capacity
  pub data_fit : length s.indirect_data ≤ s.indirect_data_capacity
  pub room : s.indirect_data_capacity ≡ s.allocated
  pub elems_small : s.elems_capacity ≤ max_array
  pub data_small : s.indirect_data_capacity ≤ max_array
  pub blobs_inside : All (InData d (length s.indirect_data)) s.elems

-- A method stays inside its arrays and leaves a sound set: one that meets `P` where the method
-- returns true, and one that is marked invalid where it returns false.
abbrev pub Ensures : KeymasterDefs → (AuthorizationSet → Type 0) → Outcome → Type 0
Ensures d P (done true s) = IsSound d s × P s
Ensures d P (done false s) = IsSound d s × (is_valid s.error ≡ false)
Ensures d P out_of_bounds = ⊥

pub and_then-Ensures :
    (d : KeymasterDefs) (P Q : AuthorizationSet → Type 0) (m : Outcome)
    (f : AuthorizationSet → Outcome)
    → Ensures d P m
    → ((s : AuthorizationSet) → IsSound d s → P s → Ensures d Q (f s))
    → Ensures d Q (and_then m f)
and_then-Ensures d P Q (done true s) f (v, p) h = h s v p
and_then-Ensures d P Q (done false s) f r h = r
and_then-Ensures d P Q out_of_bounds f r h = r

pub All-InData-mono :
    (d : KeymasterDefs) (m n : ℕ) (ps : List KeyParam)
    → m ≤ n
    → All (InData d m) ps
    → All (InData d n) ps
All-InData-mono d m n [] h a = tt
All-InData-mono d m n (p ∷ ps) h a = (λ b. omega (arith, a.0 b), All-InData-mono d m n ps h a.1)

pub empty_set-IsSound : (d : KeymasterDefs) → IsSound d empty_set
unfolding empty_set
empty_set-IsSound d = record {
  elems_fit = omega arith;
  data_fit = omega arith;
  room = refl;
  elems_small = omega arith;
  data_small = omega arith;
  blobs_inside = tt;
}

pub free_data-IsSound : (d : KeymasterDefs) (s : AuthorizationSet) → IsSound d (free_data s)
unfolding free_data
free_data-IsSound d s = record {
  elems_fit = omega arith;
  data_fit = omega arith;
  room = refl;
  elems_small = omega arith;
  data_small = omega arith;
  blobs_inside = tt;
}

pub set_invalid-IsSound :
    (d : KeymasterDefs) (e : SetError) (s : AuthorizationSet) → IsSound d (set_invalid e s)
unfolding set_invalid
set_invalid-IsSound d e s = record {
  elems_fit = omega arith;
  data_fit = omega arith;
  room = refl;
  elems_small = omega arith;
  data_small = omega arith;
  blobs_inside = tt;
}

module _ (d : KeymasterDefs) (P : AuthorizationSet → Type 0) (x y : Outcome) where
  pub then-Ensures : (b : Bool) → b ≡ true → Ensures d P x → Ensures d P (if b then x else y)
  then-Ensures true h e = e
  then-Ensures false h e = cc

  pub else-Ensures : (b : Bool) → b ≡ false → Ensures d P y → Ensures d P (if b then x else y)
  else-Ensures true h e = cc
  else-Ensures false h e = e

-- Nothing but the capacities has changed.
abbrev pub SameContents : AuthorizationSet → AuthorizationSet → Type 0
SameContents s t = (t.elems ≡ s.elems) × (t.indirect_data ≡ s.indirect_data) × (t.error ≡ s.error)

pub SameContents-view :
    (d : KeymasterDefs) (s t : AuthorizationSet) → SameContents s t → view d t ≡ view d s
SameContents-view d s t c = ap₂ (λ ps xs. map (view_param d xs) ps) c.0 c.1

module _ (d : KeymasterDefs) (al : Allocator) (bounded : IsBounded al) where
  pub reserve_elems-Ensures :
      (n : ℕ) (s : AuthorizationSet)
      → IsSound d s
      → Ensures d (λ t. SameContents s t × (n ≤ t.elems_capacity)) (returned (reserve_elems al n s))
  unfolding reserve_elems
  reserve_elems-Ensures n s v =
      ground (arith, bounded.elems_bounded n, set_invalid-IsSound d allocation_failure s)

  pub reserve_indirect-Ensures :
      (n : ℕ) (s : AuthorizationSet)
      → IsSound d s
      → Ensures d
          (λ t.
            SameContents s t
            × (n ≤ t.indirect_data_capacity)
            × (t.elems_capacity ≡ s.elems_capacity))
          (reserve_indirect al n s)
  unfolding reserve_indirect
  reserve_indirect-Ensures n s v =
      ground (arith, bounded.bytes_bounded n, set_invalid-IsSound d allocation_failure s)

  pub grow_elems-Ensures :
      (s : AuthorizationSet)
      → IsSound d s
      → Ensures d (λ t. SameContents s t × (length s.elems < t.elems_capacity)) (grow_elems al s)
  unfolding grow_elems
  grow_elems-Ensures s v =
      let count =
        if s.elems_capacity == 0 then starting_elems_capacity else s.elems_capacity * 2 % 2 ^ 64 in
      ground (arith, bounded.elems_bounded count, set_invalid-IsSound d allocation_failure s)
