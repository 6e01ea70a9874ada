-- ===== src/AuthSet.antt =====
-- class AuthorizationSet of include/keymaster/authorization_set.h and authorization_set.cpp: the
-- state and its storage. The heap of the two arrays is explicit: `allocated` is what the array
-- behind `indirect_data_` has room for, which `indirect_data_capacity_` is meant to record.
pub mod View
pub mod Order
pub mod Storage
pub mod Push
pub mod Fill
pub mod Wire
pub mod Lookup
use platform_system_keymaste.Common.{
  ℕ, ◌+◌, ◌*◌, ◌-◌, ◌%◌, ◌^◌, Bool, true, false, List, [], ◌∷◌, ◌++◌, ltb, leb, ◌==◌, length,
  if◌then◌else◌,
}
use platform_system_keymaste.Defs.{KeymasterDefs, KeyParam, SourceParam, is_blob_tag}

-- AuthorizationSet::Error.
pub data SetError : Type 0 where
  valid allocation_failure malformed_data : SetError

abbrev pub is_valid : SetError → Bool
is_valid valid = true
is_valid _ = false

pub record AuthorizationSet : Type 0 where
  pub elems : List KeyParam
  pub elems_capacity : ℕ
  pub indirect_data : List ℕ
  pub indirect_data_capacity : ℕ
  pub allocated : ℕ
  pub error : SetError

-- `new (std::nothrow)` of that many elements, and of that many bytes.
pub record Allocator : Type 0 where
  pub grants_elems : ℕ → Bool
  pub grants_bytes : ℕ → Bool

-- A method's result and the new state, or a write outside an array.
pub data Outcome : Type 0 where
  done : Bool → AuthorizationSet → Outcome
  out_of_bounds : Outcome

-- The rest of a method after a call that must succeed.
abbrev pub and_then : Outcome → (AuthorizationSet → Outcome) → Outcome
and_then (done true s) f = f s
and_then (done false s) f = done false s
and_then out_of_bounds f = out_of_bounds

unfoldable pub empty_set : AuthorizationSet
empty_set = record {
  elems = [];
  elems_capacity = 0;
  indirect_data = [];
  indirect_data_capacity = 0;
  allocated = 0;
  error = valid;
}

unfoldable pub clear : AuthorizationSet → AuthorizationSet
clear s = record s { elems = []; indirect_data = [] }

unfoldable pub free_data : AuthorizationSet → AuthorizationSet
unfolding clear
free_data s = record (clear s) {
  elems_capacity = 0;
  indirect_data_capacity = 0;
  allocated = 0;
  error = valid;
}

unfoldable pub set_invalid : SetError → AuthorizationSet → AuthorizationSet
unfolding free_data
set_invalid e s = record (free_data s) { error = e }

-- `MoveFrom`: what the target becomes, and what is left of the source.
unfoldable pub move_from : AuthorizationSet → AuthorizationSet × AuthorizationSet
unfolding empty_set
move_from s = (s, empty_set)

-- The outcome of a method that writes nothing out of bounds.
abbrev pub returned : Bool × AuthorizationSet → Outcome
returned (b, s) = done b s

unfoldable pub reserve_elems : Allocator → ℕ → AuthorizationSet → Bool × AuthorizationSet
unfolding set_invalid
reserve_elems al count s =
    if is_valid s.error
    then if leb s.elems_capacity count
      then if al.grants_elems count
        then (true, record s { elems_capacity = count })
        else (false, set_invalid allocation_failure s)
      else (true, s)
    else (false, s)

-- The data is copied into the new array, which must have room for it.
unfoldable pub reserve_indirect : Allocator → ℕ → AuthorizationSet → Outcome
unfolding set_invalid
reserve_indirect al size s =
    if is_valid s.error
    then if ltb s.indirect_data_capacity size
      then if al.grants_bytes size
        then if leb (length s.indirect_data) size
          then done true (record s { indirect_data_capacity = size; allocated = size })
          else out_of_bounds
        else done false (set_invalid allocation_failure s)
      else done true s
    else done false s

abbrev pub add_elem : KeyParam → AuthorizationSet → AuthorizationSet
add_elem p s = record s { elems = s.elems ++ (p ∷ []) }

abbrev pub scalar_param : SourceParam → KeyParam
scalar_param e = record { tag = e.tag; word = e.word; offset = 0; data_length = 0 }

abbrev pub blob_param : SourceParam → ℕ → KeyParam
blob_param e at = record { tag = e.tag; word = e.word; offset = at; data_length = length e.blob }

-- The blob goes behind the data that is there, which must stay inside the array.
unfoldable pub append_blob : SourceParam → AuthorizationSet → Outcome
append_blob e s =
    if leb (length s.indirect_data + length e.blob) s.allocated
    then done true (
        add_elem (blob_param e (length s.indirect_data))
          (record s { indirect_data = s.indirect_data ++ e.blob }))
    else out_of_bounds

abbrev pub starting_elems_capacity : ℕ
starting_elems_capacity = 8

-- `a - b` on size_t.
abbrev pub size_sub : ℕ → ℕ → ℕ
size_sub a b = (a + 2 ^ 64 - b) % 2 ^ 64

-- `if (elems_size_ >= elems_capacity_) reserve_elems(...)`.
unfoldable pub grow_elems : Allocator → AuthorizationSet → Outcome
unfolding reserve_elems
grow_elems al s =
    if leb s.elems_capacity (length s.elems)
    then returned (
        reserve_elems al
          (if s.elems_capacity == 0 then starting_elems_capacity else s.elems_capacity * 2 % 2 ^ 64)
          s)
    else done true s

unfoldable pub push_blob : Allocator → SourceParam → AuthorizationSet → Outcome
unfolding reserve_indirect append_blob
push_blob al e s =
    if ltb (size_sub s.indirect_data_capacity (length s.indirect_data)) (length e.blob)
    then and_then (reserve_indirect al (2 * (s.indirect_data_capacity + length e.blob) % 2 ^ 64) s)
        (append_blob e)
    else append_blob e s

unfoldable pub push_elem : KeymasterDefs → Allocator → SourceParam → AuthorizationSet → Outcome
unfolding push_blob
push_elem d al e s =
    if is_blob_tag d e.tag then push_blob al e s else done true (add_elem (scalar_param e) s)

-- `push_back(keymaster_key_param_t)`.
unfoldable pub push_back : KeymasterDefs → Allocator → SourceParam → AuthorizationSet → Outcome
unfolding grow_elems push_elem
push_back d al e s =
    if is_valid s.error then and_then (grow_elems al s) (push_elem d al e) else done false s

-- `ComputeIndirectDataSize`, of parameters as a caller passes them.
unfoldable pub source_indirect_size : KeymasterDefs → List SourceParam → ℕ
source_indirect_size d [] = 0
source_indirect_size d (e ∷ es) =
    (if is_blob_tag d e.tag then length e.blob else 0) + source_indirect_size d es

-- The loop of `push_back(keymaster_key_param_set_t)`.
unfoldable pub push_all : KeymasterDefs → Allocator → List SourceParam → AuthorizationSet → Outcome
unfolding push_back
push_all d al [] s = done true s
push_all d al (e ∷ es) s = and_then (push_back d al e s) (push_all d al es)

unfoldable pub push_back_set :
    KeymasterDefs → Allocator → List SourceParam → AuthorizationSet → Outcome
unfolding push_all reserve_elems reserve_indirect source_indirect_size
push_back_set d al es s =
    if is_valid s.error
    then and_then (returned (reserve_elems al (length s.elems + length es) s)) (λ t.
      and_then (reserve_indirect al (length t.indirect_data + source_indirect_size d es) t)
        (push_all d al es))
    else done false s

-- `CopyIndirectData`: the elements with their blobs placed one after the other from `at`, and the
-- bytes.
unfoldable pub copied_elems : KeymasterDefs → ℕ → List SourceParam → List KeyParam
copied_elems d at [] = []
copied_elems d at (e ∷ es) =
    if is_blob_tag d e.tag
    then blob_param e at ∷ copied_elems d (at + length e.blob) es
    else scalar_param e ∷ copied_elems d at es

unfoldable pub copied_bytes : KeymasterDefs → List SourceParam → List ℕ
copied_bytes d [] = []
copied_bytes d (e ∷ es) = (if is_blob_tag d e.tag then e.blob else []) ++ copied_bytes d es

unfoldable pub copy_indirect_data : KeymasterDefs → List SourceParam → AuthorizationSet → Outcome
unfolding copied_elems copied_bytes
copy_indirect_data d es s =
    if leb (length (copied_bytes d es)) s.allocated
    then done true
        (record s { elems = copied_elems d 0 es; indirect_data = copied_bytes d es; error = valid })
    else out_of_bounds

-- `Reinitialize(elems, count)`.
unfoldable pub reinitialize :
    KeymasterDefs → Allocator → List SourceParam → AuthorizationSet → Outcome
unfolding free_data reserve_elems reserve_indirect source_indirect_size copy_indirect_data
reinitialize d al [] s = done true (free_data s)
reinitialize d al (e ∷ es) s =
    and_then (returned (reserve_elems al (length (e ∷ es)) (free_data s))) λ t.
      and_then (reserve_indirect al (source_indirect_size d (e ∷ es)) t)
        (copy_indirect_data d (e ∷ es))
