-- ===== src/AuthSet/View.antt =====
-- What a set holds for its readers: the parameters with their blobs' bytes, without the storage.
use platform_system_keymaste.Common.{
  ℕ, ◌+◌, ◌≤◌, ◌≡◌, refl, true, false, List, [], ◌∷◌, ◌++◌, map, arith, length, take, drop, All,
  take-append, drop-append, if◌then◌else◌, ap, zero, suc,
}
use platform_system_keymaste.Defs.{KeymasterDefs, KeyParam, SourceParam, is_blob_tag}
use platform_system_keymaste.AuthSet.{AuthorizationSet, blob_param, scalar_param}

abbrev pub slice : ℕ → ℕ → List ℕ → List ℕ
slice at n xs = take n (drop at xs)

abbrev pub view_param : KeymasterDefs → List ℕ → KeyParam → SourceParam
view_param d xs p = record {
  tag = p.tag;
  word = p.word;
  blob = if is_blob_tag d p.tag then slice p.offset p.data_length xs else [];
}

abbrev pub view : KeymasterDefs → AuthorizationSet → List SourceParam
view d s = map (view_param d s.indirect_data) s.elems

-- A parameter as a set keeps it: what stands beside a scalar is no blob.
abbrev pub kept : KeymasterDefs → SourceParam → SourceParam
kept d e = record e { blob = if is_blob_tag d e.tag then e.blob else [] }

-- A blob lies inside `n` bytes of indirect data.
abbrev pub InData : KeymasterDefs → ℕ → KeyParam → Type 0
InData d n p = is_blob_tag d p.tag ≡ true → p.offset + p.data_length ≤ n

slice-append :
    (at n : ℕ) (xs ys : List ℕ) → at + n ≤ length xs → slice at n (xs ++ ys) ≡ slice at n xs
slice-append zero zero xs ys h = refl
slice-append zero (suc n) [] ys h = absurd (omega arith)
slice-append zero (suc n) (x ∷ xs) ys h = ap (◌∷◌ x) (slice-append zero n xs ys (omega arith))
slice-append (suc at) n [] ys h = absurd (omega arith)
slice-append (suc at) n (x ∷ xs) ys h = slice-append at n xs ys (omega arith)

pub slice_behind : (xs ys zs : List ℕ) → slice (length xs) (length ys) (xs ++ (ys ++ zs)) ≡ ys
slice_behind xs ys zs = rw (drop-append xs (ys ++ zs)) (take-append ys zs)

-- More data behind what is there changes no view.
pub view_param-append :
    (d : KeymasterDefs) (xs ys : List ℕ) (ps : List KeyParam)
    → All (InData d (length xs)) ps
    → map (view_param d (xs ++ ys)) ps ≡ map (view_param d xs) ps
view_param-append d xs ys [] h = refl
view_param-append d xs ys (p ∷ ps) h =
    ground (arith, slice-append p.offset p.data_length xs ys, view_param-append d xs ys ps h.1)

pub view_param-scalar :
    (d : KeymasterDefs) (xs : List ℕ) (e : SourceParam)
    → is_blob_tag d e.tag ≡ false
    → view_param d xs (scalar_param e) ≡ kept d e
view_param-scalar d xs e h = rw h

pub view_param-blob :
    (d : KeymasterDefs) (xs zs : List ℕ) (e : SourceParam)
    → is_blob_tag d e.tag ≡ true
    → view_param d (xs ++ (e.blob ++ zs)) (blob_param e (length xs)) ≡ kept d e
view_param-blob d xs zs e h = rw (h, slice_behind xs e.blob zs)
