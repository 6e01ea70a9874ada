-- ===== src/Messages/Chain/Laws.antt =====
-- AttestKeyResponse of android_keymaster_messages.cpp: what a chain of certificates carries.
use platform_system_keymaste.Common.{
  ℕ, ◌≤◌, ◌≡◌, refl, subst, List, [], ◌∷◌, some, arith, All, length, replicate,
}
use platform_system_keymaste.AuthSet.{Allocator}
use platform_system_keymaste.Messages.Parts.{Part, Part-then, Part-give, Part-same, Carries}
use platform_system_keymaste.Messages.Fields.{IsSendable, word-Part, bytes-Part}
use platform_system_keymaste.Messages.Chain.{
  CertificateChain, max_chain_entry_count, allocate_chain, entries_size, serialize_entries,
  deserialize_entries, if_allocated, attest_key_response,
}

-- A chain that fits the limit, of entries that can be sent.
abbrev pub IsChain : Allocator → CertificateChain → Type 0
IsChain al m = (length m.entries ≤ max_chain_entry_count) × All (IsSendable al) m.entries

entries-Part :
    (al : Allocator) (es : List (List ℕ))
    → All (IsSendable al) es
    → Part
        (serialize_entries es)
        (entries_size es)
        (deserialize_entries al.grants_bytes (replicate (length es) []))
        es
unfolding serialize_entries entries_size deserialize_entries
entries-Part al [] sendable = Part-give []
entries-Part al (e ∷ es) (first, others) =
    Part-same
      (Part-then (λ x. _) (bytes-Part al e first)
        (Part-then (λ xs. _) (entries-Part al es others) (Part-give _)))
      (omega arith) refl

pub attest_key_response-Carries :
    (al : Allocator) (m : CertificateChain) → IsChain al m → Carries (attest_key_response al) m m
unfolding attest_key_response allocate_chain if_allocated
attest_key_response-Carries al m (few, sendable) =
    Part-same (Part-then (λ count. _) (word-Part (length m.entries) (omega arith)) allocated)
      (omega arith) refl
  where
    allocated :
        Part
          (serialize_entries m.entries)
          (entries_size m.entries)
          (if_allocated al.grants_bytes (allocate_chain (length m.entries)))
          m
    allocated =
        subst
          (λ o.
            Part (serialize_entries m.entries) (entries_size m.entries)
              (if_allocated al.grants_bytes o) m)
          (let slots : some (replicate (length m.entries) []) ≡ allocate_chain (length m.entries) =
              ground arith in
            slots)
          (Part-same (Part-then (λ es. _) (entries-Part al m.entries sendable) (Part-give _))
            (omega arith) refl)
