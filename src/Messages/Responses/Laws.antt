-- ===== src/Messages/Responses/Laws.antt =====
-- The responses of android_keymaster_messages.cpp that carry keys, lists and versions, and the error
-- in front of every response: what each carries to its receiver.
use platform_system_keymaste.Common.{
  ◌+◌, ◌*◌, ◌<◌, ◌%◌, ◌^◌, ◌≡◌, refl, ap, Bool, true, false, [], ◌∷◌, ◌++◌, some, arith,
  if◌then◌else◌, ◌==◌, All, length, length-append,
}
use platform_system_keymaste.Defs.{KeymasterDefs}
use platform_system_keymaste.Serial.{
  ◌>>=◌, give, cursor, max_array_count, append_uint32_array_to_buf, copy_uint32_array_from_buf,
  le_bytes,
}
use platform_system_keymaste.Serial.Laws.{
  Writes-append_uint32_array_to_buf, Reads-copy_uint32_array_from_buf, words, length-words,
  length-le_bytes,
}
use platform_system_keymaste.AuthSet.{Allocator}
use platform_system_keymaste.AuthSet.Wire.Input.{loaded}
use platform_system_keymaste.Messages.Parts.{Part, Part-then, Part-give, Part-same, Carries}
use platform_system_keymaste.Messages.Fields.{IsWhole, IsSent, word-Part, blob-Part, set-Part}
use platform_system_keymaste.Messages.{
  Serializable, KeymasterResponse, keymaster_response, response_size, serialize_response,
  deserialize_response,
}
use platform_system_keymaste.Messages.Responses.{
  NewKey, Characteristics, KeyBytes, Results, Version, Nothing, nothing, nothing_message,
  get_version_response, supported_response, new_key_response, characteristics_response,
  key_bytes_response,
}

pub nothing_message-Carries : (m : Nothing) → Carries nothing_message m m
unfolding nothing_message
nothing_message-Carries nothing = Part-give nothing

-- The three parts of a version are bytes.
abbrev pub AreBytes : Version → Type 0
AreBytes m = (m.major_ver < 256) × (m.minor_ver < 256) × (m.subminor_ver < 256)

pub get_version_response-Carries : (m : Version) → AreBytes m → Carries get_version_response m m
unfolding get_version_response
get_version_response-Carries m (a, b, c) = record {
  image = m.major_ver % 256 ∷ m.minor_ver % 256 ∷ m.subminor_ver % 256 ∷ [];
  sized = omega arith;
  writes = λ w h k. ground arith;
  reads = λ addr rest low. ap (λ v. (some v, cursor (addr + 3) rest)) {y = m} (ground arith);
}

-- Results that can be sent, and got memory for.
abbrev pub AreSendable : Allocator → Results → Type 0
AreSendable al m =
    (length m.results < max_array_count)
    × All (λ v. v < 2 ^ 32) m.results
    × (al.grants_bytes (length m.results * 4) ≡ true)

-- The error in front of a payload.
pub keymaster_response-Carries :
    {A : Type 0} (c : Serializable A) (fresh received : A) (r : KeymasterResponse A)
    → r.error < 2 ^ 32
    → Carries c r.payload received
    → Carries
        (keymaster_response c fresh)
        r
        (record { error = r.error; payload = if r.error == 0 then received else fresh })
unfolding keymaster_response response_size serialize_response deserialize_response
keymaster_response-Carries c fresh received r low part =
    Part-same (Part-then (λ error. _) (word-Part r.error low) (by_error (r.error == 0)))
      (ground arith) refl
  where
    by_error :
        (b : Bool)
        → Part {A = KeymasterResponse _}
            (λ w. if b then c.serialize r.payload w else w)
            (if b then c.size r.payload else 0)
            (if b
              then (c.deserialize >>= λ payload.
                  give (record { error = r.error; payload = payload }))
              else give (record { error = r.error; payload = fresh }))
            (record { error = r.error; payload = if b then received else fresh })
    by_error true = Part-same (Part-then (λ payload. _) part (Part-give _)) (omega arith) refl
    by_error false = Part-give _

module _ (d : KeymasterDefs) (al : Allocator) where
  pub supported_response-Carries :
      (m : Results) → AreSendable al m → Carries (supported_response d al) m m
  unfolding supported_response
  supported_response-Carries m (few, small, granted) =
      Part-same (Part-then (λ vs. _) results-Part (Part-give _)) (omega arith) refl
    where
      results-Part :
          Part
            (append_uint32_array_to_buf m.results)
            (4 + length m.results * 4)
            (copy_uint32_array_from_buf al.grants_bytes)
            m.results
      results-Part = record {
        image = le_bytes 4 (length m.results) ++ words m.results;
        sized = omega (
          arith,
          length-append (le_bytes 4 (length m.results)) (words m.results),
          length-le_bytes 4 (length m.results),
          length-words m.results,
        );
        writes = Writes-append_uint32_array_to_buf m.results few;
        reads = λ addr rest low.
            Reads-copy_uint32_array_from_buf al.grants_bytes m.results few small granted addr rest
              (omega arith);
      }

  pub new_key_response-Carries :
      (m : NewKey)
      → IsWhole al m.key_blob
      → IsSent d al m.enforced
      → IsSent d al m.unenforced
      → Carries
          (new_key_response d al)
          m
          (record m { enforced = loaded m.enforced; unenforced = loaded m.unenforced })
  unfolding new_key_response
  new_key_response-Carries m whole sent sent' =
      Part-same
        (Part-then (λ b. _) (blob-Part al m.key_blob whole)
          (Part-then (λ s. _) (set-Part d al m.enforced sent)
            (Part-then (λ t. _) (set-Part d al m.unenforced sent') (Part-give _))))
        (omega arith) refl

  pub characteristics_response-Carries :
      (m : Characteristics)
      → IsSent d al m.enforced
      → IsSent d al m.unenforced
      → Carries
          (characteristics_response d al)
          m
          (record { enforced = loaded m.enforced; unenforced = loaded m.unenforced })
  unfolding characteristics_response
  characteristics_response-Carries m sent sent' =
      Part-same
        (Part-then (λ s. _) (set-Part d al m.enforced sent)
          (Part-then (λ t. _) (set-Part d al m.unenforced sent') (Part-give _)))
        (omega arith) refl

  pub key_bytes_response-Carries :
      (m : KeyBytes) → IsWhole al m.key_data → Carries (key_bytes_response d al) m m
  unfolding key_bytes_response
  key_bytes_response-Carries m whole =
      Part-same (Part-then (λ b. _) (blob-Part al m.key_data whole) (Part-give _)) (omega arith)
        refl
