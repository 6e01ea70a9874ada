-- ===== src/Tests/Buffering.antt =====
-- Witnesses for class Buffer of serializable.h.
use platform_system_keymaste.Common.{
  ℕ, List, ◌≡◌, ◌++◌, refl, true, false, [], ◌∷◌, some, none, arith, length, take, drop, leb,
  if◌then◌else◌,
}
use platform_system_keymaste.Buffers.{
  Buffer, readable, available_write, available_read, write, read,
}
use platform_system_keymaste.Buffers.Laws.{IsBuffer, write-readable, read-readable}

-- Four bytes of memory, of which the second can be read.
abbrev pub small_buffer : Buffer
small_buffer = record {
  bytes = 1 ∷ 2 ∷ 0 ∷ 0 ∷ [];
  buffer_size = 4;
  read_position = 1;
  write_position = 2;
}

abbrev two_bytes : List ℕ
two_bytes = 3 ∷ 4 ∷ []

pub small_buffer-IsBuffer : IsBuffer small_buffer
small_buffer-IsBuffer = record {
  memory = refl;
  small = omega arith;
  behind = omega arith;
  inside = omega arith;
}

write-readable_example :
    IsBuffer ((write two_bytes small_buffer).1)
    × (if leb (length two_bytes) (available_write small_buffer)
        then ((write two_bytes small_buffer).0 ≡ true)
          × (readable ((write two_bytes small_buffer).1) ≡ readable small_buffer ++ two_bytes)
        else ((write two_bytes small_buffer).0 ≡ false)
          × ((write two_bytes small_buffer).1 ≡ small_buffer))
write-readable_example = write-readable two_bytes small_buffer small_buffer-IsBuffer

read-readable_example :
    IsBuffer ((read 1 small_buffer).1)
    × (if leb 1 (available_read small_buffer)
        then ((read 1 small_buffer).0 ≡ some (take 1 (readable small_buffer)))
          × (readable ((read 1 small_buffer).1) ≡ drop 1 (readable small_buffer))
        else ((read 1 small_buffer).0 ≡ none) × ((read 1 small_buffer).1 ≡ small_buffer))
read-readable_example = read-readable 1 small_buffer small_buffer-IsBuffer
