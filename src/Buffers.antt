-- ===== src/Buffers.antt =====
-- class Buffer of include/keymaster/serializable.h and serializable.cpp: a block of memory with a
-- position to read from and a position to write to.
pub mod Laws
use platform_system_keymaste.Common.{
  ℕ, ◌+◌, ◌-◌, ◌%◌, ◌^◌, Bool, true, false, List, [], ◌++◌, Option, none, some, length, take, drop,
  ltb, leb, if◌then◌else◌,
}
use platform_system_keymaste.Serial.{
  Writer, Cursor, append_size_and_data_to_buf, copy_size_and_data_from_buf,
}

-- `bytes` is the memory behind `buffer_`.
pub record Buffer : Type 0 where
  pub bytes : List ℕ
  pub buffer_size : ℕ
  pub read_position : ℕ
  pub write_position : ℕ

-- `new (std::nothrow) uint8_t[n]`: whether it is granted, and what the memory holds.
pub record Memory : Type 0 where
  pub grants : ℕ → Bool
  pub fresh : ℕ → List ℕ

-- `Clear`.
unfoldable pub clear_buffer : Buffer
clear_buffer = record { bytes = []; buffer_size = 0; read_position = 0; write_position = 0 }

-- The difference of two unsigned numbers of 64 bits.
abbrev difference : ℕ → ℕ → ℕ
difference a b = (a + 2 ^ 64 - b) % 2 ^ 64

unfoldable pub available_write : Buffer → ℕ
available_write b = difference b.buffer_size b.write_position

unfoldable pub available_read : Buffer → ℕ
available_read b = difference b.write_position b.read_position

-- `memcpy(memory + at, src, length)`.
abbrev pub overwrite : ℕ → List ℕ → List ℕ → List ℕ
overwrite position src memory = take position memory ++ (src ++ drop (position + length src) memory)

-- The bytes that can be read, from `peek_read` on.
unfoldable pub readable : Buffer → List ℕ
unfolding available_read
readable b = take (available_read b) (drop b.read_position b.bytes)

-- Where the new size wraps, the code copies past the new array; here the list is longer than the size.
unfoldable pub reserve : Memory → ℕ → Buffer → Bool × Buffer
unfolding available_write readable
reserve mem size b =
    if ltb (available_write b) size
    then (let new_size = difference ((b.buffer_size + size) % 2 ^ 64) (available_write b) in
        if mem.grants new_size
        then (
          true,
          record {
            bytes = overwrite 0 (readable b) (mem.fresh new_size);
            buffer_size = new_size;
            read_position = 0;
            write_position = difference b.write_position b.read_position;
          },
        )
        else (false, b))
    else (true, b)

-- `Reinitialize(size)`.
unfoldable pub reinitialize_size : Memory → ℕ → Bool × Buffer
unfolding clear_buffer
reinitialize_size mem size =
    if mem.grants size
    then (true, record clear_buffer { bytes = mem.fresh size; buffer_size = size })
    else (false, clear_buffer)

-- `Reinitialize(data, data_len)` of the bytes at an address.
unfoldable pub reinitialize_data : Memory → ℕ → List ℕ → Bool × Buffer
unfolding clear_buffer
reinitialize_data mem addr xs =
    if ltb ((addr + length xs) % 2 ^ 64) addr
    then (false, clear_buffer)
    else if mem.grants (length xs)
    then (
      true,
      record {
        bytes = overwrite 0 xs (mem.fresh (length xs));
        buffer_size = length xs;
        read_position = 0;
        write_position = length xs;
      },
    )
    else (false, clear_buffer)

unfoldable pub write : List ℕ → Buffer → Bool × Buffer
unfolding available_write
write src b = if ltb (available_write b) (length src) then (false, b) else (
  true,
  record b {
    bytes = overwrite b.write_position src b.bytes;
    write_position = (b.write_position + length src) % 2 ^ 64;
  },
)

-- `read`: the bytes, none where it returns false.
unfoldable pub read : ℕ → Buffer → Option (List ℕ) × Buffer
unfolding available_read
read read_length b = if ltb (available_read b) read_length then (none, b) else (
  some (take read_length (drop b.read_position b.bytes)),
  record b { read_position = (b.read_position + read_length) % 2 ^ 64 },
)

-- The distance is an `int`, converted to 64 bits by the sum.
unfoldable pub advance_read : ℕ → Buffer → Bool × Buffer
advance_read distance b =
    if leb ((b.read_position + distance) % 2 ^ 64) b.write_position
    then (true, record b { read_position = (b.read_position + distance) % 2 ^ 64 })
    else (false, b)

unfoldable pub advance_write : ℕ → Buffer → Bool × Buffer
advance_write distance b =
    if leb ((b.write_position + distance) % 2 ^ 64) b.buffer_size
    then (true, record b { write_position = (b.write_position + distance) % 2 ^ 64 })
    else (false, b)

unfoldable pub buffer_serialized_size : Buffer → ℕ
unfolding available_read
buffer_serialized_size b = 4 + available_read b

unfoldable pub serialize_buffer : Buffer → Writer → Writer
unfolding readable append_size_and_data_to_buf
serialize_buffer b w = append_size_and_data_to_buf (readable b) w

-- What `Deserialize` leaves of a buffer that `Clear` has emptied, after the copy.
unfoldable pub filled_buffer : Option (List ℕ) × Cursor → Bool × Buffer × Cursor
unfolding clear_buffer
filled_buffer (none, c) = (false, clear_buffer, c)
filled_buffer (some xs, c) = (
  true,
  record { bytes = xs; buffer_size = length xs; read_position = 0; write_position = length xs },
  c,
)

unfoldable pub deserialize_buffer : (ℕ → Bool) → Cursor → Bool × Buffer × Cursor
unfolding copy_size_and_data_from_buf filled_buffer
deserialize_buffer grants c = filled_buffer (copy_size_and_data_from_buf grants c)
