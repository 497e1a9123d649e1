-- ===== src/Utils/Binary.antt =====
-- src/utils/binary_encoder.h and binary_decoder.h: numbers and strings in a buffer of bytes.
-- Numbers are copied as they lie in memory, which is lowest byte first on the machines that the
-- models are made for. `runtime_failure` ends the program and `binary_decoder_error` is thrown:
-- both are the result `none`.
pub mod RoundTrip
pub mod Bounds
use nametag.Common.{
  ◌>>=◌, ℕ, zero, suc, ◌+◌, ◌*◌, ◌/◌, ◌%◌, ◌^◌, Bool, not, Option, none, some, List, [], ◌∷◌, ◌++◌,
  length, take, drop, ltb, leb, ◌==◌, if◌then◌else◌,
}
use nametag.Common.Bytes.{Bytes}

-- The `n` bytes of a number in memory.
unfoldable pub le_bytes : ℕ → ℕ → Bytes
le_bytes zero val = []
le_bytes (suc n) val = val % 256 ∷ le_bytes n (val / 256)

unfoldable pub le_value : Bytes → ℕ
le_value [] = 0
le_value (b ∷ bytes) = b + 256 * le_value bytes

-- The encoder is its vector `data`.
unfoldable pub add_1B : ℕ → Bytes → Option Bytes
unfolding le_bytes
add_1B val enc = if val % 2 ^ 8 == val then some (enc ++ le_bytes 1 val) else none

unfoldable pub add_2B : ℕ → Bytes → Option Bytes
unfolding le_bytes
add_2B val enc = if val % 2 ^ 16 == val then some (enc ++ le_bytes 2 val) else none

unfoldable pub add_4B : ℕ → Bytes → Option Bytes
unfolding le_bytes
add_4B val enc = if val % 2 ^ 32 == val then some (enc ++ le_bytes 4 val) else none

unfoldable pub add_data : Bytes → Bytes → Bytes
add_data bytes enc = enc ++ bytes

-- A length is a `size_t`; as the argument of `add_4B` it becomes an `unsigned`.
unfoldable pub add_str : Bytes → Bytes → Option Bytes
add_str str enc =
    if ltb (length str) 255
    then (do short ← add_1B (length str) enc; some (add_data str short))
    else (do
      mark ← add_1B 255 enc
      long ← add_4B (length str % 2 ^ 32) mark
      some (add_data str long))

-- `data` is the offset of the next byte in the buffer; `data_end` is the end of the buffer.
pub record BinaryDecoder : Type 0 where
  pub buffer : Bytes
  pub data_pos : ℕ

-- `fill(len)` and the copy of the bytes into the buffer that it returns.
unfoldable pub filled_with : Bytes → BinaryDecoder
filled_with bytes = record { buffer = bytes; data_pos = 0 }

-- `next<char>(elements)`
unfoldable pub next : ℕ → BinaryDecoder → Option (Bytes × BinaryDecoder)
next elements d =
    if ltb (length d.buffer) (d.data_pos + elements)
    then none
    else some
        (take elements (drop d.data_pos d.buffer), record d { data_pos = d.data_pos + elements })

-- A number of `n` bytes.
unfoldable pub next_number : ℕ → BinaryDecoder → Option (ℕ × BinaryDecoder)
unfolding next le_value
next_number n d = do (bytes, d') ← next n d; some (le_value bytes, d')

unfoldable pub next_1B : BinaryDecoder → Option (ℕ × BinaryDecoder)
next_1B = next_number 1

unfoldable pub next_2B : BinaryDecoder → Option (ℕ × BinaryDecoder)
next_2B = next_number 2

unfoldable pub next_4B : BinaryDecoder → Option (ℕ × BinaryDecoder)
next_4B = next_number 4

unfoldable pub next_str : BinaryDecoder → Option (Bytes × BinaryDecoder)
next_str d = do
  (len, d') ← next_1B d
  if len == 255 then (do (long, d'') ← next_4B d'; next long d'') else next len d'

unfoldable pub is_end : BinaryDecoder → Bool
is_end d = leb (length d.buffer) d.data_pos

unfoldable pub tell : BinaryDecoder → ℕ
tell d = d.data_pos

unfoldable pub seek : ℕ → BinaryDecoder → Option BinaryDecoder
seek pos d = if ltb (length d.buffer) pos then none else some (record d { data_pos = pos })
