-- ===== src/Utils/Binary/Bounds.antt =====
-- The decoder never reads outside of its buffer.
use nametag.Common.{
  ℕ, ◌+◌, ◌≤◌, ◌≡◌, ◌⊎◌, inl, inr, some, length, length-take, length-drop, drop, arith, Bool-cases,
  >>=-eq-some, ◌==◌,
}
use nametag.Common.Bytes.{Bytes}
use nametag.Utils.Binary.{BinaryDecoder, next, next_number, next_1B, next_4B, next_str}

-- The decoder stands in its buffer or at its end.
abbrev pub IsInside : BinaryDecoder → Type 0
IsInside d = d.data_pos ≤ length d.buffer

next-IsInside :
    (n : ℕ) (d : BinaryDecoder) (bytes : Bytes) (d' : BinaryDecoder)
    → next n d ≡ some (bytes, d')
    → (d'.buffer ≡ d.buffer) × (d'.data_pos ≡ d.data_pos + n) × IsInside d' × (length bytes ≡ n)
unfolding next
next-IsInside n d bytes d' e =
    ground (arith, length-take n (drop d.data_pos d.buffer), length-drop d.data_pos d.buffer)

next_number-IsInside :
    (n : ℕ) (d : BinaryDecoder) (v : ℕ) (d' : BinaryDecoder)
    → next_number n d ≡ some (v, d')
    → (d'.buffer ≡ d.buffer) × (d'.data_pos ≡ d.data_pos + n) × IsInside d'
unfolding next_number
next_number-IsInside n d v d' e =
    let ((bytes, read), p, q) = >>=-eq-some (next n d) _ e in
    ground (arith, next-IsInside n d bytes read p)

next_1B-IsInside :
    (d : BinaryDecoder) (v : ℕ) (d' : BinaryDecoder)
    → next_1B d ≡ some (v, d')
    → (d'.buffer ≡ d.buffer) × (d'.data_pos ≡ d.data_pos + 1) × IsInside d'
unfolding next_1B
next_1B-IsInside d v d' e = next_number-IsInside 1 d v d' e

next_4B-IsInside :
    (d : BinaryDecoder) (v : ℕ) (d' : BinaryDecoder)
    → next_4B d ≡ some (v, d')
    → (d'.buffer ≡ d.buffer) × (d'.data_pos ≡ d.data_pos + 4) × IsInside d'
unfolding next_4B
next_4B-IsInside d v d' e = next_number-IsInside 4 d v d' e

-- A string that is read leaves the decoder in its buffer, which is not changed, behind the one or
-- five bytes of the length and the bytes of the string.
pub next_str-IsInside :
    (d : BinaryDecoder) (str : Bytes) (d' : BinaryDecoder)
    → next_str d ≡ some (str, d')
    → (d'.buffer ≡ d.buffer)
      × IsInside d'
      × ((d'.data_pos ≡ d.data_pos + 1 + length str) ⊎ (d'.data_pos ≡ d.data_pos + 5 + length str))
unfolding next_str
next_str-IsInside d str d' e =
    let ((len, first), p, q) = >>=-eq-some (next_1B d) _ e in
    let inside = next_1B-IsInside d len first p in
    elim (Bool-cases (len == 255)) [
      | inl long ↦
          let ((size, second), r, s) = >>=-eq-some (next_4B first) _ (rw long at q) in
          ground (arith, next_4B-IsInside first size second r, next-IsInside size second str d' s)
      | inr short ↦ ground (arith, next-IsInside len first str d' (rw short at q))
    ]
