-- ===== src/Utils/Binary/RoundTrip.antt =====
-- What the encoder writes, the decoder reads back, in the midst of other data.
use nametag.Common.{
  ◌>>=◌, ℕ, zero, suc, ◌/◌, ◌%◌, ◌^◌, ◌≤◌, ◌<◌, ◌≡◌, refl, ap, ◌∙◌, false, true, inl, inr, Option,
  none, [], append-nil, some, ◌++◌, length, length-append, take-append_exact, drop-append_exact,
  ltb, ltb→lt, arith, Bool-cases, append_assoc, if◌then◌else◌, ◌==◌,
}
use nametag.Common.Bytes.{Bytes}
use nametag.Utils.Binary.{
  le_bytes, le_value, add_1B, add_2B, add_4B, add_data, add_str, BinaryDecoder, next, next_number,
  next_1B, next_2B, next_4B, next_str, is_end,
}
use native.Mathlib.Nat.{pow-suc}

length-le_bytes : (n v : ℕ) → length (le_bytes n v) ≡ n
unfolding le_bytes
length-le_bytes zero v = refl
length-le_bytes (suc n) v = ap suc (length-le_bytes n (v / 256))

-- A number below 256 ^ n is the value of its n bytes.
le_value-le_bytes : (n v : ℕ) → v < 256 ^ n → le_value (le_bytes n v) ≡ v
unfolding le_value le_bytes
le_value-le_bytes zero v h = omega arith
le_value-le_bytes (suc n) v h =
    omega (arith, le_value-le_bytes n (v / 256) (omega (arith, pow-suc 256 n)))

-- The decoder behind `front`.
abbrev pub at_front : Bytes → Bytes → BinaryDecoder
at_front front rest = record { buffer = front ++ rest; data_pos = length front }

pub next-append :
    (n : ℕ) (front bytes back : Bytes)
    → length bytes ≡ n
    → next n (at_front front (bytes ++ back)) ≡ some (bytes, at_front (front ++ bytes) back)
unfolding next
next-append n front bytes back h = ground (
  arith,
  drop-append_exact (length front) front (bytes ++ back) refl,
  take-append_exact n bytes back h,
  length-append front (bytes ++ back),
  length-append bytes back,
  length-append front bytes,
  append_assoc front bytes back,
)

-- A number that was written by its `n` bytes.
pub next_number-append :
    (n v : ℕ) (front back : Bytes)
    → v < 256 ^ n
    → next_number n (at_front front (le_bytes n v ++ back))
      ≡ some (v, at_front (front ++ le_bytes n v) back)
unfolding next_number
next_number-append n v front back h =
    rw (next-append n front (le_bytes n v) back (length-le_bytes n v))
      (rw (le_value-le_bytes n v h))

pub add_1B-le_bytes : (v : ℕ) (enc : Bytes) → v < 256 → add_1B v enc ≡ some (enc ++ le_bytes 1 v)
unfolding add_1B
add_1B-le_bytes v enc h = ground arith

pub add_4B-le_bytes : (v : ℕ) (enc : Bytes) → v < 2 ^ 32 → add_4B v enc ≡ some (enc ++ le_bytes 4 v)
unfolding add_4B
add_4B-le_bytes v enc h = ground arith

pub next_1B-le_bytes :
    (v : ℕ) (front back : Bytes)
    → v < 256
    → next_1B (at_front front (le_bytes 1 v ++ back))
      ≡ some (v, at_front (front ++ le_bytes 1 v) back)
unfolding next_1B
next_1B-le_bytes v front back h = next_number-append 1 v front back h

pub next_4B-le_bytes :
    (v : ℕ) (front back : Bytes)
    → v < 2 ^ 32
    → next_4B (at_front front (le_bytes 4 v ++ back))
      ≡ some (v, at_front (front ++ le_bytes 4 v) back)
unfolding next_4B
next_4B-le_bytes v front back h = next_number-append 4 v front back h

-- What `add_str` appends for a string of fewer than 2 ^ 32 bytes.
unfoldable pub str_bytes : Bytes → Bytes
str_bytes str =
    if ltb (length str) 255
    then le_bytes 1 (length str) ++ str
    else le_bytes 1 255 ++ (le_bytes 4 (length str) ++ str)

pub add_str-str_bytes :
    (str enc : Bytes) → length str < 2 ^ 32 → add_str str enc ≡ some (enc ++ str_bytes str)
unfolding add_str str_bytes add_data
add_str-str_bytes str enc h = elim (Bool-cases (ltb (length str) 255)) [
  | inl short ↦
      rw (short, add_1B-le_bytes (length str) enc (ground arith))
        (ap some (append_assoc enc (le_bytes 1 (length str)) str))
  | inr long ↦
      let mark = enc ++ le_bytes 1 255 in
      let same : length str % 2 ^ 32 ≡ length str = omega arith in
      rw (long, add_1B-le_bytes 255 enc (omega arith), same, add_4B-le_bytes (length str) mark h)
        (ap some (
          append_assoc mark (le_bytes 4 (length str)) str
          ∙ append_assoc enc (le_bytes 1 255) (le_bytes 4 (length str) ++ str)))
]

-- The next string is read behind `front` and in front of `back`.
pub next_str-str_bytes :
    (str front back : Bytes)
    → length str < 2 ^ 32
    → next_str (at_front front (str_bytes str ++ back))
      ≡ some (str, at_front (front ++ str_bytes str) back)
unfolding next_str str_bytes
next_str-str_bytes str front back h = elim (Bool-cases (ltb (length str) 255)) [
  | inl short ↦
      let len = le_bytes 1 (length str) in
      let differs : (length str == 255) ≡ false = ground arith in
      rw (
        short,
        append_assoc len str back,
        next_1B-le_bytes (length str) front (str ++ back) (ground arith),
        differs,
        next-append (length str) (front ++ len) str back refl,
        append_assoc front len str,
      )
  | inr long ↦
      let mark = le_bytes 1 255 in
      let len = le_bytes 4 (length str) in
      rw (
        long,
        append_assoc mark (len ++ str) back,
        append_assoc len str back,
        next_1B-le_bytes 255 front (len ++ (str ++ back)) (omega arith),
        next_4B-le_bytes (length str) (front ++ mark) (str ++ back) h,
        next-append (length str) (front ++ mark ++ len) str back refl,
        append_assoc (front ++ mark) len str,
        append_assoc front mark (len ++ str),
      )
]

-- A string of fewer than 2 ^ 32 bytes can be added, and the decoder that stands where it was added
-- reads it back and stands behind it, whatever stands before and behind.
pub next_str-add_str :
    (str front back : Bytes)
    → length str < 2 ^ 32
    → (enc : Bytes) × (add_str str front ≡ some enc)
      × (next_str (record { buffer = enc ++ back; data_pos = length front })
          ≡ some (str, record { buffer = enc ++ back; data_pos = length enc }))
next_str-add_str str front back h = (
  front ++ str_bytes str,
  add_str-str_bytes str front h,
  rw (append_assoc front (str_bytes str) back)
      (rw (next_str-str_bytes str front back h) (rw (append_assoc front (str_bytes str) back))),
)

-- One number of `n` bytes, added by a function that checks that it fits.
round_trip :
    (n v : ℕ) (front back : Bytes) (added : Option Bytes)
    → (v < 256 ^ n → added ≡ some (front ++ le_bytes n v))
    → (256 ^ n ≤ v → added ≡ none)
    → (added >>= λ enc. next_number n (record { buffer = enc ++ back; data_pos = length front }))
      ≡ (if ltb v (256 ^ n) then some (v, at_front (front ++ le_bytes n v) back) else none)
round_trip n v front back added fits fails = elim (Bool-cases (ltb v (256 ^ n))) [
  | inl small ↦
      let less = ltb→lt v (256 ^ n) small in
      rw (small, fits less, append_assoc front (le_bytes n v) back)
        (next_number-append n v front back less ∙ rw (append_assoc front (le_bytes n v) back))
  | inr large ↦ rw (large, fails (ground arith))
]

-- Numbers of one, two and four bytes are added exactly if they fit, and are then read back.
pub next-add_number :
    (v : ℕ) (front back : Bytes)
    → ((add_1B v front >>= λ enc.
          next_1B (record { buffer = enc ++ back; data_pos = length front }))
        ≡ (if ltb v (2 ^ 8) then some (v, at_front (front ++ le_bytes 1 v) back) else none))
      × ((add_2B v front >>= λ enc.
            next_2B (record { buffer = enc ++ back; data_pos = length front }))
          ≡ (if ltb v (2 ^ 16) then some (v, at_front (front ++ le_bytes 2 v) back) else none))
      × ((add_4B v front >>= λ enc.
            next_4B (record { buffer = enc ++ back; data_pos = length front }))
          ≡ (if ltb v (2 ^ 32) then some (v, at_front (front ++ le_bytes 4 v) back) else none))
unfolding add_1B add_2B add_4B next_1B next_2B next_4B
next-add_number v front back = (
  round_trip 1 v front back (add_1B v front) (λ h. ground arith) (λ h. ground arith),
  round_trip 2 v front back (add_2B v front) (λ h. ground arith) (λ h. ground arith),
  round_trip 4 v front back (add_4B v front) (λ h. ground arith) (λ h. ground arith),
)

pub add_2B-le_bytes : (v : ℕ) (enc : Bytes) → v < 2 ^ 16 → add_2B v enc ≡ some (enc ++ le_bytes 2 v)
unfolding add_2B
add_2B-le_bytes v enc h = ground arith

pub next_2B-le_bytes :
    (v : ℕ) (front back : Bytes)
    → v < 2 ^ 16
    → next_2B (at_front front (le_bytes 2 v ++ back))
      ≡ some (v, at_front (front ++ le_bytes 2 v) back)
unfolding next_2B
next_2B-le_bytes v front back h = next_number-append 2 v front back h

pub is_end-at_front : (front : Bytes) → is_end (at_front front []) ≡ true
unfolding is_end
is_end-at_front front = rw append-nil (ground arith)
