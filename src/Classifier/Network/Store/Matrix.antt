-- ===== src/Classifier/Network/Store/Matrix.antt =====
-- A matrix that was saved is loaded again, in the midst of other data.
use nametag.Common.{
  ◌*◌, ◌%◌, ◌^◌, ◌<◌, ◌≡◌, refl, ap, ◌∙◌, false, some, List, [], ◌∷◌, ◌++◌, length, length-append,
  take-append_exact, drop-append_exact, append-nil, append_assoc, All, ◌==◌, arith,
}
use nametag.Common.Bytes.{Bytes}
use nametag.Classifier.Network.Store.{
  Scalar, bytes_of, values_of, save_row, save_rows, save_matrix, load_row, load_rows, load_matrix,
}
use nametag.Utils.Binary.RoundTrip.{
  at_front, next-append, next_2B-le_bytes, next_4B-le_bytes, add_2B-le_bytes, add_4B-le_bytes,
}
use nametag.Utils.Binary.{le_bytes, add_data}

-- What is needed of the copies of a number: they have the same width, and are inverse.
pub record IsScalar {T : Type 0} (t : Scalar T) (x : T) : Type 0 where
  pub wide : length (t.bytes x) ≡ t.width
  pub inverse : t.value (t.bytes x) ≡ x

module _ {T : Type 0} (t : Scalar T) where
  -- A row of fewer than 2 ^ 16 numbers.
  abbrev pub IsStorable : List T → Type 0
  IsStorable row = (length row < 2 ^ 16) × All (IsScalar t) row

  unfoldable pub row_bytes : List T → Bytes
  row_bytes row = le_bytes 2 (length row) ++ bytes_of t row

  unfoldable pub rows_bytes : List (List T) → Bytes
  rows_bytes [] = []
  rows_bytes (row ∷ rows) = row_bytes row ++ rows_bytes rows

  unfoldable pub matrix_bytes : List (List T) → Bytes
  matrix_bytes m = le_bytes 4 (length m) ++ rows_bytes m

  length-bytes_of :
      (row : List T) → All (IsScalar t) row → length (bytes_of t row) ≡ t.width * length row
  unfolding bytes_of
  length-bytes_of [] h = ground arith
  length-bytes_of (x ∷ row) h =
      length-append (t.bytes x) (bytes_of t row) ∙ grind (arith, length-bytes_of row h.1, h.0.wide)

  values_of-bytes_of :
      (row : List T) → All (IsScalar t) row → values_of t (length row) (bytes_of t row) ≡ row
  unfolding values_of bytes_of
  values_of-bytes_of [] h = refl
  values_of-bytes_of (x ∷ row) h = rw (
    take-append_exact t.width (t.bytes x) (bytes_of t row) h.0.wide,
    drop-append_exact t.width (t.bytes x) (bytes_of t row) h.0.wide,
    h.0.inverse,
    values_of-bytes_of row h.1,
  )

  save_row-row_bytes :
      (row : List T) (enc : Bytes)
      → IsStorable row
      → save_row t row enc ≡ some (enc ++ row_bytes row)
  unfolding save_row row_bytes add_data
  save_row-row_bytes row enc h =
      let fits : length row % 2 ^ 32 ≡ length row = omega arith in
      rw (fits, add_2B-le_bytes (length row) enc h.0)
        (ap some (append_assoc enc (le_bytes 2 (length row)) (bytes_of t row)))

  save_rows-rows_bytes :
      (rows : List (List T)) (enc : Bytes)
      → All IsStorable rows
      → save_rows t rows enc ≡ some (enc ++ rows_bytes rows)
  unfolding save_rows rows_bytes
  save_rows-rows_bytes [] enc h = rw append-nil
  save_rows-rows_bytes (row ∷ rows) enc h =
      rw (save_row-row_bytes row enc h.0, save_rows-rows_bytes rows (enc ++ row_bytes row) h.1)
        (ap some (append_assoc enc (row_bytes row) (rows_bytes rows)))

  pub save_matrix-matrix_bytes :
      (m : List (List T)) (enc : Bytes)
      → length m < 2 ^ 32
      → All IsStorable m
      → save_matrix t m enc ≡ some (enc ++ matrix_bytes m)
  unfolding save_matrix matrix_bytes
  save_matrix-matrix_bytes m enc h all =
      let fits : length m % 2 ^ 32 ≡ length m = omega arith in
      rw
        (
          fits,
          add_4B-le_bytes (length m) enc h,
          save_rows-rows_bytes m (enc ++ le_bytes 4 (length m)) all,
        )
        (ap some (append_assoc enc (le_bytes 4 (length m)) (rows_bytes m)))

  load_row-row_bytes :
      (row : List T) (front back : Bytes)
      → IsStorable row
      → load_row t (at_front front (row_bytes row ++ back))
        ≡ some (row, at_front (front ++ row_bytes row) back)
  unfolding load_row row_bytes bytes_of
  load_row-row_bytes [] front back h = rw (append-nil, next_2B-le_bytes 0 front back (omega arith))
  load_row-row_bytes (x ∷ row) front back h =
      let size = length (x ∷ row) in
      let sized = le_bytes 2 size in
      let bytes = bytes_of t (x ∷ row) in
      let some_size : (size == 0) ≡ false = ground arith in
      rw (
        append_assoc sized bytes back,
        next_2B-le_bytes size front (bytes ++ back) h.0,
        some_size,
        next-append (t.width * size) (front ++ sized) bytes back (length-bytes_of (x ∷ row) h.1),
        values_of-bytes_of (x ∷ row) h.1,
        append_assoc front sized bytes,
      )

  load_rows-rows_bytes :
      (rows : List (List T)) (front back : Bytes)
      → All IsStorable rows
      → load_rows t (length rows) (at_front front (rows_bytes rows ++ back))
        ≡ some (rows, at_front (front ++ rows_bytes rows) back)
  unfolding load_rows rows_bytes
  load_rows-rows_bytes [] front back h = rw append-nil
  load_rows-rows_bytes (row ∷ rows) front back h = rw (
    append_assoc (row_bytes row) (rows_bytes rows) back,
    load_row-row_bytes row front (rows_bytes rows ++ back) h.0,
    load_rows-rows_bytes rows (front ++ row_bytes row) back h.1,
    append_assoc front (row_bytes row) (rows_bytes rows),
  )

  pub load_matrix-matrix_bytes :
      (m : List (List T)) (front back : Bytes)
      → length m < 2 ^ 32
      → All IsStorable m
      → load_matrix t (at_front front (matrix_bytes m ++ back))
        ≡ some (m, at_front (front ++ matrix_bytes m) back)
  unfolding load_matrix matrix_bytes
  load_matrix-matrix_bytes m front back h all =
      let counted = le_bytes 4 (length m) in
      rw (
        append_assoc counted (rows_bytes m) back,
        next_4B-le_bytes (length m) front (rows_bytes m ++ back) h,
        load_rows-rows_bytes m (front ++ counted) back all,
        append_assoc front counted (rows_bytes m),
      )
