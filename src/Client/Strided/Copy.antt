-- ===== src/Client/Strided/Copy.antt =====
-- `copy_strided_rows` of apps/client/src/media.rs on every input.
use remotekvm.Base.{
  ℕ, ◌+◌, ◌-◌, ◌*◌, ◌≤◌, ◌<◌, ◌≡◌, ◌≢◌, ◌⊎◌, inl, inr, refl, List, Bool, none, some, ltb, length,
  take, drop, if◌then◌else◌, arith, ne→==, Bool-cases,
}
use remotekvm.Base.Rows.{
  get_elem?, collect, get_slice-in_range, length-get_slice, get_elem?-get_slice,
}
use remotekvm.Base.Grids.{IsGrid, collect_lem}
use native.Mathlib.Nat.{mul-le-mul_left, mul_comm}
use remotekvm.Base.Exec.{ok, err}
use remotekvm.Client.Strided.{
  usize_mod, checked_mul, checked_add, ImageError, source_row, copy_row, copy_strided_rows,
}

module _ (bytes : List ℕ) (rows row_len stride offset : ℕ) (top_down : Bool) where
  -- The bytes up to the end of the last row.
  abbrev pub required : ℕ
  required = offset + (row_len + stride * (rows - 1))

  abbrev pub start : ℕ → ℕ
  start r = offset + source_row rows top_down r * stride

  required_lem :
      checked_add offset (checked_add row_len (checked_mul stride (rows - 1)))
      ≡ (if ltb required usize_mod then some required else none)
  unfolding checked_add checked_mul
  required_lem = ground arith

  row_fits : (r : ℕ) → r < rows → start r + row_len ≤ required
  row_fits r h =
      let row = source_row rows top_down r in
      let last : row ≤ rows - 1 = ground arith in
      omega (arith, mul-le-mul_left stride last, mul_comm row stride)

  copied :
      required ≤ length bytes
      → (out : List ℕ) × (collect rows 0 (copy_row bytes rows row_len stride offset top_down)
          ≡ some out)
        × IsGrid out rows row_len (λ r c. get_elem? bytes (start r + c))
  unfolding copy_row
  copied h =
      collect_lem rows row_len _ (λ r. take row_len (drop (start r) bytes))
        (λ r c. get_elem? bytes (start r + c))
        (λ r hr. get_slice-in_range bytes (start r) row_len (omega (arith, row_fits r hr)))
        (λ r hr. length-get_slice bytes (start r) row_len (omega (arith, row_fits r hr)))
        (λ r c hr hc. get_elem?-get_slice bytes (start r) row_len c hc)

  pub record IsRefused (why : ImageError) : Type 0 where
    pub big : why ≡ (if ltb required usize_mod then ImageError.too_short else ImageError.overflow)
    pub short : length bytes < required

  -- What a copy is: the pixel bytes of each row, from the row of the source that the order asks for.
  abbrev pub IsCopy : List ℕ → Type 0
  IsCopy out = IsGrid out rows row_len (λ r c. get_elem? bytes (start r + c))

  -- A copy of a rectangle with at least one byte, out of a buffer whose length is a `usize`: it
  -- succeeds exactly when the buffer reaches to the end of the last row; then each byte of each row
  -- is that of the source, the rows turned over where the source is stored bottom-up. Else it is
  -- refused, as an overflow where the end of the last row is no `usize`. No slice is out of range.
  pub copy_strided_rows_lem :
      rows ≢ 0
      → row_len ≢ 0
      → length bytes < usize_mod
      → ((out : List ℕ) × (required ≤ length bytes)
          × (copy_strided_rows bytes rows row_len stride offset top_down ≡ some (ok out))
          × IsCopy out)
        ⊎ ((why : ImageError) × (copy_strided_rows bytes rows row_len stride offset top_down
              ≡ some (err why))
            × IsRefused why)
  unfolding copy_strided_rows
  copy_strided_rows_lem some_rows some_bytes small =
      rw (ne→== rows 0 some_rows, ne→== row_len 0 some_bytes, required_lem)
        (elim (Bool-cases (ltb required usize_mod)) [
          | inr big ↦
              inr (
                ImageError.overflow,
                rw big refl,
                record { big = rw big refl; short = ground arith },
              )
          | inl fits ↦ elim (Bool-cases (ltb (length bytes) required)) [
            | inl short ↦ inr (
              ImageError.too_short,
              rw (fits, short) refl,
              record { big = rw fits refl; short = ground arith },
            )
            | inr long ↦
                let (out, e, g) = copied (ground arith) in
                inl (out, ground arith, rw (fits, long, e) refl, g)
          ]
        ])
