-- ===== src/Client/Strided.antt =====
-- Copies of images whose rows lie `stride` bytes apart, and which may be stored bottom-up:
-- `copy_strided_video_image` and its callees in apps/client/src/media.rs. `usize` has 64 bits; the
-- outer `none` is the panic of a slice out of range. The capacity that the vector is given first,
-- `rows * row_len`, is not modelled: memory is taken to suffice for it.
pub mod Copy
pub mod Planes
use remotekvm.Base.{
  ℕ, ◌+◌, ◌-◌, ◌*◌, ◌/◌, ◌%◌, List, [], ◌++◌, Bool, true, false, not, ◌||◌, Option, none, some,
  ◌==◌, ltb, length, max, if◌then◌else◌,
}
use remotekvm.Base.Rows.{get_slice, collect}
use remotekvm.Base.Exec.{Result, ok, err}

abbrev pub usize_mod : ℕ
usize_mod = 0x1_0000_0000_0000_0000

unfoldable pub checked_mul : ℕ → ℕ → Option ℕ
checked_mul a b = if ltb (a * b) usize_mod then some (a * b) else none

unfoldable pub checked_add : ℕ → Option ℕ → Option ℕ
checked_add a none = none
checked_add a (some b) = if ltb (a + b) usize_mod then some (a + b) else none

pub data ImageError : Type 0 where
  overflow : ImageError
  too_short : ImageError
  odd_dimensions : ImageError
  unsupported_format : ImageError

abbrev pub Copied : Type 0
Copied = Option (Result ImageError (List ℕ))

abbrev pub filled : Option (List ℕ) → Copied
filled none = none
filled (some out) = some (ok out)

abbrev pub source_row : ℕ → Bool → ℕ → ℕ
source_row rows top_down row = if top_down then row else rows - 1 - row

module _ (bytes : List ℕ) (rows row_len stride offset : ℕ) (top_down : Bool) where
  unfoldable pub copy_row : ℕ → Option (List ℕ)
  copy_row row = get_slice bytes (offset + source_row rows top_down row * stride) row_len

  abbrev pub copy_checked : Option ℕ → Copied
  copy_checked none = some (err ImageError.overflow)
  copy_checked (some required) =
      if ltb (length bytes) required
      then some (err ImageError.too_short)
      else filled (collect rows 0 copy_row)

  unfoldable pub copy_strided_rows : Copied
  copy_strided_rows =
      if rows == 0 || row_len == 0
      then some (ok [])
      else copy_checked (checked_add offset (checked_add row_len (checked_mul stride (rows - 1))))

abbrev pub row_bytes : Option ℕ → (ℕ → Copied) → Copied
row_bytes none go_on = some (err ImageError.overflow)
row_bytes (some n) go_on = go_on n

unfoldable pub copy_strided_bgra : List ℕ → ℕ → ℕ → ℕ → Bool → Copied
copy_strided_bgra bytes width height stride top_down =
    row_bytes (checked_mul width 4)
      λ row_len. copy_strided_rows bytes height row_len (max stride row_len) 0 top_down

abbrev pub then_copy : Copied → (List ℕ → Copied) → Copied
then_copy none go_on = none
then_copy (some (err e)) go_on = some (err e)
then_copy (some (ok out)) go_on = go_on out

unfoldable pub copy_strided_nv12 : List ℕ → ℕ → ℕ → ℕ → Bool → Copied
copy_strided_nv12 bytes width height stride top_down =
    let step = max stride width in
    let planes = row_bytes (checked_mul width height) λ y_len.
      row_bytes (checked_mul step height) λ uv_offset.
        then_copy (copy_strided_rows bytes height width step 0 top_down) λ luma.
          then_copy (copy_strided_rows bytes (height / 2) width step uv_offset top_down)
            λ uv. some (ok (luma ++ uv)) in
    if not (width % 2 == 0) || not (height % 2 == 0)
    then some (err ImageError.odd_dimensions)
    else planes

pub data VideoPixelFormat : Type 0 where
  bgra8 : VideoPixelFormat
  rgba8 : VideoPixelFormat
  nv12 : VideoPixelFormat
  i420 : VideoPixelFormat

unfoldable pub copy_strided_video_image : List ℕ → ℕ → ℕ → VideoPixelFormat → ℕ → Bool → Copied
copy_strided_video_image bytes width height VideoPixelFormat.bgra8 stride top_down =
    copy_strided_bgra bytes width height stride top_down
copy_strided_video_image bytes width height VideoPixelFormat.nv12 stride top_down =
    copy_strided_nv12 bytes width height stride top_down
copy_strided_video_image bytes width height VideoPixelFormat.rgba8 stride top_down =
    some (err ImageError.unsupported_format)
copy_strided_video_image bytes width height VideoPixelFormat.i420 stride top_down =
    some (err ImageError.unsupported_format)
