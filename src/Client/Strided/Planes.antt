-- ===== src/Client/Strided/Planes.antt =====
-- The two planes of an NV12 image, in `copy_strided_nv12` of apps/client/src/media.rs.
use remotekvm.Base.{
  ℕ, ◌+◌, ◌-◌, ◌*◌, ◌/◌, ◌%◌, ◌≤◌, ◌<◌, ◌≡◌, ◌≢◌, inl, inr, refl, ap, List, ◌++◌, Bool, some,
  length, max, arith, length-append,
}
use native.Mathlib.Nat.{mul-add, mul-le-mul_right}
use remotekvm.Base.Exec.{ok}
use remotekvm.Client.Strided.{
  usize_mod, checked_mul, copy_strided_rows, copy_strided_nv12, VideoPixelFormat,
  copy_strided_video_image,
}
use remotekvm.Client.Strided.Copy.{required, IsCopy, copy_strided_rows_lem}

in_range : (a b : ℕ) → a * b < usize_mod → checked_mul a b ≡ some (a * b)
unfolding checked_mul
in_range a b h = ground arith

last_row : (s h : ℕ) → h ≢ 0 → s * (h - 1) + s ≡ s * h
last_row s h some_rows =
    let e : s * (h - 1 + 1) ≡ s * h = ap (λ k. s * k) (omega arith) in
    omega (arith, e, mul-add s (h - 1) 1)

halves : (h w : ℕ) → h % 2 ≡ 0 → 2 * (h * w + h / 2 * w) ≡ 3 * (w * h)
halves h w even = let e : h ≡ 2 * (h / 2) = omega arith in grind arith

copied_rows :
    (bytes : List ℕ) (rows row_len stride offset : ℕ) (top_down : Bool)
    → rows ≢ 0
    → row_len ≢ 0
    → length bytes < usize_mod
    → required bytes rows row_len stride offset top_down ≤ length bytes
    → (out : List ℕ) × (copy_strided_rows bytes rows row_len stride offset top_down ≡ some (ok out))
      × IsCopy bytes rows row_len stride offset top_down out
copied_rows bytes rows row_len stride offset top_down r l small fits =
    elim (copy_strided_rows_lem bytes rows row_len stride offset top_down r l small) [
      | inl (out, _, e, g) ↦ (out, e, g)
      | inr (why, _, refused) ↦ absurd (omega (arith, refused.short))
    ]

nv12_runs :
    (bytes : List ℕ) (width height stride : ℕ) (top_down : Bool) (luma uv : List ℕ)
    → width % 2 ≡ 0
    → height % 2 ≡ 0
    → width * height < usize_mod
    → max stride width * height < usize_mod
    → copy_strided_rows bytes height width (max stride width) 0 top_down ≡ some (ok luma)
    → copy_strided_rows bytes
        (height / 2)
        width
        (max stride width)
        (max stride width * height)
        top_down
      ≡ some (ok uv)
    → copy_strided_nv12 bytes width height stride top_down ≡ some (ok (luma ++ uv))
unfolding copy_strided_nv12
nv12_runs bytes width height stride top_down luma uv ew eh area size el eu =
    rw (ew, eh, in_range width height area, in_range (max stride width) height size, el, eu) refl

-- An NV12 image of even dimensions, neither of them zero, whose buffer reaches to the end of the
-- last row of the second plane, for rows at least as long as the image is wide: the copy is the rows
-- of the first plane and then the half as many of the second, which begins below the last row of
-- the first, each plane in the order that was asked for; three bytes for each two pixels.
pub nv12_planes :
    (bytes : List ℕ) (width height stride : ℕ) (top_down : Bool)
    → width % 2 ≡ 0
    → height % 2 ≡ 0
    → width ≢ 0
    → height ≢ 0
    → length bytes < usize_mod
    → required bytes (height / 2) width (max stride width) (max stride width * height) top_down
      ≤ length bytes
    → (luma : List ℕ) × (uv : List ℕ) × (copy_strided_video_image bytes width height
          VideoPixelFormat.nv12 stride top_down
        ≡ some (ok (luma ++ uv)))
      × IsCopy bytes height width (max stride width) 0 top_down luma
      × IsCopy bytes (height / 2) width (max stride width) (max stride width * height) top_down uv
      × (2 * length (luma ++ uv) ≡ 3 * (width * height))
unfolding copy_strided_video_image
nv12_planes bytes width height stride top_down ew eh w h small fits =
    let step = max stride width in
    let wide : width ≤ step = ground arith in
    let area : width * height ≤ step * height = mul-le-mul_right height wide in
    let last : step * (height - 1) + step ≡ step * height = last_row step height h in
    let (luma, el, gl) =
      copied_rows bytes height width step 0 top_down h w small (omega (arith, wide, last)) in
    let (uv, eu, gu) =
      copied_rows bytes (height / 2) width step (step * height) top_down (omega arith) w small
        fits in
    (
      luma,
      uv,
      nv12_runs bytes width height stride top_down luma uv ew eh (omega (arith, area)) (omega arith)
          el eu,
      gl,
      gu,
      omega (arith, length-append luma uv, gl.size, gu.size, halves height width eh),
    )
