-- ===== src/Agent/Audio/Capture.antt =====
-- What the capture of apps/agent/src/windows/audio.rs hands to the encoder.
use remotekvm.Base.{
  ℕ, zero, suc, ◌+◌, ◌*◌, ◌≤◌, ◌<◌, ◌≡◌, refl, ap, ◌∙◌, List, [], ◌∷◌, some, map, length, take, All,
  arith,
}
use remotekvm.Base.Rows.{get_slice, chunks_exact, get_slice-in_range, length-get_slice}
use remotekvm.Base.Chunks.{
  All-get_slice, All-chunks_exact, All-All-chunks_exact, length-map, length-chunks_exact,
}
use remotekvm.Agent.Audio.Formats.{
  WasapiFormat, SampleFormat, from_pcm16, from_pcm24, from_pcm32, converted, read_samples,
  copy_as_i16, silence,
}

abbrev pub width : SampleFormat → ℕ
width SampleFormat.float32 = 4
width SampleFormat.pcm16 = 2
width SampleFormat.pcm24 = 3
width SampleFormat.pcm32 = 4

-- The two most significant bytes of a little-endian integer.
abbrev pub high_half : List ℕ → ℕ
high_half [] = 0
high_half (a ∷ []) = 0
high_half (a ∷ b ∷ []) = a + b * 256
high_half (a ∷ b ∷ c ∷ rest) = high_half (b ∷ c ∷ rest)

abbrev pub reference : (List ℕ → ℕ) → SampleFormat → List ℕ → ℕ
reference from_float SampleFormat.float32 = from_float
reference from_float SampleFormat.pcm16 = high_half
reference from_float SampleFormat.pcm24 = high_half
reference from_float SampleFormat.pcm32 = high_half

abbrev pub AreBytes : List ℕ → Type 0
AreBytes = All (λ byte. byte < 256)

from_pcm16_high :
    (chunk : List ℕ) → length chunk ≡ 2 → AreBytes chunk → from_pcm16 chunk ≡ high_half chunk
unfolding from_pcm16
from_pcm16_high [] e h = refl
from_pcm16_high (a ∷ []) e h = refl
from_pcm16_high (a ∷ b ∷ []) e h = refl
from_pcm16_high (a ∷ b ∷ c ∷ rest) e h = absurd (omega (arith, e))

from_pcm24_high :
    (chunk : List ℕ) → length chunk ≡ 3 → AreBytes chunk → from_pcm24 chunk ≡ high_half chunk
unfolding from_pcm24
from_pcm24_high [] e h = refl
from_pcm24_high (a ∷ []) e h = refl
from_pcm24_high (a ∷ b ∷ []) e h = absurd (omega (arith, e))
from_pcm24_high (a ∷ b ∷ c ∷ []) e h = ground arith
from_pcm24_high (a ∷ b ∷ c ∷ d ∷ rest) e h = absurd (omega (arith, e))

from_pcm32_high :
    (chunk : List ℕ) → length chunk ≡ 4 → AreBytes chunk → from_pcm32 chunk ≡ high_half chunk
unfolding from_pcm32
from_pcm32_high [] e h = refl
from_pcm32_high (a ∷ []) e h = refl
from_pcm32_high (a ∷ b ∷ []) e h = absurd (omega (arith, e))
from_pcm32_high (a ∷ b ∷ c ∷ []) e h = absurd (omega (arith, e))
from_pcm32_high (a ∷ b ∷ c ∷ d ∷ []) e h = ground arith
from_pcm32_high (a ∷ b ∷ c ∷ d ∷ x ∷ rest) e h = absurd (omega (arith, e))

map_same :
    (f g : List ℕ → ℕ) (size : ℕ) (xss : List (List ℕ))
    → ((chunk : List ℕ) → length chunk ≡ size → AreBytes chunk → f chunk ≡ g chunk)
    → All (λ chunk. length chunk ≡ size) xss
    → All AreBytes xss
    → map f xss ≡ map g xss
map_same f g size [] same h k = refl
map_same f g size (xs ∷ xss) same h k =
    rw (same xs h.0 k.0, map_same f g size xss same h.1 k.1) refl

-- Reading `count` samples of `size` bytes each.
read :
    (f g : List ℕ → ℕ) (size count : ℕ) (memory : List ℕ)
    → 0 < size
    → count * size ≤ length memory
    → AreBytes memory
    → ((chunk : List ℕ) → length chunk ≡ size → AreBytes chunk → f chunk ≡ g chunk)
    → (converted f size (get_slice memory 0 (count * size))
        ≡ some (map g (chunks_exact size (take (count * size) memory))))
      × (length (map g (chunks_exact size (take (count * size) memory))) ≡ count)
read f g size count memory h fits bytes same =
    let whole = take (count * size) memory in
    (
      rw (get_slice-in_range memory 0 (count * size) (omega arith)) (
          ap some (
            map_same f g size (chunks_exact size whole) same (All-chunks_exact size whole)
              (All-All-chunks_exact _ size whole (All-get_slice _ 0 (count * size) memory bytes)))),
      length-map g (chunks_exact size whole)
          ∙ length-chunks_exact count size whole h
              (length-get_slice memory 0 (count * size) (omega arith)),
    )

-- When the buffer holds `frames` blocks, and a block holds one sample for each channel with nothing
-- between, every format gives one `i16` for each channel of each frame: for the integer formats the
-- two most significant bytes of the sample, whatever its width; for `f32` what the conversion makes
-- of its four bytes.
pub copy_as_i16_lem :
    (from_float : List ℕ → ℕ) (format : WasapiFormat) (memory : List ℕ) (frames : ℕ)
    → format.block_align ≡ format.channels * width format.sample_format
    → frames * format.block_align ≤ length memory
    → AreBytes memory
    → (samples : List ℕ) × (copy_as_i16 from_float format memory frames ≡ some samples)
      × (samples
          ≡ map (reference from_float format.sample_format) (
              chunks_exact
                (width format.sample_format)
                (take (frames * format.block_align) memory)))
      × (length samples ≡ frames * format.channels)
unfolding copy_as_i16
copy_as_i16_lem from_float format memory frames packed fits bytes =
    by_format format.sample_format packed
  where
    by_format :
        (kind : SampleFormat)
        → format.block_align ≡ format.channels * width kind
        → (samples : List ℕ) × (read_samples from_float kind memory
              (frames * format.channels)
              (frames * format.block_align)
            ≡ some samples)
          × (samples
              ≡ map
                  (reference from_float kind)
                  (chunks_exact (width kind) (take (frames * format.block_align) memory)))
          × (length samples ≡ frames * format.channels)
    by_format SampleFormat.float32 e =
        let total : frames * format.block_align ≡ frames * format.channels * 4 =
          rw e (grind arith) in
        let r =
          read from_float from_float 4 (frames * format.channels) memory (omega arith) (omega arith)
            bytes (λ chunk k h. refl) in
        (_, r.0, rw total refl, r.1)
    by_format SampleFormat.pcm16 e =
        let total : frames * format.block_align ≡ frames * format.channels * 2 =
          rw e (grind arith) in
        let r =
          read from_pcm16 high_half 2 (frames * format.channels) memory (omega arith) (omega arith)
            bytes from_pcm16_high in
        (_, r.0, rw total refl, r.1)
    by_format SampleFormat.pcm24 e =
        let total : frames * format.block_align ≡ frames * format.channels * 3 =
          rw e (grind arith) in
        let r =
          read from_pcm24 high_half 3 (frames * format.channels) memory (omega arith) (omega arith)
            bytes from_pcm24_high in
        (_, rw total r.0, rw total refl, r.1)
    by_format SampleFormat.pcm32 e =
        let total : frames * format.block_align ≡ frames * format.channels * 4 =
          rw e (grind arith) in
        let r =
          read from_pcm32 high_half 4 (frames * format.channels) memory (omega arith) (omega arith)
            bytes from_pcm32_high in
        (_, r.0, rw total refl, r.1)

pub length-silence : (n : ℕ) → length (silence n) ≡ n
unfolding silence
length-silence zero = refl
length-silence (suc n) = ap suc (length-silence n)
