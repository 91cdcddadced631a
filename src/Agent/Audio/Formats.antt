-- ===== src/Agent/Audio/Formats.antt =====
-- The formats of a WASAPI mix and the conversion of its samples, `WasapiFormat` of
-- apps/agent/src/windows/audio.rs. The memory behind a pointer is a list of bytes, and a read out of
-- it is `none`. The conversion of an `f32`, given by its bytes, is a parameter. Tags are those of
-- the Windows headers, and a GUID is its 128-bit number.
use remotekvm.Base.{
  ℕ, zero, suc, ◌+◌, ◌-◌, ◌*◌, ◌/◌, ◌%◌, List, [], ◌∷◌, Bool, ◌||◌, Option, none, some, map, ◌==◌,
  ltb, if◌then◌else◌,
}
use remotekvm.Base.Rows.{get_slice, chunks_exact}
use remotekvm.Base.Exec.{Result, ok, err}
use remotekvm.Agent.Audio.{AudioPacket}

abbrev wave_format_pcm : ℕ
wave_format_pcm = 1

abbrev wave_format_ieee_float : ℕ
wave_format_ieee_float = 3

abbrev wave_format_extensible : ℕ
wave_format_extensible = 0xfffe

abbrev subtype_pcm : ℕ
subtype_pcm = 0x00000001_0000_0010_8000_00aa00389b71

abbrev subtype_ieee_float : ℕ
subtype_ieee_float = 0x00000003_0000_0010_8000_00aa00389b71

-- `WAVEFORMATEX`, with the sub-format of the extensible form.
pub record WaveFormat : Type 0 where
  pub format_tag : ℕ
  pub channels : ℕ
  pub samples_per_sec : ℕ
  pub block_align : ℕ
  pub bits_per_sample : ℕ
  pub sub_format : ℕ

pub data SampleFormat : Type 0 where
  float32 : SampleFormat
  pcm16 : SampleFormat
  pcm24 : SampleFormat
  pcm32 : SampleFormat

pub record WasapiFormat : Type 0 where
  pub sample_rate : ℕ
  pub channels : ℕ
  pub bits_per_sample : ℕ
  pub block_align : ℕ
  pub sample_format : SampleFormat

pub data FormatError : Type 0 where
  null_mix_format : FormatError
  unsupported_bit_depth : FormatError
  unsupported_subformat : FormatError
  unsupported_tag : FormatError
  invalid_mix_format : FormatError

unfoldable pub pcm_format : ℕ → Result FormatError SampleFormat
pcm_format bits =
    if bits == 16
    then ok SampleFormat.pcm16
    else if bits == 24
    then ok SampleFormat.pcm24
    else if bits == 32
    then ok SampleFormat.pcm32
    else err FormatError.unsupported_bit_depth

unfoldable pub float_format : ℕ → Result FormatError SampleFormat
float_format bits =
    if bits == 32 then ok SampleFormat.float32 else err FormatError.unsupported_bit_depth

unfoldable pub sample_format_of : WaveFormat → Result FormatError SampleFormat
unfolding pcm_format float_format
sample_format_of w =
    if w.format_tag == wave_format_pcm
    then pcm_format w.bits_per_sample
    else if w.format_tag == wave_format_ieee_float
    then float_format w.bits_per_sample
    else if w.format_tag == wave_format_extensible
    then if w.sub_format == subtype_pcm
      then pcm_format w.bits_per_sample
      else if w.sub_format == subtype_ieee_float
      then float_format w.bits_per_sample
      else err FormatError.unsupported_subformat
    else err FormatError.unsupported_tag

unfoldable pub checked :
    WaveFormat → Result FormatError SampleFormat → Result FormatError WasapiFormat
checked w (err e) = err e
checked w (ok format) =
    if w.channels == 0 || w.samples_per_sec == 0 || w.block_align == 0
    then err FormatError.invalid_mix_format
    else ok (record {
      sample_rate = w.samples_per_sec;
      channels = w.channels;
      bits_per_sample = w.bits_per_sample;
      block_align = w.block_align;
      sample_format = format;
    })

-- `none` is a null pointer.
unfoldable pub from_wave_format : Option WaveFormat → Result FormatError WasapiFormat
unfolding checked sample_format_of
from_wave_format none = err FormatError.null_mix_format
from_wave_format (some w) = checked w (sample_format_of w)

-- An arithmetic shift to the right of an `i32`, as bit patterns, for a divisor `2 ^ k`.
abbrev shift_right : ℕ → ℕ → ℕ
shift_right x divisor =
    if ltb x 0x8000_0000
    then x / divisor
    else x / divisor + (0x1_0000_0000 - 0x1_0000_0000 / divisor)

-- The samples as little-endian integers; the last clauses are out of `chunks_exact`'s range.
unfoldable pub from_pcm16 : List ℕ → ℕ
from_pcm16 (a ∷ b ∷ rest) = a + b * 256
from_pcm16 rest = 0

unfoldable pub from_pcm24 : List ℕ → ℕ
from_pcm24 (a ∷ b ∷ c ∷ rest) =
    let sign = if c / 128 % 2 == 1 then 0xff else 0 in
    let raw = a + b * 256 + c * 65536 + sign * 16777216 in shift_right raw 256 % 65536
from_pcm24 rest = 0

unfoldable pub from_pcm32 : List ℕ → ℕ
from_pcm32 (a ∷ b ∷ c ∷ d ∷ rest) =
    shift_right (a + b * 256 + c * 65536 + d * 16777216) 65536 % 65536
from_pcm32 rest = 0

abbrev pub converted : (List ℕ → ℕ) → ℕ → Option (List ℕ) → Option (List ℕ)
converted convert width none = none
converted convert width (some bytes) = some (map convert (chunks_exact width bytes))

abbrev pub read_samples : (List ℕ → ℕ) → SampleFormat → List ℕ → ℕ → ℕ → Option (List ℕ)
read_samples from_float SampleFormat.float32 memory sample_count byte_count =
    converted from_float 4 (get_slice memory 0 (sample_count * 4))
read_samples from_float SampleFormat.pcm16 memory sample_count byte_count =
    converted from_pcm16 2 (get_slice memory 0 (sample_count * 2))
read_samples from_float SampleFormat.pcm24 memory sample_count byte_count =
    converted from_pcm24 3 (get_slice memory 0 byte_count)
read_samples from_float SampleFormat.pcm32 memory sample_count byte_count =
    converted from_pcm32 4 (get_slice memory 0 (sample_count * 4))

unfoldable pub copy_as_i16 : (List ℕ → ℕ) → WasapiFormat → List ℕ → ℕ → Option (List ℕ)
copy_as_i16 from_float format memory frames =
    read_samples from_float format.sample_format memory (frames * format.channels)
      (frames * format.block_align)

unfoldable pub silence : ℕ → List ℕ
silence zero = []
silence (suc n) = 0 ∷ silence n

abbrev pub packet_of : WasapiFormat → ℕ → ℕ → Option (List ℕ) → Option AudioPacket
packet_of format frames now none = none
packet_of format frames now (some pcm_data) = some (record {
  pcm_data = pcm_data;
  sample_rate = format.sample_rate;
  channels = format.channels;
  frames = frames;
  timestamp = now;
})

-- After `GetBuffer` succeeded: with its data, `none` for a null pointer, its frames and whether the
-- silent flag is set.
unfoldable pub read_capture_packet :
    (List ℕ → ℕ) → WasapiFormat → Option (List ℕ) → ℕ → Bool → ℕ → Option AudioPacket
read_capture_packet from_float format none frames silent now =
    packet_of format frames now (some (silence (frames * format.channels)))
read_capture_packet from_float format (some memory) frames silent now =
    let copied = copy_as_i16 from_float format memory frames in
    packet_of format frames now
      (if silent then some (silence (frames * format.channels)) else copied)
