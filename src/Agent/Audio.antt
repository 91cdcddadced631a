-- ===== src/Agent/Audio.antt =====
-- The sound path of the Windows agent, apps/agent/src/windows/audio.rs: packets of any rate and
-- channel count become frames of 20 ms, 48 kHz and two channels for the Opus encoder. A sample is
-- the bit pattern of an `i16`, and `none` is a panic by an index out of range. Three things are
-- parameters: the arithmetic of `f64`, libopus, and its state.
pub mod Acceptance
pub mod Formats
pub mod Capture
pub mod Interpolation
pub mod Rounds
pub mod Resampler
pub mod Framing
pub mod Streaming
pub mod Encoding
pub mod Pipeline
use remotekvm.Agent.Floats.{F64}
use remotekvm.Base.{
  ℕ, zero, suc, ◌+◌, ◌-◌, ◌*◌, ◌/◌, ◌%◌, min, List, [], ◌∷◌, ◌++◌, Bool, true, false, not, ◌||◌,
  Option, none, some, ◌==◌, leb, ltb, length, take, drop, if◌then◌else◌,
}
use remotekvm.Base.Rows.{get_elem?, chunks_exact, concat, collect}
use remotekvm.Base.Exec.{Result, ok, err}

abbrev pub opus_sample_rate : ℕ
opus_sample_rate = 48000

abbrev pub opus_channels : ℕ
opus_channels = 2

abbrev pub opus_frame_pcm_samples : ℕ
opus_frame_pcm_samples = 960 * opus_channels

abbrev pub opus_max_packet_size : ℕ
opus_max_packet_size = 1275

pub record AudioPacket : Type 0 where
  pub pcm_data : List ℕ
  pub sample_rate : ℕ
  pub channels : ℕ
  pub frames : ℕ
  pub timestamp : ℕ

-- The first two samples of a frame.
abbrev pub front_pair : List ℕ → Option (List ℕ)
front_pair (left ∷ right ∷ rest) = some (left ∷ right ∷ [])
front_pair frame = none

unfoldable pub doubled : List ℕ → List ℕ
doubled [] = []
doubled (sample ∷ samples) = sample ∷ sample ∷ doubled samples

abbrev pub extend_pairs : Option (List ℕ) → Option (List ℕ) → Option (List ℕ)
extend_pairs (some pair) (some rest) = some (pair ++ rest)
extend_pairs (some pair) none = none
extend_pairs none rest = none

unfoldable pub front_pairs : List (List ℕ) → Option (List ℕ)
front_pairs [] = some []
front_pairs (frame ∷ frames) = extend_pairs (front_pair frame) (front_pairs frames)

unfoldable pub interleaved_to_stereo : List ℕ → ℕ → Option (List ℕ)
interleaved_to_stereo samples zero = some []
interleaved_to_stereo samples (suc zero) = some (doubled samples)
interleaved_to_stereo samples (suc (suc zero)) = some samples
interleaved_to_stereo samples (suc (suc (suc more))) =
    front_pairs (chunks_exact (suc (suc (suc more))) samples)

abbrev pub is_empty : List ℕ → Bool
is_empty [] = true
is_empty (x ∷ xs) = false

-- `(a + (b - a) * fraction).round() as i16`, at the position `num / den`.
unfoldable pub interpolate : {F : Type 0} → F64 F → ℕ → ℕ → ℕ → ℕ → ℕ
interpolate f64 a b num den =
    let a' = f64.from_i16 a in
    let b' = f64.from_i16 b in
    f64.round_i16 (f64.add a' (f64.mul (f64.sub b' a') (f64.fraction num den)))

abbrev pub blended :
    {F : Type 0} → F64 F → ℕ → ℕ → Option ℕ → Option ℕ → Option (List ℕ) → Option (List ℕ)
blended f64 num den (some a) (some b) (some rest) = some (interpolate f64 a b num den ∷ rest)
blended f64 num den (some a) (some b) none = none
blended f64 num den (some a) none rest = none
blended f64 num den none b rest = none

abbrev pub with_remainder : ℕ → Option (List ℕ) → Option (List ℕ × ℕ)
with_remainder remainder (some output) = some (output, remainder)
with_remainder remainder none = none

-- The floor of the position `num / den` is exact in `f64`: `num` stays below 2 ^ 53.
module _ {F : Type 0} (f64 : F64 F) where
  -- One round of the loop: the two samples of an output frame.
  unfoldable pub out_frame : List ℕ → ℕ → ℕ → ℕ → ℕ → Option (List ℕ)
  out_frame stereo input_rate output_rate input_frames frame =
      let left = frame * input_rate / output_rate in
      let right = min (left + 1) (input_frames - 1) in
      let num = frame * input_rate in
      blended f64 num output_rate (get_elem? stereo (left * 2 + 0))
        (get_elem? stereo (right * 2 + 0))
        (blended f64 num output_rate (get_elem? stereo (left * 2 + 1))
          (get_elem? stereo (right * 2 + 1)) (some []))

  unfoldable pub resample_stereo_linear_with_remainder : List ℕ → ℕ → ℕ → ℕ → Option (List ℕ × ℕ)
  resample_stereo_linear_with_remainder stereo input_rate output_rate remainder =
      let input_frames = length stereo / opus_channels in
      let scaled_frames = input_frames * output_rate + remainder in
      let output_frames = scaled_frames / input_rate in
      if is_empty stereo || input_rate == 0 || output_rate == 0
      then some ([], remainder)
      else if input_rate == output_rate
      then some (stereo, remainder)
      else if leb input_frames 1
      then some (stereo, remainder)
      else if output_frames == 0
      then some ([], scaled_frames % input_rate)
      else with_remainder (scaled_frames % input_rate)
          (collect output_frames 0 (out_frame stereo input_rate output_rate input_frames))

pub record AudioNormalizer : Type 0 where
  pub input_sample_rate : ℕ
  pub input_channels : ℕ
  pub resample_remainder : ℕ
  pub buffered_stereo : List ℕ

unfoldable pub AudioNormalizer_new : ℕ → ℕ → AudioNormalizer
AudioNormalizer_new rate channels = record {
  input_sample_rate = rate;
  input_channels = channels;
  resample_remainder = 0;
  buffered_stereo = [];
}

pub data AudioError : Type 0 where
  invalid_format : AudioError
  format_changed : AudioError
  sample_count_mismatch : AudioError

abbrev pub Frames : Type 0
Frames = List (List ℕ)

-- From `self.buffered_stereo.extend_from_slice` to the end of `push_packet`.
unfoldable pub drain_frames : AudioNormalizer → List ℕ → ℕ → Frames × AudioNormalizer
drain_frames n normalized remainder =
    let buffered = n.buffered_stereo ++ normalized in
    let complete_frames = length buffered / opus_frame_pcm_samples in
    let kept = record n { resample_remainder = remainder; buffered_stereo = buffered } in
    let used_samples = complete_frames * opus_frame_pcm_samples in
    if complete_frames == 0 then ([], kept) else (
      chunks_exact opus_frame_pcm_samples buffered,
      record kept { buffered_stereo = drop used_samples buffered },
    )

abbrev pub Pushed : Type 0
Pushed = Option (Result AudioError Frames × AudioNormalizer)

abbrev pub after_drain : AudioNormalizer → Option (List ℕ × ℕ) → Pushed
after_drain n none = none
after_drain n (some (normalized, remainder)) =
    let (frames, n') = drain_frames n normalized remainder in some (ok frames, n')

abbrev pub resampled : {F : Type 0} → F64 F → ℕ → ℕ → Option (List ℕ) → Option (List ℕ × ℕ)
resampled f64 rate remainder none = none
resampled f64 rate remainder (some stereo) =
    resample_stereo_linear_with_remainder f64 stereo rate opus_sample_rate remainder

module _ {F : Type 0} (f64 : F64 F) where
  -- The samples at 48 kHz that `push_packet` makes of a packet, and the new remainder.
  unfoldable pub normalized : AudioNormalizer → AudioPacket → Option (List ℕ × ℕ)
  normalized n p =
      resampled f64 p.sample_rate n.resample_remainder (interleaved_to_stereo p.pcm_data p.channels)

  unfoldable pub push_packet : AudioNormalizer → AudioPacket → Pushed
  push_packet n p =
      if p.channels == 0 || p.sample_rate == 0
      then some (err invalid_format, n)
      else if not (p.channels == n.input_channels) || not (p.sample_rate == n.input_sample_rate)
      then some (err format_changed, n)
      else if not (length p.pcm_data == p.frames * p.channels)
      then some (err sample_count_mismatch, n)
      else after_drain n (normalized n p)
