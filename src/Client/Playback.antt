-- ===== src/Client/Playback.antt =====
-- The playback side of the client's sound in apps/client/src/media.rs: `audio_frame_to_f32`,
-- `resample_interleaved`, the bounded queue of the audio thread and `fill_output_*`. An `f32` is its
-- bit pattern; what is computed in `f32` are parameters. `none` is the panic of an index out of range.
pub mod Mixing
pub mod Queue
use remotekvm.Base.{
  ℕ, zero, suc, ◌+◌, ◌-◌, ◌*◌, ◌/◌, ◌%◌, min, max, List, [], ◌∷◌, ◌++◌, Bool, true, false, not,
  ◌||◌, Option, none, some, map, ◌==◌, ltb, length, drop, if◌then◌else◌,
}
use remotekvm.Base.Rows.{get_elem?, get_slice, chunks_exact, collect}
use remotekvm.Base.Exec.{Result, ok, err}

pub data AudioSampleFormat : Type 0 where
  f32_interleaved : AudioSampleFormat
  i16_interleaved : AudioSampleFormat

pub record DecodedAudioFrame : Type 0 where
  pub sample_rate_hz : ℕ
  pub channels : ℕ
  pub format : AudioSampleFormat
  pub bytes : List ℕ

-- The arithmetic of `f32`.
pub record Floats : Type 0 where
  pub from_f32 : List ℕ → ℕ
  pub from_i16 : List ℕ → ℕ
  pub mean : List ℕ → ℕ → ℕ

abbrev pub one : Option ℕ → Option (List ℕ)
one none = none
one (some sample) = some (sample ∷ [])

unfoldable pub source_frame : ℕ → ℕ → ℕ → ℕ → ℕ
source_frame input_frames input_rate output_rate frame =
    min (frame * input_rate / output_rate) (input_frames - 1)

module _ (floats : Floats) where
  unfoldable pub audio_frame_to_f32 : AudioSampleFormat → List ℕ → Result (Unit {0}) (List ℕ)
  audio_frame_to_f32 AudioSampleFormat.f32_interleaved bytes =
      if not (length bytes % 4 == 0)
      then err tt
      else ok (map floats.from_f32 (chunks_exact 4 bytes))
  audio_frame_to_f32 AudioSampleFormat.i16_interleaved bytes =
      if not (length bytes % 2 == 0)
      then err tt
      else ok (map floats.from_i16 (chunks_exact 2 bytes))

  -- The sample of a channel of an output frame, out of the input frame `source`.
  unfoldable pub mixed : ℕ → ℕ → List ℕ → ℕ → Option (List ℕ)
  mixed input_channels output_channels source channel =
      if input_channels == 1
      then one (get_elem? source 0)
      else if output_channels == 1
      then some (floats.mean source input_channels ∷ [])
      else one (get_elem? source (min channel (input_channels - 1)))

  abbrev pub mixed_frame : ℕ → ℕ → Option (List ℕ) → Option (List ℕ)
  mixed_frame input_channels output_channels none = none
  mixed_frame input_channels output_channels (some source) =
      collect output_channels 0 (mixed input_channels output_channels source)

  unfoldable pub resample_interleaved : List ℕ → ℕ → ℕ → ℕ → ℕ → Option (List ℕ)
  resample_interleaved input input_rate input_channels output_rate output_channels =
      let out_channels = max output_channels 1 in
      let input_frames = length input / input_channels in
      let output_frames = max (input_frames * output_rate / input_rate) 1 in
      if length input == 0 || input_rate == 0 || input_channels == 0 || output_rate == 0
      then some []
      else if input_frames == 0
      then some []
      else collect output_frames 0 λ frame. mixed_frame input_channels out_channels (
          get_slice input (source_frame input_frames input_rate output_rate frame * input_channels)
            input_channels)

pub record AudioPlaybackConfig : Type 0 where
  pub sample_rate_hz : ℕ
  pub channels : ℕ
  pub max_samples : ℕ

pub record AudioPlaybackBuffer : Type 0 where
  pub config : AudioPlaybackConfig
  pub samples : List ℕ

-- `extend`, and the oldest samples dropped down to the bound.
unfoldable pub enqueue : List ℕ → AudioPlaybackBuffer → AudioPlaybackBuffer
enqueue converted b =
    let samples = b.samples ++ converted in
    let overflow = length samples - b.config.max_samples in
    record b { samples = if ltb 0 overflow then drop overflow samples else samples }

abbrev pub enqueued : Option (List ℕ) → AudioPlaybackBuffer → Option AudioPlaybackBuffer
enqueued none b = none
enqueued (some converted) b = some (enqueue converted b)

module _ (floats : Floats) where
  abbrev pub after_f32 :
      Result (Unit {0}) (List ℕ)
      → DecodedAudioFrame
      → AudioPlaybackBuffer
      → Option AudioPlaybackBuffer
  after_f32 (err e) frame b = some b
  after_f32 (ok []) frame b = some b
  after_f32 (ok (x ∷ xs)) frame b =
      enqueued
        (resample_interleaved floats (x ∷ xs) frame.sample_rate_hz frame.channels
          b.config.sample_rate_hz b.config.channels)
        b

  -- One turn of the audio thread.
  unfoldable pub receive : DecodedAudioFrame → AudioPlaybackBuffer → Option AudioPlaybackBuffer
  receive frame b = after_f32 (audio_frame_to_f32 floats frame.format frame.bytes) frame b

-- `fill_output_*`: what the device asks for, the front of the queue and then `silence`.
unfoldable pub fill_output : (ℕ → ℕ) → ℕ → ℕ → List ℕ → List ℕ × List ℕ
fill_output convert silence zero samples = ([], samples)
fill_output convert silence (suc n) [] =
    let (output, rest) = fill_output convert silence n [] in (convert silence ∷ output, rest)
fill_output convert silence (suc n) (x ∷ xs) =
    let (output, rest) = fill_output convert silence n xs in (convert x ∷ output, rest)
