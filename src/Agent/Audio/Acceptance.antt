-- ===== src/Agent/Audio/Acceptance.antt =====
-- The capture and the normalizer of apps/agent/src/windows/audio.rs together.
use remotekvm.Agent.Floats.{F64}
use remotekvm.Base.{
  ℕ, ◌*◌, ◌≤◌, ◌≡◌, ◌≢◌, refl, sym, List, Bool, true, false, some, inl, inr, length, arith,
}
use remotekvm.Base.Exec.{ok, Result-cases}
use remotekvm.Agent.Audio.{AudioNormalizer, AudioPacket, Frames, push_packet}
use remotekvm.Agent.Audio.Formats.{
  WaveFormat, WasapiFormat, SampleFormat, from_wave_format, checked, sample_format_of,
  read_capture_packet, silence, packet_of,
}
use remotekvm.Agent.Audio.Capture.{width, AreBytes, copy_as_i16_lem, length-silence}
use remotekvm.Agent.Audio.Framing.{IsReady, is_accepted, accepted}

is_accepted_lem :
    (n : AudioNormalizer) (p : AudioPacket)
    → p.channels ≢ 0
    → p.sample_rate ≢ 0
    → p.channels ≡ n.input_channels
    → p.sample_rate ≡ n.input_sample_rate
    → length p.pcm_data ≡ p.frames * p.channels
    → is_accepted n p ≡ true
unfolding is_accepted
is_accepted_lem n p c r sc sr size = ground arith

bits_of_format :
    (w : WaveFormat) (kind : SampleFormat)
    → sample_format_of w ≡ ok kind
    → w.bits_per_sample ≡ 8 * width kind
unfolding sample_format_of
bits_of_format w SampleFormat.float32 e = ground arith
bits_of_format w SampleFormat.pcm16 e = ground arith
bits_of_format w SampleFormat.pcm24 e = ground arith
bits_of_format w SampleFormat.pcm32 e = ground arith

-- A format that is accepted is that of the mix, and none of its numbers is zero.
record Describes (w : WaveFormat) (format : WasapiFormat) : Type 0 where
  pub rate : format.sample_rate ≡ w.samples_per_sec
  pub channels : format.channels ≡ w.channels
  pub block : format.block_align ≡ w.block_align
  pub bits : w.bits_per_sample ≡ 8 * width format.sample_format
  pub some_rate : format.sample_rate ≢ 0
  pub some_channels : format.channels ≢ 0

describes :
    (w : WaveFormat) (kind : SampleFormat) (format : WasapiFormat)
    → sample_format_of w ≡ ok kind
    → checked w (ok kind) ≡ ok format
    → Describes w format
unfolding checked
describes w kind format known e = ground (arith, bits_of_format w kind known)

from_wave_format-Describes :
    (w : WaveFormat) (format : WasapiFormat)
    → from_wave_format (some w) ≡ ok format
    → Describes w format
unfolding from_wave_format
from_wave_format-Describes w format e = elim (Result-cases (sample_format_of w)) [
  | inl (kind, known) ↦ describes w kind format known (rw known at e)
  | inr (error, bad) ↦ unfold checked in absurd (ground (arith, bad))
]

-- The samples of a packet, which are one for each channel of each frame.
captured :
    (from_float : List ℕ → ℕ) (format : WasapiFormat) (memory : List ℕ) (frames : ℕ) (silent : Bool)
    (now : ℕ)
    → format.block_align ≡ format.channels * width format.sample_format
    → frames * format.block_align ≤ length memory
    → AreBytes memory
    → (samples : List ℕ) × (read_capture_packet from_float format (some memory) frames silent now
        ≡ packet_of format frames now (some samples))
      × (length samples ≡ frames * format.channels)
unfolding read_capture_packet
captured from_float format memory frames true now packed fits bytes =
    (silence (frames * format.channels), refl, length-silence (frames * format.channels))
captured from_float format memory frames false now packed fits bytes =
    let (samples, e, same, size) =
      copy_as_i16_lem from_float format memory frames packed fits bytes in
    (samples, rw e refl, size)

-- Of a mix format that is accepted, and whose blocks hold one sample for each channel: what
-- the capture reads from a buffer of `frames` blocks, silent or not, becomes a packet that the
-- encoder's normalizer for this format does not refuse, however much it has buffered.
pub captured_packet_accepted :
    {F : Type 0} (f64 : F64 F) (from_float : List ℕ → ℕ) (w : WaveFormat) (format : WasapiFormat)
    (n : AudioNormalizer) (memory : List ℕ) (frames : ℕ) (silent : Bool) (now : ℕ)
    → from_wave_format (some w) ≡ ok format
    → w.block_align * 8 ≡ w.channels * w.bits_per_sample
    → n.input_sample_rate ≡ format.sample_rate
    → n.input_channels ≡ format.channels
    → IsReady n
    → frames * w.block_align ≤ length memory
    → AreBytes memory
    → (p : AudioPacket) × (out : Frames) × (n' : AudioNormalizer) × (read_capture_packet from_float
          format
          (some memory)
          frames
          silent
          now
        ≡ some p)
      × (push_packet f64 n p ≡ some (ok out, n'))
captured_packet_accepted f64 from_float w format n memory frames silent now known packed rate
      channels v fits bytes =
    let d = from_wave_format-Describes w format known in
    let eight : format.block_align * 8 ≡ format.channels * (8 * width format.sample_format) =
      rw (d.block, d.channels, ← d.bits) packed in
    let total : format.channels * (8 * width format.sample_format)
        ≡ format.channels * width format.sample_format * 8 =
      grind arith in
    let (samples, e, size) =
      captured from_float format memory frames silent now (omega (arith, eight, total))
        (rw d.block fits) bytes in
    let p : AudioPacket = record {
      pcm_data = samples;
      sample_rate = format.sample_rate;
      channels = format.channels;
      frames = frames;
      timestamp = now;
    } in
    let a =
      accepted f64 n p v
        (is_accepted_lem n p (d.some_channels) (d.some_rate) (sym channels) (sym rate) size) in
    (p, a.frames, a.after, e, a.runs)
