-- ===== src/Tests/Audio.antt =====
-- The sound path of the Windows agent at concrete inputs.
use remotekvm.Base.{ℕ, suc, ◌≡◌, refl, List, [], ◌∷◌, Bool, true, false, some, arith, length}
use remotekvm.Base.Exec.{ok}
use remotekvm.Base.Rows.{collect, chunks_exact}
use remotekvm.Agent.Audio.{
  AudioPacket, AudioNormalizer, Frames, out_frame, resample_stereo_linear_with_remainder,
  push_packet, interpolate,
}
use remotekvm.Tests.Floats.{floats}
use remotekvm.Agent.Audio.Streaming.{IsStream, stream_lem}
use remotekvm.Agent.Audio.Formats.{
  WaveFormat, WasapiFormat, SampleFormat, from_wave_format, copy_as_i16, read_capture_packet,
}
use remotekvm.Agent.Audio.Capture.{copy_as_i16_lem}
use remotekvm.Agent.Audio.Acceptance.{captured_packet_accepted}
use remotekvm.Agent.Audio.Encoding.{
  Libopus, OpusEncoder, OpusEncoder_new, set_up, or_libopus, EncodedAudioPacket, encode_task,
}
use remotekvm.Agent.Audio.Pipeline.{Ends, encode_task_lem}

abbrev two_frames : List ℕ
two_frames = 10 ∷ 20 ∷ 30 ∷ 40 ∷ []

upsampled :
    resample_stereo_linear_with_remainder floats two_frames 32000 48000 16000
    ≡ some (10 ∷ 20 ∷ 30 ∷ 40 ∷ 30 ∷ 40 ∷ [], 16000)
unfolding resample_stereo_linear_with_remainder collect out_frame interpolate
upsampled = refl

abbrev mono_packet : AudioPacket
mono_packet = record {
  pcm_data = 5 ∷ 6 ∷ 7 ∷ [];
  sample_rate = 32000;
  channels = 1;
  frames = 3;
  timestamp = 0;
}

abbrev fresh : AudioNormalizer
fresh = record {
  input_sample_rate = 32000;
  input_channels = 1;
  resample_remainder = 0;
  buffered_stereo = [];
}

stream_lem_example :
    IsStream floats fresh (mono_packet ∷ record mono_packet { frames = 2 } ∷ mono_packet ∷ [])
stream_lem_example =
    stream_lem floats fresh (mono_packet ∷ record mono_packet { frames = 2 } ∷ mono_packet ∷ [])
      (record { rate = omega arith; remainder = omega arith; buffer = omega arith })

-- 24 bits for each of two channels.
abbrev mix : WaveFormat
mix = record {
  format_tag = 1;
  channels = 2;
  samples_per_sec = 44100;
  block_align = 6;
  bits_per_sample = 24;
  sub_format = 0;
}

abbrev mix_format : WasapiFormat
mix_format = record {
  sample_rate = 44100;
  channels = 2;
  bits_per_sample = 24;
  block_align = 6;
  sample_format = SampleFormat.pcm24;
}

abbrev no_float : List ℕ → ℕ
no_float bytes = 0

abbrev block : List ℕ
block = 1 ∷ 2 ∷ 3 ∷ 4 ∷ 5 ∷ 254 ∷ []

accepted_mix : from_wave_format (some mix) ≡ ok mix_format
unfolding from_wave_format
accepted_mix = refl

copy_as_i16_lem_example :
    (samples : List ℕ) × (copy_as_i16 no_float mix_format block 1 ≡ some samples)
    × (samples ≡ 770 ∷ 65029 ∷ [])
    × (length samples ≡ 2)
unfolding chunks_exact
copy_as_i16_lem_example =
    copy_as_i16_lem no_float mix_format block 1 refl (omega arith) (omega arith)

captured_packet_accepted_example :
    (p : AudioPacket) × (out : Frames) × (n : AudioNormalizer) × (read_capture_packet no_float
        mix_format
        (some block)
        1
        false
        7
      ≡ some p)
    × (push_packet floats (record fresh { input_sample_rate = 44100; input_channels = 2 }) p
        ≡ some (ok out, n))
captured_packet_accepted_example =
    captured_packet_accepted floats no_float mix mix_format
      (record fresh { input_sample_rate = 44100; input_channels = 2 }) block 1 false 7 accepted_mix
      refl refl refl (record { rate = omega arith; remainder = omega arith; buffer = omega arith })
      (omega arith) (omega arith)

abbrev trivial_opus : Libopus (Unit {0})
trivial_opus = record {
  create = some tt;
  set_bitrate = λ e bits. some e;
  set_vbr = λ e. some e;
  set_inband_fec = λ e. some e;
  encode_vec = λ e frame size. (some (1 ∷ []), e);
}

-- A track that counts the samples.
abbrev counting : ℕ → EncodedAudioPacket → Bool × ℕ
counting n p = (true, suc n)

abbrev mono_encoder : OpusEncoder (Unit {0})
mono_encoder = record {
  sample_rate = 32000;
  channels = 1;
  bitrate_kbps = 64;
  normalizer = fresh;
  encoder = tt;
}

made_encoder : OpusEncoder_new trivial_opus 32000 1 64 ≡ ok mono_encoder
unfolding OpusEncoder_new set_up or_libopus
made_encoder = refl

encode_task_lem_example : Ends trivial_opus floats counting (
    encode_task trivial_opus counting floats mono_encoder 0
      (mono_packet ∷ record mono_packet { channels = 2 } ∷ []))
encode_task_lem_example =
    encode_task_lem trivial_opus counting floats 32000 1 64 mono_encoder 0
      (mono_packet ∷ record mono_packet { channels = 2 } ∷ []) made_encoder
