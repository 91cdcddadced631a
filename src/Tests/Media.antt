-- ===== src/Tests/Media.antt =====
-- The media of the client at concrete inputs.
use remotekvm.Base.{
  ℕ, ◌≡◌, ◌⊎◌, ◌≤◌, refl, List, [], ◌∷◌, ◌++◌, true, false, none, some, arith, length, ◌*◌,
}
use remotekvm.Base.Exec.{ok, err}
use remotekvm.Client.Strided.{
  copy_strided_rows, copy_strided_video_image, VideoPixelFormat, ImageError,
}
use remotekvm.Client.Strided.Copy.{IsCopy, IsRefused, copy_strided_rows_lem}
use remotekvm.Client.Strided.Planes.{nv12_planes}
use remotekvm.Client.Playback.{Floats, AudioSampleFormat, DecodedAudioFrame, AudioPlaybackBuffer}
use remotekvm.Client.Playback.Queue.{Event, play, play_lem}
use remotekvm.Client.Assembler.{EncodedMediaPacket, Depacketize, push_rtp, extend, assemble}
use remotekvm.Client.Decoder.{
  ParameterSets, VideoToolbox, MacH264DecoderState, mac_decode, ensure_videotoolbox_decoder,
  matches_parameter_sets, observe_nalus, observe_nalu, MediaFoundation, WindowsH264DecoderState,
  observe_annex_b_sample,
}
use remotekvm.Client.AnnexB.{
  annex_b_nalus, nalus_from, nalu_at, find_start_code, scan, start_code_len, slice,
  annex_b_to_avcc_sample, to_avcc,
}
use remotekvm.Client.Decoder.Session.{ShownOf, mac_run, mac_decode-IsCurrent}
use remotekvm.Client.Decoder.Pending.{decode_all, packets_lost}

-- Two rows of two bytes, three apart.
abbrev image : List ℕ
image = 1 ∷ 2 ∷ 0 ∷ 3 ∷ 4 ∷ []

copy_strided_rows_lem_example :
    ((out : List ℕ) × (5 ≤ length image)
      × (copy_strided_rows image 2 2 3 0 false ≡ some (ok out))
      × IsCopy image 2 2 3 0 false out)
    ⊎ ((why : ImageError) × (copy_strided_rows image 2 2 3 0 false ≡ some (err why))
        × IsRefused image 2 2 3 0 false why)
copy_strided_rows_lem_example =
    copy_strided_rows_lem image 2 2 3 0 false (omega arith) (omega arith) (omega arith)

abbrev nv12_image : List ℕ
nv12_image = 1 ∷ 2 ∷ 0 ∷ 3 ∷ 4 ∷ 0 ∷ 5 ∷ 6 ∷ []

nv12_planes_example :
    (luma : List ℕ) × (uv : List ℕ) × (copy_strided_video_image nv12_image 2 2 VideoPixelFormat.nv12
        3 true
      ≡ some (ok (luma ++ uv)))
    × IsCopy nv12_image 2 2 3 0 true luma
    × IsCopy nv12_image 1 2 3 6 true uv
    × (2 * length (luma ++ uv) ≡ 12)
nv12_planes_example =
    nv12_planes nv12_image 2 2 3 true refl refl (omega arith) (omega arith) (omega arith)
      (omega arith)

abbrev floats : Floats
floats = record { from_f32 = λ bytes. 1; from_i16 = λ bytes. 2; mean = λ samples channels. 3 }

abbrev playing : AudioPlaybackBuffer
playing = record {
  config = record { sample_rate_hz = 1; channels = 1; max_samples = 2 };
  samples = 5 ∷ [];
}

abbrev sound : DecodedAudioFrame
sound = record {
  sample_rate_hz = 1;
  channels = 1;
  format = AudioSampleFormat.i16_interleaved;
  bytes = 1 ∷ 2 ∷ 3 ∷ 4 ∷ [];
}

play_lem_example :
    (b : AudioPlaybackBuffer) × (play floats
        (λ x. x)
        0
        (Event.received sound ∷ Event.asked 1 ∷ Event.received sound ∷ [])
        playing
      ≡ some b)
    × (b.config ≡ playing.config)
    × (length b.samples ≤ 2)
play_lem_example =
    play_lem floats (λ x. x) 0 (Event.received sound ∷ Event.asked 1 ∷ Event.received sound ∷ [])
      playing (omega arith)

-- Each payload is one unit already.
abbrev plain : Depacketize (Unit {0})
plain d bytes = (ok bytes, d)

abbrev unit_packet : ℕ → EncodedMediaPacket
unit_packet byte = record { payload = byte ∷ []; timestamp = 90; marker = true }

-- A decoder that makes three frames of each access unit.
abbrev threefold : MediaFoundation (Unit {0}) ℕ
threefold = record { create = some tt; decode = λ m bytes t. (some (10 ∷ 20 ∷ 30 ∷ []), m) }

abbrev no_sets : ParameterSets
no_sets = record { sps = none; pps = none }

abbrev decoding : WindowsH264DecoderState (Unit {0}) (Unit {0}) ℕ
decoding = record {
  rtp = record {
    depacketizer = tt;
    pending = record { pending_annex_b = []; pending_timestamp = none };
  };
  media_foundation = some tt;
  pending_frames = [];
  sets = no_sets;
}

packets_lost_example :
    decode_all plain threefold (unit_packet 1 ∷ unit_packet 2 ∷ unit_packet 3 ∷ []) decoding ≡ (
      ok (some 10) ∷ ok (some 20) ∷ ok (some 30) ∷ [],
      record decoding {
        rtp = (push_rtp plain (unit_packet 1) decoding.rtp).1;
        sets = observe_annex_b_sample (1 ∷ []) no_sets;
      },
    )
unfolding push_rtp assemble extend
packets_lost_example =
    packets_lost plain threefold (unit_packet 1) decoding
      (record { annex_b = 1 ∷ []; timestamp = 90 }) tt tt 10 (20 ∷ 30 ∷ [])
      (unit_packet 2 ∷ unit_packet 3 ∷ []) refl refl refl refl refl

abbrev toolbox : VideoToolbox (List ℕ) ℕ
toolbox = record {
  create_session = λ sps pps. some sps;
  decode_frame = λ session avcc t. some (some 7);
}

abbrev no_session : MacH264DecoderState (Unit {0}) (List ℕ)
no_session = record { depacketizer = tt; sets = no_sets; videotoolbox = none }

abbrev mac_packet : List ℕ → EncodedMediaPacket
mac_packet nalu = record { payload = 0 ∷ 0 ∷ 1 ∷ nalu; timestamp = 90; marker = true }

abbrev opened : MacH264DecoderState (Unit {0}) (List ℕ)
opened = record {
  depacketizer = tt;
  sets = record { sps = some (7 ∷ 1 ∷ []); pps = some (8 ∷ 2 ∷ []) };
  videotoolbox = some (record { session = 7 ∷ 1 ∷ []; sps = 7 ∷ 1 ∷ []; pps = 8 ∷ 2 ∷ [] });
}

decodes :
    mac_decode plain toolbox
      (mac_packet (5 ∷ 9 ∷ []))
      (mac_run plain toolbox (mac_packet (7 ∷ 1 ∷ []) ∷ mac_packet (8 ∷ 2 ∷ []) ∷ []) no_session)
    ≡ (ok (some 7), opened)
unfolding mac_decode mac_run ensure_videotoolbox_decoder matches_parameter_sets
    observe_annex_b_sample observe_nalus observe_nalu annex_b_nalus nalus_from nalu_at
    find_start_code scan start_code_len slice annex_b_to_avcc_sample to_avcc
decodes = refl

mac_decode-IsCurrent_example :
    ShownOf plain toolbox
      (mac_packet (5 ∷ 9 ∷ []))
      (mac_run plain toolbox (mac_packet (7 ∷ 1 ∷ []) ∷ mac_packet (8 ∷ 2 ∷ []) ∷ []) no_session)
      opened
      7
mac_decode-IsCurrent_example =
    mac_decode-IsCurrent plain toolbox (mac_packet (7 ∷ 1 ∷ []) ∷ mac_packet (8 ∷ 2 ∷ []) ∷ [])
      (mac_packet (5 ∷ 9 ∷ [])) no_session opened 7 refl decodes
