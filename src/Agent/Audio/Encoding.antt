-- ===== src/Agent/Audio/Encoding.antt =====
-- `OpusEncoder` of apps/agent/src/windows/audio.rs: its guards, and one Opus packet for each frame.
-- libopus is a parameter: its encoder's state, what may fail while it is set up, and its call.
use remotekvm.Agent.Floats.{F64}
use remotekvm.Base.{
  ℕ, ◌*◌, ◌%◌, List, [], ◌∷◌, Bool, true, false, not, Option, none, some, ◌==◌, ltb, if◌then◌else◌,
  ◌^◌,
}
use remotekvm.Base.Exec.{Result, ok, err}
use remotekvm.Agent.Audio.{
  AudioPacket, AudioNormalizer, AudioNormalizer_new, AudioError, Frames, push_packet,
  opus_sample_rate, opus_channels, opus_max_packet_size,
}

pub record Libopus (E : Type 0) : Type 0 where
  pub create : Option E
  pub set_bitrate : E → ℕ → Option E
  pub set_vbr : E → Option E
  pub set_inband_fec : E → Option E
  pub encode_vec : E → List ℕ → ℕ → Option (List ℕ) × E

pub data EncodeError : Type 0 where
  zero_sample_rate : EncodeError
  zero_channels : EncodeError
  zero_bitrate : EncodeError
  unsupported_channels : EncodeError
  libopus : EncodeError
  sample_rate_mismatch : EncodeError
  channel_mismatch : EncodeError
  packet : AudioError → EncodeError

pub record EncodedAudioPacket : Type 0 where
  pub encoded : List ℕ
  pub sample_rate : ℕ
  pub channels : ℕ
  pub duration_ms : ℕ
  pub timestamp : ℕ

module _ (E : Type 0) where
  pub record OpusEncoder : Type 0 where
    pub sample_rate : ℕ
    pub channels : ℕ
    pub bitrate_kbps : ℕ
    pub normalizer : AudioNormalizer
    pub encoder : E

module _ {E : Type 0} where
  unfoldable pub or_libopus :
      Option E → (E → Result EncodeError (OpusEncoder E)) → Result EncodeError (OpusEncoder E)
  or_libopus none go_on = err EncodeError.libopus
  or_libopus (some encoder) go_on = go_on encoder

module _ {E : Type 0} (opus : Libopus E) where
  -- The product is one of `u32`.
  unfoldable pub set_up : ℕ → ℕ → ℕ → Result EncodeError (OpusEncoder E)
  unfolding AudioNormalizer_new
  set_up sample_rate channels bitrate_kbps = or_libopus opus.create λ encoder.
      or_libopus (opus.set_bitrate encoder (bitrate_kbps * 1000 % 2 ^ 32)) λ encoder.
        or_libopus (opus.set_vbr encoder) λ encoder.
          or_libopus (opus.set_inband_fec encoder) λ encoder. ok (record {
            sample_rate = sample_rate;
            channels = channels;
            bitrate_kbps = bitrate_kbps;
            normalizer = AudioNormalizer_new sample_rate channels;
            encoder = encoder;
          })

  unfoldable pub OpusEncoder_new : ℕ → ℕ → ℕ → Result EncodeError (OpusEncoder E)
  OpusEncoder_new sample_rate channels bitrate_kbps =
      if sample_rate == 0
      then err EncodeError.zero_sample_rate
      else if channels == 0
      then err EncodeError.zero_channels
      else if bitrate_kbps == 0
      then err EncodeError.zero_bitrate
      else if ltb 8 channels
      then err EncodeError.unsupported_channels
      else set_up sample_rate channels bitrate_kbps

  abbrev pub Encoded : Type 0
  Encoded = Result EncodeError (List EncodedAudioPacket) × E

  abbrev pub encoded_packet : ℕ → List ℕ → EncodedAudioPacket
  encoded_packet timestamp bytes = record {
    encoded = bytes;
    sample_rate = opus_sample_rate;
    channels = opus_channels;
    duration_ms = 20;
    timestamp = timestamp;
  }

  abbrev pub push_encoded : EncodedAudioPacket → Encoded → Encoded
  push_encoded p (ok ps, encoder) = (ok (p ∷ ps), encoder)
  push_encoded p (err e, encoder) = (err e, encoder)

  abbrev pub on_frame : ℕ → Option (List ℕ) × E → (E → Encoded) → Encoded
  on_frame timestamp (none, encoder) go_on = (err EncodeError.libopus, encoder)
  on_frame timestamp (some bytes, encoder) go_on =
      push_encoded (encoded_packet timestamp bytes) (go_on encoder)

  -- The loop over the frames; the first failure of libopus ends it.
  unfoldable pub encode_frames : ℕ → Frames → E → Encoded
  encode_frames timestamp [] encoder = (ok [], encoder)
  encode_frames timestamp (frame ∷ frames) encoder =
      on_frame timestamp (opus.encode_vec encoder frame opus_max_packet_size)
        (λ encoder'. encode_frames timestamp frames encoder')

  abbrev pub finish :
      OpusEncoder E
      → AudioNormalizer
      → Encoded
      → Result EncodeError (List EncodedAudioPacket) × OpusEncoder E
  finish o n (result, encoder) = (result, record o { normalizer = n; encoder = encoder })

  abbrev pub after_push :
      OpusEncoder E
      → ℕ
      → Option (Result AudioError Frames × AudioNormalizer)
      → Option (Result EncodeError (List EncodedAudioPacket) × OpusEncoder E)
  after_push o timestamp none = none
  after_push o timestamp (some (err e, n)) =
      some (err (EncodeError.packet e), record o { normalizer = n })
  after_push o timestamp (some (ok frames, n)) =
      some (finish o n (encode_frames timestamp frames o.encoder))

  unfoldable pub encode :
      {F : Type 0}
      → F64 F
      → OpusEncoder E
      → AudioPacket
      → Option (Result EncodeError (List EncodedAudioPacket) × OpusEncoder E)
  encode f64 o p =
      let pushed = after_push o p.timestamp (push_packet f64 o.normalizer p) in
      if not (p.sample_rate == o.sample_rate)
      then some (err EncodeError.sample_rate_mismatch, o)
      else if not (p.channels == o.channels)
      then some (err EncodeError.channel_mismatch, o)
      else pushed

module _ {E T : Type 0} (opus : Libopus E) (write_sample : T → EncodedAudioPacket → Bool × T) where
  abbrev pub write_next : Bool × T → (T → Bool × T) → Bool × T
  write_next (true, track) go_on = go_on track
  write_next (false, track) go_on = (false, track)

  -- `false` is a sample that the track refused, after which the task returns.
  unfoldable pub write_all : List EncodedAudioPacket → T → Bool × T
  write_all [] track = (true, track)
  write_all (p ∷ ps) track = write_next (write_sample track p) (λ track'. write_all ps track')

  abbrev pub TaskEnd : Type 0
  TaskEnd = Option (OpusEncoder E × T)

  abbrev pub after_write : OpusEncoder E → Bool × T → (T → TaskEnd) → TaskEnd
  after_write o (true, track) go_on = go_on track
  after_write o (false, track) go_on = some (o, track)

  abbrev pub after_encode :
      T
      → Option (Result EncodeError (List EncodedAudioPacket) × OpusEncoder E)
      → (OpusEncoder E → T → TaskEnd)
      → TaskEnd
  after_encode track none go_on = none
  after_encode track (some (err e, o)) go_on = go_on o track
  after_encode track (some (ok ps, o)) go_on = after_write o (write_all ps track) (go_on o)

  -- The task that encodes, over the packets that come before the channel is closed. An error of the
  -- encoder is logged, and the task goes on.
  unfoldable pub encode_task : {F : Type 0} → F64 F → OpusEncoder E → T → List AudioPacket → TaskEnd
  encode_task f64 o track [] = some (o, track)
  encode_task f64 o track (p ∷ ps) =
      after_encode track (encode opus f64 o p) (λ o' track'. encode_task f64 o' track' ps)
