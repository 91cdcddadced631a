-- ===== src/Agent/Audio/Streaming.antt =====
-- Histories of packets through `AudioNormalizer` of apps/agent/src/windows/audio.rs, against one
-- endless stream of samples that has no buffer and no frames.
use remotekvm.Agent.Floats.{F64}
use remotekvm.Base.{
  ℕ, ◌≡◌, refl, sym, ap, ◌∙◌, List, [], ◌∷◌, ◌++◌, append-nil, append_assoc, Option, none, some,
  inl, inr, Bool-cases, if◌then◌else◌,
}
use remotekvm.Base.Exec.{ok, err}
use remotekvm.Base.Rows.{concat}
use remotekvm.Base.Chunks.{concat-append, All-append}
use remotekvm.Agent.Audio.{
  AudioNormalizer, AudioNormalizer_new, AudioPacket, Frames, Pushed, push_packet, normalized,
}
use remotekvm.Agent.Audio.Framing.{IsReady, IsFramed, Accepted, is_accepted, accepted, push-refused}

abbrev hand_out : Frames → Option (Frames × AudioNormalizer) → Option (Frames × AudioNormalizer)
hand_out frames none = none
hand_out frames (some (more, n)) = some (frames ++ more, n)

abbrev and_then :
    Pushed
    → (AudioNormalizer → Option (Frames × AudioNormalizer))
    → Option (Frames × AudioNormalizer)
and_then none go_on = none
and_then (some (ok frames, n)) go_on = hand_out frames (go_on n)
and_then (some (err error, n)) go_on = go_on n

abbrev glue : List ℕ → Option (List ℕ × ℕ) → Option (List ℕ × ℕ)
glue samples none = none
glue samples (some (more, r)) = some (samples ++ more, r)

abbrev join : Option (List ℕ × ℕ) → (ℕ → Option (List ℕ × ℕ)) → Option (List ℕ × ℕ)
join none go_on = none
join (some (samples, r)) go_on = glue samples (go_on r)

module _ {F : Type 0} (f64 : F64 F) where
  -- A history of packets: the frames handed out, and the normalizer after it. A refused packet is
  -- passed over.
  unfoldable pub push_all : AudioNormalizer → List AudioPacket → Option (Frames × AudioNormalizer)
  push_all n [] = some ([], n)
  push_all n (p ∷ ps) = and_then (push_packet f64 n p) (λ n'. push_all n' ps)

  -- The same history as one stream of samples: there is no buffer and there are no frames.
  unfoldable pub stream : ℕ → ℕ → ℕ → List AudioPacket → Option (List ℕ × ℕ)
  unfolding is_accepted AudioNormalizer_new
  stream rate channels remainder [] = some ([], remainder)
  stream rate channels remainder (p ∷ ps) =
      let n = record (AudioNormalizer_new rate channels) { resample_remainder = remainder } in
      let next = join (normalized f64 n p) (λ r. stream rate channels r ps) in
      let passed = stream rate channels remainder ps in if is_accepted n p then next else passed

  pub record IsStream (n : AudioNormalizer) (ps : List AudioPacket) : Type 0 where
    pub frames : Frames
    pub after : AudioNormalizer
    pub samples : List ℕ
    pub runs : push_all n ps ≡ some (frames, after)
    pub streams :
        stream n.input_sample_rate n.input_channels n.resample_remainder ps
        ≡ some (samples, after.resample_remainder)
    pub framed : IsFramed n.buffered_stereo samples frames after.buffered_stereo
    pub ready : IsReady after

  same_guard :
      (n : AudioNormalizer) (p : AudioPacket)
      → is_accepted
          (record (AudioNormalizer_new n.input_sample_rate n.input_channels) {
            resample_remainder = n.resample_remainder;
          })
          p
        ≡ is_accepted n p
  unfolding is_accepted AudioNormalizer_new
  same_guard n p = refl

  same_samples :
      (n : AudioNormalizer) (p : AudioPacket)
      → normalized f64
          (record (AudioNormalizer_new n.input_sample_rate n.input_channels) {
            resample_remainder = n.resample_remainder;
          })
          p
        ≡ normalized f64 n p
  unfolding normalized AudioNormalizer_new
  same_samples n p = refl

  then-IsFramed :
      (before samples mid more after : List ℕ) (frames frames' : Frames)
      → IsFramed before samples frames mid
      → IsFramed mid more frames' after
      → IsFramed before (samples ++ more) (frames ++ frames') after
  then-IsFramed before samples mid more after frames frames' f g = record {
    conserved =
        rw (concat-append frames frames', append_assoc)
          (ap (λ t. concat frames ++ t) g.conserved
            ∙ sym (append_assoc (concat frames) mid more)
            ∙ ap (λ t. t ++ more) f.conserved
            ∙ append_assoc before samples more);
    whole = All-append _ frames frames' f.whole g.whole;
    below = g.below;
  }

  from_here :
      (n : AudioNormalizer) (p : AudioPacket) (ps : List AudioPacket) (a : Accepted f64 n p)
      (rest : IsStream a.after ps)
      → stream n.input_sample_rate n.input_channels a.remainder ps
        ≡ some (rest.samples, rest.after.resample_remainder)
  from_here n p ps a rest = rw (a.rate, a.channels, a.kept) at rest.streams

  -- A history of packets of any kind, from a normalizer in its ranges: no call reads out of range;
  -- each frame that is handed out has the 20 ms of an Opus frame, and less than a frame stays in the
  -- buffer; and the frames with the buffer are, in order, what was buffered before and the samples
  -- of the stream, to which the accepted packets alone add. `IsStream` says so.
  pub stream_lem : (n : AudioNormalizer) (ps : List AudioPacket) → IsReady n → IsStream n ps
  unfolding push_all stream concat
  stream_lem n [] v = record {
    frames = [];
    after = n;
    samples = [];
    runs = refl;
    streams = refl;
    framed = record {
      conserved = sym (append-nil n.buffered_stereo);
      whole = tt;
      below = v.buffer;
    };
    ready = v;
  }
  stream_lem n (p ∷ ps) v = elim (Bool-cases (is_accepted n p)) [
    | inl took ↦
        let a = accepted f64 n p v took in
        let rest = stream_lem a.after ps a.ready in
        record {
          frames = a.frames ++ rest.frames;
          after = rest.after;
          samples = a.samples ++ rest.samples;
          runs = rw (a.runs, rest.runs) refl;
          streams =
              rw (same_guard n p, took, same_samples n p, a.made)
                (ap (glue a.samples) (from_here n p ps a rest));
          framed = then-IsFramed _ _ _ _ _ _ _ a.framed rest.framed;
          ready = rest.ready;
        }
    | inr refused ↦
        let (error, e) = push-refused f64 n p refused in
        let rest = stream_lem n ps v in
        record {
          frames = rest.frames;
          after = rest.after;
          samples = rest.samples;
          runs = rw (e, rest.runs) refl;
          streams = rw (same_guard n p, refused) rest.streams;
          framed = rest.framed;
          ready = rest.ready;
        }
  ]
