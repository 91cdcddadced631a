-- ===== src/Agent/Audio/Pipeline.antt =====
-- The encoding task of apps/agent/src/windows/audio.rs does not panic, whatever packets it gets.
use remotekvm.Agent.Floats.{F64}
use remotekvm.Base.{
  ℕ, ◌<◌, ◌≡◌, refl, subst, ◌∙◌, List, [], ◌∷◌, Bool, true, false, Option, none, some, inl, inr,
  arith, ◌==◌, Bool-cases,
}
use remotekvm.Base.Exec.{Result, ok, err}
use remotekvm.Agent.Audio.{
  AudioPacket, AudioNormalizer, AudioNormalizer_new, AudioError, Frames, push_packet,
}
use remotekvm.Agent.Audio.Encoding.{
  Libopus, TaskEnd, OpusEncoder, OpusEncoder_new, set_up, EncodeError, EncodedAudioPacket, encode,
  encode_frames, encode_task, after_push, after_encode, write_all, after_write, or_libopus,
}
use remotekvm.Agent.Audio.Framing.{IsReady, is_accepted, accepted, push-refused}

-- What a call of `push_packet` leaves.
record Pushes {F : Type 0} (f64 : F64 F) (n : AudioNormalizer) (p : AudioPacket) : Type 0 where
  pub result : Result AudioError Frames
  pub after : AudioNormalizer
  pub runs : push_packet f64 n p ≡ some (result, after)
  pub ready : IsReady after
  pub rate : after.input_sample_rate ≡ n.input_sample_rate
  pub channels : after.input_channels ≡ n.input_channels

pushes :
    {F : Type 0} (f64 : F64 F) (n : AudioNormalizer) (p : AudioPacket) → IsReady n → Pushes f64 n p
pushes f64 n p v = elim (Bool-cases (is_accepted n p)) [
  | inl took ↦
      let a = accepted f64 n p v took in
      record {
        result = ok a.frames;
        after = a.after;
        runs = a.runs;
        ready = a.ready;
        rate = a.rate;
        channels = a.channels;
      }
  | inr refused ↦
      let (error, e) = push-refused f64 n p refused in
      record { result = err error; after = n; runs = e; ready = v; rate = refl; channels = refl }
]

module _ {E : Type 0} where
  pub record IsValid (o : OpusEncoder E) : Type 0 where
    pub ready : IsReady o.normalizer
    pub rate : o.normalizer.input_sample_rate ≡ o.sample_rate
    pub channels : o.normalizer.input_channels ≡ o.channels

module _ {E : Type 0} (opus : Libopus E) {F : Type 0} (f64 : F64 F) where
  -- What a call of `encode` leaves: a result, and a valid encoder.
  record Encodes (o : OpusEncoder E) (p : AudioPacket) : Type 0 where
    pub result : Result EncodeError (List EncodedAudioPacket)
    pub after : OpusEncoder E
    pub runs : encode opus f64 o p ≡ some (result, after)
    pub valid : IsValid after

  pushed_result :
      (o : OpusEncoder E) (p : AudioPacket) (a : Pushes f64 o.normalizer p)
      (r : Result AudioError Frames)
      → a.result ≡ r
      → IsValid o
      → (result : Result EncodeError (List EncodedAudioPacket)) × (after : OpusEncoder E)
        × (after_push opus o p.timestamp (push_packet f64 o.normalizer p) ≡ some (result, after))
        × IsValid after
  pushed_result o p a (ok frames) e v =
      let (result, encoder) = encode_frames opus p.timestamp frames o.encoder in
      (
        result,
        record o { normalizer = a.after; encoder = encoder },
        rw (a.runs, e) refl,
        record { ready = a.ready; rate = a.rate ∙ v.rate; channels = a.channels ∙ v.channels },
      )
  pushed_result o p a (err error) e v = (
    err (EncodeError.packet error),
    record o { normalizer = a.after },
    rw (a.runs, e) refl,
    record { ready = a.ready; rate = a.rate ∙ v.rate; channels = a.channels ∙ v.channels },
  )

  encodes : (o : OpusEncoder E) (p : AudioPacket) → IsValid o → Encodes o p
  unfolding encode
  encodes o p v = elim (Bool-cases (p.sample_rate == o.sample_rate)) [
    | inr differs ↦ record {
      result = err EncodeError.sample_rate_mismatch;
      after = o;
      runs = rw differs refl;
      valid = v;
    }
    | inl rate ↦ elim (Bool-cases (p.channels == o.channels)) [
      | inr differs ↦ record {
        result = err EncodeError.channel_mismatch;
        after = o;
        runs = rw (rate, differs) refl;
        valid = v;
      }
      | inl channels ↦
          let a = pushes f64 o.normalizer p v.ready in
          let (result, after, e, valid) = pushed_result o p a a.result refl v in
          record { result = result; after = after; runs = rw (rate, channels) e; valid = valid }
    ]
  ]

  module _ {T : Type 0} (write_sample : T → EncodedAudioPacket → Bool × T) where
    -- The task is at its end, and its encoder is valid.
    abbrev pub Ends : TaskEnd opus write_sample → Type 0
    Ends task = (o : OpusEncoder E) × (track : T) × (task ≡ some (o, track)) × IsValid o

    write-Ends :
        (o : OpusEncoder E) (written : Bool × T) (go_on : T → TaskEnd opus write_sample)
        → IsValid o
        → ((track : T) → Ends (go_on track))
        → Ends (after_write opus write_sample o written go_on)
    write-Ends o (true, track) go_on v h = h track
    write-Ends o (false, track) go_on v h = (o, track, refl, v)

    encode-Ends :
        (result : Result EncodeError (List EncodedAudioPacket)) (o : OpusEncoder E) (track : T)
        (go_on : OpusEncoder E → T → TaskEnd opus write_sample)
        → IsValid o
        → ((o : OpusEncoder E) (track : T) → IsValid o → Ends (go_on o track))
        → Ends (after_encode opus write_sample track (some (result, o)) go_on)
    encode-Ends (ok ps) o track go_on v h =
        write-Ends o (write_all opus write_sample ps track) (go_on o) v (λ track'. h o track' v)
    encode-Ends (err e) o track go_on v h = h o track v

    task-Ends :
        (ps : List AudioPacket) (o : OpusEncoder E) (track : T)
        → IsValid o
        → Ends (encode_task opus write_sample f64 o track ps)
    unfolding encode_task
    task-Ends [] o track v = (o, track, refl, v)
    task-Ends (p ∷ ps) o track v =
        let a = encodes o p v in
        rw a.runs
          (encode-Ends a.result a.after track _ a.valid (λ o' track' v'. task-Ends ps o' track' v'))

IsValid-after :
    {E : Type 0} (o : Option E) (go_on : E → Result EncodeError (OpusEncoder E))
    → ((encoder : E) (r : OpusEncoder E) → go_on encoder ≡ ok r → IsValid r)
    → (r : OpusEncoder E) → or_libopus o go_on ≡ ok r
    → IsValid r
unfolding or_libopus
IsValid-after none go_on h r e = absurd (ground arith)
IsValid-after (some encoder) go_on h r e = h encoder r e

set_up-IsValid :
    {E : Type 0} (opus : Libopus E) (rate channels bitrate : ℕ) (o : OpusEncoder E)
    → 0 < rate
    → set_up opus rate channels bitrate ≡ ok o
    → IsValid o
unfolding set_up AudioNormalizer_new
set_up-IsValid opus rate channels bitrate o h =
    IsValid-after _ _
      (λ a. IsValid-after _ _ (λ b. IsValid-after _ _ (λ c. IsValid-after _ _ (λ d r e.
        subst IsValid (made e) (record {
          ready = record { rate = h; remainder = h; buffer = omega arith };
          rate = refl;
          channels = refl;
        })))))
      o
  where
    made :
        {E : Type 0} {a b : OpusEncoder E}
        → ◌≡◌ {A = Result EncodeError (OpusEncoder E)} (ok a) (ok b)
        → a ≡ b
    made e = cc

OpusEncoder_new-IsValid :
    {E : Type 0} (opus : Libopus E) (rate channels bitrate : ℕ) (o : OpusEncoder E)
    → OpusEncoder_new opus rate channels bitrate ≡ ok o
    → IsValid o
unfolding OpusEncoder_new
OpusEncoder_new-IsValid opus rate channels bitrate o e =
    let some_rate : 0 < rate = ground arith in
    set_up-IsValid opus rate channels bitrate o some_rate (ground arith)

-- Of an encoder that `OpusEncoder::new` made: whatever packets come in, and whatever libopus and the
-- track answer, the task that encodes them gets to its end without an index out of range, and the
-- remainder and the buffer of the encoder that it leaves are in their ranges.
pub encode_task_lem :
    {E T : Type 0} (opus : Libopus E) (write_sample : T → EncodedAudioPacket → Bool × T)
    {F : Type 0} (f64 : F64 F) (rate channels bitrate : ℕ) (o : OpusEncoder E) (track : T)
    (ps : List AudioPacket)
    → OpusEncoder_new opus rate channels bitrate ≡ ok o
    → Ends opus f64 write_sample (encode_task opus write_sample f64 o track ps)
encode_task_lem opus write_sample f64 rate channels bitrate o track ps made =
    task-Ends opus f64 write_sample ps o track
      (OpusEncoder_new-IsValid opus rate channels bitrate o made)
