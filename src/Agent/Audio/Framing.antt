-- ===== src/Agent/Audio/Framing.antt =====
-- The buffer of `AudioNormalizer` in apps/agent/src/windows/audio.rs: against an endless stream.
use remotekvm.Agent.Floats.{F64}
use remotekvm.Base.{
  ℕ, zero, suc, ◌*◌, ◌/◌, ◌<◌, ◌≡◌, refl, List, [], ◌∷◌, ◌++◌, true, false, not, ◌&&◌, ◌||◌, Bool,
  some, inl, inr, arith, ◌==◌, length, All, Bool-cases,
}
use remotekvm.Base.Exec.{ok, err}
use remotekvm.Base.Rows.{concat, length-drop}
use remotekvm.Base.Chunks.{concat-chunks_exact, All-chunks_exact}
use remotekvm.Agent.Audio.{
  AudioNormalizer, AudioPacket, AudioError, Frames, drain_frames, push_packet, normalized,
  interleaved_to_stereo, opus_frame_pcm_samples, front_pairs, doubled, opus_sample_rate,
}
use remotekvm.Agent.Audio.Rounds.{resample_total}

-- What `push_packet` hands out and keeps is what it kept before and what it got, in order.
pub record IsFramed (before samples : List ℕ) (frames : Frames) (after : List ℕ) : Type 0 where
  pub conserved : concat frames ++ after ≡ before ++ samples
  pub whole : All (λ frame. length frame ≡ opus_frame_pcm_samples) frames
  pub below : length after < opus_frame_pcm_samples

drain_frames-IsFramed :
    (n : AudioNormalizer) (samples : List ℕ) (r : ℕ)
    → IsFramed n.buffered_stereo samples
        (drain_frames n samples r).0
        (drain_frames n samples r).1.buffered_stereo
unfolding drain_frames concat
drain_frames-IsFramed n samples r =
    let all = n.buffered_stereo ++ samples in
    elim (Bool-cases (length all / 1920 == 0)) [
      | inl none_yet ↦ rw none_yet (record { conserved = refl; whole = tt; below = ground arith })
      | inr some_full ↦ rw some_full (record {
        conserved = concat-chunks_exact 1920 all;
        whole = All-chunks_exact 1920 all;
        below = omega (arith, length-drop (length all / 1920 * 1920) all);
      })
    ]

drain_frames_fields :
    (n : AudioNormalizer) (samples : List ℕ) (r : ℕ)
    → let n' = (drain_frames n samples r).1 in
      (n'.input_sample_rate ≡ n.input_sample_rate)
      × (n'.input_channels ≡ n.input_channels)
      × (n'.resample_remainder ≡ r)
unfolding drain_frames
drain_frames_fields n samples r = ground arith

pub record IsReady (n : AudioNormalizer) : Type 0 where
  pub rate : 0 < n.input_sample_rate
  pub remainder : n.resample_remainder < n.input_sample_rate
  pub buffer : length n.buffered_stereo < opus_frame_pcm_samples

front_pairs_total :
    (more : ℕ) (frames : Frames)
    → All (λ frame. length frame ≡ suc (suc more)) frames
    → (out : List ℕ) × (front_pairs frames ≡ some out)
unfolding front_pairs
front_pairs_total more [] h = ([], refl)
front_pairs_total more ([] ∷ frames) h = absurd (omega (arith, h.0))
front_pairs_total more ((l ∷ []) ∷ frames) h = absurd (omega (arith, h.0))
front_pairs_total more ((l ∷ r ∷ rest) ∷ frames) h =
    let (out, e) = front_pairs_total more frames h.1 in (l ∷ r ∷ out, rw e refl)

interleaved_to_stereo_total :
    (samples : List ℕ) (channels : ℕ)
    → (out : List ℕ) × (interleaved_to_stereo samples channels ≡ some out)
unfolding interleaved_to_stereo
interleaved_to_stereo_total samples zero = ([], refl)
interleaved_to_stereo_total samples (suc zero) = (doubled samples, refl)
interleaved_to_stereo_total samples (suc (suc zero)) = (samples, refl)
interleaved_to_stereo_total samples (suc (suc (suc more))) =
    front_pairs_total (suc more) _ (All-chunks_exact (suc (suc (suc more))) samples)

-- The guards of `push_packet`.
unfoldable pub is_accepted : AudioNormalizer → AudioPacket → Bool
is_accepted n p =
    not (p.channels == 0)
    && not (p.sample_rate == 0)
    && p.channels == n.input_channels
    && p.sample_rate == n.input_sample_rate
    && length p.pcm_data == p.frames * p.channels

module _ {F : Type 0} (f64 : F64 F) where
  normalized_total :
      (n : AudioNormalizer) (p : AudioPacket)
      → IsReady n
      → p.sample_rate ≡ n.input_sample_rate
      → (out : List ℕ) × (r : ℕ) × (normalized f64 n p ≡ some (out, r)) × (r < n.input_sample_rate)
  unfolding normalized
  normalized_total n p v same =
      let (stereo, e) = interleaved_to_stereo_total p.pcm_data p.channels in
      let (out, r, e', small) =
        resample_total f64 stereo p.sample_rate opus_sample_rate n.resample_remainder (omega arith)
          (omega arith) in
      (out, r, rw e e', omega arith)

  -- One call: the outcome of a refused packet, and of one that is accepted.
  pub record Accepted (n : AudioNormalizer) (p : AudioPacket) : Type 0 where
    pub samples : List ℕ
    pub remainder : ℕ
    pub frames : Frames
    pub after : AudioNormalizer
    pub made : normalized f64 n p ≡ some (samples, remainder)
    pub runs : push_packet f64 n p ≡ some (ok frames, after)
    pub framed : IsFramed n.buffered_stereo samples frames after.buffered_stereo
    pub ready : IsReady after
    pub rate : after.input_sample_rate ≡ n.input_sample_rate
    pub channels : after.input_channels ≡ n.input_channels
    pub kept : after.resample_remainder ≡ remainder

  push-drain_frames :
      (n : AudioNormalizer) (p : AudioPacket) (samples : List ℕ) (r : ℕ)
      → is_accepted n p ≡ true
      → normalized f64 n p ≡ some (samples, r)
      → push_packet f64 n p ≡ some (ok (drain_frames n samples r).0, (drain_frames n samples r).1)
  unfolding is_accepted push_packet
  push-drain_frames n p samples r h e = rw e (ground arith)

  pub push-refused :
      (n : AudioNormalizer) (p : AudioPacket)
      → is_accepted n p ≡ false
      → (error : AudioError) × (push_packet f64 n p ≡ some (err error, n))
  unfolding is_accepted push_packet
  push-refused n p h = elim (Bool-cases (p.channels == 0 || p.sample_rate == 0)) [
    | inl bad ↦ (AudioError.invalid_format, rw bad refl)
    | inr good ↦
        elim (Bool-cases
          (not (p.channels == n.input_channels) || not (p.sample_rate == n.input_sample_rate))) [
            | inl bad ↦ (AudioError.format_changed, rw (good, bad) refl)
            | inr same ↦ (AudioError.sample_count_mismatch, rw (good, same) (ground arith))
          ]
  ]

  pub accepted :
      (n : AudioNormalizer) (p : AudioPacket) → IsReady n → is_accepted n p ≡ true → Accepted n p
  accepted n p v h =
      let same : p.sample_rate ≡ n.input_sample_rate = unfold is_accepted in ground arith in
      let (out, r, e, small) = normalized_total n p v same in
      let framed = drain_frames-IsFramed n out r in
      let (rate, channels, kept) = drain_frames_fields n out r in
      record {
        samples = out;
        remainder = r;
        frames = (drain_frames n out r).0;
        after = (drain_frames n out r).1;
        made = e;
        runs = push-drain_frames n p out r h e;
        framed = framed;
        ready = record {
          rate = omega (arith, rate);
          remainder = omega (arith, rate, kept);
          buffer = framed.below;
        };
        rate = rate;
        channels = channels;
        kept = kept;
      }
