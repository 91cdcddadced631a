-- ===== src/Client/Playback/Queue.antt =====
-- The queue between the audio thread and the device in apps/client/src/media.rs.
use remotekvm.Base.{
  ℕ, zero, suc, ◌-◌, ◌/◌, ◌≤◌, ◌≡◌, ◌≢◌, refl, ap, ◌∙◌, inl, inr, List, [], ◌∷◌, ◌++◌, false, ◌||◌,
  Option, none, some, ◌==◌, ltb, length, drop, arith, Bool-cases,
}
use remotekvm.Base.Exec.{Result, ok, err}
use remotekvm.Base.Chunks.{drop-nil}
use remotekvm.Base.Rows.{length-drop}
use native.Mathlib.Nat.{div-eq_of_lt}
use remotekvm.Client.Playback.{
  Floats, DecodedAudioFrame, AudioPlaybackBuffer, audio_frame_to_f32, resample_interleaved, enqueue,
  after_f32, receive, fill_output,
}
use remotekvm.Client.Playback.Mixing.{resample_interleaved_lem}

abbrev pub InBound : AudioPlaybackBuffer → Type 0
InBound b = length b.samples ≤ b.config.max_samples

-- What the audio thread receives, and what the device asks for.
pub data Event : Type 0 where
  received : DecodedAudioFrame → Event
  asked : ℕ → Event

whole_frame : (n k : ℕ) → k ≢ 0 → (n / k == 0) ≡ false → k ≤ n
whole_frame n k h e = elim (Bool-cases (ltb n k)) [
  | inl short ↦ absurd (ground (arith, div-eq_of_lt {n = n} {m = k}))
  | inr long ↦ ground arith
]

resample_total :
    (floats : Floats) (input : List ℕ) (I ic O oc : ℕ)
    → (out : List ℕ) × (resample_interleaved floats input I ic O oc ≡ some out)
unfolding resample_interleaved
resample_total floats input I ic O oc =
    elim (Bool-cases (length input == 0 || I == 0 || ic == 0 || O == 0)) [
      | inl nothing ↦ ([], rw nothing refl)
      | inr given ↦ elim (Bool-cases (length input / ic == 0)) [
        | inl short ↦ ([], rw (given, short) refl)
        | inr long ↦
            let whole : ic ≤ length input = whole_frame (length input) ic (ground arith) long in
            let (out, e, _) =
              resample_interleaved_lem floats input I ic O oc (ground arith) (ground arith)
                (ground arith) whole in
            (out, e)
      ]
    ]

enqueue-InBound : (xs : List ℕ) (b : AudioPlaybackBuffer) → InBound (enqueue xs b)
unfolding enqueue
enqueue-InBound xs b =
    let overflow = length (b.samples ++ xs) - b.config.max_samples in
    ground (arith, length-drop overflow (b.samples ++ xs))

enqueue-config : (xs : List ℕ) (b : AudioPlaybackBuffer) → (enqueue xs b).config ≡ b.config
unfolding enqueue
enqueue-config xs b = refl

-- What the device takes is the front of the queue, then silence; it leaves the rest in order.
fill_output_lem :
    (convert : ℕ → ℕ) (silence n : ℕ) (samples : List ℕ)
    → (fill_output convert silence n samples).1 ≡ drop n samples
unfolding fill_output
fill_output_lem convert silence zero samples = refl
fill_output_lem convert silence (suc n) [] = fill_output_lem convert silence n [] ∙ drop-nil n
fill_output_lem convert silence (suc n) (x ∷ xs) = fill_output_lem convert silence n xs

-- A queue of the same configuration, within its bound.
abbrev Keeps : AudioPlaybackBuffer → AudioPlaybackBuffer → Type 0
Keeps b b' = (b'.config ≡ b.config) × InBound b'

module _ (floats : Floats) (convert : ℕ → ℕ) (silence : ℕ) where
  received_Keeps :
      (frame : DecodedAudioFrame) (b : AudioPlaybackBuffer) (r : Result (Unit {0}) (List ℕ))
      → InBound b
      → (b' : AudioPlaybackBuffer) × (after_f32 floats r frame b ≡ some b') × Keeps b b'
  received_Keeps frame b (err e) h = (b, refl, (refl, h))
  received_Keeps frame b (ok []) h = (b, refl, (refl, h))
  received_Keeps frame b (ok (x ∷ xs)) h =
      let (out, e) =
        resample_total floats (x ∷ xs) frame.sample_rate_hz frame.channels b.config.sample_rate_hz
          b.config.channels in
      (enqueue out b, rw e refl, (enqueue-config out b, enqueue-InBound out b))

  -- One event. The device's output is left out here.
  unfoldable pub on_event : Event → AudioPlaybackBuffer → Option AudioPlaybackBuffer
  on_event (received frame) b = receive floats frame b
  on_event (asked n) b = some (record b { samples = (fill_output convert silence n b.samples).1 })

  abbrev then_play :
      Option AudioPlaybackBuffer
      → (AudioPlaybackBuffer → Option AudioPlaybackBuffer)
      → Option AudioPlaybackBuffer
  then_play none go_on = none
  then_play (some b) go_on = go_on b

  unfoldable pub play : List Event → AudioPlaybackBuffer → Option AudioPlaybackBuffer
  play [] b = some b
  play (event ∷ events) b = then_play (on_event event b) (play events)

  event_Keeps :
      (event : Event) (b : AudioPlaybackBuffer)
      → InBound b
      → (b' : AudioPlaybackBuffer) × (on_event event b ≡ some b') × Keeps b b'
  unfolding on_event receive
  event_Keeps (received frame) b h =
      received_Keeps frame b (audio_frame_to_f32 floats frame.format frame.bytes) h
  event_Keeps (asked n) b h = (
    record b { samples = (fill_output convert silence n b.samples).1 },
    refl,
    (
      refl,
      omega
          (arith, ap length (fill_output_lem convert silence n b.samples), length-drop n b.samples),
    ),
  )

  -- Whatever frames are received and whatever the device asks for, in any order: the audio thread
  -- does not read out of a frame, and the queue keeps its configuration and never holds more than
  -- its bound.
  pub play_lem :
      (events : List Event) (b : AudioPlaybackBuffer)
      → InBound b
      → (b' : AudioPlaybackBuffer) × (play events b ≡ some b')
        × (b'.config ≡ b.config)
        × (length b'.samples ≤ b.config.max_samples)
  unfolding play
  play_lem [] b h = (b, refl, refl, h)
  play_lem (event ∷ events) b h =
      let (mid, e, (same, fits)) = event_Keeps event b h in
      let (after, e', same', fits') = play_lem events mid fits in
      (after, rw e e', same' ∙ same, rw same at fits')
