-- ===== src/Client/Decoder/Pending.antt =====
-- Packets that arrive at `WindowsH264DecoderState::decode` of apps/client/src/media.rs while decoded
-- frames wait.
use remotekvm.Base.{◌≡◌, refl, ap, List, [], ◌∷◌, map, some, length, arith}
use remotekvm.Base.Exec.{ok}
use remotekvm.Client.Assembler.{EncodedMediaPacket, H264AccessUnit, Depacketize, push_rtp}
use remotekvm.Client.Decoder.{
  MediaFoundation, Output, WindowsH264DecoderState, windows_decode, observe_annex_b_sample,
}

module _ {D M F : Type 0} (depacketizer : Depacketize D) (platform : MediaFoundation M F) where
  abbrev State : Type 0
  State = WindowsH264DecoderState D M F

  abbrev also :
      Output depacketizer platform
      → List (Output depacketizer platform) × State
      → List (Output depacketizer platform) × State
  also first (rest, s) = (first ∷ rest, s)

  -- A history of packets, with what each of them gives.
  unfoldable pub decode_all :
      List EncodedMediaPacket → State → List (Output depacketizer platform) × State
  decode_all [] s = ([], s)
  decode_all (p ∷ ps) s =
      let (first, s') = windows_decode depacketizer platform p s in also first (decode_all ps s')

  all_waiting :
      (ps : List EncodedMediaPacket) (frames : List F) (s : State)
      → s.pending_frames ≡ frames
      → length ps ≡ length frames
      → decode_all ps s ≡ (map (λ frame. ok (some frame)) frames, record s { pending_frames = [] })
  unfolding decode_all windows_decode
  all_waiting [] [] s e h = ap (λ fs. ([], record s { pending_frames = fs })) e
  all_waiting [] (frame ∷ frames) s e h = absurd (omega (arith, h))
  all_waiting (p ∷ ps) [] s e h = absurd (omega (arith, h))
  all_waiting (p ∷ ps) (frame ∷ frames) s e h =
      rw (e, all_waiting ps frames (record s { pending_frames = frames }) refl (omega (arith, h)))
        refl

  abbrev after : EncodedMediaPacket → State → H264AccessUnit → M → List F → State
  after packet s unit m' waiting = record {
    rtp = (push_rtp depacketizer packet s.rtp).1;
    media_foundation = some m';
    pending_frames = waiting;
    sets = observe_annex_b_sample unit.annex_b s.sets;
  }

  first_call :
      (packet : EncodedMediaPacket) (s : State) (unit : H264AccessUnit) (m m' : M) (first : F)
      (waiting : List F)
      → s.pending_frames ≡ []
      → s.media_foundation ≡ some m
      → (push_rtp depacketizer packet s.rtp).0 ≡ ok (some unit)
      → platform.decode m unit.annex_b unit.timestamp ≡ (some (first ∷ waiting), m')
      → windows_decode depacketizer platform packet s
        ≡ (ok (some first), after packet s unit m' waiting)
  unfolding windows_decode
  first_call packet s unit m m' first waiting none_waits ready complete made =
      rw (none_waits, complete, ready, made) refl

  -- Where Media Foundation made several frames of one access unit, the next packets, one for each
  -- frame that is still waiting, are lost whatever they hold: each call gives a waiting frame, and
  -- neither the assembler, nor the parameter sets, nor Media Foundation sees any of the packets.
  pub packets_lost :
      (packet : EncodedMediaPacket) (s : State) (unit : H264AccessUnit) (m m' : M) (first : F)
      (waiting : List F) (next : List EncodedMediaPacket)
      → s.pending_frames ≡ []
      → s.media_foundation ≡ some m
      → (push_rtp depacketizer packet s.rtp).0 ≡ ok (some unit)
      → platform.decode m unit.annex_b unit.timestamp ≡ (some (first ∷ waiting), m')
      → length next ≡ length waiting
      → decode_all (packet ∷ next) s ≡ (
        ok (some first) ∷ map (λ frame. ok (some frame)) waiting,
        record {
          rtp = (push_rtp depacketizer packet s.rtp).1;
          media_foundation = some m';
          pending_frames = [];
          sets = observe_annex_b_sample unit.annex_b s.sets;
        },
      )
  unfolding decode_all
  packets_lost packet s unit m m' first waiting next none_waits ready complete made h =
      rw
        (
          first_call packet s unit m m' first waiting none_waits ready complete made,
          all_waiting next waiting (after packet s unit m' waiting) refl h,
        )
        refl
