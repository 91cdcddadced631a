-- ===== src/Client/Decoder/Session.antt =====
-- The session that `MacH264DecoderState::decode` of apps/client/src/media.rs decodes with.
use remotekvm.Base.{
  ℕ, ◌≡◌, refl, ap, subst, sym, ◌∙◌, inl, inr, List, [], ◌∷◌, true, String, Option, none, some,
  Option-cases, Bool-cases, arith,
}
use remotekvm.Base.Exec.{Result, ok, err}
use remotekvm.Client.AnnexB.{annex_b_to_avcc_sample}
use remotekvm.Client.Assembler.{EncodedMediaPacket, Depacketize}
use remotekvm.Client.Decoder.{
  VideoError, has_parameter_sets, observe_annex_b_sample, VideoToolbox, VideoToolboxH264Decoder,
  MacH264DecoderState, needs_rebuild, ensured_session, ensure_videotoolbox_decoder, rebuilt,
  after_ensure, on_unit, decode_avcc, frame_of, mac_decode,
}
use remotekvm.Client.Decoder.Sets.{HasSets, IsCurrent, observed, ensured-IsCurrent}

module _ {D S F : Type 0} (depacketizer : Depacketize D) (toolbox : VideoToolbox S F) where
  abbrev State : Type 0
  State = MacH264DecoderState D S

  decode_avcc_session :
      (r : Result ℕ (Option (List ℕ))) (timestamp : ℕ) (s : State) (frame : F)
      → decode_avcc depacketizer toolbox r timestamp s ≡ ok (some frame)
      → (d : VideoToolboxH264Decoder S) × (avcc : List ℕ) × (s.videotoolbox ≡ some d)
        × (r ≡ ok (some avcc))
        × (toolbox.decode_frame d.session avcc timestamp ≡ some (some frame))
  decode_avcc_session (err n) timestamp s frame h = absurd (ground arith)
  decode_avcc_session (ok none) timestamp s frame h = absurd (ground arith)
  decode_avcc_session (ok (some avcc)) timestamp s frame h = elim (Option-cases s.videotoolbox) [
    | inl missing ↦ absurd (ground (arith, rw missing at h))
    | inr (d, e) ↦ (
      d,
      avcc,
      e,
      refl,
      frame_of_session (toolbox.decode_frame d.session avcc timestamp) frame (rw e at h),
    )
  ]
    where
      frame_of_session :
          (o : Option (Option F)) (frame : F)
          → frame_of depacketizer toolbox o ≡ ok (some frame)
          → o ≡ some (some frame)
      frame_of_session none frame h = absurd (ground arith)
      frame_of_session (some shown) frame h = let e : shown ≡ some frame = ground arith in ap some e

  -- The frame is what a session made of the access unit, and the session was made for the parameter
  -- sets of the state after it, which are those before with what the unit brought.
  pub record Shown (annex_b : List ℕ) (timestamp : ℕ) (s s' : State) (frame : F) : Type 0 where
    pub decoder : VideoToolboxH264Decoder S
    pub avcc : List ℕ
    pub shown_by : IsCurrent toolbox s' decoder
    pub observed_sets : s'.sets ≡ observe_annex_b_sample annex_b s.sets
    pub sample : annex_b_to_avcc_sample annex_b ≡ ok (some avcc)
    pub decoded : toolbox.decode_frame decoder.session avcc timestamp ≡ some (some frame)

  rebuilt-sets :
      (sps pps : List ℕ) (o : Option S) (s : State)
      → (rebuilt depacketizer toolbox sps pps o s).1.sets ≡ s.sets
  rebuilt-sets sps pps none s = refl
  rebuilt-sets sps pps (some session) s = refl

  ensured-sets :
      (sps pps : Option (List ℕ)) (s : State)
      → (ensured_session depacketizer toolbox sps pps s).1.sets ≡ s.sets
  ensured-sets none pps s = refl
  ensured-sets (some sps) none s = refl
  ensured-sets (some sps) (some pps) s =
      elim (Bool-cases (needs_rebuild depacketizer toolbox s.videotoolbox sps pps)) [
        | inl rebuild ↦ rw rebuild (rebuilt-sets sps pps (toolbox.create_session sps pps) s)
        | inr kept ↦ rw kept refl
      ]

  after_ensure-IsCurrent :
      (annex_b : List ℕ) (timestamp : ℕ) (s before s' : State) (frame : F)
      (r : Result VideoError (Unit {0}) × State)
      → ensure_videotoolbox_decoder depacketizer toolbox s ≡ r
      → s.sets ≡ observe_annex_b_sample annex_b before.sets
      → HasSets toolbox s
      → after_ensure depacketizer toolbox annex_b timestamp r ≡ (ok (some frame), s')
      → Shown annex_b timestamp before s' frame
  unfolding ensure_videotoolbox_decoder
  after_ensure-IsCurrent annex_b timestamp s before s' frame (err e, t) run seen v h =
      absurd (ground (arith, ap (λ p. p.0) h))
  after_ensure-IsCurrent annex_b timestamp s before s' frame (ok tt, t) run seen v h =
      let found =
        decode_avcc_session (annex_b_to_avcc_sample annex_b) timestamp t frame (ap (λ p. p.0) h) in
      let c =
        ensured-IsCurrent depacketizer toolbox s.sets.sps s.sets.pps s t found.0 refl refl v run
          found.2 in
      let same : t ≡ s' = ap (λ p. p.1) h in
      record {
        decoder = found.0;
        avcc = found.1;
        shown_by = subst (λ (s : State). IsCurrent toolbox s found.0) same c;
        observed_sets =
            ap (λ (s : State). s.sets) (sym same)
            ∙ ap (λ p. p.1.sets) (sym run)
            ∙ ensured-sets s.sets.sps s.sets.pps s
            ∙ seen;
        sample = found.3;
        decoded = found.4;
      }

  on_unit-IsCurrent :
      (r : Result String (List ℕ)) (timestamp : ℕ) (s s' : State) (frame : F)
      → HasSets toolbox s
      → on_unit depacketizer toolbox r timestamp s ≡ (ok (some frame), s')
      → (annex_b : List ℕ) × (r ≡ ok annex_b) × Shown annex_b timestamp s s' frame
  on_unit-IsCurrent (err e) timestamp s s' frame v h = absurd (ground (arith, ap (λ p. p.0) h))
  on_unit-IsCurrent (ok []) timestamp s s' frame v h = absurd (ground (arith, ap (λ p. p.0) h))
  on_unit-IsCurrent (ok (b ∷ bs)) timestamp s s' frame v h = (
    b ∷ bs,
    refl,
    after_ensure-IsCurrent (b ∷ bs) timestamp
        (record s { sets = observe_annex_b_sample (b ∷ bs) s.sets }) s s' frame _ refl refl
        (λ d e. (observed (b ∷ bs) s (v d e).0, (v d e).1)) h,
  )

  rebuilt-HasSets :
      (sps pps : List ℕ) (o : Option S) (s : State)
      → toolbox.create_session sps pps ≡ o
      → has_parameter_sets s.sets ≡ true
      → HasSets toolbox s
      → HasSets toolbox (rebuilt depacketizer toolbox sps pps o s).1
  rebuilt-HasSets sps pps none s made h v = v
  rebuilt-HasSets sps pps (some session) s made h v = λ d e.
      let it : record { session = session; sps = sps; pps = pps } ≡ d = ground arith in
      (
        h,
        subst
            (λ (d : VideoToolboxH264Decoder S). toolbox.create_session d.sps d.pps ≡ some d.session)
            it made,
      )

  ensured_HasSets :
      (sps pps : Option (List ℕ)) (s : State)
      → s.sets.sps ≡ sps
      → s.sets.pps ≡ pps
      → HasSets toolbox s
      → HasSets toolbox (ensured_session depacketizer toolbox sps pps s).1
  unfolding has_parameter_sets
  ensured_HasSets none pps s e e' v = v
  ensured_HasSets (some sps) none s e e' v = v
  ensured_HasSets (some sps) (some pps) s e e' v =
      elim (Bool-cases (needs_rebuild depacketizer toolbox s.videotoolbox sps pps)) [
        | inl rebuild ↦
            rw rebuild
              (rebuilt-HasSets sps pps (toolbox.create_session sps pps) s refl (rw (e, e') refl) v)
        | inr kept ↦ rw kept v
      ]

  after_ensure-HasSets :
      (annex_b : List ℕ) (timestamp : ℕ) (r : Result VideoError (Unit {0}) × State)
      → HasSets toolbox r.1
      → HasSets toolbox (after_ensure depacketizer toolbox annex_b timestamp r).1
  after_ensure-HasSets annex_b timestamp (err e, s) v = v
  after_ensure-HasSets annex_b timestamp (ok u, s) v = v

  on_unit-HasSets :
      (r : Result String (List ℕ)) (timestamp : ℕ) (s : State)
      → HasSets toolbox s
      → HasSets toolbox (on_unit depacketizer toolbox r timestamp s).1
  unfolding ensure_videotoolbox_decoder
  on_unit-HasSets (err e) timestamp s v = v
  on_unit-HasSets (ok []) timestamp s v = v
  on_unit-HasSets (ok (b ∷ bs)) timestamp s v = after_ensure-HasSets (b ∷ bs) timestamp _ (
      ensured_HasSets _ _ (record s { sets = observe_annex_b_sample (b ∷ bs) s.sets }) refl refl
        (λ d e. (observed (b ∷ bs) s (v d e).0, (v d e).1)))

  mac_decode-HasSets :
      (packet : EncodedMediaPacket) (s : State)
      → HasSets toolbox s
      → HasSets toolbox (mac_decode depacketizer toolbox packet s).1
  unfolding mac_decode
  mac_decode-HasSets packet s v =
      on_unit-HasSets (depacketizer s.depacketizer packet.payload).0 packet.timestamp
        (record s { depacketizer = (depacketizer s.depacketizer packet.payload).1 }) v

  -- The packet holds an access unit that a current session shows.
  abbrev pub ShownOf : EncodedMediaPacket → State → State → F → Type 0
  ShownOf packet s s' frame =
      (annex_b : List ℕ) × ((depacketizer s.depacketizer packet.payload).0 ≡ ok annex_b)
      × Shown annex_b packet.timestamp s s' frame

  one_frame :
      (packet : EncodedMediaPacket) (s s' : State) (frame : F)
      → HasSets toolbox s
      → mac_decode depacketizer toolbox packet s ≡ (ok (some frame), s')
      → ShownOf packet s s' frame
  unfolding mac_decode
  one_frame packet s s' frame v h =
      let found =
        on_unit-IsCurrent (depacketizer s.depacketizer packet.payload).0 packet.timestamp
          (record s { depacketizer = (depacketizer s.depacketizer packet.payload).1 }) s' frame v
          h in
      (
        found.0,
        found.1,
        record {
          decoder = found.2.decoder;
          avcc = found.2.avcc;
          shown_by = found.2.shown_by;
          observed_sets = found.2.observed_sets;
          sample = found.2.sample;
          decoded = found.2.decoded;
        },
      )

  -- The state after the packets.
  unfoldable pub mac_run : List EncodedMediaPacket → State → State
  mac_run [] s = s
  mac_run (packet ∷ packets) s = mac_run packets (mac_decode depacketizer toolbox packet s).1

  run_HasSets :
      (packets : List EncodedMediaPacket) (s : State)
      → HasSets toolbox s
      → HasSets toolbox (mac_run packets s)
  unfolding mac_run
  run_HasSets [] s v = v
  run_HasSets (packet ∷ packets) s v = run_HasSets packets _ (mac_decode-HasSets packet s v)

  -- On macOS, after any packets from a state without a session: when a further packet gives a frame,
  -- the packet held an access unit, whose conversion to AVCC was decoded to this frame by the session
  -- of the state; the session is what VideoToolbox created for the parameter sets that stand in the
  -- state, and these are those before with what the access unit brought.
  pub mac_decode-IsCurrent :
      (packets : List EncodedMediaPacket) (packet : EncodedMediaPacket) (s s' : State) (frame : F)
      → s.videotoolbox ≡ none
      → mac_decode depacketizer toolbox packet (mac_run packets s) ≡ (ok (some frame), s')
      → ShownOf packet (mac_run packets s) s' frame
  mac_decode-IsCurrent packets packet s s' frame fresh h =
      one_frame packet (mac_run packets s) s' frame
        (run_HasSets packets s (λ d e. absurd (ground arith))) h
