-- ===== src/Client/Decoder.antt =====
-- The H.264 decoder states of apps/client/src/media.rs: which packets reach the platform's decoder.
-- The depacketizer of the `rtp` crate, VideoToolbox and Media Foundation are parameters.
pub mod Sets
pub mod Session
pub mod Pending
use remotekvm.Base.{
  ℕ, ◌%◌, List, [], ◌∷◌, ◌++◌, Bool, true, false, not, ◌&&◌, Option, none, some, String, ◌==◌,
  if◌then◌else◌,
}
use remotekvm.Base.Exec.{Result, ok, err}
use remotekvm.Client.Assembler.{
  EncodedMediaPacket, H264AccessUnit, Assembler, Depacketize, push_rtp,
}
use remotekvm.Client.AnnexB.{annex_b_nalus, annex_b_to_avcc_sample}

pub data VideoError : Type 0 where
  depacketize : String → VideoError
  too_long : ℕ → VideoError
  platform : VideoError

pub record ParameterSets : Type 0 where
  pub sps : Option (List ℕ)
  pub pps : Option (List ℕ)

-- One NAL unit of `observe_annex_b_sample`, by `header & 0x1f`.
unfoldable pub observe_nalu : List ℕ → ParameterSets → ParameterSets
observe_nalu [] s = s
observe_nalu (header ∷ payload) s =
    if header % 32 == 7
    then record s { sps = some (header ∷ payload) }
    else if header % 32 == 8
    then record s { pps = some (header ∷ payload) }
    else s

unfoldable pub observe_nalus : List (List ℕ) → ParameterSets → ParameterSets
observe_nalus [] s = s
observe_nalus (nalu ∷ nalus) s = observe_nalus nalus (observe_nalu nalu s)

unfoldable pub observe_annex_b_sample : List ℕ → ParameterSets → ParameterSets
observe_annex_b_sample sample s = observe_nalus (annex_b_nalus sample) s

abbrev pub is_some : Option (List ℕ) → Bool
is_some none = false
is_some (some x) = true

unfoldable pub has_parameter_sets : ParameterSets → Bool
has_parameter_sets s = is_some s.sps && is_some s.pps

infix 50 ◌==_bytes◌
abbrev pub ◌==_bytes◌ : List ℕ → List ℕ → Bool
[] ==_bytes [] = true
[] ==_bytes (y ∷ ys) = false
(x ∷ xs) ==_bytes [] = false
(x ∷ xs) ==_bytes (y ∷ ys) = x == y && xs ==_bytes ys

-- VideoToolbox with a session type: what may fail, and one decoded sample.
pub record VideoToolbox (S F : Type 0) : Type 0 where
  pub create_session : List ℕ → List ℕ → Option S
  pub decode_frame : S → List ℕ → ℕ → Option (Option F)

pub record VideoToolboxH264Decoder (S : Type 0) : Type 0 where
  pub session : S
  pub sps : List ℕ
  pub pps : List ℕ

module _ {S : Type 0} where
  unfoldable pub matches_parameter_sets : VideoToolboxH264Decoder S → List ℕ → List ℕ → Bool
  matches_parameter_sets d sps pps = d.sps ==_bytes sps && d.pps ==_bytes pps

pub record MacH264DecoderState (D S : Type 0) : Type 0 where
  pub depacketizer : D
  pub sets : ParameterSets
  pub videotoolbox : Option (VideoToolboxH264Decoder S)

module _ {D S F : Type 0} (depacketizer : Depacketize D) (toolbox : VideoToolbox S F) where
  abbrev pub Mac : Type 0
  Mac = MacH264DecoderState D S

  abbrev pub rebuilt : List ℕ → List ℕ → Option S → Mac → Result VideoError (Unit {0}) × Mac
  rebuilt sps pps none s = (err VideoError.platform, s)
  rebuilt sps pps (some session) s =
      (ok tt, record s { videotoolbox = some (record { session = session; sps = sps; pps = pps }) })

  abbrev pub needs_rebuild : Option (VideoToolboxH264Decoder S) → List ℕ → List ℕ → Bool
  needs_rebuild none sps pps = true
  needs_rebuild (some d) sps pps = not (matches_parameter_sets d sps pps)

  abbrev pub ensured_session :
      Option (List ℕ) → Option (List ℕ) → Mac → Result VideoError (Unit {0}) × Mac
  ensured_session (some sps) (some pps) s =
      if needs_rebuild s.videotoolbox sps pps
      then rebuilt sps pps (toolbox.create_session sps pps) s
      else (ok tt, s)
  ensured_session (some sps) none s = (ok tt, s)
  ensured_session none pps s = (ok tt, s)

  unfoldable pub ensure_videotoolbox_decoder : Mac → Result VideoError (Unit {0}) × Mac
  ensure_videotoolbox_decoder s = ensured_session s.sets.sps s.sets.pps s

  abbrev pub Decoded : Type 0
  Decoded = Result VideoError (Option F)

  abbrev pub frame_of : Option (Option F) → Decoded
  frame_of none = err VideoError.platform
  frame_of (some frame) = ok frame

  abbrev pub to_session : Option (VideoToolboxH264Decoder S) → List ℕ → ℕ → Decoded
  to_session none avcc timestamp = ok none
  to_session (some d) avcc timestamp = frame_of (toolbox.decode_frame d.session avcc timestamp)

  abbrev pub decode_avcc : Result ℕ (Option (List ℕ)) → ℕ → Mac → Decoded
  decode_avcc (err n) timestamp s = err (VideoError.too_long n)
  decode_avcc (ok none) timestamp s = ok none
  decode_avcc (ok (some avcc)) timestamp s = to_session s.videotoolbox avcc timestamp

  abbrev pub after_ensure : List ℕ → ℕ → Result VideoError (Unit {0}) × Mac → Decoded × Mac
  after_ensure annex_b timestamp (err e, s) = (err e, s)
  after_ensure annex_b timestamp (ok u, s) =
      (decode_avcc (annex_b_to_avcc_sample annex_b) timestamp s, s)

  -- The access unit is what one packet holds: `H264DecodeState::push_rtp`.
  abbrev pub on_unit : Result String (List ℕ) → ℕ → Mac → Decoded × Mac
  on_unit (err e) timestamp s = (err (VideoError.depacketize e), s)
  on_unit (ok []) timestamp s = (ok none, s)
  on_unit (ok (b ∷ bs)) timestamp s =
      after_ensure (b ∷ bs) timestamp
        (ensure_videotoolbox_decoder (record s { sets = observe_annex_b_sample (b ∷ bs) s.sets }))

  unfoldable pub mac_decode : EncodedMediaPacket → Mac → Decoded × Mac
  mac_decode packet s =
      let (unit, d) = depacketizer s.depacketizer packet.payload in
      on_unit unit packet.timestamp (record s { depacketizer = d })

pub record MediaFoundation (M F : Type 0) : Type 0 where
  pub create : Option M
  pub decode : M → List ℕ → ℕ → Option (List F) × M

pub record WindowsH264DecoderState (D M F : Type 0) : Type 0 where
  pub rtp : Assembler D
  pub media_foundation : Option M
  pub pending_frames : List F
  pub sets : ParameterSets

module _ {D M F : Type 0} (depacketizer : Depacketize D) (platform : MediaFoundation M F) where
  abbrev pub Windows : Type 0
  Windows = WindowsH264DecoderState D M F

  abbrev pub Output : Type 0
  Output = Result VideoError (Option F)

  -- `self.pending_frames.pop_front()`.
  abbrev pub pop_front : List F → Windows → Output × Windows
  pop_front [] s = (ok none, record s { pending_frames = [] })
  pop_front (frame ∷ frames) s = (ok (some frame), record s { pending_frames = frames })

  abbrev pub queue_frames : Option (List F) × M → Windows → Output × Windows
  queue_frames (none, m) s = (err VideoError.platform, record s { media_foundation = some m })
  queue_frames (some frames, m) s =
      pop_front (s.pending_frames ++ frames) (record s { media_foundation = some m })

  abbrev pub create_then : Option M → H264AccessUnit → Windows → Output × Windows
  create_then none unit s = (err VideoError.platform, s)
  create_then (some m) unit s = queue_frames (platform.decode m unit.annex_b unit.timestamp) s

  abbrev pub with_decoder : Option M → H264AccessUnit → Windows → Output × Windows
  with_decoder (some m) unit s = queue_frames (platform.decode m unit.annex_b unit.timestamp) s
  with_decoder none unit s =
      if has_parameter_sets s.sets then create_then platform.create unit s else (ok none, s)

  abbrev pub on_access_unit : Result String (Option H264AccessUnit) → Windows → Output × Windows
  on_access_unit (err e) s = (err (VideoError.depacketize e), s)
  on_access_unit (ok none) s = (ok none, s)
  on_access_unit (ok (some unit)) s =
      with_decoder s.media_foundation unit
        (record s { sets = observe_annex_b_sample unit.annex_b s.sets })

  abbrev pub feed : EncodedMediaPacket → Windows → Output × Windows
  feed packet s =
      let (unit, rtp) = push_rtp depacketizer packet s.rtp in
      on_access_unit unit (record s { rtp = rtp })

  abbrev pub decode_at : List F → EncodedMediaPacket → Windows → Output × Windows
  decode_at (frame ∷ frames) packet s = (ok (some frame), record s { pending_frames = frames })
  decode_at [] packet s = feed packet s

  unfoldable pub windows_decode : EncodedMediaPacket → Windows → Output × Windows
  windows_decode packet s = decode_at s.pending_frames packet s
