-- ===== src/Client/Decoder/Sets.antt =====
-- The parameter sets and the session of `MacH264DecoderState` in apps/client/src/media.rs.
use remotekvm.Base.{
  ℕ, ◌≡◌, refl, ap, subst, sym, ◌∙◌, inl, inr, List, [], ◌∷◌, true, false, Option, none, some,
  Option-cases, Bool-cases, arith,
}
use remotekvm.Base.Exec.{ok}
use remotekvm.Client.AnnexB.{annex_b_nalus}
use remotekvm.Client.Assembler.{Depacketize}
use remotekvm.Client.Decoder.{
  ParameterSets, has_parameter_sets, observe_nalu, observe_nalus, observe_annex_b_sample,
  ◌==_bytes◌, VideoToolbox, VideoToolboxH264Decoder, matches_parameter_sets, MacH264DecoderState,
  needs_rebuild, ensured_session,
}

==_bytes→eq : (xs ys : List ℕ) → (xs ==_bytes ys) ≡ true → xs ≡ ys
==_bytes→eq [] [] h = refl
==_bytes→eq [] (y ∷ ys) h = absurd (ground arith)
==_bytes→eq (x ∷ xs) [] h = absurd (ground arith)
==_bytes→eq (x ∷ xs) (y ∷ ys) h =
    let e : x ≡ y = ground arith in
    let es : xs ≡ ys = ==_bytes→eq xs ys (ground arith) in rw (e, es) refl

-- A parameter set that was seen is replaced only by another.
observe_nalu_keeps :
    (nalu : List ℕ) (s : ParameterSets)
    → has_parameter_sets s ≡ true
    → has_parameter_sets (observe_nalu nalu s) ≡ true
unfolding has_parameter_sets observe_nalu
observe_nalu_keeps [] s h = h
observe_nalu_keeps (header ∷ payload) s h = ground arith

observe_nalus_keep :
    (nalus : List (List ℕ)) (s : ParameterSets)
    → has_parameter_sets s ≡ true
    → has_parameter_sets (observe_nalus nalus s) ≡ true
unfolding observe_nalus
observe_nalus_keep [] s h = h
observe_nalus_keep (nalu ∷ nalus) s h =
    observe_nalus_keep nalus (observe_nalu nalu s) (observe_nalu_keeps nalu s h)

module _ {D S F : Type 0} (toolbox : VideoToolbox S F) where
  -- A session stands beside the parameter sets that VideoToolbox made it for, and there is none
  -- before both parameter sets were seen.
  abbrev pub HasSets : MacH264DecoderState D S → Type 0
  HasSets s =
      (d : VideoToolboxH264Decoder S)
      → s.videotoolbox ≡ some d
      → (has_parameter_sets s.sets ≡ true) × (toolbox.create_session d.sps d.pps ≡ some d.session)

  -- The session was made for the parameter sets of the state.
  pub record IsCurrent (s : MacH264DecoderState D S) (d : VideoToolboxH264Decoder S) : Type 0 where
    pub session : s.videotoolbox ≡ some d
    pub sps : s.sets.sps ≡ some d.sps
    pub pps : s.sets.pps ≡ some d.pps
    pub made : toolbox.create_session d.sps d.pps ≡ some d.session

pub observed :
    {D S : Type 0} (sample : List ℕ) (s : MacH264DecoderState D S)
    → has_parameter_sets s.sets ≡ true
    → has_parameter_sets (observe_annex_b_sample sample s.sets) ≡ true
unfolding observe_annex_b_sample
observed sample s h = observe_nalus_keep (annex_b_nalus sample) s.sets h

module _ {D S F : Type 0} (depacketizer : Depacketize D) (toolbox : VideoToolbox S F) where
  abbrev State : Type 0
  State = MacH264DecoderState D S

  not_yet :
      (s s' : State) (d : VideoToolboxH264Decoder S)
      → has_parameter_sets s.sets ≡ false
      → HasSets toolbox s
      → s ≡ s'
      → s'.videotoolbox ≡ some d
      → IsCurrent toolbox s' d
  not_yet s s' d missing v same h =
      let has = (v d (ap (λ (s : State). s.videotoolbox) same ∙ h)).0 in absurd (ground arith)

  kept_matches :
      (d : VideoToolboxH264Decoder S) (o : Option (VideoToolboxH264Decoder S)) (sps pps : List ℕ)
      → o ≡ some d
      → needs_rebuild depacketizer toolbox o sps pps ≡ false
      → (sps ≡ d.sps) × (pps ≡ d.pps)
  unfolding matches_parameter_sets
  kept_matches d none sps pps e h = absurd (ground arith)
  kept_matches d (some d') sps pps e h =
      let same : d' ≡ d = cc in
      let a = ==_bytes→eq d'.sps sps (ground arith) in
      let b = ==_bytes→eq d'.pps pps (ground arith) in
      (
        sym a ∙ ap (λ (d : VideoToolboxH264Decoder S). d.sps) same,
        sym b ∙ ap (λ (d : VideoToolboxH264Decoder S). d.pps) same,
      )

  kept-IsCurrent :
      (s s' : State) (d : VideoToolboxH264Decoder S) (sps pps : List ℕ)
      → s.sets.sps ≡ some sps
      → s.sets.pps ≡ some pps
      → needs_rebuild depacketizer toolbox s.videotoolbox sps pps ≡ false
      → HasSets toolbox s
      → s ≡ s'
      → s'.videotoolbox ≡ some d
      → IsCurrent toolbox s' d
  kept-IsCurrent s s' d sps pps e e' h v same has =
      let (a, b) =
        kept_matches d s.videotoolbox sps pps (ap (λ (s : State). s.videotoolbox) same ∙ has) h in
      record {
        session = has;
        sps = ap (λ (s : State). s.sets.sps) (sym same) ∙ e ∙ ap some a;
        pps = ap (λ (s : State). s.sets.pps) (sym same) ∙ e' ∙ ap some b;
        made = (v d (ap (λ (s : State). s.videotoolbox) same ∙ has)).1;
      }

  new-IsCurrent :
      (s s' : State) (d new : VideoToolboxH264Decoder S)
      → s.sets.sps ≡ some new.sps
      → s.sets.pps ≡ some new.pps
      → toolbox.create_session new.sps new.pps ≡ some new.session
      → record s { videotoolbox = some new } ≡ s'
      → s'.videotoolbox ≡ some d
      → IsCurrent toolbox s' d
  new-IsCurrent s s' d new e e' created same h =
      let opened : some new ≡ some d = ap (λ (s : State). s.videotoolbox) same ∙ h in
      let it : new ≡ d = cc in
      record {
        session = h;
        sps =
            ap (λ (s : State). s.sets.sps) (sym same)
            ∙ e
            ∙ ap (λ (d : VideoToolboxH264Decoder S). some d.sps) it;
        pps =
            ap (λ (s : State). s.sets.pps) (sym same)
            ∙ e'
            ∙ ap (λ (d : VideoToolboxH264Decoder S). some d.pps) it;
        made =
            subst
              (λ (d : VideoToolboxH264Decoder S).
                toolbox.create_session d.sps d.pps ≡ some d.session)
              it created;
      }

  -- What is true after `ensure_videotoolbox_decoder` returned without an error.
  pub ensured-IsCurrent :
      (sps pps : Option (List ℕ)) (s s' : State) (d : VideoToolboxH264Decoder S)
      → s.sets.sps ≡ sps
      → s.sets.pps ≡ pps
      → HasSets toolbox s
      → ensured_session depacketizer toolbox sps pps s ≡ (ok tt, s')
      → s'.videotoolbox ≡ some d
      → IsCurrent toolbox s' d
  unfolding has_parameter_sets
  ensured-IsCurrent none pps s s' d e e' v r h = not_yet s s' d (rw e refl) v (ap (λ p. p.1) r) h
  ensured-IsCurrent (some sps) none s s' d e e' v r h =
      not_yet s s' d (rw (e, e') refl) v (ap (λ p. p.1) r) h
  ensured-IsCurrent (some sps) (some pps) s s' d e e' v r h =
      elim (Bool-cases (needs_rebuild depacketizer toolbox s.videotoolbox sps pps)) [
        | inr kept ↦ kept-IsCurrent s s' d sps pps e e' kept v (ap (λ p. p.1) (rw kept at r)) h
        | inl rebuild ↦ elim (Option-cases (toolbox.create_session sps pps)) [
          | inl failed ↦ absurd (ground (arith, rw (rebuild, failed) at r))
          | inr (session, made) ↦
              new-IsCurrent s s' d (record { session = session; sps = sps; pps = pps }) e e' made
                (ap (λ p. p.1) (rw (rebuild, made) at r)) h
        ]
      ]
