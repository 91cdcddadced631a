-- ===== src/Client/Assembler/Conservation.antt =====
-- What goes into the assembler comes out of it.
use remotekvm.Base.{
  ℕ, ◌≡◌, ◌≢◌, refl, sym, ap, ◌∙◌, List, [], ◌∷◌, ◌++◌, true, false, Option, none, some, String,
  append-nil, append_assoc, Bool-cases, inl, inr, ne→==,
}
use remotekvm.Base.Exec.{Result, ok, err}
use remotekvm.Client.Assembler.{
  EncodedMediaPacket, H264AccessUnit, Pending, Assembler, Depacketize, extend, flush, assemble,
  push_bytes, push_rtp, is_empty, is_some_at,
}

abbrev pub bytes_of : Option H264AccessUnit → List ℕ
bytes_of none = []
bytes_of (some u) = u.annex_b

extend_lem :
    (bytes : List ℕ) (packet : EncodedMediaPacket) (p : Pending)
    → bytes_of (extend bytes packet p).0 ++ (extend bytes packet p).1.pending_annex_b
      ≡ p.pending_annex_b ++ bytes
unfolding extend
extend_lem bytes packet p = elim (Bool-cases packet.marker) [
  | inl last ↦ rw last (append-nil (p.pending_annex_b ++ bytes))
  | inr more ↦ rw more refl
]

assemble_lem :
    (bytes : List ℕ) (packet : EncodedMediaPacket) (p : Pending)
    → bytes_of (assemble bytes packet p).0 ++ (assemble bytes packet p).1.pending_annex_b
      ≡ p.pending_annex_b ++ bytes
unfolding assemble flush
assemble_lem [] packet p = sym (append-nil p.pending_annex_b)
assemble_lem (b ∷ bs) packet p = elim (Bool-cases (is_empty p.pending_annex_b)) [
  | inl empty ↦
      rw empty (extend_lem (b ∷ bs) packet (record p { pending_timestamp = some packet.timestamp }))
  | inr full ↦ elim (Bool-cases (is_some_at p.pending_timestamp packet.timestamp)) [
    | inl same ↦ rw (full, same) (extend_lem (b ∷ bs) packet p)
    | inr changed ↦ rw (full, changed) refl
  ]
]

module _ {D : Type 0} (depacketize : Depacketize D) where
  abbrev pub unit_of : Result String (Option H264AccessUnit) → List ℕ
  unit_of (ok unit) = bytes_of unit
  unit_of (err e) = []

  -- The bytes of the access units that a run of packets completes.
  unfoldable pub emitted : List EncodedMediaPacket → Assembler D → List ℕ
  emitted [] a = []
  emitted (packet ∷ rest) a =
      let (r, a') = push_rtp depacketize packet a in unit_of r ++ emitted rest a'

  unfoldable pub after : List EncodedMediaPacket → Assembler D → Assembler D
  after [] a = a
  after (packet ∷ rest) a = after rest (push_rtp depacketize packet a).1

  abbrev pub bytes_in : Result String (List ℕ) → List ℕ
  bytes_in (ok bytes) = bytes
  bytes_in (err e) = []

  -- The bytes that the depacketizer makes of the same packets.
  unfoldable pub received : List EncodedMediaPacket → D → List ℕ
  received [] d = []
  received (packet ∷ rest) d =
      let (r, d') = depacketize d packet.payload in bytes_in r ++ received rest d'

  push_bytes_lem :
      (r : Result String (List ℕ)) (d : D) (packet : EncodedMediaPacket) (p : Pending)
      → unit_of (push_bytes depacketize r d packet p).0
          ++ (push_bytes depacketize r d packet p).1.pending.pending_annex_b
        ≡ p.pending_annex_b ++ bytes_in r
  unfolding push_bytes
  push_bytes_lem (ok bytes) d packet p = assemble_lem bytes packet p
  push_bytes_lem (err e) d packet p = sym (append-nil p.pending_annex_b)

  depacketizer-push_bytes :
      (r : Result String (List ℕ)) (d : D) (packet : EncodedMediaPacket) (p : Pending)
      → (push_bytes depacketize r d packet p).1.depacketizer ≡ d
  unfolding push_bytes
  depacketizer-push_bytes (ok bytes) d packet p = refl
  depacketizer-push_bytes (err e) d packet p = refl

  -- Over any run of packets, of any timestamps and markers, and also where the depacketizer fails on
  -- some: the access units completed, and then the bytes still pending, are the bytes pending before
  -- and then those that the depacketizer made, each byte once and in order.
  pub emitted_lem :
      (packets : List EncodedMediaPacket) (a : Assembler D)
      → emitted packets a ++ (after packets a).pending.pending_annex_b
        ≡ a.pending.pending_annex_b ++ received packets a.depacketizer
  unfolding emitted after received push_rtp
  emitted_lem [] a = sym (append-nil a.pending.pending_annex_b)
  emitted_lem (packet ∷ rest) a =
      let (r, d) = depacketize a.depacketizer packet.payload in
      let step = push_bytes_lem r d packet a.pending in
      let pushed = (push_bytes depacketize r d packet a.pending).1 in
      let unit = unit_of (push_bytes depacketize r d packet a.pending).0 in
      let next = emitted_lem rest (push_bytes depacketize r d packet a.pending).1 in
      append_assoc unit (emitted rest pushed) (after rest pushed).pending.pending_annex_b
      ∙ ap (λ x. unit ++ x)
          (next
            ∙ ap (λ x. pushed.pending.pending_annex_b ++ received rest x)
                (depacketizer-push_bytes r d packet a.pending))
      ∙ sym (append_assoc unit pushed.pending.pending_annex_b (received rest d))
      ∙ ap (λ x. x ++ received rest d) step
      ∙ append_assoc a.pending.pending_annex_b (bytes_in r) (received rest d)

  -- A packet that completes its frame, where an older frame is still pending: the older one comes
  -- out and the marker is lost, so that the complete frame stays behind until the next packet.
  late_frame :
      (packet : EncodedMediaPacket) (a : Assembler D) (b : ℕ) (bs : List ℕ) (t : ℕ)
      → (depacketize a.depacketizer packet.payload).0 ≡ ok (b ∷ bs)
      → is_empty a.pending.pending_annex_b ≡ false
      → a.pending.pending_timestamp ≡ some t
      → t ≢ packet.timestamp
      → packet.marker ≡ true
      → ((push_rtp depacketize packet a).0
          ≡ ok (some (record { annex_b = a.pending.pending_annex_b; timestamp = t })))
        × ((push_rtp depacketize packet a).1.pending
            ≡ record { pending_annex_b = b ∷ bs; pending_timestamp = some packet.timestamp })
  unfolding push_rtp push_bytes assemble flush
  late_frame packet a b bs t made waiting held differ last =
      rw (made, waiting, held, ne→== t packet.timestamp differ) (refl, refl)
