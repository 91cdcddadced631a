-- ===== src/Client/Assembler.antt =====
-- `H264AccessUnitAssembler` of apps/client/src/media.rs. `H264Packet::depacketize` of the `rtp`
-- crate, which has a state of its own, is a parameter.
pub mod Conservation
use remotekvm.Base.{
  ℕ, List, [], ◌∷◌, ◌++◌, Bool, true, false, Option, none, some, String, ◌==◌, if◌then◌else◌,
}
use remotekvm.Base.Exec.{Result, ok, err}

-- The fields of `EncodedMediaPacket` that are read; bytes are numbers.
pub record EncodedMediaPacket : Type 0 where
  pub payload : List ℕ
  pub timestamp : ℕ
  pub marker : Bool

pub record H264AccessUnit : Type 0 where
  pub annex_b : List ℕ
  pub timestamp : ℕ

pub record Pending : Type 0 where
  pub pending_annex_b : List ℕ
  pub pending_timestamp : Option ℕ

abbrev pub default : Pending
default = record { pending_annex_b = []; pending_timestamp = none }

abbrev pub unwrap_or : Option ℕ → ℕ → ℕ
unwrap_or none t = t
unwrap_or (some t) u = t

abbrev pub is_empty : List ℕ → Bool
is_empty [] = true
is_empty (x ∷ xs) = false

abbrev is_some_at : Option ℕ → ℕ → Bool
is_some_at none t = false
is_some_at (some u) t = u == t

-- The end of `push_rtp`, where the bytes join the pending ones.
unfoldable pub extend : List ℕ → EncodedMediaPacket → Pending → Option H264AccessUnit × Pending
extend bytes packet p =
    let joined = p.pending_annex_b ++ bytes in
    if packet.marker
    then (
      some
          (record { annex_b = joined; timestamp = unwrap_or p.pending_timestamp packet.timestamp }),
      default,
    )
    else (none, record p { pending_annex_b = joined })

unfoldable pub flush : List ℕ → EncodedMediaPacket → Pending → Option H264AccessUnit × Pending
flush bytes packet p = (
  some (record {
    annex_b = p.pending_annex_b;
    timestamp = unwrap_or p.pending_timestamp packet.timestamp;
  }),
  record { pending_annex_b = bytes; pending_timestamp = some packet.timestamp },
)

-- `push_rtp` after the depacketizer.
unfoldable pub assemble : List ℕ → EncodedMediaPacket → Pending → Option H264AccessUnit × Pending
assemble [] packet p = (none, p)
assemble (b ∷ bs) packet p =
    if is_empty p.pending_annex_b
    then extend (b ∷ bs) packet (record p { pending_timestamp = some packet.timestamp })
    else if is_some_at p.pending_timestamp packet.timestamp
    then extend (b ∷ bs) packet p
    else flush (b ∷ bs) packet p

pub record Assembler (D : Type 0) : Type 0 where
  pub depacketizer : D
  pub pending : Pending

abbrev pub Depacketize : Type 0 → Type 0
Depacketize D = D → List ℕ → Result String (List ℕ) × D

module _ {D : Type 0} (depacketize : Depacketize D) where
  push_bytes :
      Result String (List ℕ)
      → D
      → EncodedMediaPacket
      → Pending
      → Result String (Option H264AccessUnit) × Assembler D
  push_bytes (err e) d packet p = (err e, record { depacketizer = d; pending = p })
  push_bytes (ok bytes) d packet p =
      let (unit, p') = assemble bytes packet p in
      (ok unit, record { depacketizer = d; pending = p' })

  unfoldable pub push_rtp :
      EncodedMediaPacket → Assembler D → Result String (Option H264AccessUnit) × Assembler D
  unfolding push_bytes
  push_rtp packet a =
      let (r, d) = depacketize a.depacketizer packet.payload in push_bytes r d packet a.pending
