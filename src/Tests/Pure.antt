-- ===== src/Tests/Pure.antt =====
-- The rate limiter, the agent's conversions and the client's assembler at concrete inputs.
use remotekvm.Base.{ℕ, zero, suc, ◌≡◌, refl, List, [], ◌∷◌, ◌++◌, Bool, true, false, some, arith}
use remotekvm.Base.Maps.{lookup}
use remotekvm.Base.Exec.{ok}
use remotekvm.Server.RateLimiter.{RateLimiter}
use remotekvm.Server.RateLimiter.Window.{granted, granted_lem}
use remotekvm.Client.Assembler.{EncodedMediaPacket, Assembler, Depacketize}
use remotekvm.Client.Assembler.Conservation.{emitted, after, received, emitted_lem}
use remotekvm.Client.AnnexB.{annex_b_to_avcc_sample}
use remotekvm.Client.AnnexB.RoundTrip.{round_trip}
use remotekvm.Agent.AnnexB.{append_avcc_as_annex_b, ensure_annex_b, has_annex_b_start_code}
use remotekvm.Base.Bytes.{any_suffix}
use remotekvm.Agent.AnnexB.Conversion.{append_avcc_as_annex_b_lem, ensure_annex_b_lem}

abbrev limiter : RateLimiter
limiter = record {
  inner = ("k", record { count = 1; reset_at = 60 }) ∷ [];
  max_requests = 3;
  window = 60;
}

granted_lem_example : granted "k" (("k", 5) ∷ ("j", 6) ∷ ("k", 7) ∷ ("k", 8) ∷ []) limiter ≡ 2
unfolding lookup
granted_lem_example =
    granted_lem "k" (("k", 5) ∷ ("j", 6) ∷ ("k", 7) ∷ ("k", 8) ∷ []) limiter
      (record { count = 1; reset_at = 60 }) refl
      (omega arith, (omega arith, (omega arith, (omega arith, tt))))

-- Each payload is one unit already.
abbrev plain : Depacketize (Unit {0})
plain d bytes = (ok bytes, d)

abbrev packet : ℕ → ℕ → Bool → EncodedMediaPacket
packet byte t last = record { payload = byte ∷ []; timestamp = t; marker = last }

abbrev waiting : Assembler (Unit {0})
waiting = record {
  depacketizer = tt;
  pending = record { pending_annex_b = 1 ∷ []; pending_timestamp = some 90 };
}

emitted_lem_example :
    emitted plain (packet 2 90 true ∷ packet 3 180 false ∷ packet 4 270 false ∷ []) waiting
      ++ (after plain
          (packet 2 90 true ∷ packet 3 180 false ∷ packet 4 270 false ∷ [])
          waiting).pending.pending_annex_b
    ≡ 1 ∷ 2 ∷ 3 ∷ 4 ∷ []
unfolding received
emitted_lem_example =
    emitted_lem plain (packet 2 90 true ∷ packet 3 180 false ∷ packet 4 270 false ∷ []) waiting

append_avcc_as_annex_b_lem_example :
    append_avcc_as_annex_b (0 ∷ 0 ∷ 0 ∷ 2 ∷ 103 ∷ 66 ∷ 0 ∷ 0 ∷ 0 ∷ 1 ∷ 104 ∷ []) (9 ∷ [])
    ≡ ok (9 ∷ 0 ∷ 0 ∷ 0 ∷ 1 ∷ 103 ∷ 66 ∷ 0 ∷ 0 ∷ 0 ∷ 1 ∷ 104 ∷ [])
append_avcc_as_annex_b_lem_example =
    append_avcc_as_annex_b_lem ((103 ∷ 66 ∷ []) ∷ (104 ∷ []) ∷ []) (9 ∷ [])
      (omega arith, (omega arith, tt))

ensure_annex_b_lem_example :
    ensure_annex_b (0 ∷ 0 ∷ 0 ∷ 2 ∷ 103 ∷ 66 ∷ []) ≡ 0 ∷ 0 ∷ 0 ∷ 1 ∷ 103 ∷ 66 ∷ []
unfolding has_annex_b_start_code any_suffix
ensure_annex_b_lem_example =
    ensure_annex_b_lem (103 ∷ 66 ∷ []) []
      (record { fits = omega arith; some_byte = omega arith }, tt) refl

-- A unit of 256 bytes.
abbrev bytes : ℕ → List ℕ
bytes zero = []
bytes (suc n) = 65 ∷ bytes n

-- A parameter set and a slice.
round_trip_example :
    annex_b_to_avcc_sample (0 ∷ 0 ∷ 0 ∷ 1 ∷ 103 ∷ 66 ∷ 0 ∷ 0 ∷ 0 ∷ 1 ∷ 101 ∷ 7 ∷ [])
    ≡ ok (some (0 ∷ 0 ∷ 0 ∷ 2 ∷ 101 ∷ 7 ∷ []))
unfolding any_suffix
round_trip_example =
    (round_trip ((103 ∷ 66 ∷ []) ∷ (101 ∷ 7 ∷ []) ∷ []) (
      record { clean = refl; some_byte = omega arith; fits = omega arith },
      (record { clean = refl; some_byte = omega arith; fits = omega arith }, tt),
    )).2
