-- ===== src/Server/Signature/Acceptance.antt =====
-- What an accepted signature shows.
use remotekvm.Base.{
  ℕ, ◌+◌, ◌≤◌, ◌≡◌, refl, sym, subst, List, [], ◌∷◌, true, inl, inr, Option, none, some, arith, any,
  ltb, Bool-cases,
}
use remotekvm.Base.Exec.{ok}
use remotekvm.Base.Bytes.{Bytes}
use remotekvm.Server.Signature.Comparison.{ct_eq_lem}
use remotekvm.Server.Signature.Header.{
  join, join-split, Mem, here, there, t_part, v1_part, read_header-IsRead,
}
use remotekvm.Server.Signature.{
  pos, negsuc, split, parse_i64, ℤ, read_header, distance, webhook_tolerance_secs, ct_eq,
  verify_signature, verify_at, against,
}

module _ (sign : Bytes → ℤ → Bytes → Option Bytes) (body secret : Bytes) (now : ℕ) where
  -- What an accepted signature shows, for a time and the `v1` values of a header.
  abbrev Accepted : Option ℤ → List Bytes → Type 0
  Accepted stamp sigs =
      (t : ℤ) × (expected : Bytes) × (stamp ≡ some t)
      × (distance now t ≤ webhook_tolerance_secs)
      × (sign secret t body ≡ some expected)
      × (any (ct_eq expected) sigs ≡ true)

  accepted_against :
      (t : ℤ) (given : Option Bytes) (sigs : List Bytes)
      → against sign given sigs ≡ ok tt
      → (expected : Bytes) × (given ≡ some expected) × (any (ct_eq expected) sigs ≡ true)
  unfolding against
  accepted_against t none sigs h = absurd (ground arith)
  accepted_against t (some expected) sigs h = elim (Bool-cases (any (ct_eq expected) sigs)) [
    | inl found ↦ (expected, refl, found)
    | inr missing ↦ absurd (ground arith)
  ]

  accepted_at :
      (stamp : Option ℤ) (sigs : List Bytes)
      → verify_at sign stamp sigs body secret now ≡ ok tt
      → Accepted stamp sigs
  unfolding verify_at
  accepted_at none sigs h = absurd (ground arith)
  accepted_at (some t) [] h = absurd (ground arith)
  accepted_at (some t) (sig ∷ sigs) h =
      elim (Bool-cases (ltb webhook_tolerance_secs (distance now t))) [
        | inl late ↦ absurd (ground arith)
        | inr early ↦
            let (expected, given, found) =
              accepted_against t (sign secret t body) (sig ∷ sigs) (ground arith) in
            (t, expected, refl, ground arith, given, found)
      ]

any-Mem :
    (expected : Bytes) (sigs : List Bytes) → any (ct_eq expected) sigs ≡ true → Mem expected sigs
any-Mem expected [] h = absurd (ground arith)
any-Mem expected (sig ∷ sigs) h = elim (Bool-cases (ct_eq expected sig)) [
  | inl equal ↦ subst (λ v. Mem v (sig ∷ sigs)) (sym ((ct_eq_lem expected sig).0 equal)) (here sigs)
  | inr other ↦ there sig sigs (any-Mem expected sigs (ground arith))
]

-- Two times that are at most five minutes apart, the second in seconds since 1970.
abbrev pub IsNear : ℕ → ℤ → Type 0
IsNear now (pos t) = (now ≤ t + 300) × (t ≤ now + 300)
IsNear now (negsuc t) = now + t + 1 ≤ 300

distance-IsNear : (now : ℕ) (t : ℤ) → distance now t ≤ 300 → IsNear now t
unfolding distance
distance-IsNear now (pos t) h = (omega arith, omega arith)
distance-IsNear now (negsuc t) h = omega arith

module _ (sign : Bytes → ℤ → Bytes → Option Bytes) (body secret : Bytes) (now : ℕ) where
  -- Of the parts of the header, one is `t=` and a time, and one is `v1=` and exactly the signature.
  abbrev pub SignedBy : Bytes → Type 0
  SignedBy header =
      (parts : List Bytes) × (stamp : Bytes) × (t : ℤ) × (expected : Bytes) × (join b',' parts
        ≡ header)
      × Mem (t_part stamp) parts
      × (parse_i64 stamp ≡ some t)
      × IsNear now t
      × (sign secret t body ≡ some expected)
      × Mem (v1_part expected) parts

  -- A signature is accepted only if the header is made of parts with commas between them, one of
  -- which is `t=` and a time at most 300 seconds before or after now, and one is `v1=` and, byte for
  -- byte, what the secret gives for that time and this body.
  pub verify_signature_lem :
      (header : Bytes) → verify_signature sign body header secret now ≡ ok tt → SignedBy header
  unfolding verify_signature
  verify_signature_lem header accepted =
      let sigs = read_header header in
      let (t, expected, named, near, given, equal) =
        accepted_at sign body secret now sigs.timestamp sigs.v1_sigs accepted in
      let read = read_header-IsRead header in
      let (stamp, stands, parsed) = read.stamp t named in
      (
        split b',' header,
        stamp,
        t,
        expected,
        join-split b',' header,
        stands,
        parsed,
        distance-IsNear now t near,
        given,
        read.values expected (any-Mem expected sigs.v1_sigs equal),
      )
