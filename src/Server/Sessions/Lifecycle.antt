-- ===== src/Server/Sessions/Lifecycle.antt =====
-- The states of a session: pending, then active or ended, and ended for good.
use remotekvm.Base.{ℕ, ◌≤◌, ◌≡◌, ◌≢◌, List, [], ◌∷◌, none, arith, All}
use remotekvm.Server.Schema.{Uuid, pending, ended, Session}
use remotekvm.Server.Sessions.{set_active, set_ended, set_machine_ended, add_usage}

-- What one statement may do to a row: a status goes forward only, the end time is set once, when
-- the session ends, and the counters grow.
pub record Forward (s t : Session) : Type 0 where
  pub same_id : t.id ≡ s.id
  pub same_user : t.user_id ≡ s.user_id
  pub same_machine : t.machine_id ≡ s.machine_id
  pub same_start : t.started_at ≡ s.started_at
  pub stays_ended : s.status ≡ ended → (t.status ≡ ended) × (t.ended_at ≡ s.ended_at)
  pub leaves_pending : t.status ≡ pending → s.status ≡ pending
  pub sent_grows : s.bytes_sent ≤ t.bytes_sent
  pub received_grows : s.bytes_received ≤ t.bytes_received

-- The row has an end time exactly when it is ended.
pub record IsConsistent (s : Session) : Type 0 where
  pub closed : s.status ≡ ended → s.ended_at ≢ none
  pub opened : s.ended_at ≢ none → s.status ≡ ended

pub Forward-refl : (s : Session) → Forward s s
Forward-refl s = ground arith

pub Forward-trans : {s t u : Session} → Forward s t → Forward t u → Forward s u
Forward-trans f g = ground arith

-- Row by row.
abbrev pub Advances : List Session → List Session → Type 0
Advances [] [] = Unit {0}
Advances (s ∷ ss) (t ∷ ts) = Forward s t × Advances ss ts
Advances _ _ = ⊥

pub Advances-refl : (ss : List Session) → Advances ss ss
Advances-refl [] = tt
Advances-refl (s ∷ ss) = (Forward-refl s, Advances-refl ss)

pub Advances-trans : (ss ts us : List Session) → Advances ss ts → Advances ts us → Advances ss us
Advances-trans [] [] [] a b = tt
Advances-trans (s ∷ ss) (t ∷ ts) (u ∷ us) a b =
    (Forward-trans a.0 b.0, Advances-trans ss ts us a.1 b.1)
Advances-trans [] [] (u ∷ us) a b = absurd b
Advances-trans [] (t ∷ ts) us a b = absurd a
Advances-trans (s ∷ ss) [] us a b = absurd a
Advances-trans (s ∷ ss) (t ∷ ts) [] a b = absurd b

pub set_active-Advances : (id : Uuid) (ss : List Session) → Advances ss (set_active id ss)
unfolding set_active
set_active-Advances id [] = tt
set_active-Advances id (s ∷ ss) = (ground arith, set_active-Advances id ss)

pub set_ended-Advances :
    (id : Uuid) (now : ℕ) (ss : List Session) → Advances ss (set_ended id now ss)
unfolding set_ended
set_ended-Advances id now [] = tt
set_ended-Advances id now (s ∷ ss) = (ground arith, set_ended-Advances id now ss)

pub set_machine_ended-Advances :
    (m : Uuid) (now : ℕ) (ss : List Session) → Advances ss (set_machine_ended m now ss)
unfolding set_machine_ended
set_machine_ended-Advances m now [] = tt
set_machine_ended-Advances m now (s ∷ ss) = (ground arith, set_machine_ended-Advances m now ss)

pub add_usage-Advances :
    (id : Uuid) (sent received : ℕ) (ss : List Session)
    → Advances ss (add_usage id sent received ss)
unfolding add_usage
add_usage-Advances id sent received [] = tt
add_usage-Advances id sent received (s ∷ ss) =
    (ground arith, add_usage-Advances id sent received ss)

pub set_active-IsConsistent :
    (id : Uuid) (ss : List Session) → All IsConsistent ss → All IsConsistent (set_active id ss)
unfolding set_active
set_active-IsConsistent id [] h = h
set_active-IsConsistent id (s ∷ ss) h = (ground (arith, h.0), set_active-IsConsistent id ss h.1)

pub set_ended-IsConsistent :
    (id : Uuid) (now : ℕ) (ss : List Session)
    → All IsConsistent ss
    → All IsConsistent (set_ended id now ss)
unfolding set_ended
set_ended-IsConsistent id now [] h = h
set_ended-IsConsistent id now (s ∷ ss) h =
    (ground (arith, h.0), set_ended-IsConsistent id now ss h.1)

pub set_machine_ended-IsConsistent :
    (m : Uuid) (now : ℕ) (ss : List Session)
    → All IsConsistent ss
    → All IsConsistent (set_machine_ended m now ss)
unfolding set_machine_ended
set_machine_ended-IsConsistent m now [] h = h
set_machine_ended-IsConsistent m now (s ∷ ss) h =
    (ground (arith, h.0), set_machine_ended-IsConsistent m now ss h.1)

pub add_usage-IsConsistent :
    (id : Uuid) (sent received : ℕ) (ss : List Session)
    → All IsConsistent ss
    → All IsConsistent (add_usage id sent received ss)
unfolding add_usage
add_usage-IsConsistent id sent received [] h = h
add_usage-IsConsistent id sent received (s ∷ ss) h =
    (ground (arith, h.0), add_usage-IsConsistent id sent received ss h.1)
