-- ===== src/Server/App/Selects.antt =====
-- A read changes no table, and returns what it reads unless the database fails.
use remotekvm.Base.{arith, ◌≡◌, refl, ◌⊎◌, inl, inr, Option-cases, Option, none, some, String}
use remotekvm.Base.Exec.{Result, ok, err}
use remotekvm.Server.Schema.{Database}
use remotekvm.Server.App.{
  AppState, SqlError, Statement, committed, with_fault, next_fault, other, run_sql, select,
}

-- What a statement leaves alone when it writes nothing.
pub record SameButFaults (s t : AppState) : Type 0 where
  pub db : t.db ≡ s.db
  pub signaling : t.signaling ≡ s.signaling

module _ {A : Type 0} (q : Database → A) where
  pub run_sql-select :
      (s : AppState)
      → SameButFaults s (run_sql (select q) s).1
        × (((run_sql (select q) s).0 ≡ ok (q s.db))
            ⊎ ((e : SqlError) × ((run_sql (select q) s).0 ≡ err e)))
  unfolding run_sql
  run_sql-select s = elim (Option-cases (next_fault s.faults)) [
    | inl e ↦ (ground arith, inl (ground arith))
    | inr (msg, e) ↦ (ground arith, inr (other msg, ground arith))
  ]

module _ {A : Type 0} (f : Statement A) where
  signaling-committed :
      (r : Result SqlError (A × Database)) (s : AppState)
      → (committed r s).1.signaling ≡ s.signaling
  unfolding committed
  signaling-committed (ok r) s = refl
  signaling-committed (err e) s = refl

  signaling-with_fault :
      (fault : Option String) (s : AppState) → (with_fault fault f s).1.signaling ≡ s.signaling
  unfolding with_fault
  signaling-with_fault none s = signaling-committed (f s.db) s
  signaling-with_fault (some msg) s = refl

  -- A statement does not touch the signaling state.
  pub signaling-run_sql : (s : AppState) → (run_sql f s).1.signaling ≡ s.signaling
  unfolding run_sql
  signaling-run_sql s = signaling-with_fault (next_fault s.faults) _
