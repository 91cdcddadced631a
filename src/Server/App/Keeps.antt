-- ===== src/Server/App/Keeps.antt =====
-- What a statement keeps, its caller keeps, whether it succeeds or fails.
use remotekvm.Base.{◌≡◌, refl, Option, none, some, String}
use remotekvm.Base.Exec.{Result, ok, err, Exec, Keeps}
use remotekvm.Server.Schema.{Database}
use remotekvm.Server.App.{
  AppState, SqlError, Statement, committed, with_fault, next_fault, run_sql, map_err,
}

-- If it succeeds.
pub record Maintains (A : Type 0) (Q : Database → Type 0) (f : Statement A) : Type 0 where
  pub after : (db : Database) (a : A) (db' : Database) → f db ≡ ok (a, db') → Q db → Q db'

-- A predicate of the tables, on the whole state.
abbrev pub OnDb : (Database → Type 0) → AppState → Type 0
OnDb Q s = Q s.db

module _ {A : Type 0} {Q : Database → Type 0} (f : Statement A) (m : Maintains A Q f) where
  committed-OnDb :
      (r : Result SqlError (A × Database)) (db : Database) (s : AppState)
      → f db ≡ r
      → Q db
      → Q s.db
      → Q (committed r s).1.db
  unfolding committed
  committed-OnDb (ok (a, db')) db s e h k = m.after db a db' e h
  committed-OnDb (err x) db s e h k = k

  with_fault-OnDb : (fault : Option String) (s : AppState) → Q s.db → Q (with_fault fault f s).1.db
  unfolding with_fault
  with_fault-OnDb none s h = committed-OnDb (f s.db) s.db s refl h h
  with_fault-OnDb (some msg) s h = h

  pub Keeps-run_sql : Keeps (OnDb Q) (run_sql f)
  unfolding run_sql
  Keeps-run_sql = record { at = λ s h. with_fault-OnDb (next_fault s.faults) _ h }

pub Keeps-map_err :
    {E F A : Type 0} {P : AppState → Type 0} (g : E → F) (m : Exec AppState E A)
    → Keeps P m
    → Keeps P (map_err g m)
unfolding map_err
Keeps-map_err g m k = record { at = λ s h. k.at s h }
