-- ===== src/Server/App.antt =====
-- `AppState` and what a handler does to it: apps/server/src/state.rs, error.rs and the `sqlx` calls.
-- A statement is a function on the tables. Whether the next statements fail, and with which
-- message, is in `faults`; a statement that fails changes no table.
pub mod Keeps
pub mod Selects
use remotekvm.Base.{
  ℕ, ◌≡◌, List, [], ◌∷◌, Bool, true, false, Option, none, some, String, if◌then◌else◌,
}
use remotekvm.Base.Exec.{Result, ok, err, Exec}
use remotekvm.Server.Schema.{Database}
use remotekvm.Server.Registry.{SignalingState}

pub record AppState : Type 0 where
  pub db : Database
  pub faults : List (Option String)
  pub signaling : SignalingState

-- `sqlx::Error`, as far as the code tells errors apart.
pub data SqlError : Type 0 where
  row_not_found : SqlError
  unique_violation : SqlError
  other : String → SqlError

pub data ApiError : Type 0 where
  unauthorized forbidden : ApiError
  not_found bad_request internal : String → ApiError

abbrev message : SqlError → String
message row_not_found = "no rows returned by a query that expected to return at least one row"
message unique_violation = "duplicate key value violates unique constraint"
message (other msg) = msg

-- `impl From<sqlx::Error> for ApiError`.
abbrev pub from_sqlx : SqlError → ApiError
from_sqlx row_not_found = not_found "Resource not found"
from_sqlx e = internal (message e)

-- `IntoResponse`: the status, the code and the message of the body.
unfoldable pub into_response : ApiError → ℕ × String × String
into_response unauthorized = (401, "UNAUTHORIZED", "Unauthorized")
into_response forbidden = (403, "FORBIDDEN", "Forbidden")
into_response (not_found msg) = (404, "NOT_FOUND", msg)
into_response (bad_request msg) = (400, "BAD_REQUEST", msg)
into_response (internal msg) = (500, "INTERNAL_ERROR", "Internal server error")

abbrev pub Statement : Type 0 → Type 0
Statement A = Database → Result SqlError (A × Database)

-- What befalls the next statement, and those after it.
unfoldable pub next_fault : List (Option String) → Option String
next_fault [] = none
next_fault (fault ∷ rest) = fault

unfoldable pub rest_faults : List (Option String) → List (Option String)
rest_faults [] = []
rest_faults (fault ∷ rest) = rest

module _ {A : Type 0} where
  committed : Result SqlError (A × Database) → AppState → Result SqlError A × AppState
  committed result s = elim result [ ok r ↦ (ok r.0, record s { db = r.1 }) | err e ↦ (err e, s) ]

  with_fault : Option String → Statement A → Exec AppState SqlError A
  unfolding committed
  with_fault fault f s = elim fault [
    | none ↦ committed (f s.db) s
    | some msg ↦ (err (other msg), s)
  ]

  unfoldable pub run_sql : Statement A → Exec AppState SqlError A
  unfolding with_fault next_fault rest_faults
  run_sql f s = with_fault (next_fault s.faults) f (record s { faults = rest_faults s.faults })

module _ {E F A : Type 0} where
  map_error : (E → F) → Result E A → Result F A
  map_error g (ok a) = ok a
  map_error g (err e) = err (g e)

  unfoldable pub map_err : (E → F) → Exec AppState E A → Exec AppState F A
  unfolding map_error
  map_err g m s = (map_error g (m s).0, (m s).1)

-- A read.
abbrev pub select : {A : Type 0} → (Database → A) → Statement A
select q db = ok (q db, db)

-- A write of no result.
abbrev pub update : (Database → Database) → Statement (Unit {0})
update f db = ok (tt, f db)
