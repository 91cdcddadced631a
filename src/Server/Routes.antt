-- ===== src/Server/Routes.antt =====
-- What the handlers of apps/server/src/routes share: `?` on a statement and on the claims of the
-- request, and guards that return an error.
pub mod Rules
pub mod Outcomes
use remotekvm.Base.{◌≡◌, Option, none, some, Bool, true, false, String}
use remotekvm.Base.Exec.{Exec, ok, err}
use remotekvm.Server.Schema.{Uuid}
use remotekvm.Server.App.{AppState, ApiError, internal, Statement, run_sql, map_err, from_sqlx}

abbrev pub Handler : Type 0 → Type 0
Handler A = Exec AppState ApiError A

unfoldable pub query : {A : Type 0} → Statement A → Handler A
unfolding run_sql map_err
query f = map_err from_sqlx (run_sql f)

unfoldable pub ensure : Bool → ApiError → Handler (Unit {0})
ensure b e s = elim b [ true ↦ (ok tt, s) | false ↦ (err e, s) ]

unfoldable pub ok_or : {A : Type 0} → Option A → ApiError → Handler A
ok_or o e s = elim o [ none ↦ (err e, s) | some a ↦ (ok a, s) ]

-- `claims.user_id()?`: the `sub` of a validated token, if it is a UUID.
unfoldable pub claimed : Option Uuid → Handler Uuid
unfolding ok_or
claimed sub = ok_or sub (internal "Invalid user ID in JWT claims")
