-- ===== src/Server/Routes/Outcomes.antt =====
-- Rules for the result of a handler and the state that it leaves, one for each way that it goes on.
use remotekvm.Base.{◌≡◌, refl, Bool, true, false, Option, none, some, inl, inr, Option-cases}
use remotekvm.Base.Exec.{Result, ok, err, Result-cases, ◌>>=◌}
use remotekvm.Server.Schema.{Uuid, Database}
use remotekvm.Server.App.{
  AppState, ApiError, Statement, other, next_fault, from_sqlx, run_sql, map_err, select,
}
use remotekvm.Server.Routes.{Handler, query, ensure, ok_or, claimed}
use remotekvm.Server.Routes.Rules.{after_fault}

abbrev pub Post : Type 0 → Type 1
Post B = Result ApiError B → AppState → Type 0

module _ {A B : Type 0} (P : Post B) (k : A → Handler B) (s : AppState) where
  bind_on :
      (m : Handler A) (r : Result ApiError A) (s' : AppState)
      → m s ≡ (r, s')
      → ((e : ApiError) → r ≡ err e → P (err e) s')
      → ((a : A) → r ≡ ok a → P (k a s').0 (k a s').1)
      → P ((m >>= k) s).0 ((m >>= k) s).1
  unfolding ◌>>=◌
  bind_on m (ok a) s' e failed next = rw e (next a refl)
  bind_on m (err e) s' e' failed next = rw e' (failed e refl)

  -- Any first step.
  pub on_bind :
      (m : Handler A)
      → ((e : ApiError) → (m s).0 ≡ err e → P (err e) (m s).1)
      → ((a : A) → (m s).0 ≡ ok a → P (k a (m s).1).0 (k a (m s).1).1)
      → P ((m >>= k) s).0 ((m >>= k) s).1
  on_bind m failed next = bind_on m (m s).0 (m s).1 refl failed next

  pub on_select :
      (q : Database → A)
      → ((e : ApiError) → P (err e) (after_fault s))
      → P (k (q s.db) (after_fault s)).0 (k (q s.db) (after_fault s)).1
      → P ((query (select q) >>= k) s).0 ((query (select q) >>= k) s).1
  unfolding query run_sql map_err ◌>>=◌
  on_select q failed next = elim (Option-cases (next_fault s.faults)) [
    | inl e ↦ rw e next
    | inr (msg, e) ↦ rw e (failed (from_sqlx (other msg)))
  ]

  pub on_statement :
      (f : Statement A)
      → ((e : ApiError) → P (err e) (after_fault s))
      → ((a : A) (db : Database)
          → f s.db ≡ ok (a, db)
          → P
              (k a (record (after_fault s) { db = db })).0
              (k a (record (after_fault s) { db = db })).1)
      → P ((query f >>= k) s).0 ((query f >>= k) s).1
  unfolding query run_sql map_err ◌>>=◌
  on_statement f failed next = elim (Option-cases (next_fault s.faults)) [
    | inl e ↦ elim (Result-cases (f s.db)) [
      | inl ((a, db), done) ↦ rw (e, done) (next a db done)
      | inr (fault, done) ↦ rw (e, done) (failed (from_sqlx fault))
    ]
    | inr (msg, e) ↦ rw e (failed (from_sqlx (other msg)))
  ]

  pub on_ok_or :
      (o : Option A) (e : ApiError)
      → P (err e) s
      → ((a : A) → o ≡ some a → P (k a s).0 (k a s).1)
      → P ((ok_or o e >>= k) s).0 ((ok_or o e >>= k) s).1
  unfolding ok_or ◌>>=◌
  on_ok_or none e failed next = failed
  on_ok_or (some a) e failed next = next a refl

module _ {B : Type 0} (P : Post B) (k : Uuid → Handler B) (s : AppState) where
  pub on_claimed :
      (id : Uuid)
      → P (k id s).0 (k id s).1
      → P ((claimed (some id) >>= k) s).0 ((claimed (some id) >>= k) s).1
  unfolding claimed ok_or ◌>>=◌
  on_claimed id next = next

module _ {B : Type 0} (P : Post B) (k : Unit {0} → Handler B) (s : AppState) where
  pub on_ensure :
      (b : Bool) (e : ApiError)
      → P (err e) s
      → (b ≡ true → P (k tt s).0 (k tt s).1)
      → P ((ensure b e >>= k) s).0 ((ensure b e >>= k) s).1
  unfolding ensure ◌>>=◌
  on_ensure true e failed next = next refl
  on_ensure false e failed next = failed
