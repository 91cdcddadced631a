-- ===== src/Server/Routes/Rules.antt =====
-- Rules for what holds of the state after a handler, one for each way that it goes on. The state
-- after a statement is known by its tables and its signaling state alone.
use remotekvm.Base.{◌≡◌, refl, Bool, true, false, Option, none, some, inl, inr, Option-cases}
use remotekvm.Base.Exec.{◌>>=◌}
use remotekvm.Server.Schema.{Uuid, Database}
use remotekvm.Server.App.{
  AppState, ApiError, next_fault, rest_faults, run_sql, map_err, select, update,
}
use remotekvm.Server.App.Selects.{SameButFaults}
use remotekvm.Server.Routes.{Handler, query, ensure, ok_or, claimed}

abbrev pub after_fault : AppState → AppState
after_fault s = record s { faults = rest_faults s.faults }

pub SameButFaults-refl : (s : AppState) → SameButFaults s s
SameButFaults-refl s = record { db = refl; signaling = refl }

module _ {A B : Type 0} (P : AppState → Type 0) (k : A → Handler B) (s : AppState) where
  pub query-select :
      (q : Database → A)
      → P (after_fault s)
      → P (k (q s.db) (after_fault s)).1
      → P ((query (select q) >>= k) s).1
  unfolding query run_sql map_err ◌>>=◌
  query-select q failed next = elim (Option-cases (next_fault s.faults)) [
    | inl e ↦ rw e next
    | inr (msg, e) ↦ rw e failed
  ]

  pub bind-ok_or :
      (o : Option A) (e : ApiError)
      → (o ≡ none → P s)
      → ((a : A) → o ≡ some a → P (k a s).1)
      → P ((ok_or o e >>= k) s).1
  unfolding ok_or ◌>>=◌
  bind-ok_or none e failed next = failed refl
  bind-ok_or (some a) e failed next = next a refl

module _ {B : Type 0} (P : AppState → Type 0) (k : Uuid → Handler B) (s : AppState) where
  pub bind-claimed : (id : Uuid) → P (k id s).1 → P ((claimed (some id) >>= k) s).1
  unfolding claimed ok_or ◌>>=◌
  bind-claimed id next = next

module _ {B : Type 0} (P : AppState → Type 0) (k : Unit {0} → Handler B) (s : AppState) where
  pub query-update :
      (f : Database → Database)
      → P (after_fault s)
      → P (k tt (record (after_fault s) { db = f s.db })).1
      → P ((query (update f) >>= k) s).1
  unfolding query run_sql map_err ◌>>=◌
  query-update f failed next = elim (Option-cases (next_fault s.faults)) [
    | inl e ↦ rw e next
    | inr (msg, e) ↦ rw e failed
  ]

  pub bind-ensure :
      (b : Bool) (e : ApiError) → P s → (b ≡ true → P (k tt s).1) → P ((ensure b e >>= k) s).1
  unfolding ensure ◌>>=◌
  bind-ensure true e failed next = next refl
  bind-ensure false e failed next = failed
