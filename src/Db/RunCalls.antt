-- ===== src/Db/RunCalls.antt =====
-- The operations of internal/db/sqlite/sqlite.go on runs.
use amplio.Common.{
  ℕ, ◌+◌, String, Bool, true, false, not, ◌&&◌, ◌||◌, Option, none, some, List, [], ◌∷◌, ◌++◌, map,
  str_eq, ltb, ◌==◌, any, filter, if◌then◌else◌, length, take,
}
use amplio.Db.Types.{SessionRecord}
use amplio.Db.State.{
  Driver, Result, ok, err, driver_fault, no_rows, duplicate_key, emit, run_updated,
}
use amplio.Db.Runs.{
  RunRecord, RunOp, is_run, new_run_row, update_runs, active, ListRunsOpts, status_clause,
  is_listed, has_updates, is_root_of,
}
use amplio.Db.Sessions.{order_sessions}

-- Whether a run is older than a cursor, by the order of identifiers of the database.
abbrev pub is_older : (String → String → Bool) → ℕ × String → RunRecord → Bool
is_older id_before c x = ltb x.created_at c.0 || (x.created_at == c.0 && id_before x.run_id c.1)

-- ORDER BY created_at DESC, run_id DESC: whether a row stands before another.
abbrev pub stands_before : (String → String → Bool) → RunRecord → RunRecord → Bool
stands_before id_before x y =
    ltb y.created_at x.created_at || (y.created_at == x.created_at && id_before y.run_id x.run_id)

unfoldable pub insert_run : (String → String → Bool) → RunRecord → List RunRecord → List RunRecord
insert_run id_before x [] = x ∷ []
insert_run id_before x (y ∷ ys) =
    let rest = insert_run id_before x ys in
    if stands_before id_before x y then x ∷ y ∷ ys else y ∷ rest

unfoldable pub order_runs : (String → String → Bool) → List RunRecord → List RunRecord
unfolding insert_run
order_runs id_before [] = []
order_runs id_before (x ∷ xs) = insert_run id_before x (order_runs id_before xs)

abbrev pub within_cursor : (String → String → Bool) → Option (ℕ × String) → RunRecord → Bool
within_cursor id_before none x = true
within_cursor id_before (some c) x = is_older id_before c x

-- The limit, and its default.
abbrev pub page_size : ℕ → ℕ
page_size limit = if limit == 0 then 20 else limit

-- A page: the rows up to the limit, and whether there are more.
abbrev pub page : Bool → ℕ → List RunRecord → List RunRecord × Bool
page unbounded limit rows =
    let n = page_size limit in
    if unbounded then (rows, false) else (take n rows, ltb n (length (take (n + 1) rows)))

module _ (driver : Driver) where
  -- `CreateRun`
  unfoldable pub create_run : RunRecord → RunOp (Unit {0})
  create_run x d =
      if driver x.run_id "" d.core
      then (err driver_fault, d)
      else if any (is_run x.run_id) d.runs
      then (err duplicate_key, d)
      else (ok tt, record d { runs = d.runs ++ new_run_row x d.core.clock ∷ [] })

  abbrev pub first_run : List RunRecord → Result RunRecord
  first_run [] = err no_rows
  first_run (x ∷ runs) = ok x

  -- `GetRun`
  unfoldable pub get_run_row : String → RunOp RunRecord
  get_run_row r d =
      if driver r "" d.core
      then (err driver_fault, d)
      else (first_run (filter (is_run r) d.runs), d)

  -- A statement that changes the row of a run, and the store event after it.
  unfoldable pub change_run : (RunRecord → RunRecord) → String → RunOp (Unit {0})
  change_run f r d =
      if driver r "" d.core
      then (err driver_fault, d)
      else (ok tt, record { runs = update_runs f r d.runs; core = emit (run_updated r) d.core })

  -- `updateRunField`, which also sets updated_at.
  unfoldable pub update_run_field : (RunRecord → RunRecord) → String → RunOp (Unit {0})
  unfolding change_run
  update_run_field f r d = change_run (λ x. record (f x) { updated_at = d.core.clock }) r d

  unfoldable pub update_run_title : String → String → RunOp (Unit {0})
  unfolding update_run_field
  update_run_title r title = update_run_field (λ x. record x { title = title }) r

  unfoldable pub update_run_note : String → String → RunOp (Unit {0})
  unfolding update_run_field
  update_run_note r note = update_run_field (λ x. record x { note = note }) r

  unfoldable pub set_run_starred : String → Bool → RunOp (Unit {0})
  unfolding update_run_field
  set_run_starred r starred = update_run_field (λ x. record x { starred = starred }) r

  unfoldable pub set_run_grade : String → ℕ → RunOp (Unit {0})
  unfolding update_run_field
  set_run_grade r grade = update_run_field (λ x. record x { grade = grade }) r

  unfoldable pub set_run_report_grade : String → ℕ → RunOp (Unit {0})
  unfolding update_run_field
  set_run_report_grade r grade = update_run_field (λ x. record x { report_grade = grade }) r

  unfoldable pub set_run_archived : String → Bool → RunOp (Unit {0})
  unfolding update_run_field
  set_run_archived r archived = update_run_field (λ x. record x { archived = archived }) r

  -- `MarkRunUnseen`
  unfoldable pub mark_run_unseen : String → RunOp (Unit {0})
  unfolding change_run
  mark_run_unseen = change_run (λ x. record x { last_seen_at = some x.created_at })

  -- `MarkRunSeen`
  unfoldable pub mark_run_seen : String → RunOp (Unit {0})
  unfolding change_run
  mark_run_seen r d = change_run (λ x. record x { last_seen_at = some d.core.clock }) r d

  -- `DeleteRun`, without the rows of observations.
  unfoldable pub delete_run : String → RunOp (Unit {0})
  delete_run r d = if driver r "" d.core then (err driver_fault, d) else (
    ok tt,
    record {
      runs = filter (λ x. not (is_run r x)) d.runs;
      core = emit (run_updated r) (record (d.core) {
        sessions = filter (λ s. not (str_eq s.run_id r)) d.core.sessions;
        events = filter (λ e. not (str_eq e.run_id r)) d.core.events;
      });
    },
  )

  -- `ListRuns`, with whether there are more.
  unfoldable pub list_runs : (String → String → Bool) → ListRunsOpts → RunOp (List RunRecord × Bool)
  unfolding order_runs is_listed
  list_runs id_before opts d =
      let rows =
        order_runs id_before
          (filter (λ x. is_listed opts d.core x && within_cursor id_before opts.before x) d.runs) in
      if driver "" "" d.core
      then (err driver_fault, d)
      else (ok (page opts.unbounded opts.limit rows), d)

  -- `ListRunsWithSessions`: each run with its roots, the oldest first.
  unfoldable pub list_runs_with_sessions :
      (String → String → Bool) → ListRunsOpts → RunOp (List (RunRecord × List SessionRecord) × Bool)
  unfolding list_runs order_sessions
  list_runs_with_sessions id_before opts d = elim (list_runs id_before opts d).0 [
    | err e ↦ (err e, d)
    | ok listed ↦ (
      ok (
        map (λ x. (x, order_sessions (filter (is_root_of x.run_id) d.core.sessions))) listed.0,
        listed.1,
      ),
      d,
    )
  ]

  -- `RunCounts`: the active runs and those with updates, of those that are not archived.
  unfoldable pub run_counts : RunOp (ℕ × ℕ)
  unfolding status_clause has_updates
  run_counts d =
      let shown = filter (λ x. not x.archived) d.runs in
      if driver "" "" d.core then (err driver_fault, d) else (
        ok (
          length (filter (status_clause active d.core) shown),
          length (filter (has_updates d.core) shown),
        ),
        d,
      )
