-- ===== src/Db/Runs.antt =====
-- Run operations of internal/db/sqlite/sqlite.go: the Run table beside the other two.
use amplio.Common.{
  ℕ, String, Bool, true, false, not, ◌&&◌, ◌||◌, Option, none, some, List, [], ◌∷◌, map, str_eq,
  leb, ltb, ◌==◌, any, filter, if◌then◌else◌,
}
use amplio.Event.{Status, ongoing, awaiting, idle, concluded, crashed, cancelled}
use amplio.Db.Types.{SessionRecord}
use amplio.Db.State.{Store, Result}

-- `RunRecord`. The configuration is its JSON text; zero is a time that is not set, and `none` the
-- NULL of last_seen_at.
pub record RunRecord : Type 0 where
  pub run_id : String
  pub config : String
  pub title : String
  pub note : String
  pub starred : Bool
  pub grade : ℕ
  pub report_grade : ℕ
  pub archived : Bool
  pub created_at : ℕ
  pub updated_at : ℕ
  pub last_seen_at : Option ℕ

pub record RunStore : Type 0 where
  pub runs : List RunRecord
  pub core : Store

abbrev pub RunOp : Type 0 → Type 0
RunOp A = RunStore → Result A × RunStore

abbrev pub is_run : String → RunRecord → Bool
is_run r x = str_eq x.run_id r

-- The row that `CreateRun` inserts: a run without a time is created now, and starts seen.
abbrev pub new_run_row : RunRecord → ℕ → RunRecord
new_run_row x now =
    let created = if x.created_at == 0 then now else x.created_at in
    record x { created_at = created; updated_at = created; last_seen_at = some created }

abbrev pub update_runs : (RunRecord → RunRecord) → String → List RunRecord → List RunRecord
update_runs f r = map (λ x. if is_run r x then f x else x)

-- `RunFilterActive` and the others; `no_filter` is the empty text.
pub data StatusFilter : Type 0 where
  no_filter active done failed updates unknown_filter : StatusFilter

-- `GradeFilter`
pub data GradeFilter : Type 0 where
  any_grade ungraded unknown_grade : GradeFilter
  exact_grade : ℕ → GradeFilter

-- `ListRunsOpts`, with the terms of the search as a test of a run. `unbounded` is a negative limit.
pub record ListRunsOpts : Type 0 where
  pub before : Option (ℕ × String)
  pub limit : ℕ
  pub unbounded : Bool
  pub show_archived : Bool
  pub status_filter : StatusFilter
  pub searched : RunRecord → Bool
  pub starred_only : Bool
  pub grade_filter : GradeFilter

abbrev pub is_root_of : String → SessionRecord → Bool
is_root_of r s = str_eq s.run_id r && str_eq s.parent_id ""

-- The order of the roots: those that are no chatbot first, then by their creation.
abbrev pub root_before : SessionRecord → SessionRecord → Bool
root_before s t =
    let cs = str_eq s.agent_type "chatbot" in
    let ct = str_eq t.agent_type "chatbot" in
    if cs then ct && leb s.created_at t.created_at else ct || leb s.created_at t.created_at

abbrev pub first_root : List SessionRecord → Option SessionRecord
first_root [] = none
first_root (s ∷ roots) =
    let rest = first_root roots in
    elim rest [ none ↦ some s | some t ↦ if root_before s t then some s else some t ]

-- `primaryRootStatusExpr`
unfoldable pub primary_root_status : Store → RunRecord → Option Status
primary_root_status d x = elim (first_root (filter (is_root_of x.run_id) d.sessions)) [
  | none ↦ none
  | some s ↦ some s.status
]

abbrev pub status_in : (Status → Bool) → Option Status → Bool
status_in p none = false
status_in p (some s) = p s

abbrev pub is_active : Status → Bool
is_active ongoing = true
is_active awaiting = true
is_active _ = false

abbrev pub is_done : Status → Bool
is_done concluded = true
is_done _ = false

abbrev pub is_failed : Status → Bool
is_failed crashed = true
is_failed cancelled = true
is_failed _ = false

-- The states of `runUpdatesPredicate`, in which an agent is done.
abbrev pub is_at_rest : Status → Bool
is_at_rest idle = true
is_at_rest concluded = true
is_at_rest crashed = true
is_at_rest cancelled = true
is_at_rest _ = false

-- `runUpdatesPredicate`
unfoldable pub has_updates : Store → RunRecord → Bool
has_updates d x = elim x.last_seen_at [
  | none ↦ false
  | some seen ↦
      any (λ s. is_root_of x.run_id s && (is_at_rest s.status && ltb seen s.status_changed_at))
        d.sessions
]

-- `statusFilterClause`
unfoldable pub status_clause : StatusFilter → Store → RunRecord → Bool
unfolding primary_root_status has_updates
status_clause no_filter d x = true
status_clause active d x = status_in is_active (primary_root_status d x)
status_clause done d x = status_in is_done (primary_root_status d x)
status_clause failed d x = status_in is_failed (primary_root_status d x)
status_clause updates d x = has_updates d x
status_clause unknown_filter d x = false

-- `effectiveGradeExpr`
abbrev pub effective_grade : RunRecord → ℕ
effective_grade x = if ltb 0 x.grade then x.grade else x.report_grade

-- `gradeFilterClause`
unfoldable pub grade_clause : GradeFilter → RunRecord → Bool
grade_clause any_grade x = true
grade_clause ungraded x = effective_grade x == 0
grade_clause unknown_grade x = false
grade_clause (exact_grade g) x = leb 1 g && (leb g 5 && effective_grade x == g)

-- The clauses but the cursor's.
unfoldable pub is_listed : ListRunsOpts → Store → RunRecord → Bool
unfolding status_clause grade_clause
is_listed opts d x =
    (opts.show_archived || not x.archived)
    && (status_clause opts.status_filter d x
        && ((not opts.starred_only || x.starred)
            && (grade_clause opts.grade_filter x && opts.searched x)))
