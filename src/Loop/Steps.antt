-- ===== src/Loop/Steps.antt =====
-- A process that dies in the middle of an LLM call: the step determination of
-- internal/agent/eventloop/eventloop.go.
use mathlib.Core.Option
use amplio.Common.{
  ◌+◌, ◌≡◌, refl, ap, ◌∙◌, String, true, false, inl, inr, none, some, arith, Option-cases,
}
use amplio.Db.Types.{SessionRecord}
use amplio.Db.State.{Store, Result, ok, err, no_rows}
use amplio.Db.Rows.{find_session, update_session}
use amplio.Db.Calls.{healthy}
use amplio.Db.Keys.{KeepsKey, find-update_self}
use amplio.Db.Frame.{sessions-emit}
use amplio.Db.Sessions.{get_session, advance_step}
use amplio.Loop.Agent.{Config, Failure}
use amplio.Loop.Turn.{Steps, determine_step}

abbrev bump : SessionRecord → SessionRecord
bump y = record y { current_step = y.current_step + 1 }

bump-KeepsKey : KeepsKey bump
bump-KeepsKey = record { run = λ x. refl; session = λ x. refl }

find-advance :
    (r s : String) (d : Store) {x : SessionRecord}
    → find_session r s d ≡ some x
    → find_session r s (advance_step healthy r s d).1 ≡ some (bump x)
unfolding find_session advance_step update_session
find-advance r s d {x} found =
    rw (found, sessions-emit)
      (find-update_self bump-KeepsKey r s d.sessions ∙ ap (Option.map bump) found)

advance_ok :
    (r s : String) (d : Store) {x : SessionRecord}
    → find_session r s d ≡ some x
    → (advance_step healthy r s d).0 ≡ ok (x.current_step + 1)
unfolding advance_step
advance_ok r s d found = rw found

advance_lost :
    (r s : String) (d : Store)
    → find_session r s d ≡ none
    → (advance_step healthy r s d).0 ≡ err no_rows
unfolding advance_step
advance_lost r s d lost = rw lost

module _ (render : Failure → String) (cfg : Config) where
  abbrev pub stepped : Store → Result Steps × Store
  stepped d = determine_step healthy render cfg true d

  -- When the process dies after the bump and before the assistant event is written, the resumed
  -- iteration, which does not bump, determines the same call step and the same current step.
  pub step_made_again :
      (d : Store) (st : Steps)
      → (stepped d).0 ≡ ok st
      → determine_step healthy render cfg false (stepped d).1 ≡ (ok st, (stepped d).1)
  unfolding determine_step get_session
  step_made_again d st h = elim (Option-cases (find_session cfg.run_id cfg.session_id d)) [
    | inl lost ↦ ground (arith, advance_lost cfg.run_id cfg.session_id d lost)
    | inr (x, found) ↦ ground (
      arith,
      advance_ok cfg.run_id cfg.session_id d found,
      find-advance cfg.run_id cfg.session_id d found,
    )
  ]
