-- ===== src/Loop/Budget.antt =====
-- The budgets of nudges for bare turns, in the loop of internal/agent/eventloop/eventloop.go.
use amplio.Common.{
  ℕ, ◌+◌, ◌≤◌, ◌≡◌, ◌≢◌, refl, ◌⊎◌, inl, inr, Bool-cases, String, Bool, true, List, [], ◌∷◌, arith,
  some, none, not, false, ltb, if◌then◌else◌,
}
use amplio.Event.{Assistant}
use amplio.Db.State.{Store, Driver, Result, Error, ok, err}
use amplio.Db.Events.{get_event_count}
use amplio.Loop.Agent.{
  conclude, cascade_cancel_children, Config, Failure, Agent, record_failure,
  max_output_limit_nudges, max_conclude_nudges,
}
use amplio.Loop.Turn.{
  Next, again, return, park, Steps, settle_turn, settle_autonomous, settle_output_limit,
  settle_degenerate, nudge,
}

abbrev pub nudges : Agent → ℕ
nudges a = a.conclude_nudges + a.output_limit_nudges

pub record InBudget (a : Agent) : Type 0 where
  pub conclude : a.conclude_nudges ≤ max_conclude_nudges
  pub output : a.output_limit_nudges ≤ max_output_limit_nudges

count_cases : (o : Result ℕ) → ((n : ℕ) × (o ≡ ok n)) ⊎ ((e : Error) × (o ≡ err e))
count_cases (ok n) = inl (n, refl)
count_cases (err e) = inr (e, refl)

module _ (v : Driver) (render : Failure → String) (cfg : Config) (ctx_err : Bool) where
  -- A bare turn that leads to another one has used up one nudge.
  nudge_spent :
      (resp : Assistant) (a : Agent)
      → InBudget a
      → (b : Bool) → (settle_autonomous v render cfg ctx_err resp a).0 ≡ again b
      → (nudges (settle_autonomous v render cfg ctx_err resp a).1 ≡ nudges a + 1)
        × InBudget (settle_autonomous v render cfg ctx_err resp a).1
  unfolding settle_autonomous settle_output_limit settle_degenerate nudge record_failure
  nudge_spent resp a h b e = ground arith

  abbrev or_stop : Next → Agent → Next × Agent → Next × Agent
  or_stop (again b) a more = more
  or_stop (return f) a more = (return f, a)
  or_stop park a more = (park, a)

  -- A bare turn at the end of which nothing waits at the next step, or the count of it fails.
  unfoldable pub is_quiet : Steps → Store → Bool
  is_quiet st d =
      elim (get_event_count v cfg.run_id cfg.session_id
        (record { current_context_only = false; start_step = some st.new_step; end_step = none })
        d).0 [ err e ↦ true | ok n ↦ not (ltb 0 n) ]

  abbrev pub quiet_turns : List (Store × Steps × Assistant) → ℕ
  quiet_turns [] = 0
  quiet_turns ((d, st, resp) ∷ rest) =
      let n = quiet_turns rest in if is_quiet st d then n + 1 else n

  -- A bare turn that leads to another one has met an event that has arrived, and left the nudges as
  -- they are, or has used up one.
  turn_spent :
      (auto : cfg.interactive ≡ false) (st : Steps) (resp : Assistant) (a : Agent)
      → InBudget a
      → (b : Bool) → (settle_turn v render cfg ctx_err st resp a).0 ≡ again b
      → InBudget (settle_turn v render cfg ctx_err st resp a).1
        × (nudges (settle_turn v render cfg ctx_err st resp a).1
            ≡ nudges a + (if is_quiet st a.db then 1 else 0))
  unfolding settle_turn record_failure is_quiet settle_autonomous settle_output_limit
      settle_degenerate conclude nudge cascade_cancel_children
  turn_spent auto st resp a h b e =
      elim (count_cases
        (get_event_count v cfg.run_id cfg.session_id
          (record { current_context_only = false; start_step = some st.new_step; end_step = none })
          a.db).0) [
            | inr (x, failed) ↦ absurd (ground (arith, failed, e))
            | inl (n, counted) ↦ elim (Bool-cases (ltb 0 n)) [
              | inl arrived ↦ rw (settle_turn, is_quiet, counted, arrived) (h, omega arith)
              | inr quiet ↦
                  let (count, budget) =
                    nudge_spent resp a h b (rw (settle_turn, counted, quiet, auto) at e) in
                  rw (settle_turn, is_quiet, counted, quiet, auto) (budget, count)
            ]
          ]

  -- Bare turns in a row, each with the store that it meets, its steps and the reply of the LLM.
  unfoldable pub bare_turns : List (Store × Steps × Assistant) → Agent → Next × Agent
  bare_turns [] a = (again true, a)
  bare_turns ((d, st, resp) ∷ rest) a =
      let (n, a') = settle_turn v render cfg ctx_err st resp (record a { db = d }) in
      let more = bare_turns rest a' in or_stop n a' more

  -- Of bare turns in a row of an agent that is not interactive, five at whose end no event waits at
  -- the next step are too many, less one for each nudge already counted: the loop has left before,
  -- with a conclusion or a failure, whatever the LLM replies and whatever the store holds at each
  -- turn. Turns that an arriving event continues are not counted.
  pub bare_turns_end :
      (auto : cfg.interactive ≡ false) (turns : List (Store × Steps × Assistant)) (a : Agent)
      → InBudget a
      → 5 ≤ nudges a + quiet_turns turns
      → (b : Bool) → (bare_turns turns a).0 ≢ again b
  unfolding bare_turns
  bare_turns_end auto [] a h n b = absurd (omega (arith, h.conclude, h.output, n))
  bare_turns_end auto ((d, st, resp) ∷ rest) a h n b =
      let a' : Agent = record a { db = d } in
      let next : Next × Agent = settle_turn v render cfg ctx_err st resp a' in
      go next.0 next.1 (bare_turns rest next.1)
        (turn_spent auto st resp a' (record { conclude = h.conclude; output = h.output }))
        (bare_turns_end auto rest next.1)
    where
      go :
          (m : Next) (a2 : Agent) (more : Next × Agent)
          → ((c : Bool)
              → m ≡ again c
              → InBudget a2 × (nudges a2 ≡ nudges a + (if is_quiet st d then 1 else 0)))
          → (InBudget a2 → 5 ≤ nudges a2 + quiet_turns rest → (c : Bool) → more.0 ≢ again c)
          → (or_stop m a2 more).0 ≢ again b
      go (again c) a2 more spent ih =
          let (budget, count) = spent c refl in ih budget (ground (arith, n, count)) b
      go (return f) a2 more spent ih = λ e. cc
      go park a2 more spent ih = λ e. cc
