-- ===== src/Loop/Compactions.antt =====
-- The budget of compactions for failed LLM calls, in the loop of
-- internal/agent/eventloop/eventloop.go.
use amplio.Common.{
  ℕ, ◌+◌, ◌≤◌, ◌<◌, ◌≡◌, ◌≢◌, refl, String, Bool, false, List, [], ◌∷◌, Option, arith, length,
}
use amplio.Db.State.{Store, Driver}
use amplio.Loop.Agent.{Config, Failure, Agent, record_failure}
use amplio.Loop.Turn.{Next, again, return, park, Steps, failed_call, max_consecutive_compactions}

-- A call that fails: the store that it meets, the steps of its turn, the judge's verdict, the
-- summary and the text of the error.
pub record FailedCall : Type 0 where
  pub met : Store
  pub steps : Steps
  pub exceeded : Bool
  pub summary : Option String
  pub text : String

module _ (v : Driver) (render : Failure → String) (cfg : Config) (ctx_err : Bool) where
  abbrev pub fail_once : FailedCall → ℕ → Agent → (Next × Agent) × ℕ
  fail_once c n a =
      failed_call v render cfg ctx_err c.exceeded c.summary c.steps c.text n
        (record a { db = c.met })

  -- A failed call that is made again has used up one compaction, and the step is not advanced.
  compaction_spent :
      (c : FailedCall) (n : ℕ) (a : Agent) (b : Bool)
      → (fail_once c n a).0.0 ≡ again b
      → (n < 3) × ((fail_once c n a).1 ≡ n + 1) × (b ≡ false)
  unfolding failed_call record_failure
  compaction_spent c n a b e = ground arith

  abbrev or_left : Next → Agent → Next × Agent → Next × Agent
  or_left (again b) a more = more
  or_left (return f) a more = (return f, a)
  or_left park a more = (park, a)

  -- Failed calls in a row, with the number of compactions so far.
  unfoldable pub failed_calls : List FailedCall → ℕ → Agent → Next × Agent
  failed_calls [] n a = (again false, a)
  failed_calls (c ∷ cs) n a =
      let ((m, a'), n') = fail_once c n a in let more = failed_calls cs n' a' in or_left m a' more

  -- From four failed calls in a row, less one for each compaction already counted, the loop leaves:
  -- whatever the judge says, the summaries are and the store holds at each call.
  pub failed_calls_end :
      (cs : List FailedCall) (n : ℕ) (a : Agent)
      → n ≤ max_consecutive_compactions
      → 4 ≤ n + length cs
      → (b : Bool) → (failed_calls cs n a).0 ≢ again b
  unfolding failed_calls
  failed_calls_end [] n a le h b = absurd (omega (arith, le, h))
  failed_calls_end (c ∷ cs) n a le h b =
      let next : (Next × Agent) × ℕ = fail_once c n a in
      go next.0.0 next.0.1 next.1 (failed_calls cs next.1 next.0.1) (compaction_spent c n a)
        (failed_calls_end cs next.1 next.0.1)
    where
      go :
          (m : Next) (a2 : Agent) (n2 : ℕ) (more : Next × Agent)
          → ((d : Bool) → m ≡ again d → (n < 3) × (n2 ≡ n + 1) × (d ≡ false))
          → (n2 ≤ 3 → 4 ≤ n2 + length cs → (d : Bool) → more.0 ≢ again d)
          → (or_left m a2 more).0 ≢ again b
      go (again d) a2 n2 more spent ih =
          let (lt, count, _) = spent d refl in
          ih (omega (arith, lt, count)) (omega (arith, h, count)) b
      go (return f) a2 n2 more spent ih = λ e. cc
      go park a2 n2 more spent ih = λ e. cc
