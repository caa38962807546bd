-- ===== src/Examples/Runs.antt =====
-- A listing of three runs, two of them of one time, and the page behind the first.
use Prim.Native.Char.{code}
use text.Mathlib.TextEquality.{Char-path}
use amplio.Common.{
  ℕ, ◌≡◌, refl, ap, ◌∙◌, sym, String, Bool, true, false, ◌&&◌, ◌||◌, none, List, [], ◌∷◌, ltb, ◌==◌,
  str_eq, eq_refl, arith, inl, inr, Bool-cases, some, not, take, drop, Codes, codes,
}
use amplio.Event.{is_nil}
use amplio.Db.State.{ok}
use amplio.Db.Calls.{healthy}
use amplio.Examples.Data.{db}
use amplio.Db.Runs.{
  RunRecord, RunStore, ListRunsOpts, no_filter, any_grade, is_listed, status_clause, grade_clause,
}
use amplio.Db.RunCalls.{insert_run, order_runs, list_runs}
use amplio.Db.Pages.{next_page}

-- The order of the characters, as SQLite's BINARY collation has it.
abbrev codes_before : Codes → Codes → Bool
codes_before s [] = false
codes_before [] (d ∷ t) = true
codes_before (c ∷ s) (d ∷ t) = ltb c d || (c == d && codes_before s t)

abbrev id_before : String → String → Bool
id_before s t = codes_before (codes s) (codes t)

codes_irreflexive : (s : Codes) → codes_before s s ≡ false
codes_irreflexive [] = refl
codes_irreflexive (c ∷ s) = ground (arith, codes_irreflexive s)

codes_transitive :
    (s t u : Codes) → codes_before s t ≡ true → codes_before t u ≡ true → codes_before s u ≡ true
codes_transitive s t [] h k = absurd (cc k)
codes_transitive s [] (e ∷ u) h k = absurd (cc h)
codes_transitive [] (d ∷ t) (e ∷ u) h k = refl
codes_transitive (c ∷ s) (d ∷ t) (e ∷ u) h k = elim (Bool-cases (codes_before s t)) [
  | inr no_st ↦ ground (arith, h, k, no_st)
  | inl st ↦ elim (Bool-cases (codes_before t u)) [
    | inr no_tu ↦ ground (arith, h, k, no_tu)
    | inl tu ↦ ground (arith, h, k, codes_transitive s t u st tu)
  ]
]

texts_equal :
    (s t : String)
    → codes_before (codes s) (codes t) ≡ false
    → codes_before (codes t) (codes s) ≡ false
    → s ≡ t
texts_equal String.[] String.[] h k = refl
texts_equal String.[] (String.◌∷◌ d t) h k = absurd (cc h)
texts_equal (String.◌∷◌ c s) String.[] h k = absurd (cc k)
texts_equal (String.◌∷◌ c s) (String.◌∷◌ d t) h k =
    let heads : code c ≡ code d = ground (arith, h, k) in
    let chars : c ≡ d = Char-path c d heads in
    let tails : s ≡ t = texts_equal s t (ground (arith, h, heads)) (ground (arith, k, heads)) in
    ap (λ x. String.◌∷◌ x s) chars ∙ ap (λ r. String.◌∷◌ d r) tails

id_total : (s t : String) → str_eq t s ≡ false → id_before s t ≡ false → id_before t s ≡ true
id_total s t differ h = elim (Bool-cases (id_before t s)) [
  | inl before ↦ before
  | inr neither ↦
      absurd (cc (differ, ap (λ u. str_eq u s) (sym (texts_equal s t h neither)), eq_refl s))
]

abbrev run : String → ℕ → RunRecord
run id time = record {
  run_id = id;
  config = "{}";
  title = "";
  note = "";
  starred = false;
  grade = 0;
  report_grade = 0;
  archived = false;
  created_at = time;
  updated_at = time;
  last_seen_at = none;
}

abbrev runs : List RunRecord
runs = run "b" 5 ∷ run "a" 7 ∷ run "c" 7 ∷ []

abbrev two_by_two : ListRunsOpts
two_by_two = record {
  before = none;
  limit = 2;
  unbounded = false;
  show_archived = true;
  status_filter = no_filter;
  searched = λ x. true;
  starred_only = false;
  grade_filter = any_grade;
}

abbrev table : RunStore
table = record { runs = runs; core = db }

-- The first page of two holds both runs of the later time, and the next one the third.
next_page_example :
    (ys : List RunRecord) × (run "c" 7 ∷ run "a" 7 ∷ run "b" 5 ∷ [] ≡ run "c" 7 ∷ run "a" 7 ∷ ys)
    × (true ≡ not (is_nil ys))
    × ((list_runs healthy id_before (record two_by_two { before = some (7, "a") }) table).0
        ≡ ok (take 2 ys, not (is_nil (drop 2 ys))))
unfolding list_runs is_listed status_clause grade_clause order_runs insert_run
next_page_example =
    next_page id_before (λ s. codes_irreflexive (codes s))
      (λ s t u. codes_transitive (codes s) (codes t) (codes u)) id_total two_by_two table
      (run "c" 7 ∷ run "a" 7 ∷ run "b" 5 ∷ []) (run "c" 7 ∷ []) (run "a" 7) true
      ((refl, (refl, tt)), ((refl, tt), (tt, tt))) refl refl
