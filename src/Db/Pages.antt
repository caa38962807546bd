-- ===== src/Db/Pages.antt =====
-- The pages of a listing of runs: what lies behind a cursor.
use amplio.Common.{
  ℕ, ◌≡◌, refl, sym, ◌∙◌, ap, subst, String, Bool, true, false, List, [], ◌∷◌, ◌++◌, str_eq, filter,
  if◌then◌else◌, arith, inl, inr, Bool-cases, All, All-map, zero, suc, ◌+◌, ◌&&◌, not, ltb, length,
  take, drop, Option, none, some, append_assoc, take-drop,
}
use amplio.Event.{is_nil}
use amplio.Db.State.{Store, Result, ok, err}
use amplio.Db.Calls.{healthy}
use amplio.Db.Runs.{RunRecord, RunStore, ListRunsOpts, is_listed}
use amplio.Db.RunCalls.{is_older, insert_run, order_runs, within_cursor, page, page_size, list_runs}

abbrev pub cursor_of : RunRecord → ℕ × String
cursor_of x = (x.created_at, x.run_id)

-- Each run of the table has its own identifier.
abbrev pub IsUnique : List RunRecord → Type 0
IsUnique [] = Unit
IsUnique (x ∷ xs) = All (λ y. str_eq x.run_id y.run_id ≡ false) xs × IsUnique xs

filter_passes : (p : RunRecord → Bool) (l : List RunRecord) → All (λ x. p x ≡ true) (filter p l)
filter_passes p [] = tt
filter_passes p (x ∷ l) = elim (Bool-cases (p x)) [
  | inl passes ↦ rw (filter, passes) (passes, filter_passes p l)
  | inr fails ↦ rw (filter, fails) (filter_passes p l)
]

filter-All :
    (P : RunRecord → Type 0) (p : RunRecord → Bool) (l : List RunRecord)
    → All P l
    → All P (filter p l)
filter-All P p [] all = tt
filter-All P p (x ∷ l) (q, all) = elim (Bool-cases (p x)) [
  | inl passes ↦ rw (filter, passes) (q, filter-All P p l all)
  | inr fails ↦ rw (filter, fails) (filter-All P p l all)
]

filter-IsUnique : (p : RunRecord → Bool) (l : List RunRecord) → IsUnique l → IsUnique (filter p l)
filter-IsUnique p [] unique = tt
filter-IsUnique p (x ∷ l) (differ, unique) = elim (Bool-cases (p x)) [
  | inl passes ↦
      rw (filter, passes)
        (filter-All (λ y. str_eq x.run_id y.run_id ≡ false) p l differ, filter-IsUnique p l unique)
  | inr fails ↦ rw (filter, fails) (filter-IsUnique p l unique)
]

-- The probe of one row more than the page tells whether something is left.
probe : (n : ℕ) (l : List RunRecord) → ltb n (length (take (n + 1) l)) ≡ not (is_nil (drop n l))
probe zero [] = ground arith
probe zero (x ∷ l) = ground arith
probe (suc n) [] = ground arith
probe (suc n) (x ∷ l) = ground (arith, probe n l)

abbrev listed_of : Result (List RunRecord × Bool) → List RunRecord
listed_of (ok (l, more)) = l
listed_of (err e) = []

abbrev flag_of : Result (List RunRecord × Bool) → Bool
flag_of (ok (l, more)) = more
flag_of (err e) = false

-- The order of identifiers is a strict total order.
module _ (id_before : String → String → Bool) (irreflexive : (a : String) → id_before a a ≡ false)
    (transitive : (a b c : String)
      → id_before a b ≡ true
      → id_before b c ≡ true
      → id_before a c ≡ true)
    (total : (a b : String)
      → str_eq b a ≡ false
      → id_before a b ≡ false
      → id_before b a ≡ true) where
  older_trans :
      (c : ℕ × String) (x y : RunRecord)
      → is_older id_before (cursor_of y) x ≡ true
      → is_older id_before c y ≡ true
      → is_older id_before c x ≡ true
  older_trans c x y h k = elim (Bool-cases (id_before x.run_id y.run_id)) [
    | inr no_id ↦ ground (arith, h, k, no_id)
    | inl yes_id ↦ elim (Bool-cases (id_before y.run_id c.1)) [
      | inr no_next ↦ ground (arith, h, k, no_next)
      | inl yes_next ↦ ground (arith, h, k, transitive x.run_id y.run_id c.1 yes_id yes_next)
    ]
  ]

  older_total :
      (x y : RunRecord)
      → str_eq x.run_id y.run_id ≡ false
      → is_older id_before (cursor_of x) y ≡ false
      → is_older id_before (cursor_of y) x ≡ true
  older_total x y differ h = elim (Bool-cases (id_before y.run_id x.run_id)) [
    | inl yes_id ↦ ground (arith, h, yes_id)
    | inr no_id ↦ ground (arith, h, no_id, total y.run_id x.run_id differ no_id)
  ]

  not_older_self : (x : RunRecord) → is_older id_before (cursor_of x) x ≡ false
  not_older_self x = ground (arith, irreflexive x.run_id)

  -- A cursor's test and the insertion can change places.
  filter-insert_run :
      (c : ℕ × String) (x : RunRecord) (l : List RunRecord)
      → filter (is_older id_before c) (insert_run id_before x l) ≡ (
          if is_older id_before c x
          then insert_run id_before x (filter (is_older id_before c) l)
          else filter (is_older id_before c) l)
  unfolding insert_run
  filter-insert_run c x [] = ground arith
  filter-insert_run c x (y ∷ ys) =
      let rest = filter-insert_run c x ys in
      elim (Bool-cases (is_older id_before (cursor_of x) y)) [
        | inl older ↦ elim (Bool-cases (is_older id_before c x)) [
          | inr out ↦ rw (older, filter, out) refl
          | inl within ↦
              rw (older, filter, within, older_trans c y x older within, insert_run, older) refl
        ]
        | inr newer ↦ elim (Bool-cases (is_older id_before c y)) [
          | inr out ↦ rw (newer, filter, out) rest
          | inl within ↦ elim (Bool-cases (is_older id_before c x)) [
            | inl too ↦
                rw (newer, filter, within, too, insert_run, newer)
                  (ap (λ l. y ∷ l) (rest ∙ rw too refl))
            | inr out ↦ rw (newer, filter, within, out) (ap (λ l. y ∷ l) (rest ∙ rw out refl))
          ]
        ]
      ]

  -- The rows behind a cursor, in order, are those of all rows, in order, that lie behind it.
  order_runs-filter :
      (c : ℕ × String) (runs : List RunRecord)
      → order_runs id_before (filter (is_older id_before c) runs)
        ≡ filter (is_older id_before c) (order_runs id_before runs)
  unfolding order_runs
  order_runs-filter c [] = refl
  order_runs-filter c (x ∷ runs) =
      let step = filter-insert_run c x (order_runs id_before runs) in
      let rest = order_runs-filter c runs in
      elim (Bool-cases (is_older id_before c x)) [
        | inl within ↦
            rw (filter, within) (ap (insert_run id_before x) rest ∙ sym (step ∙ rw within refl))
        | inr out ↦ rw (filter, out) (rest ∙ sym (step ∙ rw out refl))
      ]

  -- Newest first, without equals.
  IsDescending : List RunRecord → Type 0
  IsDescending [] = Unit
  IsDescending (x ∷ xs) = All (λ y. is_older id_before (cursor_of x) y ≡ true) xs × IsDescending xs

  insert_run-All :
      (P : RunRecord → Type 0) (x : RunRecord) (l : List RunRecord)
      → P x
      → All P l
      → All P (insert_run id_before x l)
  unfolding insert_run
  insert_run-All P x [] p all = (p, tt)
  insert_run-All P x (y ∷ ys) p (q, all) = elim (Bool-cases (is_older id_before (cursor_of x) y)) [
    | inl older ↦ rw older (p, (q, all))
    | inr newer ↦ rw newer (q, insert_run-All P x ys p all)
  ]

  insert_run-IsDescending :
      (x : RunRecord) (l : List RunRecord)
      → All (λ y. str_eq x.run_id y.run_id ≡ false) l
      → IsDescending l
      → IsDescending (insert_run id_before x l)
  unfolding insert_run IsDescending
  insert_run-IsDescending x [] differ l = (tt, tt)
  insert_run-IsDescending x (y ∷ ys) (differ, all) (below, rest) =
      elim (Bool-cases (is_older id_before (cursor_of x) y)) [
        | inl older ↦ rw older (
          (
            older,
            All-map (λ z. is_older id_before (cursor_of y) z ≡ true)
                (λ z. is_older id_before (cursor_of x) z ≡ true) ys
                (λ z h. older_trans (cursor_of x) z y h older) below,
          ),
          (below, rest),
        )
        | inr newer ↦ rw newer (
          insert_run-All (λ z. is_older id_before (cursor_of y) z ≡ true) x ys
              (older_total x y differ newer) below,
          insert_run-IsDescending x ys all rest,
        )
      ]

  order_runs-All :
      (P : RunRecord → Type 0) (runs : List RunRecord)
      → All P runs
      → All P (order_runs id_before runs)
  unfolding order_runs
  order_runs-All P [] all = tt
  order_runs-All P (x ∷ runs) (p, all) =
      insert_run-All P x (order_runs id_before runs) p (order_runs-All P runs all)

  order_runs-IsDescending :
      (runs : List RunRecord) → IsUnique runs → IsDescending (order_runs id_before runs)
  unfolding order_runs IsDescending
  order_runs-IsDescending [] unique = tt
  order_runs-IsDescending (x ∷ runs) (differ, unique) =
      insert_run-IsDescending x (order_runs id_before runs)
        (order_runs-All (λ y. str_eq x.run_id y.run_id ≡ false) runs differ)
        (order_runs-IsDescending runs unique)

  older_kept :
      (c : ℕ × String) (l : List RunRecord)
      → All (λ y. is_older id_before c y ≡ true) l
      → filter (is_older id_before c) l ≡ l
  older_kept c [] all = refl
  older_kept c (x ∷ l) (older, all) = rw (filter, older) (ap (λ k. x ∷ k) (older_kept c l all))

  member_passes :
      (P : RunRecord → Type 0) (xs : List RunRecord) (k : RunRecord) (ys : List RunRecord)
      → All P (xs ++ k ∷ ys)
      → P k
  member_passes P [] k ys all = all.0
  member_passes P (x ∷ xs) k ys all = member_passes P xs k ys all.1

  -- Of a descending list, what is older than one of its runs is what comes after it.
  behind_cursor :
      (xs : List RunRecord) (k : RunRecord) (ys : List RunRecord)
      → IsDescending (xs ++ k ∷ ys)
      → filter (is_older id_before (cursor_of k)) (xs ++ k ∷ ys) ≡ ys
  unfolding IsDescending
  behind_cursor [] k ys (below, rest) =
      rw (filter, not_older_self k) (older_kept (cursor_of k) ys below)
  behind_cursor (x ∷ xs) k ys (below, rest) =
      let k_older : is_older id_before (cursor_of x) k ≡ true =
        member_passes (λ y. is_older id_before (cursor_of x) y ≡ true) xs k ys below in
      elim (Bool-cases (is_older id_before (cursor_of k) x)) [
        | inr newer ↦ rw (filter, newer) (behind_cursor xs k ys rest)
        | inl x_older ↦
            absurd (cc (not_older_self k, older_trans (cursor_of k) k x k_older x_older))
      ]

  behind_rows :
      (runs : List RunRecord) (xs : List RunRecord) (k : RunRecord) (ys : List RunRecord)
      → IsUnique runs
      → order_runs id_before runs ≡ xs ++ k ∷ ys
      → order_runs id_before (filter (is_older id_before (cursor_of k)) runs) ≡ ys
  behind_rows runs xs k ys unique listed =
      order_runs-filter (cursor_of k) runs
      ∙ ap (filter (is_older id_before (cursor_of k))) listed
      ∙ behind_cursor xs k ys (subst IsDescending listed (order_runs-IsDescending runs unique))

  -- Behind a run that is itself behind a cursor, all is behind that cursor.
  within_later :
      (c : Option (ℕ × String)) (k x : RunRecord)
      → within_cursor id_before c k ≡ true
      → is_older id_before (cursor_of k) x ≡ true
      → within_cursor id_before c x ≡ true
  within_later none k x h older = refl
  within_later (some c) k x h older = older_trans c x k older h

  -- The rows of a listing, in order.
  abbrev rows : ListRunsOpts → RunStore → List RunRecord
  rows opts d =
      order_runs id_before
        (filter (λ x. is_listed opts d.core x && within_cursor id_before opts.before x) d.runs)

  abbrev pub behind : RunRecord → ListRunsOpts → ListRunsOpts
  behind k opts = record opts { before = some (cursor_of k) }

  narrowed :
      (opts : ListRunsOpts) (k : RunRecord) (d : Store) (l : List RunRecord)
      → within_cursor id_before opts.before k ≡ true
      → filter (λ x. is_listed (behind k opts) d x && is_older id_before (cursor_of k) x) l
        ≡ filter
            (is_older id_before (cursor_of k))
            (filter (λ x. is_listed opts d x && within_cursor id_before opts.before x) l)
  unfolding is_listed
  narrowed opts k d [] h = refl
  narrowed opts k d (x ∷ l) h =
      let rest = narrowed opts k d l h in
      elim (Bool-cases (is_listed opts d x)) [
        | inr out ↦ rw (filter, out) rest
        | inl listed ↦ elim (Bool-cases (is_older id_before (cursor_of k) x)) [
          | inl older ↦
              rw (filter, listed, older, within_later opts.before k x h older, filter, older)
                (ap (λ r. x ∷ r) rest)
          | inr newer ↦ elim (Bool-cases (within_cursor id_before opts.before x)) [
            | inl within ↦ rw (filter, listed, newer, within, filter, newer) rest
            | inr past ↦ rw (filter, listed, newer, past) rest
          ]
        ]
      ]

  rows_behind :
      (opts : ListRunsOpts) (d : RunStore) (xs : List RunRecord) (k : RunRecord)
      (ys : List RunRecord)
      → IsUnique d.runs
      → rows opts d ≡ xs ++ k ∷ ys
      → rows (behind k opts) d ≡ ys
  rows_behind opts d xs k ys unique listed =
      let kept : RunRecord → Bool =
        λ x. is_listed opts d.core x && within_cursor id_before opts.before x in
      let within : kept k ≡ true =
        member_passes (λ x. kept x ≡ true) xs k ys
          (subst (All (λ x. kept x ≡ true)) listed (
            order_runs-All (λ x. kept x ≡ true) (filter kept d.runs)
              (filter_passes kept d.runs))) in
      ap (order_runs id_before) (narrowed opts k d.core d.runs (ground (arith, within)))
      ∙ behind_rows (filter kept d.runs) xs k ys (filter-IsUnique kept d.runs unique) listed

  -- For runs with distinct identifiers, whose order is a strict total one, and a listing with its
  -- filters, behind a cursor or from the start: where `ListRuns` without a bound gives `all`, and a
  -- page of it ends with a run, the page goes on in `all` with the rows that the call behind the
  -- cursor of that run pages through; the flag tells whether there are any; and that call returns the
  -- first of them, as many as a page holds, with a flag for the next. So pages skip and repeat no run.
  pub next_page :
      (opts : ListRunsOpts) (d : RunStore) (all xs : List RunRecord) (k : RunRecord) (more : Bool)
      → IsUnique d.runs
      → (list_runs healthy id_before (record opts { unbounded = true }) d).0 ≡ ok (all, false)
      → (list_runs healthy id_before (record opts { unbounded = false }) d).0
        ≡ ok (xs ++ k ∷ [], more)
      → (ys : List RunRecord) × (all ≡ xs ++ k ∷ ys)
        × (more ≡ not (is_nil ys))
        × ((list_runs healthy id_before (behind k (record opts { unbounded = false })) d).0
            ≡ ok (take (page_size opts.limit) ys, not (is_nil (drop (page_size opts.limit) ys))))
  unfolding list_runs is_listed
  next_page opts d all xs k more unique whole first =
      let n = page_size opts.limit in
      let ys = drop n (rows opts d) in
      let is_all : rows opts d ≡ all = ap listed_of whole in
      let is_page : take n (rows opts d) ≡ xs ++ k ∷ [] = ap listed_of first in
      let split : rows opts d ≡ xs ++ k ∷ ys =
        sym (take-drop n (rows opts d)) ∙ ap (λ l. l ++ ys) is_page ∙ append_assoc xs (k ∷ []) ys in
      (
        ys,
        sym is_all ∙ split,
        sym (ap flag_of first) ∙ probe n (rows opts d),
        ap (λ l. ok (page false opts.limit l)) (rows_behind opts d xs k ys unique split)
            ∙ ap (λ b. ok (take n ys, b)) (probe n ys),
      )
