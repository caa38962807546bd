-- ===== src/Loop/Results.antt =====
-- The order of tool results: `orderToolResults` of internal/agent/eventloop/eventloop.go.
use mathlib.Core.List.{Perm}
use mathlib.Core.List.Perm
use amplio.Common.{
  All-map, ℕ, zero, suc, ◌+◌, ◌≤◌, ◌≡◌, refl, ap, ◌∙◌, true, false, List, [], ◌∷◌, ◌++◌, arith, All,
  leb, Bool-cases, inl, inr, length, length-append, subst,
}
use amplio.Event.{ToolCall}
use amplio.Loop.Messages.{
  Role, role_tool_result, Message, rank, insert_ranked, sort_ranked, take_results, drop_results,
  orders, order_run, order_fuel, order_tool_results, is_role_tool_result, is_role_assistant,
}

insert_ranked-Perm :
    (cs : List ToolCall) (m : Message) (xs : List Message) → Perm (insert_ranked cs m xs) (m ∷ xs)
unfolding insert_ranked
insert_ranked-Perm cs m [] = Perm.refl (m ∷ [])
insert_ranked-Perm cs m (x ∷ xs) =
    elim (Bool-cases (leb (rank cs m.tool_call_id) (rank cs x.tool_call_id))) [
      | inl le ↦ rw le (Perm.refl (m ∷ x ∷ xs))
      | inr gt ↦ rw gt (Perm.trans (Perm.cons x (insert_ranked-Perm cs m xs)) (Perm.swap m x xs))
    ]

sort_ranked-Perm : (cs : List ToolCall) (xs : List Message) → Perm (sort_ranked cs xs) xs
unfolding sort_ranked
sort_ranked-Perm cs [] = Perm.refl []
sort_ranked-Perm cs (m ∷ ms) =
    Perm.trans (insert_ranked-Perm cs m (sort_ranked cs ms)) (Perm.cons m (sort_ranked-Perm cs ms))

take-drop : (ms : List Message) → take_results ms ++ drop_results ms ≡ ms
unfolding take_results drop_results
take-drop [] = refl
take-drop (m ∷ ms) = ground (arith, take-drop ms)

order_run-Perm : (m : Message) (ms : List Message) → Perm (order_run m ms) ms
unfolding order_run
order_run-Perm m ms = elim (Bool-cases (orders m)) [
  | inr plain ↦ rw plain (Perm.refl ms)
  | inl run ↦ rw run (
      subst (λ ys. Perm (sort_ranked m.tool_calls (take_results ms) ++ drop_results ms) ys)
        (take-drop ms)
        (Perm.append (sort_ranked-Perm m.tool_calls (take_results ms))
          (Perm.refl (drop_results ms))))
]

order_fuel-Perm : (k : ℕ) (ms : List Message) → Perm (order_fuel k ms) ms
unfolding order_fuel
order_fuel-Perm zero ms = Perm.refl ms
order_fuel-Perm (suc k) [] = Perm.refl []
order_fuel-Perm (suc k) (m ∷ ms) =
    Perm.cons m (Perm.trans (order_fuel-Perm k (order_run m ms)) (order_run-Perm m ms))

-- No message of a request is lost, doubled or made up by the reordering of tool results.
pub order_tool_results-Perm : (ms : List Message) → Perm (order_tool_results ms) ms
unfolding order_tool_results
order_tool_results-Perm ms = order_fuel-Perm (length ms) ms

abbrev IsResult : Message → Type 0
IsResult x = is_role_tool_result x.role ≡ true

result_orders_nothing : (x : Message) (ms : List Message) → IsResult x → order_run x ms ≡ ms
unfolding order_run
result_orders_nothing x ms h = rw (no_turn x.role h)
  where
    no_turn : (o : Role) → is_role_tool_result o ≡ true → is_role_assistant o ≡ false
    no_turn role_tool_result e = refl
    no_turn o e = ground arith

-- A run of tool results is passed as it stands.
pass :
    (n k : ℕ) (xs ys : List Message)
    → n ≡ length xs + k
    → All IsResult xs
    → order_fuel n (xs ++ ys) ≡ xs ++ order_fuel k ys
unfolding order_fuel
pass n k [] ys e all = ap (λ j. order_fuel j ys) (omega (arith, e))
pass zero k (x ∷ xs) ys e all = absurd (omega (arith, e))
pass (suc n) k (x ∷ xs) ys e all =
    rw (result_orders_nothing x (xs ++ ys) all.0)
      (ap (λ ms. x ∷ ms) (pass n k xs ys (omega (arith, e)) all.1))

All-insert_ranked {κ} :
    (P : Message → Type κ) (cs : List ToolCall) (m : Message) (xs : List Message)
    → P m
    → All P xs
    → All P (insert_ranked cs m xs)
unfolding insert_ranked
All-insert_ranked P cs m [] p all = (p, tt)
All-insert_ranked P cs m (x ∷ xs) p all =
    elim (Bool-cases (leb (rank cs m.tool_call_id) (rank cs x.tool_call_id))) [
      | inl le ↦ rw le (p, all)
      | inr gt ↦ rw gt (all.0, All-insert_ranked P cs m xs p all.1)
    ]

All-sort_ranked {κ} :
    (P : Message → Type κ) (cs : List ToolCall) (xs : List Message)
    → All P xs
    → All P (sort_ranked cs xs)
unfolding sort_ranked
All-sort_ranked P cs [] all = tt
All-sort_ranked P cs (m ∷ ms) all =
    All-insert_ranked P cs m (sort_ranked cs ms) all.0 (All-sort_ranked P cs ms all.1)

take-IsResult : (ms : List Message) → All IsResult (take_results ms)
unfolding take_results
take-IsResult [] = tt
take-IsResult (m ∷ ms) = elim (Bool-cases (is_role_tool_result m.role)) [
  | inl good ↦ rw good (good, take-IsResult ms)
  | inr other ↦ rw other tt
]

-- Results in the order of the calls that they answer.
unfoldable pub IsAscending : List ToolCall → List Message → Type 0
IsAscending cs [] = Unit
IsAscending cs (x ∷ xs) =
    All (λ (y : Message). rank cs x.tool_call_id ≤ rank cs y.tool_call_id) xs × IsAscending cs xs

insert_ranked-IsAscending :
    (cs : List ToolCall) (m : Message) (xs : List Message)
    → IsAscending cs xs
    → IsAscending cs (insert_ranked cs m xs)
unfolding insert_ranked IsAscending
insert_ranked-IsAscending cs m [] h = (tt, tt)
insert_ranked-IsAscending cs m (x ∷ xs) h =
    elim (Bool-cases (leb (rank cs m.tool_call_id) (rank cs x.tool_call_id))) [
      | inl le ↦
          let first : rank cs m.tool_call_id ≤ rank cs x.tool_call_id = ground arith in
          rw le (
            (
              first,
              All-map (λ (y : Message). rank cs x.tool_call_id ≤ rank cs y.tool_call_id)
                  (λ (y : Message). rank cs m.tool_call_id ≤ rank cs y.tool_call_id) xs
                  (λ y later. omega (arith, first, later)) h.0,
            ),
            h,
          )
      | inr gt ↦ rw gt (
        All-insert_ranked (λ (y : Message). rank cs x.tool_call_id ≤ rank cs y.tool_call_id) cs m xs
            (ground arith) h.0,
        insert_ranked-IsAscending cs m xs h.1,
      )
    ]

sort_ranked-IsAscending :
    (cs : List ToolCall) (xs : List Message) → IsAscending cs (sort_ranked cs xs)
unfolding sort_ranked IsAscending
sort_ranked-IsAscending cs [] = tt
sort_ranked-IsAscending cs (m ∷ ms) =
    insert_ranked-IsAscending cs m (sort_ranked cs ms) (sort_ranked-IsAscending cs ms)

length-insert_ranked :
    (cs : List ToolCall) (m : Message) (xs : List Message)
    → length (insert_ranked cs m xs) ≡ suc (length xs)
unfolding insert_ranked
length-insert_ranked cs m [] = refl
length-insert_ranked cs m (x ∷ xs) = ground (arith, length-insert_ranked cs m xs)

length-sort_ranked :
    (cs : List ToolCall) (xs : List Message) → length (sort_ranked cs xs) ≡ length xs
unfolding sort_ranked
length-sort_ranked cs [] = refl
length-sort_ranked cs (m ∷ ms) =
    length-insert_ranked cs m (sort_ranked cs ms) ∙ ap suc (length-sort_ranked cs ms)

run_sorted :
    (m : Message) (ms : List Message)
    → orders m ≡ true
    → order_run m ms ≡ sort_ranked m.tool_calls (take_results ms) ++ drop_results ms
unfolding order_run
run_sorted m ms run = rw run

-- A turn with at least two tool calls: the results that follow it come in the order of its calls,
-- and what comes after them is ordered on its own.
pub turn_ordered :
    (m : Message) (ms : List Message)
    → orders m ≡ true
    → (order_tool_results (m ∷ ms)
        ≡ m ∷ (sort_ranked m.tool_calls (take_results ms) ++ order_tool_results (drop_results ms)))
      × IsAscending m.tool_calls (sort_ranked m.tool_calls (take_results ms))
unfolding order_tool_results order_fuel
turn_ordered m ms run =
    let sorted = sort_ranked m.tool_calls (take_results ms) in
    (
      rw (run_sorted m ms run) (
          ap (λ xs. m ∷ xs)
            (pass (length ms) (length (drop_results ms)) sorted (drop_results ms)
              (omega (
                arith,
                length-sort_ranked m.tool_calls (take_results ms),
                length-append (take_results ms) (drop_results ms),
                ap length (take-drop ms),
              ))
              (All-sort_ranked IsResult m.tool_calls (take_results ms) (take-IsResult ms)))),
      sort_ranked-IsAscending m.tool_calls (take_results ms),
    )
