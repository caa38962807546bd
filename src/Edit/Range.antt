-- ===== src/Edit/Range.antt =====
-- The slices of the loop of `execute` that applies the edits are never out of range.
use amplio.Common.{
  ℕ, ◌+◌, ◌-◌, ◌≤◌, ◌<◌, ◌≡◌, refl, sym, subst, ◌∙◌, true, false, ◌&&◌, inl, inr, List, [], ◌∷◌,
  ◌++◌, arith, ltb, Bool-cases, All, length, take, drop, length-append, length-take, length-drop,
}
use amplio.Edit.Splice.{
  Bytes, ResolvedEdit, ranges_meet, overlap_with, overlaps, sink, sort_loop, from_last,
  sort_by_start_desc, apply_edits, splice, can_splice, all_in_range,
}
use amplio.Edit.Sorting.{IsWithin, sink-All}

-- `y` starts at `x` or after, and behind it unless `y` is empty.
abbrev Follows : ResolvedEdit → ResolvedEdit → Type 0
Follows x y = (x.start ≤ y.start) × (y.start < y.end → x.end ≤ y.start)

Ascends : List ResolvedEdit → Type 0
Ascends [] = Unit
Ascends (x ∷ xs) = All (Follows x) xs × Ascends xs

abbrev Apart : ResolvedEdit → ResolvedEdit → Type 0
Apart x y = ranges_meet x y ≡ false

transitively :
    (x y : ResolvedEdit) (rest : List ResolvedEdit)
    → x.start ≤ y.start
    → All (Follows y) rest
    → All (Apart x) rest
    → All (Follows x) rest
transitively x y [] h a b = tt
transitively x y (z ∷ rest) h ((s, e), a) (p, b) =
    ((omega (arith, h, s), λ full. ground (arith, h, s, p, full)), transitively x y rest h a b)

sink-Ascends :
    (x : ResolvedEdit) (sorted : List ResolvedEdit)
    → All (Apart x) sorted
    → Ascends sorted
    → Ascends (sink x sorted)
unfolding sink Ascends
sink-Ascends x [] apart s = (tt, tt)
sink-Ascends x (y ∷ before) (p, apart) (a, s) = elim (Bool-cases (ltb y.start x.start)) [
  | inl below ↦ rw below (
    sink-All (Follows y) x before (ground (arith, below), λ full. ground (arith, below, p, full)) a,
    sink-Ascends x before apart s,
  )
  | inr above ↦
      let first : x.start ≤ y.start = ground (arith, above) in
      rw above (
        ((first, λ full. ground (arith, first, p, full)), transitively x y before first a apart),
        (a, s),
      )
]

sink_parts :
    (x : ResolvedEdit) (rest sorted : List ResolvedEdit)
    → overlap_with x rest ≡ false
    → All (λ z. All (Apart z) sorted) rest
    → All (λ z. All (Apart z) (sink x sorted)) rest
sink_parts x [] sorted apart all = tt
sink_parts x (z ∷ rest) sorted apart (f, all) = (
  sink-All (Apart z) x sorted (ground (arith, apart)) f,
  sink_parts x rest sorted (ground (arith, apart)) all,
)

sort_loop-Ascends :
    (n : ℕ) (rest sorted : List ResolvedEdit)
    → All (IsWithin n) rest
    → overlaps rest ≡ false
    → All (λ z. All (Apart z) sorted) rest
    → All (IsWithin n) sorted
    → Ascends sorted
    → Ascends (sort_loop sorted rest) × All (IsWithin n) (sort_loop sorted rest)
unfolding sort_loop overlaps
sort_loop-Ascends n [] sorted w apart all within s = (s, within)
sort_loop-Ascends n (x ∷ rest) sorted (wx, w) apart (f, all) within s =
    sort_loop-Ascends n rest (sink x sorted) w (ground (arith, apart))
      (sink_parts x rest sorted (ground (arith, apart)) all)
      (sink-All (IsWithin n) x sorted wx within) (sink-Ascends x sorted f s)

none_yet : (edits : List ResolvedEdit) → All (λ z. All (Apart z) []) edits
none_yet [] = tt
none_yet (x ∷ edits) = (tt, none_yet edits)

apply_edits-append :
    (xs : List ResolvedEdit) (x : ResolvedEdit) (text : Bytes)
    → apply_edits (xs ++ x ∷ []) text ≡ splice x (apply_edits xs text)
unfolding apply_edits
apply_edits-append [] x text = refl
apply_edits-append (y ∷ xs) x text = apply_edits-append xs x (splice y text)

all_in_range-append :
    (xs : List ResolvedEdit) (x : ResolvedEdit) (text : Bytes)
    → all_in_range (xs ++ x ∷ []) text
      ≡ (all_in_range xs text && can_splice x (apply_edits xs text))
unfolding all_in_range apply_edits
all_in_range-append [] x text = ground arith
all_in_range-append (y ∷ xs) x text = ground (arith, all_in_range-append xs x (splice y text))

length-splice :
    (x : ResolvedEdit) (text : Bytes)
    → x.start ≤ length text
    → length (splice x text) ≡ x.start + length x.new_text + (length text - x.end)
unfolding splice
length-splice x text h = omega (
  arith,
  length-append (take x.start text) (x.new_text ++ drop x.end text),
  length-append x.new_text (drop x.end text),
  length-take x.start text h,
  length-drop x.end text,
)

-- A text below whose end an edit may still cut.
abbrev Reaches : ℕ → ℕ → List ResolvedEdit → Bytes → Type 0
Reaches n m xs text =
    m ≤ n
    → All (λ y. y.start < y.end → m ≤ y.start) xs
    → m ≤ length (apply_edits (from_last xs) text)

later_reach :
    (x : ResolvedEdit) (xs : List ResolvedEdit)
    → All (Follows x) xs
    → All (λ y. y.start < y.end → x.end ≤ y.start) xs
later_reach x [] all = tt
later_reach x (y ∷ xs) ((s, e), all) = (e, later_reach x xs all)

in_range :
    (xs : List ResolvedEdit) (text : Bytes)
    → Ascends xs
    → All (IsWithin (length text)) xs
    → (all_in_range (from_last xs) text ≡ true) × ((m : ℕ) → Reaches (length text) m xs text)
unfolding Ascends all_in_range apply_edits
in_range [] text s w = (refl, λ m h all. h)
in_range (x ∷ xs) text (a, s) ((wx, we), w) =
    let (fine, reach) = in_range xs text s w in
    let before : Bytes = apply_edits (from_last xs) text in
    let end : x.end ≤ length before = reach x.end we (later_reach x xs a) in
    (
      all_in_range-append (from_last xs) x text ∙ ground (arith, fine, end, wx),
      λ m h (own, all).
          let size = length-splice x before (omega (arith, wx, end)) in
          let kept : m ≤ length before = reach m h all in
          subst (λ t. m ≤ length t) (sym (apply_edits-append (from_last xs) x text))
            (bound m x before wx end size kept own),
    )
  where
    bound :
        (m : ℕ) (r : ResolvedEdit) (before : Bytes)
        → r.start ≤ r.end
        → r.end ≤ length before
        → length (splice r before) ≡ r.start + length r.new_text + (length before - r.end)
        → m ≤ length before
        → (r.start < r.end → m ≤ r.start)
        → m ≤ length (splice r before)
    bound m r before le end size kept own = elim (Bool-cases (ltb r.start r.end)) [
      | inl full ↦ omega (arith, size, own (ground (arith, full)))
      | inr empty ↦
          let same : r.end ≤ r.start = ground (arith, empty) in
          omega (arith, size, kept, same, le, end)
    ]

-- For edits that are ranges of the text and that the overlap check lets through, no slice of the loop
-- that applies them from the last to the first is out of range.
pub sorted-all_in_range :
    (edits : List ResolvedEdit) (text : Bytes)
    → All (IsWithin (length text)) edits
    → overlaps edits ≡ false
    → all_in_range (sort_by_start_desc edits) text ≡ true
unfolding sort_by_start_desc Ascends
sorted-all_in_range edits text w apart =
    let (s, within) = sort_loop-Ascends (length text) edits [] w apart (none_yet edits) tt tt in
    (in_range (sort_loop [] edits) text s within).0
