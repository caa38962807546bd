-- ===== src/Edit/Span.antt =====
-- `lineSpan` of internal/tool/editfile/editfile.go: the lines that a report names for a byte range.
use Prim.Native.Nat.{◌/◌}
use amplio.Common.{
  ℕ, ◌⊎◌, zero, suc, ◌+◌, ◌-◌, ◌≤◌, ◌<◌, ◌≡◌, refl, ap, inl, inr, List, arith, ltb, leb, ◌==◌,
  if◌then◌else◌, Bool-cases, length,
}
use amplio.Edit.Splice.{Bytes}
use amplio.Edit.Anchored.{offset_or, line_byte_offsets}

-- The binary search of `lineOf`: the rounds, and the bounds.
unfoldable pub search_line : ℕ → List ℕ → ℕ → ℕ → ℕ → ℕ
search_line zero offsets pos lo hi = lo
search_line (suc fuel) offsets pos lo hi =
    let mid = (lo + hi + 1) / 2 in
    let above = search_line fuel offsets pos mid hi in
    let below = search_line fuel offsets pos lo (mid - 1) in
    if ltb lo hi then (if leb (offset_or offsets mid 0) pos then above else below) else lo

-- `lineOf`: each round makes the range shorter, so its length is enough.
unfoldable pub line_of : List ℕ → ℕ → ℕ
unfolding search_line
line_of offsets pos = search_line (length offsets) offsets pos 0 (length offsets - 1) + 1

pub data Span : Type 0 where
  at_line one_line : ℕ → Span
  lines_between : ℕ → ℕ → Span

-- `lineSpan`
unfoldable pub line_span : List ℕ → ℕ → ℕ → Span
unfolding line_of
line_span offsets start end =
    let from = line_of offsets start in
    let to = line_of offsets (end - 1) in
    if start == end
    then at_line from
    else if from == to
    then one_line from
    else lines_between from to

-- What the search finds: the last line of the range that starts at or before the position.
search_line_lem :
    (fuel : ℕ) (offsets : List ℕ) (pos lo hi : ℕ)
    → hi - lo ≤ fuel
    → lo ≤ hi
    → offset_or offsets lo 0 ≤ pos
    → (k : ℕ) × (search_line fuel offsets pos lo hi ≡ k)
      × (lo ≤ k)
      × (k ≤ hi)
      × (offset_or offsets k 0 ≤ pos)
      × ((k ≡ hi) ⊎ (pos < offset_or offsets (suc k) 0))
unfolding search_line
search_line_lem zero offsets pos lo hi enough le starts =
    (lo, refl, omega arith, le, starts, inl (omega (arith, enough, le)))
search_line_lem (suc fuel) offsets pos lo hi enough le starts =
    let mid : ℕ = (lo + hi + 1) / 2 in
    elim (Bool-cases (ltb lo hi)) [
      | inr single ↦ rw single (lo, refl, omega arith, le, starts, inl (ground (arith, single, le)))
      | inl wide ↦ elim (Bool-cases (leb (offset_or offsets mid 0) pos)) [
        | inl right ↦
            let (k, is, a, b, c, d) =
              search_line_lem fuel offsets pos mid hi (ground (arith, wide, enough))
                (ground (arith, wide)) (ground (arith, right)) in
            rw (wide, right) (k, is, ground (arith, wide, a), b, c, d)
        | inr left ↦
            let (k, is, a, b, c, d) =
              search_line_lem fuel offsets pos lo (mid - 1) (ground (arith, wide, enough))
                (ground (arith, wide)) starts in
            rw (wide, left)
              (
                k,
                is,
                a,
                ground (arith, wide, b),
                c,
                elim d [
                  | inr later ↦ inr later
                  | inl last ↦
                      let next : suc k ≡ mid = ground (arith, wide, last) in
                      inr (rw next (ground (arith, left)))
                ],
              )
      ]
    ]

-- The line that is named for a position of a text, counted from one: it starts at or before the
-- position, and it is the last line of the text or the next one starts behind it.
pub line_of_position :
    (text : Bytes) (pos : ℕ)
    → let offsets = line_byte_offsets text in
      (k : ℕ) × (line_of offsets pos ≡ k + 1)
      × (offset_or offsets k 0 ≤ pos)
      × ((k ≡ length offsets - 1) ⊎ (pos < offset_or offsets (suc k) 0))
unfolding line_of line_byte_offsets
line_of_position text pos =
    let offsets : List ℕ = line_byte_offsets text in
    let (k, is, a, b, c, d) =
      search_line_lem (length offsets) offsets pos 0 (length offsets - 1) (omega arith)
        (omega arith) (omega arith) in
    (k, ap (λ n. n + 1) is, c, d)
