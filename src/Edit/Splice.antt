-- ===== src/Edit/Splice.antt =====
-- The byte splices of internal/tool/editfile/editfile.go: `resolvedEdit`, the overlap check, the
-- sort and the application bottom-up.
use amplio.Common.{
  ℕ, Bool, false, ◌&&◌, ◌||◌, not, List, [], ◌∷◌, ◌++◌, ltb, leb, true, length, ◌==◌, if◌then◌else◌,
  any, take, drop,
}

-- Go's strings and byte slices.
abbrev pub Bytes : Type 0
Bytes = List ℕ

-- `resolvedEdit`
pub record ResolvedEdit : Type 0 where
  pub start : ℕ
  pub end : ℕ
  pub new_text : Bytes
  pub edit_index : ℕ

-- Two zero-width edits of different positions in the call, at one offset.
abbrev pub inserts_clash : ResolvedEdit → ResolvedEdit → Bool
inserts_clash a b =
    (a.start == a.end && b.start == b.end)
    && (a.start == b.start && not (a.edit_index == b.edit_index))

abbrev pub ranges_meet : ResolvedEdit → ResolvedEdit → Bool
ranges_meet a b = ltb a.start b.end && ltb b.start a.end

abbrev pub overlap_with : ResolvedEdit → List ResolvedEdit → Bool
overlap_with a = any (λ b. inserts_clash a b || ranges_meet a b)

-- The overlap check of `execute`: whether some pair of edits, in their order, is refused.
unfoldable pub overlaps : List ResolvedEdit → Bool
overlaps [] = false
overlaps (a ∷ rest) = overlap_with a rest || overlaps rest

-- The inner loop of `sortByStartDesc`: `x` moves left over the edits before it, which stand here
-- from the last to the first, as long as it starts after them.
unfoldable pub sink : ResolvedEdit → List ResolvedEdit → List ResolvedEdit
sink x [] = x ∷ []
sink x (y ∷ before) =
    let rest = sink x before in if ltb y.start x.start then y ∷ rest else x ∷ y ∷ before

-- The outer loop: the sorted part, from its last to its first, and the edits still to sort.
unfoldable pub sort_loop : List ResolvedEdit → List ResolvedEdit → List ResolvedEdit
sort_loop sorted [] = sorted
sort_loop sorted (x ∷ rest) = sort_loop (sink x sorted) rest

abbrev pub from_last : List ResolvedEdit → List ResolvedEdit
from_last [] = []
from_last (x ∷ xs) = from_last xs ++ x ∷ []

-- `sortByStartDesc`
unfoldable pub sort_by_start_desc : List ResolvedEdit → List ResolvedEdit
sort_by_start_desc edits = from_last (sort_loop [] edits)

-- `result[:r.start] + r.newText + result[r.end:]`
unfoldable pub splice : ResolvedEdit → Bytes → Bytes
splice r text = take r.start text ++ (r.new_text ++ drop r.end text)

-- The loop of `execute` that applies the edits, in the order given.
unfoldable pub apply_edits : List ResolvedEdit → Bytes → Bytes
apply_edits [] text = text
apply_edits (r ∷ rest) text = apply_edits rest (splice r text)

-- Whether the bounds of the two slices of a round are in range: it panics where they are not.
abbrev pub can_splice : ResolvedEdit → Bytes → Bool
can_splice r text = leb r.start (length text) && leb r.end (length text)

unfoldable pub all_in_range : List ResolvedEdit → Bytes → Bool
unfolding splice
all_in_range [] text = true
all_in_range (r ∷ rest) text =
    let more = all_in_range rest (splice r text) in can_splice r text && more
