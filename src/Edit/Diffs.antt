-- ===== src/Edit/Diffs.antt =====
-- What the lines of a diff spell, and that no diff has more lines in common.
use amplio.Common.{
  ℕ, ◌⊎◌, suc, ◌≤◌, ◌≡◌, refl, ◌∙◌, ap, inl, inr, List, [], ◌∷◌, map, arith, leb, Bool-cases,
  length, same_codes, same_codes-eq, same_codes_of_self,
}
use amplio.Edit.Splice.{Bytes}
use amplio.Edit.Diff.{DiffLine, context, removed, added, lcs_length, diff_lines}

-- The lines of a diff that stand in the old text, and those in the new one.
abbrev pub old_side : List DiffLine → List Bytes
old_side [] = []
old_side (context l ∷ ds) = l ∷ old_side ds
old_side (removed l ∷ ds) = l ∷ old_side ds
old_side (added l ∷ ds) = old_side ds

abbrev pub new_side : List DiffLine → List Bytes
new_side [] = []
new_side (context l ∷ ds) = l ∷ new_side ds
new_side (removed l ∷ ds) = new_side ds
new_side (added l ∷ ds) = l ∷ new_side ds

abbrev pub common_lines : List DiffLine → ℕ
common_lines [] = 0
common_lines (context l ∷ ds) = suc (common_lines ds)
common_lines (removed l ∷ ds) = common_lines ds
common_lines (added l ∷ ds) = common_lines ds

old_side-added : (ls : List Bytes) → old_side (map added ls) ≡ []
old_side-added [] = refl
old_side-added (l ∷ ls) = old_side-added ls

old_side-removed : (ls : List Bytes) → old_side (map removed ls) ≡ ls
old_side-removed [] = refl
old_side-removed (l ∷ ls) = ap (λ k. l ∷ k) (old_side-removed ls)

new_side-added : (ls : List Bytes) → new_side (map added ls) ≡ ls
new_side-added [] = refl
new_side-added (l ∷ ls) = ap (λ k. l ∷ k) (new_side-added ls)

new_side-removed : (ls : List Bytes) → new_side (map removed ls) ≡ []
new_side-removed [] = refl
new_side-removed (l ∷ ls) = new_side-removed ls

common_lines-added : (ls : List Bytes) → common_lines (map added ls) ≡ 0
common_lines-added [] = refl
common_lines-added (l ∷ ls) = common_lines-added ls

common_lines-removed : (ls : List Bytes) → common_lines (map removed ls) ≡ 0
common_lines-removed [] = refl
common_lines-removed (l ∷ ls) = common_lines-removed ls

-- A diff spells the two texts, and has as many lines in common as the table says.
IsDiff : List Bytes → List Bytes → List DiffLine → Type 0
IsDiff a b ds = (old_side ds ≡ a) × (new_side ds ≡ b) × (common_lines ds ≡ lcs_length a b)

diff_lines-IsDiff : (a b : List Bytes) → IsDiff a b (diff_lines a b)
unfolding diff_lines IsDiff
diff_lines-IsDiff [] b = (old_side-added b, new_side-added b, common_lines-added b)
diff_lines-IsDiff (x ∷ a) [] =
    (old_side-removed (x ∷ a), new_side-removed (x ∷ a), common_lines-removed (x ∷ a))
diff_lines-IsDiff (x ∷ a) (y ∷ b) = elim (Bool-cases (same_codes x y)) [
  | inl same ↦
      let (old, new, count) = diff_lines-IsDiff a b in
      rw (diff_lines, lcs_length, same)
        (
          ap (λ k. x ∷ k) old,
          ap (λ k. x ∷ k) new ∙ ap (λ k. k ∷ b) (same_codes-eq x y same),
          omega (arith, count),
        )
  | inr other ↦ elim (Bool-cases (leb (lcs_length (x ∷ a) b) (lcs_length a (y ∷ b)))) [
    | inl above ↦
        let (old, new, count) = diff_lines-IsDiff a (y ∷ b) in
        rw (diff_lines, lcs_length, other, above) (ap (λ k. x ∷ k) old, new, count)
    | inr below ↦
        let (old, new, count) = diff_lines-IsDiff (x ∷ a) b in
        rw (diff_lines, lcs_length, other, below) (old, ap (λ k. y ∷ k) new, count)
  ]
]

-- `zs` is what is left of a list when some items are left out.
pub data IsSubsequence : List Bytes → List Bytes → Type 0 where
  none_left : {ls : List Bytes} → IsSubsequence [] ls
  kept :
      {z x : Bytes} {zs ls : List Bytes}
      → z ≡ x
      → IsSubsequence zs ls
      → IsSubsequence (z ∷ zs) (x ∷ ls)
  left_out : {x : Bytes} {zs ls : List Bytes} → IsSubsequence zs ls → IsSubsequence zs (x ∷ ls)

tail_left : (z : Bytes) (zs ls : List Bytes) → IsSubsequence (z ∷ zs) ls → IsSubsequence zs ls
tail_left z zs [] s = elim s [ ]
tail_left z zs (x ∷ ls) (IsSubsequence.kept e s) = IsSubsequence.left_out s
tail_left z zs (x ∷ ls) (IsSubsequence.left_out s) = IsSubsequence.left_out (tail_left z zs ls s)

-- Of a subsequence of a list with a first item, all but its first item is left by the rest.
tail_of_cons :
    (z x : Bytes) (zs ls : List Bytes) → IsSubsequence (z ∷ zs) (x ∷ ls) → IsSubsequence zs ls
tail_of_cons z x zs ls (IsSubsequence.kept e s) = s
tail_of_cons z x zs ls (IsSubsequence.left_out s) = tail_left z zs ls s

first_cases :
    (z x : Bytes) (zs ls : List Bytes)
    → IsSubsequence (z ∷ zs) (x ∷ ls)
    → (z ≡ x) ⊎ IsSubsequence (z ∷ zs) ls
first_cases z x zs ls (IsSubsequence.kept e s) = inl e
first_cases z x zs ls (IsSubsequence.left_out s) = inr s

no_subsequence : (z : Bytes) (zs : List Bytes) → IsSubsequence (z ∷ zs) [] → ⊥
no_subsequence z zs s = elim s [ ]

lcs_longest :
    (zs a b : List Bytes) → IsSubsequence zs a → IsSubsequence zs b → length zs ≤ lcs_length a b
lcs_longest [] a b s t = omega arith
lcs_longest (z ∷ zs) [] b s t = absurd (no_subsequence z zs s)
lcs_longest (z ∷ zs) (x ∷ a) [] s t = absurd (no_subsequence z zs t)
lcs_longest (z ∷ zs) (x ∷ a) (y ∷ b) s t = elim (Bool-cases (same_codes x y)) [
  | inl same ↦
      rw same
        (omega (arith, lcs_longest zs a b (tail_of_cons z x zs a s) (tail_of_cons z y zs b t)))
  | inr other ↦ elim (first_cases z x zs a s) [
    | inr p ↦ rw other (ground (arith, lcs_longest (z ∷ zs) a (y ∷ b) p t))
    | inl e ↦ elim (first_cases z y zs b t) [
      | inr q ↦ rw other (ground (arith, lcs_longest (z ∷ zs) (x ∷ a) b s q))
      | inl f ↦ absurd (cc (other, same_codes_of_self z, e, f))
    ]
  ]
]

-- A diff spells the old text by its context and removed lines, and the new one by its context and
-- added lines; and lines that the two texts have in common, in their order, are at most as many as
-- its context lines.
pub diff_lines_minimal :
    (zs a b : List Bytes)
    → IsSubsequence zs a
    → IsSubsequence zs b
    → (old_side (diff_lines a b) ≡ a)
      × (new_side (diff_lines a b) ≡ b)
      × (length zs ≤ common_lines (diff_lines a b))
unfolding IsDiff
diff_lines_minimal zs a b s t =
    let (old, new, count) = diff_lines-IsDiff a b in
    (old, new, omega (arith, lcs_longest zs a b s t, count))
