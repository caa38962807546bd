-- ===== src/Edit/Lines.antt =====
-- The records of the anchor edits (`resolveAnchorEdit` of internal/tool/editfile/editfile.go): the
-- offsets of lines, and the ranges between them.
use amplio.Common.{
  true, leb, ℕ, zero, suc, ◌+◌, ◌≤◌, ◌<◌, ◌≡◌, refl, ◌∙◌, ap, subst, inl, inr, some, List, [], ◌∷◌,
  arith, ◌==◌, Bool-cases, length,
}
use amplio.Edit.Splice.{Bytes, ResolvedEdit}
use amplio.Edit.Text.{slice, split, cons_head, newline}
use amplio.Edit.Anchor.{split_text_for_anchors, drop_last_empty}
use amplio.Edit.Types.{Edit, Outcome, done, fail, panic}
use amplio.Edit.Replace.{bytes_of_lines}
use amplio.Edit.Windows.{some_line, bytes-cons_head, length-cons_head}
use amplio.Edit.Sorting.{IsWithin}
use amplio.Edit.Anchored.{
  offsets_from, line_byte_offsets, offset_at, offset_or, insert_record, replace_record,
}

-- Behind an offset of the list, the offsets ascend, up to a limit.
unfoldable pub IsAscending : ℕ → ℕ → List ℕ → Type 0
IsAscending p n [] = p ≤ n
IsAscending p n (o ∷ os) = (p ≤ o) × IsAscending o n os

weaken : (p q n : ℕ) (os : List ℕ) → p ≤ q → IsAscending q n os → IsAscending p n os
unfolding IsAscending
weaken p q n [] h a = omega (arith, h, a)
weaken p q n (o ∷ os) h (a, b) = (omega (arith, h, a), b)

offsets-IsAscending : (text : Bytes) (i : ℕ) → IsAscending i (i + length text) (offsets_from i text)
unfolding IsAscending
offsets-IsAscending [] i = omega arith
offsets-IsAscending (c ∷ text) i =
    let moved : suc i + length text ≡ i + length (c ∷ text) = omega arith in
    let rest : IsAscending (suc i) (i + length (c ∷ text)) (offsets_from (suc i) text) =
      subst (λ n. IsAscending (suc i) n (offsets_from (suc i) text)) moved
        (offsets-IsAscending text (suc i)) in
    elim (Bool-cases (c == newline)) [
      | inl at_end ↦ rw at_end (omega arith, rest)
      | inr inside ↦
          rw inside (
            weaken i (suc i) (i + length (c ∷ text)) (offsets_from (suc i) text) (omega arith) rest)
    ]

-- The offset of a line, or the limit, is between the two.
offset_or-within :
    (os : List ℕ) (p n k : ℕ) → IsAscending p n os → (p ≤ offset_or os k n) × (offset_or os k n ≤ n)
unfolding IsAscending
offset_or-within [] p n k a = (a, omega arith)
offset_or-within (o ∷ os) p n zero (a, b) = (a, limit os o b)
  where
    limit : (l : List ℕ) (q : ℕ) → IsAscending q n l → q ≤ n
    limit [] q x = x
    limit (r ∷ l) q (x, y) = omega (arith, x, limit l r y)
offset_or-within (o ∷ os) p n (suc k) (a, b) =
    let rest : (o ≤ offset_or os k n) × (offset_or os k n ≤ n) = offset_or-within os o n k b in
    (omega (arith, a, rest.0), rest.1)

-- The offsets of two lines are in the order of the lines.
pub offset_or_monotone :
    (os : List ℕ) (p n j k : ℕ) → IsAscending p n os → j ≤ k → offset_or os j n ≤ offset_or os k n
unfolding IsAscending
offset_or_monotone [] p n j k a h = omega arith
offset_or_monotone (o ∷ os) p n zero zero a h = omega arith
offset_or_monotone (o ∷ os) p n zero (suc k) (a, b) h = (offset_or-within os o n k b).0
offset_or_monotone (o ∷ os) p n (suc j) zero a h = absurd (omega (arith, h))
offset_or_monotone (o ∷ os) p n (suc j) (suc k) (a, b) h =
    offset_or_monotone os o n j k b (omega (arith, h))

offset_from :
    (text : Bytes) (i k : ℕ)
    → k < length (split text)
    → offset_at (i ∷ offsets_from i text) k ≡ some (i + bytes_of_lines k (split text))
offset_from text i zero h = ap some (omega arith)
offset_from [] i (suc k) h = absurd (omega (arith, h))
offset_from (c ∷ text) i (suc k) h = elim (Bool-cases (c == newline)) [
  | inl at_end ↦
      let below : suc k < length ([] ∷ split text) = rw at_end at h in
      rw at_end (offset_from text (suc i) k (omega (arith, below)) ∙ ap some (omega arith))
  | inr inside ↦
      let below : suc k < length (cons_head c (split text)) = rw inside at h in
      let same : length (cons_head c (split text)) ≡ length (split text) =
        length-cons_head c (split text) (some_line text) in
      rw inside (
        offset_from text (suc i) (suc k) (omega (arith, below, same))
        ∙ ap some (omega (arith, bytes-cons_head c k (split text) (some_line text))))
]

-- The byte offset that an anchor edit takes for a line is the one at which a text edit that is
-- narrowed to start there begins its search: the bytes of the lines before, with their newlines.
pub offset_at-bytes_of_lines :
    (content : Bytes) (k : ℕ)
    → k < length (split content)
    → offset_at (line_byte_offsets content) k ≡ some (bytes_of_lines k (split content))
unfolding line_byte_offsets
offset_at-bytes_of_lines content k h = offset_from content 0 k h ∙ ap some (omega arith)

length-drop_last_empty : (ls : List Bytes) → length (drop_last_empty ls) ≤ length ls
length-drop_last_empty [] = omega arith
length-drop_last_empty (l ∷ []) = ground arith
length-drop_last_empty (l ∷ m ∷ ls) = omega (arith, length-drop_last_empty (m ∷ ls))

-- Each line of the snapshot has its offset.
pub lines_have_offsets :
    (content : Bytes) → length (split_text_for_anchors content).0 ≤ length (split content)
unfolding split_text_for_anchors
lines_have_offsets [] = omega arith
lines_have_offsets (c ∷ content) = length-drop_last_empty (split (c ∷ content))

-- No panic, and a record that is a range of the content and bears the edit's index.
abbrev pub Sound : Bytes → ℕ → Outcome ResolvedEdit → Type 0
Sound content i (done r) = IsWithin (length content) r × (r.edit_index ≡ i)
Sound content i (fail e) = Unit
Sound content i panic = ⊥

pub line_byte_offsets-IsAscending :
    (content : Bytes) → IsAscending 0 (length content) (line_byte_offsets content)
unfolding IsAscending line_byte_offsets
line_byte_offsets-IsAscending content =
    let same : 0 + length content ≡ length content = omega arith in
    (
      omega arith,
      subst (λ n. IsAscending 0 n (offsets_from 0 content)) same (offsets-IsAscending content 0),
    )

pub insert_record-Sound :
    (content : Bytes) (i : ℕ) (edit : Edit) (n_lines target : ℕ)
    → Sound content i (done (insert_record content i edit n_lines target))
insert_record-Sound content i edit n_lines target = (
  (
    omega arith,
    (offset_or-within (line_byte_offsets content) 0 (length content) target
        (line_byte_offsets-IsAscending content)).1,
  ),
  refl,
)

pub replace_record-Sound :
    (content : Bytes) (i : ℕ) (edit : Edit) (p q : ℕ)
    → p < length (split content)
    → p ≤ q
    → Sound content i (replace_record content i edit p q)
replace_record-Sound content i edit p q h le =
    let offsets : List ℕ = line_byte_offsets content in
    let at_p : offset_at offsets p ≡ some (bytes_of_lines p (split content)) =
      offset_at-bytes_of_lines content p h in
    let or_p : offset_or offsets p (length content) ≡ bytes_of_lines p (split content) =
      rw (offset_or, at_p) refl in
    let asc : IsAscending 0 (length content) offsets = line_byte_offsets-IsAscending content in
    let ordered : bytes_of_lines p (split content) ≤ offset_or offsets (suc q) (length content) =
      omega (
        arith,
        or_p,
        offset_or_monotone offsets 0 (length content) p (suc q) asc (omega (arith, le)),
      ) in
    let within = (offset_or-within offsets 0 (length content) (suc q) asc).1 in
    let in_order : leb (bytes_of_lines p (split content))
          (offset_or offsets (suc q) (length content))
        ≡ true =
      ground (arith, ordered) in
    let in_range : leb (offset_or offsets (suc q) (length content)) (length content) ≡ true =
      ground (arith, within) in
    rw (replace_record, at_p, slice, in_order, in_range) ((ordered, within), refl)
