-- ===== src/Edit/Replaced.antt =====
-- What the records of a text edit are (`resolveStrEdit` of internal/tool/editfile/editfile.go).
use amplio.Common.{
  ℕ, suc, ◌+◌, ◌≤◌, ◌≡◌, refl, sym, ◌∙◌, ap, subst, true, false, ◌&&◌, not, inl, inr, none, List,
  [], ◌∷◌, map, arith, ltb, ◌==◌, Bool-cases, any, All, length, length-map, take, drop, same_codes,
  drop-drop, take-drop, length-take_le, drop-append, take-append, length-drop, ◌++◌,
}
use amplio.Event.{is_nil}
use amplio.Edit.Splice.{Bytes, ResolvedEdit}
use amplio.Edit.Text.{has_prefix}
use amplio.Edit.Types.{Edit, done, Outcome-cases}
use amplio.Edit.Replace.{
  Window, whole, search_window, matches_from, matches_in, replacement, expected_count, expect_count,
  matches_in_window, resolve_str_edit,
}
use amplio.Edit.Apply.{IsLaidOut}
use amplio.Edit.Search.{IsApart, matches-IsApart, matches_match, matches_cover}
use amplio.Edit.Windows.{IsWindow, search_window-IsWindow}

-- How a text edit succeeds: a window, and the matches in it.
abbrev Succeeds : Bytes → ℕ → Edit → List ResolvedEdit → Type 0
Succeeds content i edit recs =
    (w : Window) × (search_window content edit.start_line edit.end_line ≡ done w)
    × (1 ≤ length edit.old_text)
    × (recs ≡ map (replacement edit i) (matches_in_window w edit.old_text))
    × (length recs ≡ expected_count edit)

expect_count-done :
    (edit : Edit) (i : ℕ) (ms : List ℕ) (recs : List ResolvedEdit)
    → expect_count edit i ms ≡ done recs
    → (recs ≡ map (replacement edit i) ms) × (length recs ≡ expected_count edit)
expect_count-done edit i [] recs h = absurd (cc h)
expect_count-done edit i (m ∷ ms) recs h =
    elim (Bool-cases (length (m ∷ ms) == expected_count edit)) [
      | inr other ↦ absurd (cc (rw (expect_count, other) at h))
      | inl counted ↦
          let is : map (replacement edit i) (m ∷ ms) ≡ recs =
            cc (rw (expect_count, counted) at h) in
          (
            sym is,
            ap length (sym is) ∙ length-map (replacement edit i) (m ∷ ms) ∙ ground (arith, counted),
          )
    ]

some_text : (text : Bytes) → is_nil text ≡ false → 1 ≤ length text
some_text [] h = absurd (cc h)
some_text (c ∷ text) h = omega arith

succeeds :
    (content : Bytes) (i : ℕ) (edit : Edit) (recs : List ResolvedEdit)
    → resolve_str_edit content i edit ≡ done recs
    → Succeeds content i edit recs
unfolding resolve_str_edit
succeeds content i edit recs h =
    elim (Bool-cases (not (is_nil edit.expect_at_from && is_nil edit.expect_at_to))) [
      | inl guarded ↦ absurd (cc (rw (resolve_str_edit, guarded) at h))
      | inr plain ↦ elim (Bool-cases (is_nil edit.old_text)) [
        | inl empty ↦ absurd (cc (rw (resolve_str_edit, plain, empty) at h))
        | inr text ↦ elim (Bool-cases (same_codes edit.old_text edit.new_text)) [
          | inl same ↦ absurd (cc (rw (resolve_str_edit, plain, text, same) at h))
          | inr other ↦ elim (Outcome-cases (search_window content edit.start_line edit.end_line)) [
            | inr (inr p) ↦ absurd (cc (rw (resolve_str_edit, plain, text, other, p) at h))
            | inr (inl (e, failed)) ↦
                absurd (cc (rw (resolve_str_edit, plain, text, other, failed) at h))
            | inl (w, in_window) ↦
                let counted : (recs ≡ map (replacement edit i) (matches_in_window w edit.old_text))
                    × (length recs ≡ expected_count edit) =
                  expect_count-done edit i (matches_in_window w edit.old_text) recs
                    (rw (resolve_str_edit, plain, text, other, in_window) at h) in
                (w, in_window, some_text edit.old_text text, counted.0, counted.1)
          ]
        ]
      ]
    ]

-- Matches in a window, as records, are laid out in the content.
laid_out :
    (edit : Edit) (i off n limit p from : ℕ) (ms : List ℕ)
    → IsApart p n (length edit.old_text) ms
    → off + n ≤ limit
    → from ≡ off + p
    → IsLaidOut from limit (map (replacement edit i) (map (λ m. off + m) ms))
laid_out edit i off n limit p from [] apart fits at = omega (arith, apart, fits, at)
laid_out edit i off n limit p from (m ∷ ms) apart fits at = (
  omega (arith, apart.0, at),
  omega arith,
  laid_out edit i off n limit (m + length edit.old_text) (off + m + length edit.old_text) ms apart.1
      fits (omega arith),
)

from_start : (rs : List ResolvedEdit) (p n : ℕ) → IsLaidOut p n rs → IsLaidOut 0 n rs
from_start [] p n l = omega arith
from_start (r ∷ rs) p n (a, b, c) = (omega arith, b, c)

-- What a record of a text edit says: it takes the edit's old text out of the content.
abbrev pub Replaces : Bytes → ℕ → Edit → ResolvedEdit → Type 0
Replaces content i edit r =
    (r.end ≡ r.start + length edit.old_text)
    × (take (length edit.old_text) (drop r.start content) ≡ edit.old_text)
    × (r.new_text ≡ edit.new_text)
    × (r.edit_index ≡ i)

module _ (content : Bytes) (edit : Edit) (i : ℕ) (w : Window) (is : IsWindow content w) where
  window_match :
      (m : ℕ)
      → 1 ≤ length edit.old_text
      → take (length edit.old_text) (drop m w.search_content) ≡ edit.old_text
      → take (length edit.old_text) (drop (w.search_offset + m) content) ≡ edit.old_text
  window_match m nonempty h =
      let len : ℕ = length edit.old_text in
      let sc : Bytes = w.search_content in
      let behind : Bytes = drop (length sc) (drop w.search_offset content) in
      let whole_text : drop w.search_offset content ≡ sc ++ behind =
        sym (take-drop (length sc) (drop w.search_offset content))
        ∙ ap (λ l. l ++ behind) (sym is.1) in
      let fits : m + len ≤ length sc =
        omega (arith, ap length h, length-take_le len (drop m sc), length-drop m sc, nonempty) in
      sym (ap (take len) (drop-drop m w.search_offset content))
      ∙ ap (λ l. take len (drop m l)) whole_text
      ∙ ap (take len) (drop-append m sc behind (omega (arith, fits)))
      ∙ take-append len (drop m sc) behind (omega (arith, fits, length-drop m sc))
      ∙ h

  records_replace :
      (ms : List ℕ)
      → 1 ≤ length edit.old_text
      → All (λ m. take (length edit.old_text) (drop m w.search_content) ≡ edit.old_text) ms
      → All (Replaces content i edit) (map (replacement edit i) (map (λ m. w.search_offset + m) ms))
  records_replace [] nonempty all = tt
  records_replace (m ∷ ms) nonempty (h, all) =
      ((refl, window_match m nonempty h, refl, refl), records_replace ms nonempty all)

  window_records :
      1 ≤ length edit.old_text
      → let recs = map (replacement edit i) (matches_in_window w edit.old_text) in
        IsLaidOut 0 (length content) recs × All (Replaces content i edit) recs
  unfolding matches_in
  window_records nonempty =
      let sc : Bytes = w.search_content in
      let recs : List ResolvedEdit = map (replacement edit i) (matches_in_window w edit.old_text) in
      let ms : List ℕ = matches_from (suc (length sc)) sc edit.old_text 0 in
      (
        from_start recs w.search_offset (length content) (
            laid_out edit i w.search_offset (length sc) (length content) 0 w.search_offset ms
              (matches-IsApart sc edit.old_text nonempty (suc (length sc)) 0 (omega arith)) is.0
              (omega arith)),
        records_replace ms nonempty (matches_match sc edit.old_text nonempty (suc (length sc)) 0),
      )

-- The records of a text edit that succeeds are ranges of the content, in ascending order, none of
-- which reaches into the next. Each takes the edit's old text out of the content and puts its new
-- text there. They are as many as the edit expects, one unless it says otherwise.
pub resolve_str_edit-Replaces :
    (content : Bytes) (i : ℕ) (edit : Edit) (recs : List ResolvedEdit)
    → resolve_str_edit content i edit ≡ done recs
    → IsLaidOut 0 (length content) recs
      × All (Replaces content i edit) recs
      × (length recs ≡ expected_count edit)
resolve_str_edit-Replaces content i edit recs h =
    let (w, in_window, nonempty, are, count) = succeeds content i edit recs h in
    let all : let rs = map (replacement edit i) (matches_in_window w edit.old_text) in
        IsLaidOut 0 (length content) rs × All (Replaces content i edit) rs =
      window_records content edit i w
        (search_window-IsWindow content edit.start_line edit.end_line w in_window) nonempty in
    (
      subst (IsLaidOut 0 (length content)) (sym are) all.0,
      subst (All (Replaces content i edit)) (sym are) all.1,
      count,
    )

meets_map :
    (edit : Edit) (i q : ℕ) (ms : List ℕ)
    → any
        (λ r. ltb r.start (q + length edit.old_text) && ltb q r.end)
        (map (replacement edit i) (map (λ m. 0 + m) ms))
      ≡ any (λ m. ltb m (q + length edit.old_text) && ltb q (m + length edit.old_text)) ms
meets_map edit i q [] = refl
meets_map edit i q (m ∷ ms) =
    let same : 0 + m ≡ m = omega arith in rw (same, meets_map edit i q ms) refl

-- Where a text edit of the whole file succeeds, each place of the content where its old text stands
-- meets one of the records.
pub resolve_str_edit-covers :
    (content : Bytes) (i : ℕ) (edit : Edit) (recs : List ResolvedEdit) (q : ℕ)
    → edit.start_line ≡ none
    → edit.end_line ≡ none
    → resolve_str_edit content i edit ≡ done recs
    → has_prefix (drop q content) edit.old_text ≡ true
    → any (λ r. ltb r.start (q + length edit.old_text) && ltb q r.end) recs ≡ true
unfolding matches_in
resolve_str_edit-covers content i edit recs q no_start no_end h there =
    let (w, in_window, nonempty, are, count) = succeeds content i edit recs h in
    let is : whole content ≡ w = cc (rw (no_start, no_end) at in_window) in
    let records : recs
        ≡ map (replacement edit i) (matches_in_window (whole content) edit.old_text) =
      are ∙ ap (λ v. map (replacement edit i) (matches_in_window v edit.old_text)) (sym is) in
    let ms : List ℕ = matches_from (suc (length content)) content edit.old_text 0 in
    rw records (
      meets_map edit i q ms
      ∙ matches_cover content edit.old_text nonempty (suc (length content)) 0 q (omega arith)
          (omega arith) there)
