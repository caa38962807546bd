-- ===== src/Edit/Sound.antt =====
-- Every edit of a call resolves, without a panic, to ranges of the content, or to an error.
use amplio.Common.{
  ℕ, suc, ◌≤◌, ◌<◌, ◌≡◌, sym, subst, Bool, true, false, ◌&&◌, not, inl, inr, Option, List, [], ◌∷◌,
  ◌++◌, arith, ltb, leb, ◌==◌, str_eq, if◌then◌else◌, Bool-cases, length, All, Codes, same_codes,
}
use amplio.Event.{is_nil}
use amplio.Edit.Splice.{Bytes, ResolvedEdit}
use amplio.Edit.Text.{split}
use amplio.Edit.Anchor.{split_text_for_anchors, compute_anchors}
use amplio.Edit.Resolve.{before_first, line, resolve_anchor, Resolved-cases}
use amplio.Edit.Types.{Edit, Outcome, done, fail, panic, Outcome-cases, is_str_kind}
use amplio.Edit.Anchored.{
  check_expect, target_line, resolve_insert, resolve_line, replace_lines, resolve_replace,
  resolve_anchor_edit,
}
use amplio.Edit.Replace.{
  resolve_str_edit, search_window, expect_count, expected_count, matches_in_window,
}
use amplio.Edit.Windows.{GivesWindow, search_window-GivesWindow}
use amplio.Edit.Sorting.{IsWithin}
use amplio.Edit.Apply.{IsLaidOut}
use amplio.Edit.Lines.{Sound, insert_record-Sound, replace_record-Sound, lines_have_offsets}
use amplio.Edit.Replaced.{resolve_str_edit-Replaces}
use amplio.Edit.Execute.{resolve_one, resolve_edits}

module _ (content : Bytes) (i : ℕ) (edit : Edit) (lines : List Bytes) (anchors : List Codes) where
  resolve_insert-Sound :
      (after : Bool) → Sound content i (resolve_insert after content i edit lines anchors)
  unfolding resolve_insert
  resolve_insert-Sound after = elim (Bool-cases (not (is_nil edit.expect_at_to))) [
    | inl guarded ↦ rw (resolve_insert, guarded) tt
    | inr plain ↦ elim (Resolved-cases (resolve_anchor edit.at_from anchors (length lines))) [
      | inr (e, refused) ↦ rw (resolve_insert, plain, refused) tt
      | inl (pos, found) ↦ elim (Bool-cases (check_expect lines pos edit.expect_at_from)) [
        | inr other ↦ rw (resolve_insert, plain, found, other) tt
        | inl expected ↦
            rw (resolve_insert, plain, found, expected)
              (insert_record-Sound content i edit (length lines)
                (target_line after pos (length lines)))
      ]
    ]
  ]

  replace_lines-Sound :
      (p q : ℕ)
      → p < length (split content)
      → Sound content i (replace_lines content i edit lines p q)
  replace_lines-Sound p q h = elim (Bool-cases (ltb q p)) [
    | inl crossed ↦ rw (replace_lines, crossed) tt
    | inr ordered ↦ elim (Bool-cases (not (check_expect lines (line p) edit.expect_at_from))) [
      | inl other ↦ rw (replace_lines, ordered, other) tt
      | inr first ↦ elim (Bool-cases (not (check_expect lines (line q) edit.expect_at_to))) [
        | inl other ↦ rw (replace_lines, ordered, first, other) tt
        | inr last ↦
            rw (replace_lines, ordered, first, last)
              (replace_record-Sound content i edit p q h (ground (arith, ordered)))
      ]
    ]
  ]

  resolve_line-below :
      (text : Codes) (p : ℕ) → resolve_line text anchors (length lines) ≡ done p → p < length lines
  resolve_line-below text p h = elim (Resolved-cases (resolve_anchor text anchors (length lines))) [
    | inr (e, refused) ↦ absurd (cc (rw (resolve_line, refused) at h))
    | inl (before_first, found) ↦ absurd (cc (rw (resolve_line, found) at h))
    | inl (line k, found) ↦ elim (Bool-cases (leb (length lines) k)) [
      | inl past ↦ absurd (cc (rw (resolve_line, found, past) at h))
      | inr within ↦
          let same : k ≡ p = cc (rw (resolve_line, found, within) at h) in
          ground (arith, within, same)
    ]
  ]

  resolve_line_no_panic : (text : Codes) → resolve_line text anchors (length lines) ≡ panic → ⊥
  resolve_line_no_panic text h =
      elim (Resolved-cases (resolve_anchor text anchors (length lines))) [
        | inr (e, refused) ↦ absurd (cc (rw (resolve_line, refused) at h))
        | inl (before_first, found) ↦ absurd (cc (rw (resolve_line, found) at h))
        | inl (line k, found) ↦ elim (Bool-cases (leb (length lines) k)) [
          | inl past ↦ absurd (cc (rw (resolve_line, found, past) at h))
          | inr within ↦ absurd (cc (rw (resolve_line, found, within) at h))
        ]
      ]

  resolve_replace-Sound :
      length lines ≤ length (split content)
      → Sound content i (resolve_replace content i edit lines anchors)
  unfolding resolve_replace
  resolve_replace-Sound fits =
      let at_to : Codes = if is_nil edit.at_to then edit.at_from else edit.at_to in
      elim (Outcome-cases (resolve_line edit.at_from anchors (length lines))) [
        | inr (inl (e, failed)) ↦ rw (resolve_replace, failed) tt
        | inr (inr panics) ↦ absurd (resolve_line_no_panic edit.at_from panics)
        | inl (p, from_line) ↦ elim (Outcome-cases (resolve_line at_to anchors (length lines))) [
          | inr (inl (e, failed)) ↦ rw (resolve_replace, from_line, failed) tt
          | inr (inr panics) ↦ absurd (resolve_line_no_panic at_to panics)
          | inl (q, to_line) ↦
              rw (resolve_replace, from_line, to_line)
                (replace_lines-Sound p q
                  (omega (arith, fits, resolve_line-below edit.at_from p from_line)))
        ]
      ]

  resolve_anchor_edit-Sound :
      length lines ≤ length (split content)
      → Sound content i (resolve_anchor_edit content i edit lines anchors)
  unfolding resolve_anchor_edit
  resolve_anchor_edit-Sound fits = elim (Bool-cases (str_eq edit.kind "insert_before")) [
    | inl before ↦ rw (resolve_anchor_edit, before) (resolve_insert-Sound false)
    | inr a ↦ elim (Bool-cases (str_eq edit.kind "insert_after")) [
      | inl after ↦ rw (resolve_anchor_edit, a, after) (resolve_insert-Sound true)
      | inr b ↦ elim (Bool-cases (str_eq edit.kind "replace")) [
        | inl replace ↦ rw (resolve_anchor_edit, a, b, replace) (resolve_replace-Sound fits)
        | inr c ↦ rw (resolve_anchor_edit, a, b, c) tt
      ]
    ]
  ]

end_within : (rs : List ResolvedEdit) (p n : ℕ) → IsLaidOut p n rs → p ≤ n
end_within [] p n l = l
end_within (r ∷ rs) p n (a, b, c) = omega (arith, a, b, end_within rs r.end n c)

All-append :
    (P : ResolvedEdit → Type 0) (xs ys : List ResolvedEdit) → All P xs → All P ys → All P (xs ++ ys)
All-append P [] ys a b = b
All-append P (x ∷ xs) ys (p, a) b = (p, All-append P xs ys a b)

laid_out-IsWithin : (rs : List ResolvedEdit) (p n : ℕ) → IsLaidOut p n rs → All (IsWithin n) rs
laid_out-IsWithin [] p n l = tt
laid_out-IsWithin (r ∷ rs) p n (a, b, c) =
    ((b, end_within rs r.end n c), laid_out-IsWithin rs r.end n c)

-- The same for the records of one edit, or of several.
abbrev pub AllSound : Bytes → Outcome (List ResolvedEdit) → Type 0
AllSound content (done rs) = All (IsWithin (length content)) rs
AllSound content (fail e) = Unit
AllSound content panic = ⊥

search_window_no_panic : (content : Bytes) (s e : Option ℕ) → search_window content s e ≡ panic → ⊥
search_window_no_panic content s e h =
    subst (GivesWindow content) h (search_window-GivesWindow content s e)

expect_count_no_panic : (edit : Edit) (i : ℕ) (ms : List ℕ) → expect_count edit i ms ≡ panic → ⊥
expect_count_no_panic edit i [] h = absurd (cc h)
expect_count_no_panic edit i (m ∷ ms) h =
    elim (Bool-cases (length (m ∷ ms) == expected_count edit)) [
      | inl counted ↦ absurd (cc (rw (expect_count, counted) at h))
      | inr other ↦ absurd (cc (rw (expect_count, other) at h))
    ]

resolve_str_edit_no_panic :
    (content : Bytes) (i : ℕ) (edit : Edit) → resolve_str_edit content i edit ≡ panic → ⊥
unfolding resolve_str_edit
resolve_str_edit_no_panic content i edit h =
    elim (Bool-cases (not (is_nil edit.expect_at_from && is_nil edit.expect_at_to))) [
      | inl guarded ↦ absurd (cc (rw (resolve_str_edit, guarded) at h))
      | inr plain ↦ elim (Bool-cases (is_nil edit.old_text)) [
        | inl empty ↦ absurd (cc (rw (resolve_str_edit, plain, empty) at h))
        | inr text ↦ elim (Bool-cases (same_codes edit.old_text edit.new_text)) [
          | inl same ↦ absurd (cc (rw (resolve_str_edit, plain, text, same) at h))
          | inr other ↦ elim (Outcome-cases (search_window content edit.start_line edit.end_line)) [
            | inr (inr p) ↦ search_window_no_panic content edit.start_line edit.end_line p
            | inr (inl (e, failed)) ↦
                absurd (cc (rw (resolve_str_edit, plain, text, other, failed) at h))
            | inl (w, in_window) ↦
                expect_count_no_panic edit i (matches_in_window w edit.old_text)
                  (rw (resolve_str_edit, plain, text, other, in_window) at h)
          ]
        ]
      ]
    ]

resolve_str_edit-AllSound :
    (content : Bytes) (i : ℕ) (edit : Edit) → AllSound content (resolve_str_edit content i edit)
resolve_str_edit-AllSound content i edit = elim (Outcome-cases (resolve_str_edit content i edit)) [
  | inl (rs, resolved) ↦ subst (AllSound content) (sym resolved) (
      laid_out-IsWithin rs 0 (length content)
        (resolve_str_edit-Replaces content i edit rs resolved).0)
  | inr (inl (e, failed)) ↦ subst (AllSound content) (sym failed) tt
  | inr (inr panics) ↦ absurd (resolve_str_edit_no_panic content i edit panics)
]

module _ (hex_digest : ℕ → Bytes → Codes) where
  resolve_one-AllSound :
      (content : Bytes) (i : ℕ) (edit : Edit)
      → AllSound content (resolve_one hex_digest content i edit)
  resolve_one-AllSound content i edit =
      let lines : List Bytes = (split_text_for_anchors content).0 in
      let anchors : List Codes = compute_anchors hex_digest lines in
      let sound : Sound content i (resolve_anchor_edit content i edit lines anchors) =
        resolve_anchor_edit-Sound content i edit lines anchors (lines_have_offsets content) in
      elim (Bool-cases (is_str_kind edit.kind)) [
        | inl text ↦ rw (resolve_one, text) (resolve_str_edit-AllSound content i edit)
        | inr anchor ↦ elim (Outcome-cases (resolve_anchor_edit content i edit lines anchors)) [
          | inl (r, resolved) ↦
              rw (resolve_one, anchor, resolved) ((subst (Sound content i) resolved sound).0, tt)
          | inr (inl (e, failed)) ↦ rw (resolve_one, anchor, failed) tt
          | inr (inr panics) ↦ absurd (subst (Sound content i) panics sound)
        ]
      ]

  pub resolve_edits-AllSound :
      (content : Bytes) (i : ℕ) (edits : List Edit)
      → AllSound content (resolve_edits hex_digest content i edits)
  unfolding resolve_edits
  resolve_edits-AllSound content i [] = tt
  resolve_edits-AllSound content i (edit ∷ edits) =
      elim (Outcome-cases (resolve_one hex_digest content i edit)) [
        | inr (inl (e, failed)) ↦ rw (resolve_edits, failed) tt
        | inr (inr panics) ↦
            absurd (subst (AllSound content) panics (resolve_one-AllSound content i edit))
        | inl (rs, one) ↦ elim (Outcome-cases (resolve_edits hex_digest content (suc i) edits)) [
          | inr (inl (e, failed)) ↦ rw (resolve_edits, one, failed) tt
          | inr (inr panics) ↦
              absurd
                (subst (AllSound content) panics (resolve_edits-AllSound content (suc i) edits))
          | inl (more, rest) ↦
              rw (resolve_edits, one, rest)
                (All-append (IsWithin (length content)) rs more
                  (subst (AllSound content) one (resolve_one-AllSound content i edit))
                  (subst (AllSound content) rest (resolve_edits-AllSound content (suc i) edits)))
        ]
      ]
