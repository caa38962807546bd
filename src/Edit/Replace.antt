-- ===== src/Edit/Replace.antt =====
-- `resolveStrEdit` of internal/tool/editfile/editfile.go.
use amplio.Common.{
  ℕ, zero, suc, ◌+◌, ◌-◌, ◌&&◌, not, Option, none, some, List, [], ◌∷◌, map, ltb, ◌==◌,
  if◌then◌else◌, length, drop, same_codes,
}
use amplio.Event.{is_nil}
use amplio.Edit.Splice.{Bytes, ResolvedEdit}
use amplio.Edit.Text.{slice, index, split}
use amplio.Edit.Types.{Edit, Outcome, done, fail, panic}
use amplio.Edit.Types.{malformed_args, target_not_found, multiple_matches, no_op}

-- The bytes of the first lines, each with its newline.
abbrev pub bytes_of_lines : ℕ → List Bytes → ℕ
bytes_of_lines zero lines = 0
bytes_of_lines (suc n) [] = 0
bytes_of_lines (suc n) (l ∷ lines) = length l + 1 + bytes_of_lines n lines

-- A part of the content, from an offset on.
pub record Window : Type 0 where
  pub search_content : Bytes
  pub search_offset : ℕ

abbrev pub whole : Bytes → Window
whole content = record { search_content = content; search_offset = 0 }

-- The window of the lines from `start` to `end`, counted from one and inclusive.
unfoldable pub window_of_lines : Bytes → ℕ → ℕ → Outcome Window
window_of_lines content start end =
    let lines = split content in
    let byte_start = bytes_of_lines (start - 1) lines in
    let line_end = bytes_of_lines end lines in
    let byte_end = if ltb (length content) line_end then length content else line_end in
    elim (slice byte_start byte_end content) [
      | none ↦ panic
      | some part ↦ done (record { search_content = part; search_offset = byte_start })
    ]

abbrev pub first_line : Option ℕ → ℕ
first_line none = 1
first_line (some n) = if ltb 1 n then n else 1

abbrev pub last_line : ℕ → Option ℕ → ℕ
last_line n_lines none = n_lines
last_line n_lines (some n) = if ltb n n_lines then n else n_lines

unfoldable pub lines_window : Bytes → Option ℕ → Option ℕ → Outcome Window
lines_window content start_line end_line =
    let n_lines = length (split content) in
    let start = first_line start_line in
    let end = last_line n_lines end_line in
    if ltb n_lines start
    then fail target_not_found
    else if ltb end start
    then fail malformed_args
    else window_of_lines content start end

-- The search window of an edit.
abbrev pub search_window : Bytes → Option ℕ → Option ℕ → Outcome Window
search_window content none none = done (whole content)
search_window content (some s) end_line = lines_window content (some s) end_line
search_window content none (some e) = lines_window content none (some e)

-- The loop over the occurrences in the searched text from an offset on.
unfoldable pub matches_from : ℕ → Bytes → Bytes → ℕ → List ℕ
matches_from zero text old_text offset = []
matches_from (suc fuel) text old_text offset = elim (index (drop offset text) old_text) [
  | none ↦ []
  | some idx ↦ (offset + idx) ∷ matches_from fuel text old_text (offset + idx + length old_text)
]

-- One round for each byte of the text, and the last.
unfoldable pub matches_in : Bytes → Bytes → List ℕ
matches_in text old_text = matches_from (suc (length text)) text old_text 0

abbrev pub replacement : Edit → ℕ → ℕ → ResolvedEdit
replacement edit i match_start = record {
  start = match_start;
  end = match_start + length edit.old_text;
  new_text = edit.new_text;
  edit_index = i;
}

-- The count that an edit asks for, which is one unless it says otherwise.
abbrev pub expected_count : Edit → ℕ
expected_count edit = if edit.expected_match_count == 0 then 1 else edit.expected_match_count

-- The records of the matches, when they are as many as expected.
abbrev pub expect_count : Edit → ℕ → List ℕ → Outcome (List ResolvedEdit)
expect_count edit i [] = fail target_not_found
expect_count edit i (m ∷ matches) =
    if length (m ∷ matches) == expected_count edit
    then done (map (replacement edit i) (m ∷ matches))
    else fail multiple_matches

abbrev pub matches_in_window : Window → Bytes → List ℕ
matches_in_window w old_text = map (λ m. w.search_offset + m) (matches_in w.search_content old_text)

-- `resolveStrEdit`
unfoldable pub resolve_str_edit : Bytes → ℕ → Edit → Outcome (List ResolvedEdit)
resolve_str_edit content i edit =
    if not (is_nil edit.expect_at_from && is_nil edit.expect_at_to)
    then fail malformed_args
    else if is_nil edit.old_text
    then fail malformed_args
    else if same_codes edit.old_text edit.new_text
    then fail no_op
    else elim (search_window content edit.start_line edit.end_line) [
      | fail e ↦ fail e
      | panic ↦ panic
      | done w ↦ expect_count edit i (matches_in_window w edit.old_text)
    ]
