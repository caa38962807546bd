-- ===== src/Edit/Anchored.antt =====
-- `resolveAnchorEdit` of internal/tool/editfile/editfile.go.
use amplio.Common.{
  ℕ, zero, suc, Bool, true, false, ◌&&◌, ◌||◌, not, str_eq, Option, none, some, List, [], ◌∷◌, ◌++◌,
  ltb, leb, ◌==◌, if◌then◌else◌, length, Codes,
}
use amplio.Event.{is_nil}
use amplio.Edit.Splice.{Bytes, ResolvedEdit}
use amplio.Edit.Text.{slice, has_suffix, contains, newline}
use amplio.Edit.Anchor.{normalized_at}
use amplio.Edit.Resolve.{AnchorError, Position, before_first, line, found, refused, resolve_anchor}
use amplio.Edit.Types.{Edit, EditError, Outcome, done, fail, panic}
use amplio.Edit.Types.{malformed_args, target_not_found, stale_anchor, expect_mismatch}

abbrev pub offsets_from : ℕ → Bytes → List ℕ
offsets_from i [] = []
offsets_from i (c ∷ text) =
    let rest = offsets_from (suc i) text in if c == newline then suc i ∷ rest else rest

-- `lineByteOffsets`
unfoldable pub line_byte_offsets : Bytes → List ℕ
line_byte_offsets text = 0 ∷ offsets_from 0 text

abbrev pub offset_at : List ℕ → ℕ → Option ℕ
offset_at [] k = none
offset_at (o ∷ offsets) zero = some o
offset_at (o ∷ offsets) (suc k) = offset_at offsets k

-- The offset of a line, and that of the end behind the last one.
abbrev pub offset_or : List ℕ → ℕ → ℕ → ℕ
offset_or offsets k end = elim (offset_at offsets k) [ none ↦ end | some o ↦ o ]

-- `anchorErrResult`
abbrev pub anchor_failure : AnchorError → EditError
anchor_failure AnchorError.unparsed = malformed_args
anchor_failure AnchorError.not_found = target_not_found
anchor_failure AnchorError.unmatched_hint = stale_anchor
anchor_failure AnchorError.ambiguous = stale_anchor

-- `checkExpect`: whether it lets the line through.
abbrev pub check_expect : List Bytes → Position → Bytes → Bool
check_expect lines before_first expect = true
check_expect lines (line idx) expect =
    is_nil expect || (leb (length lines) idx || contains (normalized_at lines idx) expect)

abbrev pub ends_line : Bytes → Bool
ends_line text = has_suffix text (newline ∷ [])

-- The line before which an insert goes.
abbrev pub target_line : Bool → Position → ℕ → ℕ
target_line after before_first n_lines = 0
target_line after (line pos) n_lines =
    let target = if after then suc pos else pos in if ltb n_lines target then n_lines else target

abbrev pub insert_text : Bytes → Bytes → Bool → Bytes
insert_text content new_text at_eof =
    if not (is_nil new_text) && not (ends_line new_text)
    then (if at_eof && not (ends_line content) then new_text else new_text ++ newline ∷ [])
    else new_text

abbrev pub insert_record : Bytes → ℕ → Edit → ℕ → ℕ → ResolvedEdit
insert_record content i edit n_lines target =
    let byte_start = offset_or (line_byte_offsets content) target (length content) in
    record {
      start = byte_start;
      end = byte_start;
      new_text = insert_text content edit.new_text (target == n_lines);
      edit_index = i;
    }

-- The cases `insert_before` and `insert_after`.
unfoldable pub resolve_insert :
    Bool → Bytes → ℕ → Edit → List Bytes → List Codes → Outcome ResolvedEdit
resolve_insert after content i edit lines anchors =
    let n_lines = length lines in
    if not (is_nil edit.expect_at_to)
    then fail malformed_args
    else elim (resolve_anchor edit.at_from anchors n_lines) [
      | refused e ↦ fail (anchor_failure e)
      | found pos ↦
          if check_expect lines pos edit.expect_at_from
          then done (insert_record content i edit n_lines (target_line after pos n_lines))
          else fail expect_mismatch
    ]

-- An end of the range of a replace: a line of the file, no sentinel.
abbrev pub resolve_line : Codes → List Codes → ℕ → Outcome ℕ
resolve_line text anchors n_lines = elim (resolve_anchor text anchors n_lines) [
  | refused e ↦ fail (anchor_failure e)
  | found before_first ↦ fail malformed_args
  | found (line pos) ↦ if leb n_lines pos then fail malformed_args else done pos
]

abbrev pub replace_text : Bytes → Bytes → Bytes
replace_text matched new_text =
    if ends_line matched && (not (is_nil new_text) && not (ends_line new_text))
    then new_text ++ newline ∷ []
    else new_text

abbrev pub replace_record : Bytes → ℕ → Edit → ℕ → ℕ → Outcome ResolvedEdit
replace_record content i edit pos_from pos_to =
    let offsets = line_byte_offsets content in
    let byte_end = offset_or offsets (suc pos_to) (length content) in
    elim (offset_at offsets pos_from) [
      | none ↦ panic
      | some byte_start ↦ elim (slice byte_start byte_end content) [
        | none ↦ panic
        | some matched ↦ done record {
          start = byte_start;
          end = byte_end;
          new_text = replace_text matched edit.new_text;
          edit_index = i;
        }
      ]
    ]

-- The case `replace`, once both ends are lines.
abbrev pub replace_lines : Bytes → ℕ → Edit → List Bytes → ℕ → ℕ → Outcome ResolvedEdit
replace_lines content i edit lines pos_from pos_to =
    if ltb pos_to pos_from
    then fail malformed_args
    else if not (check_expect lines (line pos_from) edit.expect_at_from)
    then fail expect_mismatch
    else if not (check_expect lines (line pos_to) edit.expect_at_to)
    then fail expect_mismatch
    else replace_record content i edit pos_from pos_to

-- The case `replace`.
unfoldable pub resolve_replace : Bytes → ℕ → Edit → List Bytes → List Codes → Outcome ResolvedEdit
resolve_replace content i edit lines anchors =
    let n_lines = length lines in
    let at_to = if is_nil edit.at_to then edit.at_from else edit.at_to in
    elim (resolve_line edit.at_from anchors n_lines) [
      | fail e ↦ fail e
      | panic ↦ panic
      | done pos_from ↦ elim (resolve_line at_to anchors n_lines) [
        | fail e ↦ fail e
        | panic ↦ panic
        | done pos_to ↦ replace_lines content i edit lines pos_from pos_to
      ]
    ]

-- `resolveAnchorEdit`
unfoldable pub resolve_anchor_edit :
    Bytes → ℕ → Edit → List Bytes → List Codes → Outcome ResolvedEdit
resolve_anchor_edit content i edit lines anchors =
    if str_eq edit.kind "insert_before"
    then resolve_insert false content i edit lines anchors
    else if str_eq edit.kind "insert_after"
    then resolve_insert true content i edit lines anchors
    else if str_eq edit.kind "replace"
    then resolve_replace content i edit lines anchors
    else fail malformed_args
