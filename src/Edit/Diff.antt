-- ===== src/Edit/Diff.antt =====
-- The line diff of internal/tool/editfile/editfile.go: `splitNonEmpty`, `diffLines`, `unifiedDiff`.
use amplio.Common.{
  ℕ, ◌+◌, ◌||◌, List, [], ◌∷◌, ◌++◌, map, leb, ltb, if◌then◌else◌, length, same_codes,
}
use amplio.Edit.Splice.{Bytes}
use amplio.Edit.Text.{split, newline}

-- `diffLine`, by its prefix.
pub data DiffLine : Type 0 where
  context removed added : Bytes → DiffLine

-- The table of `diffLines`: its entry for two suffixes of the lists.
abbrev pub lcs_length : List Bytes → List Bytes → ℕ
lcs_length [] b = 0
lcs_length (x ∷ a) [] = 0
lcs_length (x ∷ a) (y ∷ b) =
    let both = lcs_length a b in
    let below = lcs_length a (y ∷ b) in
    let right = lcs_length (x ∷ a) b in
    if same_codes x y then both + 1 else if leb right below then below else right

-- `diffLines`: the loop over both lists, and the two after it.
unfoldable pub diff_lines : List Bytes → List Bytes → List DiffLine
diff_lines [] b = map added b
diff_lines (x ∷ a) [] = map removed (x ∷ a)
diff_lines (x ∷ a) (y ∷ b) =
    let both = diff_lines a b in
    let below = diff_lines a (y ∷ b) in
    let right = diff_lines (x ∷ a) b in
    if same_codes x y
    then context x ∷ both
    else if leb (lcs_length (x ∷ a) b) (lcs_length a (y ∷ b))
    then removed x ∷ below
    else added y ∷ right

-- strings.TrimSuffix of a newline.
abbrev pub trim_newline : Bytes → Bytes
trim_newline [] = []
trim_newline (c ∷ []) = if same_codes (c ∷ []) (newline ∷ []) then [] else c ∷ []
trim_newline (c ∷ d ∷ text) = c ∷ trim_newline (d ∷ text)

-- `splitNonEmpty`
abbrev pub split_non_empty : Bytes → List Bytes
split_non_empty [] = []
split_non_empty (c ∷ text) = split (trim_newline (c ∷ text))

-- The lines that `unifiedDiff` prints, before each is cut to 300 characters: the diff, or all of
-- both sides, and a note that is left out here, where one has more lines than `max_lines`.
unfoldable pub unified_diff : Bytes → Bytes → ℕ → List DiffLine
unfolding diff_lines
unified_diff old new max_lines =
    let del_lines = split_non_empty old in
    let add_lines = split_non_empty new in
    if ltb max_lines (length del_lines) || ltb max_lines (length add_lines)
    then map removed del_lines ++ map added add_lines
    else diff_lines del_lines add_lines
