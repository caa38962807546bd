-- ===== src/Examples/Edit.antt =====
-- Runs of the edit_file tool on small files, and of its theorems at them.
use Prim.Native.Nat.{◌*◌, ◌%◌}
use mathlib.Core.List.{Perm}
use amplio.Common.{
  if◌then◌else◌, ℕ, zero, suc, ◌+◌, ◌-◌, ◌≤◌, ◌≡◌, refl, true, false, ◌&&◌, Option, none, some,
  List, [], ◌∷◌, ◌++◌, arith, ltb, any, filter, All, length, take, drop, Codes, codes, same_codes,
  String,
}
use amplio.Edit.Splice.{
  all_in_range, Bytes, ResolvedEdit, overlaps, sort_by_start_desc, apply_edits, sort_loop, sink,
  splice,
}
use amplio.Edit.Anchor.{
  all_hex, window_hash, compute_anchors, file_fingerprint, split_text_for_anchors,
}
use amplio.Edit.Resolve.{found, line, resolve_anchor}
use amplio.Edit.Types.{Edit, Params, done, is_str_kind}
use amplio.Edit.Replace.{resolve_str_edit, expected_count, matches_in, matches_from}
use amplio.Edit.Apply.{IsLaidOut, spliced}
use amplio.Edit.Shadow.{replacement_eats_insert, insert_at, replace_range}
use amplio.Edit.Shown.{resolve_anchor_shown}
use amplio.Edit.Replaced.{Replaces, resolve_str_edit-Replaces, resolve_str_edit-covers}
use amplio.Edit.Execute.{
  Disk, Faults, whole, finish_write, applied, resolve_path, resolve_edits, execute, edit_content,
  apply_resolved, expand_artifact_dir, atomic_write,
}
use amplio.Edit.Spliced.{execute_splices}
use amplio.Edit.Diff.{diff_lines}
use amplio.Edit.Diffs.{old_side, new_side, common_lines, IsSubsequence, diff_lines_minimal}

-- A digest for tests: as many equal digits as it must have.
abbrev repeat : ℕ → ℕ → Codes
repeat zero c = []
repeat (suc n) c = c ∷ repeat n c

abbrev sum : Bytes → ℕ
sum [] = 0
sum (b ∷ blob) = (b + 3 * sum blob) % 10

abbrev digest : ℕ → Bytes → Codes
digest n blob = repeat (2 * n) (b'0' + sum blob % 10)

all_hex-repeat : (n c : ℕ) → c ≤ 9 → all_hex (repeat n (b'0' + c)) ≡ true
all_hex-repeat zero c h = refl
all_hex-repeat (suc n) c h = ground (arith, all_hex-repeat n c h, h)

length-repeat : (n c : ℕ) → length (repeat n c) ≡ n
length-repeat zero c = refl
length-repeat (suc n) c = omega (arith, length-repeat n c)

digest-hex : (n : ℕ) (blob : Bytes) → all_hex (digest n blob) ≡ true
digest-hex n blob = all_hex-repeat (2 * n) (sum blob % 10) (omega arith)

digest-len : (n : ℕ) (blob : Bytes) → length (digest n blob) ≡ 2 * n
digest-len n blob = length-repeat (2 * n) (b'0' + sum blob % 10)

abbrev no_roots : Codes → Codes → Option Codes
no_roots cwd path = none

abbrev join_path : Codes → Codes → Codes
join_path cwd path = cwd ++ b'/' ∷ path

abbrev content : Bytes
content = codes "ab\ncd\nab\n"

abbrev text_edit : String → String → ℕ → Edit
text_edit old new count = record {
  kind = "";
  old_text = codes old;
  new_text = codes new;
  expected_match_count = count;
  start_line = none;
  end_line = none;
  at_from = [];
  at_to = [];
  expect_at_from = [];
  expect_at_to = [];
}

abbrev both : Edit
both = text_edit "ab" "x" 2

-- Line 2, which is replaced by its number.
abbrev second_line : Edit
second_line = record {
  kind = "replace";
  old_text = [];
  new_text = codes "second";
  expected_match_count = 0;
  start_line = none;
  end_line = none;
  at_from = b'#' ∷ window_hash digest (codes "ab" ∷ codes "cd" ∷ codes "ab" ∷ []) 1;
  at_to = [];
  expect_at_from = codes "d";
  expect_at_to = [];
}

abbrev disk : Disk
disk path = if same_codes path (codes "/f") then some content else none

abbrev no_faults : Faults
no_faults = record {
  unreadable = false;
  no_directory = false;
  temp = codes ".amplio-1.tmp";
  plain_write = whole;
  no_temp = false;
  torn_temp = none;
  no_chmod = false;
  no_close = false;
  no_rename = false;
  no_removal = false;
}

abbrev params : Params
params = record {
  path = codes "f";
  edits = both ∷ [];
  expected_file_hash = [];
  validate_only = false;
}

abbrev first_ab : ResolvedEdit
first_ab = record { start = 0; end = 2; new_text = codes "x"; edit_index = 0 }

abbrev last_ab : ResolvedEdit
last_ab = record { start = 6; end = 8; new_text = codes "x"; edit_index = 0 }

both_resolve : resolve_str_edit content 0 both ≡ done (first_ab ∷ last_ab ∷ [])
unfolding resolve_str_edit matches_in matches_from
both_resolve = refl

all_resolve : resolve_edits digest content 0 (both ∷ []) ≡ done (first_ab ∷ last_ab ∷ [])
unfolding resolve_edits is_str_kind resolve_str_edit matches_in matches_from
all_resolve = refl

both_applied :
    (execute digest no_roots join_path [] [] no_faults params disk).0
    ≡ applied content (codes "x\ncd\nx\n") (last_ab ∷ first_ab ∷ [])
unfolding execute edit_content apply_resolved resolve_edits is_str_kind resolve_str_edit matches_in
    matches_from resolve_path expand_artifact_dir overlaps sort_by_start_desc sort_loop sink
    apply_edits splice all_in_range atomic_write finish_write file_fingerprint
    split_text_for_anchors
both_applied = refl

execute_splices_example :
    (asc : List ResolvedEdit) × Perm asc (first_ab ∷ last_ab ∷ [])
    × IsLaidOut 0 (length content) asc
    × (codes "x\ncd\nx\n" ≡ spliced 0 content asc)
execute_splices_example =
    execute_splices digest no_roots join_path [] [] no_faults params disk content
      (codes "x\ncd\nx\n") (last_ab ∷ first_ab ∷ []) (first_ab ∷ last_ab ∷ []) both_applied
      all_resolve refl

resolve_str_edit-Replaces_example :
    IsLaidOut 0 (length content) (first_ab ∷ last_ab ∷ [])
    × All (Replaces content 0 both) (first_ab ∷ last_ab ∷ [])
    × (length (first_ab ∷ last_ab ∷ []) ≡ expected_count both)
resolve_str_edit-Replaces_example =
    resolve_str_edit-Replaces content 0 both (first_ab ∷ last_ab ∷ []) both_resolve

resolve_str_edit-covers_example :
    any (λ r. ltb r.start (6 + length both.old_text) && ltb 6 r.end) (first_ab ∷ last_ab ∷ [])
    ≡ true
resolve_str_edit-covers_example =
    resolve_str_edit-covers content 0 both (first_ab ∷ last_ab ∷ []) 6 refl refl both_resolve refl

replacement_eats_insert_example :
    let edits = insert_at 3 (codes "new\n") ∷ replace_range 3 6 (codes "CD\n") ∷ [] in
    (overlaps edits ≡ false)
    × (apply_edits (sort_by_start_desc edits) content
        ≡ take 3 content ++ (codes "CD\n" ++ drop (6 - 3) (codes "new\n" ++ drop 3 content)))
replacement_eats_insert_example =
    replacement_eats_insert 3 6 (codes "new\n") (codes "CD\n") content (omega arith) (omega arith)

abbrev lines : List Bytes
lines = codes "ab" ∷ codes "cd" ∷ codes "ab" ∷ []

one_second_line :
    length (filter (λ a. same_codes a (window_hash digest lines 1)) (compute_anchors digest lines))
    ≡ 1
unfolding window_hash compute_anchors
one_second_line = refl

resolve_anchor_shown_example :
    resolve_anchor (b'#' ∷ window_hash digest lines 1) (compute_anchors digest lines) 3
    ≡ found (line 1)
resolve_anchor_shown_example =
    resolve_anchor_shown digest digest-hex digest-len lines 1 3 (omega arith) one_second_line

diff_lines_minimal_example :
    (old_side (diff_lines lines (codes "cd" ∷ [])) ≡ lines)
    × (new_side (diff_lines lines (codes "cd" ∷ [])) ≡ codes "cd" ∷ [])
    × (length (codes "cd" ∷ []) ≤ common_lines (diff_lines lines (codes "cd" ∷ [])))
diff_lines_minimal_example =
    diff_lines_minimal (codes "cd" ∷ []) lines (codes "cd" ∷ [])
      (IsSubsequence.left_out (IsSubsequence.kept refl IsSubsequence.none_left))
      (IsSubsequence.kept refl IsSubsequence.none_left)
