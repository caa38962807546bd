-- ===== src/Edit/Execute.antt =====
-- `execute` of internal/tool/editfile/editfile.go, on a disk that may fail.
use amplio.Common.{
  ℕ, suc, ◌+◌, Bool, true, false, ◌&&◌, ◌||◌, not, Option, none, some, List, [], ◌∷◌, ◌++◌, ltb,
  ◌==◌, if◌then◌else◌, any, length, take, Codes, codes, same_codes,
}
use amplio.Event.{is_nil}
use amplio.Edit.Splice.{
  Bytes, ResolvedEdit, overlaps, sort_by_start_desc, apply_edits, all_in_range,
}
use amplio.Edit.Text.{has_prefix, newline}
use amplio.Edit.Anchor.{split_text_for_anchors, compute_anchors, file_fingerprint}
use amplio.Edit.Types.{Edit, Params, EditError, Outcome, done, fail, panic, is_str_kind}
use amplio.Edit.Types.{
  malformed_args, no_op, edit_overlap, file_not_found, binary_file, expected_hash_mismatch,
  directory_not_created, not_written,
}
use amplio.Edit.Anchored.{resolve_anchor_edit, ends_line}
use amplio.Edit.Replace.{resolve_str_edit}

-- The files by their absolute paths.
abbrev pub Disk : Type 0
Disk = Codes → Option Bytes

abbrev pub written : Disk → Codes → Bytes → Disk
written disk path bytes = λ p. if same_codes p path then some bytes else disk p

abbrev pub removed : Disk → Codes → Disk
removed disk path = λ p. if same_codes p path then none else disk p

-- A rename within a directory replaces the target.
abbrev pub renamed : Disk → Codes → Codes → Disk
renamed disk from to =
    λ p. if same_codes p to then disk from else if same_codes p from then none else disk p

-- What comes of os.WriteFile: it truncates or creates the file when it opens it, and a write may stop
-- with a part of the bytes.
pub data PlainWrite : Type 0 where
  whole not_opened : PlainWrite
  torn : Bytes → PlainWrite

-- The name that os.CreateTemp picks, and what fails in a call: a read, the creation of a directory,
-- the plain write, and the steps of the atomic write, with the part that its write leaves.
pub record Faults : Type 0 where
  pub temp : Codes
  pub unreadable : Bool
  pub no_directory : Bool
  pub plain_write : PlainWrite
  pub no_temp : Bool
  pub torn_temp : Option Bytes
  pub no_chmod : Bool
  pub no_close : Bool
  pub no_rename : Bool
  pub no_removal : Bool

-- The results: an error, a panic, and the successes with what they print from.
pub data Reply : Type 0 where
  refused : EditError → Reply
  panicked would_create validated : Reply
  created : ℕ → Reply
  applied : Bytes → Bytes → List ResolvedEdit → Reply

abbrev pub read_file : Faults → Disk → Codes → Option Bytes
read_file faults disk path = if faults.unreadable then none else disk path

-- The number of lines that `createFile` prints.
abbrev pub newlines : Bytes → ℕ
newlines [] = 0
newlines (c ∷ text) = let rest = newlines text in if c == newline then suc rest else rest

abbrev pub lines_of : Bytes → ℕ
lines_of content =
    if not (is_nil content) && not (ends_line content)
    then newlines content + 1
    else newlines content

-- The end of `createFile`, where the file is absent or empty.
abbrev pub write_new : Faults → Codes → Bytes → Disk → Reply × Disk
write_new faults path content disk =
    if faults.no_directory then (refused directory_not_created, disk) else elim faults.plain_write [
      | whole ↦ (created (lines_of content), written disk path content)
      | not_opened ↦ (refused not_written, disk)
      | torn part ↦ (refused not_written, written disk path part)
    ]

-- `createFile`
unfoldable pub create_file : Faults → Codes → Bytes → Disk → Reply × Disk
create_file faults path content disk = elim (disk path) [
  | none ↦ write_new faults path content disk
  | some bytes ↦
      if faults.unreadable
      then (refused file_not_found, disk)
      else if is_nil bytes
      then write_new faults path content disk
      else (refused malformed_args, disk)
]

-- The deferred removal of the temporary file, whose error is ignored.
abbrev pub clean_up : Faults → Disk → Disk
clean_up faults disk = if faults.no_removal then disk else removed disk faults.temp

-- The steps of `atomicWrite` after the write to the temporary file. After the rename the deferred
-- removal finds no file.
unfoldable pub finish_write : Faults → Codes → Disk → Bool × Disk
finish_write faults path disk =
    if faults.no_chmod || faults.no_close || faults.no_rename
    then (false, clean_up faults disk)
    else (true, renamed disk faults.temp path)

-- `atomicWrite`: whether it succeeds, and the disk after it. Permissions are left out.
unfoldable pub atomic_write : Faults → Codes → Bytes → Disk → Bool × Disk
unfolding finish_write
atomic_write faults path bytes disk =
    if faults.no_temp then (false, disk) else elim faults.torn_temp [
      | some part ↦ (false, clean_up faults (written disk faults.temp part))
      | none ↦ finish_write faults path (written disk faults.temp bytes)
    ]

-- The probe for binary files: a zero byte among the first 8192.
abbrev pub is_binary : Bytes → Bool
is_binary bytes = any (λ b. b == 0) (take 8192 bytes)

-- What `expandArtifactDir` puts in place of a token at the front.
abbrev pub cut_prefix : Codes → Codes → Option Codes
cut_prefix s [] = some s
cut_prefix [] (p ∷ ps) = none
cut_prefix (c ∷ s) (p ∷ ps) = let rest = cut_prefix s ps in if c == p then rest else none

-- `expandArtifactDir`
unfoldable pub expand_artifact_dir : Codes → Codes → Codes
expand_artifact_dir artifact_dir path =
    if is_nil artifact_dir then path else elim (cut_prefix path (codes "${AMPLIO_ARTIFACT_DIR}")) [
      | some rest ↦ artifact_dir ++ rest
      | none ↦ elim (cut_prefix path (codes "$AMPLIO_ARTIFACT_DIR")) [
        | some rest ↦ artifact_dir ++ rest
        | none ↦ path
      ]
    ]

-- Whether the call creates a file: one edit, of the kind with texts, without an old text.
abbrev pub creates : List Edit → Option Edit
creates [] = none
creates (edit ∷ []) = if is_str_kind edit.kind && is_nil edit.old_text then some edit else none
creates (edit ∷ next ∷ edits) = none

-- The repository-root paths of the citc package, and filepath.Join.
module _ (resolve_root_path : Codes → Codes → Option Codes)
    (join_path : Codes → Codes → Codes) where
  -- `resolvePath`
  unfoldable pub resolve_path : Codes → Codes → Codes → Codes
  resolve_path cwd artifact_dir path =
      let expanded = expand_artifact_dir artifact_dir path in
      elim (resolve_root_path cwd expanded) [
        | some abs ↦ abs
        | none ↦ if has_prefix expanded (b'/' ∷ []) then expanded else join_path cwd expanded
      ]

-- The application of the resolved edits, and the write.
unfoldable pub apply_resolved :
    Faults → Bool → Codes → Bytes → List ResolvedEdit → Disk → Reply × Disk
apply_resolved faults validate_only path content resolved disk =
    let sorted = sort_by_start_desc resolved in
    let result = apply_edits sorted content in
    if overlaps resolved
    then (refused edit_overlap, disk)
    else if not (all_in_range sorted content)
    then (panicked, disk)
    else if same_codes result content
    then (refused no_op, disk)
    else if validate_only
    then (validated, disk)
    else let write = atomic_write faults path result disk in
      if write.0 then (applied content result sorted, write.1) else (refused not_written, write.1)

-- The digest.
module _ (hex_digest : ℕ → Bytes → Codes) where
  -- One round of the loop that resolves the edits.
  abbrev pub resolve_one : Bytes → ℕ → Edit → Outcome (List ResolvedEdit)
  resolve_one content i edit =
      if is_str_kind edit.kind
      then resolve_str_edit content i edit
      else let lines = (split_text_for_anchors content).0 in
        elim (resolve_anchor_edit content i edit lines (compute_anchors hex_digest lines)) [
          | fail e ↦ fail e
          | panic ↦ panic
          | done r ↦ done (r ∷ [])
        ]

  -- The loop, which stops at the first error.
  unfoldable pub resolve_edits : Bytes → ℕ → List Edit → Outcome (List ResolvedEdit)
  resolve_edits content i [] = done []
  resolve_edits content i (edit ∷ edits) =
      let rest = resolve_edits content (suc i) edits in
      elim (resolve_one content i edit) [
        | fail e ↦ fail e
        | panic ↦ panic
        | done recs ↦ elim rest [
          | fail e ↦ fail e
          | panic ↦ panic
          | done more ↦ done (recs ++ more)
        ]
      ]

  -- Whether the file is still the one whose fingerprint the call expects.
  abbrev pub is_expected_file : Codes → Bytes → Bool
  is_expected_file expected content =
      let snapshot = split_text_for_anchors content in
      is_nil expected || same_codes (file_fingerprint hex_digest snapshot.0 snapshot.1) expected

  -- The edits of a file that has been read.
  unfoldable pub edit_content : Faults → Params → Codes → Bytes → Disk → Reply × Disk
  edit_content faults params path content disk =
      if is_binary content
      then (refused binary_file, disk)
      else if not (is_expected_file params.expected_file_hash content)
      then (refused expected_hash_mismatch, disk)
      else elim (resolve_edits content 0 params.edits) [
        | fail e ↦ (refused e, disk)
        | panic ↦ (panicked, disk)
        | done resolved ↦ apply_resolved faults params.validate_only path content resolved disk
      ]

-- All three.
module _ (hex_digest : ℕ → Bytes → Codes) (resolve_root_path : Codes → Codes → Option Codes)
    (join_path : Codes → Codes → Codes) where
  -- `execute`
  unfoldable pub execute : Codes → Codes → Faults → Params → Disk → Reply × Disk
  execute cwd artifact_dir faults params disk =
      let path = resolve_path resolve_root_path join_path cwd artifact_dir params.path in
      if is_nil params.edits
      then (refused malformed_args, disk)
      else if ltb 64 (length params.edits)
      then (refused malformed_args, disk)
      else elim (creates params.edits) [
        | some edit ↦
            if params.validate_only
            then (would_create, disk)
            else create_file faults path edit.new_text disk
        | none ↦ elim (read_file faults disk path) [
          | none ↦ (refused file_not_found, disk)
          | some content ↦ edit_content hex_digest faults params path content disk
        ]
      ]
