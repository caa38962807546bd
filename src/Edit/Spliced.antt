-- ===== src/Edit/Spliced.antt =====
-- The content that a call of the tool writes, from the edits as they resolve.
use mathlib.Core.List.{Perm}
use amplio.Common.{
  ℕ, ◌≡◌, refl, sym, ◌∙◌, ap, subst, Bool, false, not, inl, inr, Option, List, ltb, Bool-cases,
  Option-cases, length, All, Codes, same_codes,
}
use amplio.Event.{is_nil}
use amplio.Edit.Splice.{
  Bytes, ResolvedEdit, overlaps, sort_by_start_desc, apply_edits, all_in_range,
}
use amplio.Edit.Types.{Params, Outcome, done, Outcome-cases}
use amplio.Edit.Sorting.{shadowed, IsWithin, apply_edits-sorted}
use amplio.Edit.Apply.{spliced, IsLaidOut}
use amplio.Edit.Atomic.{write_cases}
use amplio.Edit.Sound.{AllSound, resolve_edits-AllSound}
use amplio.Edit.Execute.{
  Disk, Faults, Reply, refused, panicked, would_create, validated, created, applied, read_file,
  write_new, create_file, atomic_write, is_binary, creates, resolve_path, resolve_edits,
  is_expected_file, apply_resolved, edit_content, execute,
}

-- A content that is reported is that of the resolved edits, which the overlap check has let through.
Computes : (Bytes → Outcome (List ResolvedEdit)) → Reply → Type 0
Computes resolve (applied old new sorted) =
    (resolved : List ResolvedEdit) × (resolve old ≡ done resolved)
    × (overlaps resolved ≡ false)
    × (new ≡ apply_edits (sort_by_start_desc resolved) old)
Computes resolve (refused e) = Unit
Computes resolve panicked = Unit
Computes resolve would_create = Unit
Computes resolve validated = Unit
Computes resolve (created n) = Unit

module _ (resolve : Bytes → Outcome (List ResolvedEdit)) where
  write_new-Computes :
      (faults : Faults) (path : Codes) (content : Bytes) (disk : Disk)
      → Computes resolve (write_new faults path content disk).0
  unfolding Computes
  write_new-Computes faults path content disk = elim (Bool-cases faults.no_directory) [
    | inl fails ↦ rw (write_new, fails) tt
    | inr works ↦ elim (write_cases faults.plain_write) [
      | inl all ↦ rw (write_new, works, all) tt
      | inr (inl none_open) ↦ rw (write_new, works, none_open) tt
      | inr (inr (part, stops)) ↦ rw (write_new, works, stops) tt
    ]
  ]

  create_file-Computes :
      (faults : Faults) (path : Codes) (content : Bytes) (disk : Disk)
      → Computes resolve (create_file faults path content disk).0
  unfolding create_file Computes
  create_file-Computes faults path content disk = elim (Option-cases (disk path)) [
    | inl absent ↦ rw (create_file, absent) (write_new-Computes faults path content disk)
    | inr (bytes, there) ↦ elim (Bool-cases faults.unreadable) [
      | inl fails ↦ rw (create_file, there, fails) tt
      | inr reads ↦ elim (Bool-cases (is_nil bytes)) [
        | inl empty ↦
            rw (create_file, there, reads, empty) (write_new-Computes faults path content disk)
        | inr full ↦ rw (create_file, there, reads, full) tt
      ]
    ]
  ]

  apply_resolved-Computes :
      (faults : Faults) (validate_only : Bool) (path : Codes) (content : Bytes)
      (resolved : List ResolvedEdit) (disk : Disk)
      → resolve content ≡ done resolved
      → Computes resolve (apply_resolved faults validate_only path content resolved disk).0
  unfolding apply_resolved Computes
  apply_resolved-Computes faults validate_only path content resolved disk all =
      let result : Bytes = apply_edits (sort_by_start_desc resolved) content in
      elim (Bool-cases (overlaps resolved)) [
        | inl clash ↦ rw (apply_resolved, clash) tt
        | inr apart ↦ elim (Bool-cases (all_in_range (sort_by_start_desc resolved) content)) [
          | inr out ↦ rw (apply_resolved, apart, out) tt
          | inl bounds ↦ elim (Bool-cases (same_codes result content)) [
            | inl same ↦ rw (apply_resolved, apart, bounds, same) tt
            | inr other ↦ elim (Bool-cases validate_only) [
              | inl dry ↦ rw (apply_resolved, apart, bounds, other, dry) tt
              | inr wet ↦ elim (Bool-cases (atomic_write faults path result disk).0) [
                | inr fails ↦ rw (apply_resolved, apart, bounds, other, wet, fails) tt
                | inl works ↦
                    rw (apply_resolved, apart, bounds, other, wet, works)
                      (resolved, all, apart, refl)
              ]
            ]
          ]
        ]
      ]

module _ (hex_digest : ℕ → Bytes → Codes) (resolve_root_path : Codes → Codes → Option Codes)
    (join_path : Codes → Codes → Codes) where
  edit_content-Computes :
      (faults : Faults) (params : Params) (path : Codes) (content : Bytes) (disk : Disk)
      → Computes
          (λ text. resolve_edits hex_digest text 0 params.edits)
          (edit_content hex_digest faults params path content disk).0
  unfolding edit_content Computes
  edit_content-Computes faults params path content disk = elim (Bool-cases (is_binary content)) [
    | inl binary ↦ rw (edit_content, binary) tt
    | inr text ↦
        elim (Bool-cases (not (is_expected_file hex_digest params.expected_file_hash content))) [
          | inl changed ↦ rw (edit_content, text, changed) tt
          | inr same ↦ elim (Outcome-cases (resolve_edits hex_digest content 0 params.edits)) [
            | inr (inl (e, failed)) ↦ rw (edit_content, text, same, failed) tt
            | inr (inr panics) ↦ rw (edit_content, text, same, panics) tt
            | inl (resolved, all) ↦
                rw (edit_content, text, same, all)
                  (apply_resolved-Computes (λ l. resolve_edits hex_digest l 0 params.edits) faults
                    params.validate_only path content resolved disk all)
          ]
        ]
  ]

  execute-Computes :
      (cwd artifact_dir : Codes) (faults : Faults) (params : Params) (disk : Disk)
      → Computes
          (λ content. resolve_edits hex_digest content 0 params.edits)
          (execute hex_digest resolve_root_path join_path cwd artifact_dir faults params disk).0
  unfolding execute edit_content Computes
  execute-Computes cwd artifact_dir faults params disk =
      let path : Codes = resolve_path resolve_root_path join_path cwd artifact_dir params.path in
      let resolve : Bytes → Outcome (List ResolvedEdit) =
        λ content. resolve_edits hex_digest content 0 params.edits in
      elim (Bool-cases (is_nil params.edits)) [
        | inl empty ↦ rw (execute, empty) tt
        | inr some_edits ↦ elim (Bool-cases (ltb 64 (length params.edits))) [
          | inl many ↦ rw (execute, some_edits, many) tt
          | inr few ↦ elim (Option-cases (creates params.edits)) [
            | inr (edit, new) ↦ elim (Bool-cases params.validate_only) [
              | inl dry ↦ rw (execute, some_edits, few, new, dry) tt
              | inr wet ↦
                  rw (execute, some_edits, few, new, wet)
                    (create_file-Computes resolve faults path edit.new_text disk)
            ]
            | inl edits ↦ elim (Option-cases (read_file faults disk path)) [
              | inl absent ↦ rw (execute, some_edits, few, edits, absent) tt
              | inr (content, there) ↦
                  rw (execute, some_edits, few, edits, there)
                    (edit_content-Computes faults params path content disk)
            ]
          ]
        ]
      ]

  -- Where a call reports an edit of `old` to `new`, and no edit inserts, before a replacement in the
  -- call, where that replacement starts: `new` is `old` with each of the ranges to which the edits
  -- resolve replaced by its text, all at once, in ascending order, and `old` elsewhere.
  pub execute_splices :
      (cwd artifact_dir : Codes) (faults : Faults) (params : Params) (disk : Disk) (old new : Bytes)
      (sorted resolved : List ResolvedEdit)
      → (execute hex_digest resolve_root_path join_path cwd artifact_dir faults params disk).0
        ≡ applied old new sorted
      → resolve_edits hex_digest old 0 params.edits ≡ done resolved
      → shadowed resolved ≡ false
      → (asc : List ResolvedEdit) × Perm asc resolved
        × IsLaidOut 0 (length old) asc
        × (new ≡ spliced 0 old asc)
  unfolding Computes
  execute_splices cwd artifact_dir faults params disk old new sorted resolved reply all clear =
      let resolve : Bytes → Outcome (List ResolvedEdit) =
        λ content. resolve_edits hex_digest content 0 params.edits in
      let (rs, same, apart, is) =
        subst (Computes resolve) reply (execute-Computes cwd artifact_dir faults params disk) in
      let are : rs ≡ resolved = cc (sym same ∙ all) in
      let sound : All (IsWithin (length old)) resolved =
        subst (AllSound old) all (resolve_edits-AllSound hex_digest old 0 params.edits) in
      let (asc, perm, laid, splices) =
        apply_edits-sorted resolved old sound (subst (λ l. overlaps l ≡ false) are apart) clear in
      (asc, perm, laid, is ∙ ap (λ l. apply_edits (sort_by_start_desc l) old) are ∙ splices)
