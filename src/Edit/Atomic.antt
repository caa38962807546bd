-- ===== src/Edit/Atomic.antt =====
-- What a call of the tool does to the disk, for each of its results.

use amplio.Common.{
  ◌≡◌, refl, ◌⊎◌, true, false, [], ◌∷◌, if◌then◌else◌, Bool, inl, inr, some, List, Codes,
  same_codes,
}
use amplio.Edit.Splice.{Bytes, ResolvedEdit}
use amplio.Edit.Types.{Edit, not_written}
use amplio.Edit.Execute.{
  Disk, written, PlainWrite, whole, not_opened, torn, Faults, Reply, refused, panicked,
  would_create, validated, created, applied,
}

-- The disk of a call and the one after it agree, but for the temporary file of the call.
abbrev pub Unchanged : Faults → Disk → Disk → Type 0
Unchanged faults disk after = (p : Codes) → same_codes p faults.temp ≡ false → after p ≡ disk p

-- One file has a new content, and no other has changed.
abbrev pub Only : Codes → Bytes → Disk → Disk → Type 0
Only path content disk after = (p : Codes) → after p ≡ written disk path content p

-- An error and a dry run leave all files but a temporary one as they are; a panic does not occur; a
-- creation writes the text of the one edit to the one file; and an edit replaces the content of the
-- file that it has read, and leaves no temporary file.
abbrev pub IsAtomic : Faults → List Edit → Codes → Disk → Reply × Disk → Type 0
IsAtomic faults edits path disk (refused e, after) = Unchanged faults disk after
IsAtomic faults edits path disk (panicked, after) = ⊥
IsAtomic faults edits path disk (would_create, after) = Unchanged faults disk after
IsAtomic faults edits path disk (validated, after) = Unchanged faults disk after
IsAtomic faults edits path disk (created n, after) =
    (edit : Edit) × (edits ≡ edit ∷ []) × Only path edit.new_text disk after
IsAtomic faults edits path disk (applied old new sorted, after) =
    (disk path ≡ some old) × Only path new disk after

pub write_cases :
    (w : PlainWrite) → (w ≡ whole) ⊎ (w ≡ not_opened) ⊎ ((part : Bytes) × (w ≡ torn part))
write_cases whole = inl refl
write_cases not_opened = inr (inl refl)
write_cases (torn part) = inr (inr (part, refl))

abbrev pub is_torn : PlainWrite → Bool
is_torn whole = false
is_torn not_opened = false
is_torn (torn part) = true

module _ (faults : Faults) (edits : List Edit) (path : Codes) (disk : Disk) where
  -- The temporary file hides a write, and its removal.
  written_aside : (bytes : Bytes) → Unchanged faults disk (written disk faults.temp bytes)
  written_aside bytes p other = rw other refl

  -- What the atomic write leaves.
  abbrev Wrote : Bytes → Bool × Disk → Type 0
  Wrote bytes (true, after) = Only path bytes disk after
  Wrote bytes (false, after) = Unchanged faults disk after

  abbrev reply_of : Bytes → Bytes → List ResolvedEdit → Bool × Disk → Reply × Disk
  reply_of content result sorted write =
      if write.0 then (applied content result sorted, write.1) else (refused not_written, write.1)
