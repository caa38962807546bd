-- ===== src/Edit/Types.antt =====
-- The parameters and the results of the edit_file tool (internal/tool/editfile/editfile.go).
use amplio.Common.{ℕ, Bool, ◌||◌, String, str_eq, Option, List, Codes, ◌⊎◌, inl, inr, ◌≡◌, refl}
use amplio.Edit.Splice.{Bytes}

-- `Edit`. A negative count or line number acts as 0 does.
pub record Edit : Type 0 where
  pub kind : String
  pub old_text : Bytes
  pub new_text : Bytes
  pub expected_match_count : ℕ
  pub start_line : Option ℕ
  pub end_line : Option ℕ
  pub at_from : Codes
  pub at_to : Codes
  pub expect_at_from : Bytes
  pub expect_at_to : Bytes

-- `Params`
pub record Params : Type 0 where
  pub path : Codes
  pub edits : List Edit
  pub expected_file_hash : Codes
  pub validate_only : Bool

-- The codes of `errResult`, and the two errors of the file system that have none.
pub data EditError : Type 0 where
  malformed_args no_op target_not_found multiple_matches expect_mismatch stale_anchor : EditError
  edit_overlap file_not_found binary_file expected_hash_mismatch : EditError
  directory_not_created not_written : EditError

-- A value, one of the errors, or a panic on an index out of range.
pub data Outcome (A : Type 0) : Type 0 where
  done : A → Outcome A
  fail : EditError → Outcome A
  panic : Outcome A

-- `isStrKind`
unfoldable pub is_str_kind : String → Bool
is_str_kind kind = str_eq kind "" || (str_eq kind "str_replace" || str_eq kind "str")

pub Outcome-cases :
    {A : Type 0} (o : Outcome A)
    → ((a : A) × (o ≡ done a)) ⊎ ((e : EditError) × (o ≡ fail e)) ⊎ (o ≡ panic)
Outcome-cases (done a) = inl (a, refl)
Outcome-cases (fail e) = inr (inl (e, refl))
Outcome-cases panic = inr (inr refl)
