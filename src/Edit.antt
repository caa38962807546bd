-- ===== src/Edit.antt =====
-- The edit_file tool (internal/tool/editfile/editfile.go) and its line anchors
-- (internal/tool/anchor/anchor.go).
pub mod Text
pub mod Splice
pub mod Anchor
pub mod Resolve
pub mod Hits
pub mod Address
pub mod Shown
pub mod Types
pub mod Range
pub mod Replace
pub mod Anchored
pub mod Execute
pub mod Search
pub mod Windows
pub mod Replaced
pub mod Lines
pub mod Span
pub mod Sound
pub mod Atomic
pub mod Spliced
pub mod Diff
pub mod Diffs
pub mod Apply
pub mod Sorting
pub mod Shadow
