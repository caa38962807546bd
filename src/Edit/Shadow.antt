-- ===== src/Edit/Shadow.antt =====
-- An insert and a replacement at one offset, in one call of the tool.
use amplio.Common.{
  ℕ, ◌+◌, ◌-◌, ◌≤◌, ◌<◌, ◌≡◌, refl, sym, ap, ◌∙◌, false, [], ◌∷◌, ◌++◌, arith, ltb, length, take,
  drop, take-front, drop-drop, drop-front, length-take,
}
use amplio.Edit.Splice.{
  Bytes, ResolvedEdit, overlaps, sink, sort_loop, sort_by_start_desc, splice, apply_edits,
}

abbrev pub insert_at : ℕ → Bytes → ResolvedEdit
insert_at x inserted = record { start = x; end = x; new_text = inserted; edit_index = 0 }

abbrev pub replace_range : ℕ → ℕ → Bytes → ResolvedEdit
replace_range x y new = record { start = x; end = y; new_text = new; edit_index = 1 }

sorted_as_listed :
    (x y : ℕ) (inserted new : Bytes)
    → let edits = insert_at x inserted ∷ replace_range x y new ∷ [] in
      sort_by_start_desc edits ≡ edits
unfolding sort_by_start_desc sort_loop sink
sorted_as_listed x y inserted new =
    let same : ltb x x ≡ false = ground arith in rw (sink, same) refl

-- A splice from `x` to `y` behind `x` bytes.
splice_behind :
    (x y : ℕ) (front rest new : Bytes)
    → x < y
    → length front ≡ x
    → splice (replace_range x y new) (front ++ rest) ≡ front ++ (new ++ drop (y - x) rest)
unfolding splice
splice_behind x y front rest new h k =
    let sum : x + (y - x) ≡ y = omega (arith, h) in
    let behind : drop y (front ++ rest) ≡ drop (y - x) rest =
      ap (λ n. drop n (front ++ rest)) (sym sum)
      ∙ sym (drop-drop (y - x) x (front ++ rest))
      ∙ ap (drop (y - x)) (drop-front x front rest k) in
    rw (take-front x front rest k, behind) refl

-- For an insert at `x`, and after it in the call a replacement of the range from `x` to a later `y`:
-- the overlap check lets the two through, and what stands at `x` then is the replacement and, after
-- it, the inserted text and the range's text and what follows, without their first `y - x` bytes.
pub replacement_eats_insert :
    (x y : ℕ) (inserted new text : Bytes)
    → x < y
    → y ≤ length text
    → let edits = insert_at x inserted ∷ replace_range x y new ∷ [] in
      (overlaps edits ≡ false)
      × (apply_edits (sort_by_start_desc edits) text
          ≡ take x text ++ (new ++ drop (y - x) (inserted ++ drop x text)))
unfolding overlaps apply_edits splice
replacement_eats_insert x y inserted new text h k = (
  ground (arith, h),
  rw (sorted_as_listed x y inserted new) (
      splice_behind x y (take x text) (inserted ++ drop x text) new h
        (length-take x text (omega arith))),
)
