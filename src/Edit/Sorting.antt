-- ===== src/Edit/Sorting.antt =====
-- The sort of the edits, and what the overlap check and it come to together.
use mathlib.Core.List.{Perm, perm_middle}
use mathlib.Core.List.Perm
use amplio.Common.{
  ℕ, ◌≤◌, ◌<◌, ◌≡◌, subst, append-nil, Bool, false, ◌&&◌, ◌||◌, inl, inr, List, [], ◌∷◌, ◌++◌,
  arith, ltb, ◌==◌, Bool-cases, any, All, length,
}
use amplio.Edit.Splice.{
  Bytes, ResolvedEdit, inserts_clash, ranges_meet, overlap_with, overlaps, sink, sort_loop,
  sort_by_start_desc, apply_edits,
}
use amplio.Edit.Apply.{spliced, IsLaidOut, bottom_up}

-- An insert listed before a replacement that starts where it inserts.
abbrev pub shadows : ResolvedEdit → ResolvedEdit → Bool
shadows a b = a.start == a.end && (a.start == b.start && ltb b.start b.end)

abbrev pub shadowed : List ResolvedEdit → Bool
shadowed [] = false
shadowed (a ∷ rest) = any (shadows a) rest || shadowed rest

-- A range of a text of length `n`.
abbrev pub IsWithin : ℕ → ResolvedEdit → Type 0
IsWithin n r = (r.start ≤ r.end) × (r.end ≤ n)

-- `b` and an edit listed before it can both be in ascending order.
Fits : ResolvedEdit → ResolvedEdit → Type 0
Fits b a = (a.start < b.start → a.end ≤ b.start) × (b.start ≤ a.start → b.end ≤ a.start)

checked_apart :
    (n : ℕ) (a b : ResolvedEdit)
    → IsWithin n a
    → IsWithin n b
    → (inserts_clash a b || ranges_meet a b) ≡ false
    → shadows a b ≡ false
    → Fits b a
unfolding Fits
checked_apart n a b (ha, _) (hb, _) apart clear = ground (arith, ha, hb, apart, clear)

sink-IsLaidOut :
    (n p : ℕ) (x : ResolvedEdit) (sorted : List ResolvedEdit)
    → IsWithin n x
    → p ≤ x.start
    → All (Fits x) sorted
    → IsLaidOut p n sorted
    → IsLaidOut p n (sink x sorted)
unfolding sink Fits
sink-IsLaidOut n p x [] w h fits l = (h, w.0, w.1)
sink-IsLaidOut n p x (y ∷ before) w h (f, fits) (a, b, c) =
    elim (Bool-cases (ltb y.start x.start)) [
      | inl below ↦
          rw below (a, b, sink-IsLaidOut n y.end x before w (f.0 (ground (arith, below))) fits c)
      | inr above ↦ rw above (h, w.0, (f.1 (ground (arith, above)), b, c))
    ]

sink-Perm : (x : ResolvedEdit) (sorted : List ResolvedEdit) → Perm (sink x sorted) (x ∷ sorted)
unfolding sink
sink-Perm x [] = Perm.refl (x ∷ [])
sink-Perm x (y ∷ before) = elim (Bool-cases (ltb y.start x.start)) [
  | inl below ↦ rw below (Perm.trans (Perm.cons y (sink-Perm x before)) (Perm.swap x y before))
  | inr above ↦ rw above (Perm.refl (x ∷ y ∷ before))
]

pub sink-All :
    (P : ResolvedEdit → Type 0) (x : ResolvedEdit) (sorted : List ResolvedEdit)
    → P x
    → All P sorted
    → All P (sink x sorted)
unfolding sink
sink-All P x [] p all = (p, tt)
sink-All P x (y ∷ before) p (q, all) = elim (Bool-cases (ltb y.start x.start)) [
  | inl below ↦ rw below (q, sink-All P x before p all)
  | inr above ↦ rw above (p, (q, all))
]

-- What comes after an edit fits with it too.
sink_keeps :
    (n : ℕ) (x : ResolvedEdit) (rest sorted : List ResolvedEdit)
    → IsWithin n x
    → All (IsWithin n) rest
    → overlap_with x rest ≡ false
    → any (shadows x) rest ≡ false
    → All (λ z. All (Fits z) sorted) rest
    → All (λ z. All (Fits z) (sink x sorted)) rest
sink_keeps n x [] sorted wx w apart clear fits = tt
sink_keeps n x (z ∷ rest) sorted wx (wz, w) apart clear (f, fits) = (
  sink-All (Fits z) x sorted
      (checked_apart n x z wx wz (ground (arith, apart)) (ground (arith, clear))) f,
  sink_keeps n x rest sorted wx w (ground (arith, apart)) (ground (arith, clear)) fits,
)

none_sorted : (edits : List ResolvedEdit) → All (λ x. All (Fits x) []) edits
none_sorted [] = tt
none_sorted (x ∷ rest) = (tt, none_sorted rest)

-- The sorted part is laid out and fits with what is still to sort, so the whole is laid out.
sort_loop-IsLaidOut :
    (n : ℕ) (rest sorted : List ResolvedEdit)
    → All (IsWithin n) rest
    → overlaps rest ≡ false
    → shadowed rest ≡ false
    → All (λ x. All (Fits x) sorted) rest
    → IsLaidOut 0 n sorted
    → IsLaidOut 0 n (sort_loop sorted rest)
unfolding sort_loop overlaps
sort_loop-IsLaidOut n [] sorted w apart clear fits l = l
sort_loop-IsLaidOut n (x ∷ rest) sorted (wx, w) apart clear (fx, fits) l =
    sort_loop-IsLaidOut n rest (sink x sorted) w (ground (arith, apart)) (ground (arith, clear))
      (sink_keeps n x rest sorted wx w (ground (arith, apart)) (ground (arith, clear)) fits)
      (sink-IsLaidOut n 0 x sorted wx (omega arith) fx l)

sort_loop-Perm : (rest sorted : List ResolvedEdit) → Perm (sort_loop sorted rest) (rest ++ sorted)
unfolding sort_loop
sort_loop-Perm [] sorted = Perm.refl sorted
sort_loop-Perm (x ∷ rest) sorted =
    Perm.trans (sort_loop-Perm rest (sink x sorted))
      (Perm.trans (Perm.append_left rest (sink-Perm x sorted)) (perm_middle rest sorted))

-- For edits that are ranges of the text, that the overlap check lets through, and none of which is
-- an insert listed before a replacement that starts where it inserts: the application bottom-up,
-- after the sort, replaces in the original text each of these ranges, in ascending order, by the
-- edit's text, and leaves what is between them.
pub apply_edits-sorted :
    (edits : List ResolvedEdit) (text : Bytes)
    → All (IsWithin (length text)) edits
    → overlaps edits ≡ false
    → shadowed edits ≡ false
    → (asc : List ResolvedEdit) × Perm asc edits
      × IsLaidOut 0 (length text) asc
      × (apply_edits (sort_by_start_desc edits) text ≡ spliced 0 text asc)
unfolding sort_by_start_desc
apply_edits-sorted edits text w apart clear =
    let l =
      sort_loop-IsLaidOut (length text) edits [] w apart clear (none_sorted edits) (omega arith) in
    (
      sort_loop [] edits,
      subst (Perm (sort_loop [] edits)) (append-nil edits) (sort_loop-Perm edits []),
      l,
      bottom_up (sort_loop [] edits) 0 text l,
    )
