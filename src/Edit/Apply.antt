-- ===== src/Edit/Apply.antt =====
-- What the application bottom-up of edits comes to: each range of the original text is replaced,
-- and what is between the ranges stays.
use amplio.Common.{
  ℕ, ◌+◌, ◌-◌, ◌≤◌, ◌≡◌, refl, sym, ap, ◌∙◌, List, [], ◌∷◌, ◌++◌, arith, length, take, drop,
  append_assoc, take-drop, length-take, drop-drop, take-append, take_more, drop-front,
  take-take_below,
}
use amplio.Edit.Splice.{Bytes, ResolvedEdit, from_last, splice, apply_edits}

-- The text from offset `p` on, `text`, with each range of ascending edits replaced by its text.
abbrev pub spliced : ℕ → Bytes → List ResolvedEdit → Bytes
spliced p text [] = text
spliced p text (r ∷ rest) =
    take (r.start - p) text ++ (r.new_text ++ spliced r.end (drop (r.end - p) text) rest)

-- The edits are ranges between `p` and `n`, in ascending order, none of which reaches into the next.
abbrev pub IsLaidOut : ℕ → ℕ → List ResolvedEdit → Type 0
IsLaidOut p n [] = p ≤ n
IsLaidOut p n (r ∷ rest) = (p ≤ r.start) × (r.start ≤ r.end) × IsLaidOut r.end n rest

below_length : (rs : List ResolvedEdit) (p n : ℕ) → IsLaidOut p n rs → p ≤ n
below_length [] p n l = l
below_length (r ∷ rs) p n (a, b, c) = omega (arith, below_length rs r.end n c)

apply_edits-append :
    (xs ys : List ResolvedEdit) (text : Bytes)
    → apply_edits (xs ++ ys) text ≡ apply_edits ys (apply_edits xs text)
unfolding apply_edits
apply_edits-append [] ys text = refl
apply_edits-append (x ∷ xs) ys text = apply_edits-append xs ys (splice x text)

-- Behind a text of which the ranges after `p` are replaced, one more splice before them.
splice_before :
    (r : ResolvedEdit) (text tail : Bytes)
    → r.start ≤ r.end
    → r.end ≤ length text
    → splice r (take r.end text ++ tail) ≡ take r.start text ++ (r.new_text ++ tail)
unfolding splice
splice_before r text tail h k =
    rw
      (
        take-append r.start (take r.end text) tail (omega (arith, length-take r.end text k)),
        take-take_below r.start r.end text h,
        drop-front r.end (take r.end text) tail (length-take r.end text k),
      )
      refl

take_between :
    (p s : ℕ) (text tail : Bytes)
    → p ≤ s
    → take p text ++ (take (s - p) (drop p text) ++ tail) ≡ take s text ++ tail
take_between p s text tail h =
    sym (append_assoc (take p text) (take (s - p) (drop p text)) tail)
    ∙ ap (λ l. l ++ tail) (take_more p (s - p) text ∙ ap (λ k. take k text) (omega arith))

pub bottom_up :
    (rs : List ResolvedEdit) (p : ℕ) (text : Bytes)
    → IsLaidOut p (length text) rs
    → apply_edits (from_last rs) text ≡ take p text ++ spliced p (drop p text) rs
unfolding apply_edits
bottom_up [] p text l = sym (take-drop p text)
bottom_up (r ∷ rs) p text (a, b, c) =
    let reaches : p + (r.end - p) ≡ r.end = omega (arith, a, b) in
    rw
      (
        apply_edits-append (from_last rs) (r ∷ []) text,
        bottom_up rs r.end text c,
        splice_before r text (spliced r.end (drop r.end text) rs) b (below_length rs r.end _ c),
        drop-drop (r.end - p) p text,
        reaches,
        take_between p r.start text (r.new_text ++ spliced r.end (drop r.end text) rs) a,
      )
      refl
