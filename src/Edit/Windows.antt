-- ===== src/Edit/Windows.antt =====
-- The search window of a text edit is a part of the content.
use amplio.Common.{
  ℕ, zero, suc, ◌+◌, ◌-◌, ◌≤◌, ◌<◌, ◌≡◌, refl, sym, ap, inl, inr, Option, none, some, List, [], ◌∷◌,
  arith, true, leb, if◌then◌else◌, ltb, ◌==◌, Bool-cases, length, take, drop, take_all, subst,
  length-take, length-drop,
}
use amplio.Edit.Splice.{Bytes}
use amplio.Edit.Text.{slice, split, cons_head, newline}
use amplio.Edit.Types.{Outcome, done, fail, panic}
use amplio.Edit.Replace.{
  bytes_of_lines, Window, whole, window_of_lines, first_line, last_line, lines_window,
  search_window,
}

abbrev pub IsWindow : Bytes → Window → Type 0
IsWindow content w =
    (w.search_offset + length w.search_content ≤ length content)
    × (w.search_content ≡ take (length w.search_content) (drop w.search_offset content))

pub some_line : (content : Bytes) → 1 ≤ length (split content)
some_line [] = omega arith
some_line (c ∷ content) = elim (Bool-cases (c == newline)) [
  | inl at_end ↦ rw at_end (omega arith)
  | inr inside ↦ rw inside (cons_head-some c (split content))
]
  where
    cons_head-some : (x : ℕ) (ls : List Bytes) → 1 ≤ length (cons_head x ls)
    cons_head-some x [] = omega arith
    cons_head-some x (l ∷ ls) = omega arith

pub length-cons_head :
    (c : ℕ) (ls : List Bytes) → 1 ≤ length ls → length (cons_head c ls) ≡ length ls
length-cons_head c [] h = absurd (omega (arith, h))
length-cons_head c (l ∷ ls) h = refl

pub bytes-cons_head :
    (c k : ℕ) (ls : List Bytes)
    → 1 ≤ length ls
    → bytes_of_lines (suc k) (cons_head c ls) ≡ suc (bytes_of_lines (suc k) ls)
bytes-cons_head c k [] h = absurd (omega (arith, h))
bytes-cons_head c k (l ∷ ls) h = omega arith

-- The lines before one of the text's lines, with their newlines, are bytes of it.
pub bytes_of_lines-within :
    (content : Bytes) (k : ℕ)
    → k < length (split content)
    → bytes_of_lines k (split content) ≤ length content
bytes_of_lines-within content zero h = omega arith
bytes_of_lines-within [] (suc k) h = absurd (omega (arith, h))
bytes_of_lines-within (c ∷ content) (suc k) h = elim (Bool-cases (c == newline)) [
  | inl at_end ↦
      let below : suc k < length ([] ∷ split content) = rw at_end at h in
      rw at_end (omega (arith, bytes_of_lines-within content k (omega (arith, below))))
  | inr inside ↦
      let below : suc k < length (cons_head c (split content)) = rw inside at h in
      let same : length (cons_head c (split content)) ≡ length (split content) =
        length-cons_head c (split content) (some_line content) in
      rw inside (
        omega (
          arith,
          bytes-cons_head c k (split content) (some_line content),
          bytes_of_lines-within content (suc k) (omega (arith, below, same)),
        ))
]

-- A slice of the content is a window.
slice-IsWindow :
    (content : Bytes) (s e : ℕ)
    → s ≤ e
    → e ≤ length content
    → IsWindow content record { search_content = take (e - s) (drop s content); search_offset = s }
slice-IsWindow content s e h k =
    let len : length (take (e - s) (drop s content)) ≡ e - s =
      length-take (e - s) (drop s content) (omega (arith, h, k, length-drop s content)) in
    (omega (arith, len, h, k), ap (λ n. take n (drop s content)) (sym len))

bytes_of_lines-le :
    (m n : ℕ) (lines : List Bytes) → m ≤ n → bytes_of_lines m lines ≤ bytes_of_lines n lines
bytes_of_lines-le zero n lines h = omega arith
bytes_of_lines-le (suc m) zero lines h = absurd (omega (arith, h))
bytes_of_lines-le (suc m) (suc n) [] h = omega arith
bytes_of_lines-le (suc m) (suc n) (l ∷ lines) h =
    omega (arith, bytes_of_lines-le m n lines (omega (arith, h)))

abbrev window_end : Bytes → ℕ → ℕ
window_end content end =
    let line_end = bytes_of_lines end (split content) in
    if ltb (length content) line_end then length content else line_end

-- The bounds of a window of lines, in order and within the content, are those of a slice.
window_bounds :
    (content : Bytes) (start end : ℕ)
    → start - 1 < length (split content)
    → start - 1 ≤ end
    → (bytes_of_lines (start - 1) (split content) ≤ window_end content end)
      × (window_end content end ≤ length content)
window_bounds content start end h le =
    let from = bytes_of_lines-within content (start - 1) h in
    let ordered = bytes_of_lines-le (start - 1) end (split content) le in
    elim (Bool-cases (ltb (length content) (bytes_of_lines end (split content)))) [
      | inl past ↦ rw past (omega (arith, from), omega arith)
      | inr within ↦ rw within (ordered, ground (arith, within))
    ]

-- A window of lines, where they are in order, is a part of the content, and no slice panics.
window_of_lines-IsWindow :
    (content : Bytes) (start end : ℕ)
    → start - 1 < length (split content)
    → start - 1 ≤ end
    → (w : Window) × (window_of_lines content start end ≡ done w) × IsWindow content w
unfolding window_of_lines
window_of_lines-IsWindow content start end h le =
    let from : ℕ = bytes_of_lines (start - 1) (split content) in
    let (ordered, within) = window_bounds content start end h le in
    let in_order : leb from (window_end content end) ≡ true = ground (arith, ordered) in
    let in_range : leb (window_end content end) (length content) ≡ true = ground (arith, within) in
    (
      record {
        search_content = take (window_end content end - from) (drop from content);
        search_offset = from;
      },
      rw (window_of_lines, slice, in_order, in_range) refl,
      slice-IsWindow content from (window_end content end) ordered within,
    )

first_line-positive : (s : Option ℕ) → 1 ≤ first_line s
first_line-positive none = omega arith
first_line-positive (some n) = ground arith

-- The windows of an edit's lines: a part of the content, or an error, and no panic.
abbrev pub GivesWindow : Bytes → Outcome Window → Type 0
GivesWindow content (done w) = IsWindow content w
GivesWindow content (fail e) = Unit
GivesWindow content panic = ⊥

lines_window-GivesWindow :
    (content : Bytes) (s e : Option ℕ) → GivesWindow content (lines_window content s e)
unfolding lines_window
lines_window-GivesWindow content s e =
    let n : ℕ = length (split content) in
    elim (Bool-cases (ltb n (first_line s))) [
      | inl past ↦ rw (lines_window, past) tt
      | inr at_line ↦ elim (Bool-cases (ltb (last_line n e) (first_line s))) [
        | inl crossed ↦ rw (lines_window, at_line, crossed) tt
        | inr ordered ↦
            let (w, gives, is) =
              window_of_lines-IsWindow content (first_line s) (last_line n e)
                (ground (arith, at_line, first_line-positive s)) (ground (arith, ordered)) in
            rw (lines_window, at_line, ordered, gives) is
      ]
    ]

whole-IsWindow : (content : Bytes) → IsWindow content (whole content)
whole-IsWindow content = (omega arith, sym (take_all content))

pub search_window-GivesWindow :
    (content : Bytes) (s e : Option ℕ) → GivesWindow content (search_window content s e)
search_window-GivesWindow content none none = whole-IsWindow content
search_window-GivesWindow content (some s) e = lines_window-GivesWindow content (some s) e
search_window-GivesWindow content none (some e) = lines_window-GivesWindow content none (some e)

pub search_window-IsWindow :
    (content : Bytes) (s e : Option ℕ) (w : Window)
    → search_window content s e ≡ done w
    → IsWindow content w
search_window-IsWindow content s e w h =
    subst (GivesWindow content) h (search_window-GivesWindow content s e)
