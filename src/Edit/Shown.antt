-- ===== src/Edit/Shown.antt =====
-- The way of an anchor from view_file (internal/tool/viewfile/viewfile.go shows the anchors of
-- `ComputeAnchors` behind a `#`) to the line that `ResolveAnchor` returns for it.
use Prim.Native.Nat.{◌*◌}
use amplio.Common.{
  ℕ, zero, suc, ◌+◌, ◌<◌, ◌≡◌, refl, ap, ◌∙◌, true, false, some, List, [], ◌∷◌, ◌++◌, arith, length,
  filter, take, length-take, Codes, same_codes,
}
use amplio.Edit.Splice.{Bytes}
use amplio.Edit.Anchor.{window_blob, window_hash, anchors_from, compute_anchors, all_hex, atoi}
use amplio.Edit.Resolve.{found, line, resolve_anchor, anchor_at}
use amplio.Edit.Hits.{resolve_anchor-unhinted, resolve_anchor-hinted}
use amplio.Edit.Address.{parse_anchor_shown, parse_anchor_hinted, all_digits}

all_hex-take : (n : ℕ) (s : Codes) → all_hex s ≡ true → all_hex (take n s) ≡ true
all_hex-take zero s h = refl
all_hex-take (suc n) [] h = refl
all_hex-take (suc n) (c ∷ s) h = ground (arith, all_hex-take n s (ground (arith, h)), h)

-- The digest of `n` bytes is printed as `2 * n` hexadecimal digits in lower case.
module _ (hex_digest : ℕ → Bytes → Codes)
    (hex : (n : ℕ) (blob : Bytes) → all_hex (hex_digest n blob) ≡ true)
    (len : (n : ℕ) (blob : Bytes) → length (hex_digest n blob) ≡ 2 * n) where
  window_hash-hex : (lines : List Bytes) (i : ℕ) → all_hex (window_hash hex_digest lines i) ≡ true
  unfolding window_hash
  window_hash-hex lines i =
      all_hex-take 6 (hex_digest 3 (window_blob lines i)) (hex 3 (window_blob lines i))

  length-window_hash : (lines : List Bytes) (i : ℕ) → length (window_hash hex_digest lines i) ≡ 6
  unfolding window_hash
  length-window_hash lines i =
      length-take 6 (hex_digest 3 (window_blob lines i))
        (omega (arith, len 3 (window_blob lines i)))

  anchor_at-from :
      (lines rest : List Bytes) (k i : ℕ)
      → i < length rest
      → anchor_at (anchors_from hex_digest lines k rest) i
        ≡ some (window_hash hex_digest lines (k + i))
  anchor_at-from lines [] k i h = absurd (omega (arith, h))
  anchor_at-from lines (l ∷ rest) k zero h =
      ap (λ j. some (window_hash hex_digest lines j)) (omega arith)
  anchor_at-from lines (l ∷ rest) k (suc i) h =
      anchor_at-from lines rest (suc k) i (omega (arith, h))
      ∙ ap (λ j. some (window_hash hex_digest lines j)) (omega arith)

  anchor_at-compute :
      (lines : List Bytes) (i : ℕ)
      → i < length lines
      → anchor_at (compute_anchors hex_digest lines) i ≡ some (window_hash hex_digest lines i)
  unfolding compute_anchors
  anchor_at-compute lines i h =
      anchor_at-from lines lines 0 i h
      ∙ ap (λ j. some (window_hash hex_digest lines j)) (omega arith)

  -- The address that shows a line's anchor resolves, in the same file, to that line if no other
  -- line has the anchor. The digest is assumed to be printed in lower-case hexadecimal digits, two
  -- for a byte.
  pub resolve_anchor_shown :
      (lines : List Bytes) (i n_lines : ℕ)
      → i < length lines
      → (length (
            filter
              (λ a. same_codes a (window_hash hex_digest lines i))
              (compute_anchors hex_digest lines))
          ≡ 1)
      → resolve_anchor
          (b'#' ∷ window_hash hex_digest lines i)
          (compute_anchors hex_digest lines)
          n_lines
        ≡ found (line i)
  resolve_anchor_shown lines i n_lines h one =
      let shown : Codes = window_hash hex_digest lines i in
      (resolve_anchor-unhinted (b'#' ∷ shown) shown (compute_anchors hex_digest lines) n_lines i
          (parse_anchor_shown shown (length-window_hash lines i) (window_hash-hex lines i))).1
        (anchor_at-compute lines i h, one)

  -- With the line's number, from one, in decimal digits behind an `@`, it does so in any case.
  pub resolve_anchor_numbered :
      (lines : List Bytes) (i n_lines : ℕ) (digits : Codes)
      → i < length lines
      → all_digits digits ≡ true
      → atoi digits ≡ some (false, suc i)
      → resolve_anchor
          (b'#' ∷ (window_hash hex_digest lines i ++ b'@' ∷ digits))
          (compute_anchors hex_digest lines)
          n_lines
        ≡ found (line i)
  resolve_anchor_numbered lines i n_lines digits h decimal number =
      let shown : Codes = window_hash hex_digest lines i in
      (resolve_anchor-hinted (b'#' ∷ (shown ++ b'@' ∷ digits)) shown
          (compute_anchors hex_digest lines) n_lines (suc i) i
          (parse_anchor_hinted shown digits (suc i) (length-window_hash lines i)
            (window_hash-hex lines i) decimal number (omega arith))).1
        (anchor_at-compute lines i h, omega arith)
