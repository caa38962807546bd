-- ===== src/Edit/Anchor.antt =====
-- The line anchors of internal/tool/anchor/anchor.go.
use Prim.Native.Nat.{◌*◌, ◌^◌}
use amplio.Common.{
  ℕ, zero, suc, ◌+◌, ◌-◌, Bool, true, false, ◌&&◌, ◌||◌, not, Option, none, some, List, [], ◌∷◌,
  ◌++◌, map, ltb, leb, ◌==◌, if◌then◌else◌, length, take, drop, Codes, codes, same_codes,
}
use amplio.Event.{is_nil}
use amplio.Loop.Text.{trim_space, lower}
use amplio.Edit.Splice.{Bytes}
use amplio.Edit.Text.{has_suffix, index, split, join, trim_right_blank, trim_left_hash, newline}

abbrev pub hash_hex_len : ℕ
hash_hex_len = 6

abbrev pub window_radius : ℕ
window_radius = 2

abbrev pub fingerprint_hex_len : ℕ
fingerprint_hex_len = 12

-- `normalizeLine`
abbrev pub normalize_line : Bytes → Bytes
normalize_line = trim_right_blank

-- The line at an index, normalized, and nothing behind the last line.
abbrev pub normalized_at : List Bytes → ℕ → Bytes
normalized_at [] n = []
normalized_at (l ∷ ls) zero = normalize_line l
normalized_at (l ∷ ls) (suc n) = normalized_at ls n

-- The part of the window at `idx - WindowRadius + k`.
abbrev pub window_part : List Bytes → ℕ → ℕ → Bytes
window_part lines idx k =
    if ltb (idx + k) window_radius then [] else normalized_at lines (idx + k - window_radius)

-- The lines of the window around an index, joined by zero bytes.
abbrev pub window_blob : List Bytes → ℕ → Bytes
window_blob lines idx =
    let part = window_part lines idx in
    join (0 ∷ []) (part 0 ∷ part 1 ∷ part 2 ∷ part 3 ∷ part 4 ∷ [])

-- `SplitTextForAnchors`, the removal of the empty line that a last newline leaves.
abbrev pub drop_last_empty : List Bytes → List Bytes
drop_last_empty [] = []
drop_last_empty (l ∷ []) = if is_nil l then [] else l ∷ []
drop_last_empty (l ∷ m ∷ ls) = l ∷ drop_last_empty (m ∷ ls)

-- `SplitTextForAnchors`
unfoldable pub split_text_for_anchors : Bytes → List Bytes × Bool
split_text_for_anchors [] = ([], false)
split_text_for_anchors (c ∷ text) = (
  drop_last_empty (split (c ∷ text)),
  has_suffix (c ∷ text) (10 ∷ []) || has_suffix (c ∷ text) (13 ∷ 10 ∷ []),
)

-- `hex_digest n blob` are the hexadecimal digits of the BLAKE2b digest of n bytes.
module _ (hex_digest : ℕ → Bytes → Codes) where
  -- `WindowHash`
  unfoldable pub window_hash : List Bytes → ℕ → Codes
  window_hash lines idx = take hash_hex_len (hex_digest 3 (window_blob lines idx))

  abbrev pub anchors_from : List Bytes → ℕ → List Bytes → List Codes
  anchors_from lines i [] = []
  anchors_from lines i (l ∷ rest) = window_hash lines i ∷ anchors_from lines (suc i) rest

  -- `ComputeAnchors`
  unfoldable pub compute_anchors : List Bytes → List Codes
  compute_anchors lines = anchors_from lines 0 lines

  -- `FileFingerprint`
  unfoldable pub file_fingerprint : List Bytes → Bool → Codes
  file_fingerprint lines had_trailing_newline =
      let normalized = join (newline ∷ []) (map normalize_line lines) in
      take fingerprint_hex_len (
        hex_digest 6 (
          if had_trailing_newline && not (is_nil lines)
          then normalized ++ newline ∷ []
          else normalized))

-- What ParseAnchor returns: the sentinels, and a hash with its line hint.
pub data Anchor : Type 0 where
  bof eof : Anchor
  hash : Codes → Option ℕ → Anchor

abbrev pub is_digit : ℕ → Bool
is_digit c = leb b'0' c && leb c b'9'

abbrev pub digits_from : ℕ → Codes → Option ℕ
digits_from acc [] = some acc
digits_from acc (c ∷ s) =
    let rest = digits_from (10 * acc + (c - b'0')) s in if is_digit c then rest else none

-- The digits of strconv.Atoi: at least one, and a magnitude up to a limit.
abbrev pub magnitude : ℕ → Codes → Option ℕ
magnitude limit [] = none
magnitude limit (c ∷ s) = elim (digits_from 0 (c ∷ s)) [
  | none ↦ none
  | some n ↦ if leb n limit then some n else none
]

-- strconv.Atoi: the sign, true for a negative number, and the magnitude.
abbrev pub atoi : Codes → Option (Bool × ℕ)
atoi [] = none
atoi (c ∷ s) =
    if c == b'-'
    then elim (magnitude (2 ^ 63) s) [ none ↦ none | some n ↦ some (true, n) ]
    else elim (magnitude (2 ^ 63 - 1) (if c == b'+' then s else c ∷ s)) [
      | none ↦ none
      | some n ↦ some (false, n)
    ]

abbrev pub is_hex_digit : ℕ → Bool
is_hex_digit c = is_digit c || (leb b'a' c && leb c b'f')

abbrev pub all_hex : Codes → Bool
all_hex [] = true
all_hex (c ∷ s) = is_hex_digit c && all_hex s

-- The end of `ParseAnchor`: six hexadecimal digits, in lower case.
abbrev pub parse_hash : Codes → Option ℕ → Option Anchor
parse_hash stripped hint =
    let canonical = map lower stripped in
    if length stripped == hash_hex_len && all_hex canonical
    then some (hash canonical hint)
    else none

-- The line number after the `@`, which is at least one.
abbrev pub parse_line_hint : Codes → Option ℕ
parse_line_hint line_str = elim (atoi line_str) [
  | none ↦ none
  | some n ↦ if n.0 || ltb n.1 1 then none else some n.1
]

abbrev pub parse_address : Codes → Option Anchor
parse_address stripped = elim (index stripped (b'@' ∷ [])) [
  | none ↦ parse_hash stripped none
  | some at ↦ elim (parse_line_hint (drop (suc at) stripped)) [
    | none ↦ none
    | some n ↦ parse_hash (take at stripped) (some n)
  ]
]

-- `ParseAnchor`: `none` is each of its errors, which are all ErrAnchorParse.
unfoldable pub parse_anchor : Codes → Option Anchor
unfolding trim_space lower
parse_anchor text =
    let stripped = trim_space (trim_left_hash text) in
    if is_nil stripped
    then none
    else if same_codes stripped (codes "BOF")
    then some bof
    else if same_codes stripped (codes "EOF")
    then some eof
    else parse_address stripped
