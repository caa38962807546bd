-- ===== src/Edit/Text.antt =====
-- The functions of Go's strings package that the tool uses, on bytes.
use mathlib.Core.Option
use amplio.Common.{
  ℕ, suc, Bool, true, false, ◌&&◌, ◌||◌, Option, none, some, List, [], ◌∷◌, ◌++◌, ◌==◌,
  if◌then◌else◌, leb, ◌-◌, length, take, drop, Codes, same_codes,
}
use amplio.Event.{is_nil}
use amplio.Edit.Splice.{Bytes}

abbrev pub newline : ℕ
newline = 10

-- `s[start:end]`, which panics on bounds that are out of range or crossed.
abbrev pub slice : ℕ → ℕ → Bytes → Option Bytes
slice start end s =
    if leb start end && leb end (length s) then some (take (end - start) (drop start s)) else none

-- strings.HasPrefix
abbrev pub has_prefix : Bytes → Bytes → Bool
has_prefix s [] = true
has_prefix [] (p ∷ ps) = false
has_prefix (c ∷ s) (p ∷ ps) = c == p && has_prefix s ps

-- strings.HasSuffix
abbrev pub has_suffix : Bytes → Bytes → Bool
has_suffix [] suffix = is_nil suffix
has_suffix (c ∷ s) suffix = same_codes (c ∷ s) suffix || has_suffix s suffix

-- strings.Index: the first place where `sub` occurs.
abbrev pub index : Bytes → Bytes → Option ℕ
index [] sub = if is_nil sub then some 0 else none
index (c ∷ s) sub =
    let rest = index s sub in
    if has_prefix (c ∷ s) sub then some 0 else Option.map (λ i. suc i) rest

-- strings.Contains
abbrev pub contains : Bytes → Bytes → Bool
contains s sub = elim (index s sub) [ none ↦ false | some i ↦ true ]

abbrev pub cons_head : ℕ → List Bytes → List Bytes
cons_head c [] = (c ∷ []) ∷ []
cons_head c (l ∷ ls) = (c ∷ l) ∷ ls

-- strings.Split on newlines.
abbrev pub split : Bytes → List Bytes
split [] = [] ∷ []
split (c ∷ s) = let rest = split s in if c == newline then [] ∷ rest else cons_head c rest

-- strings.Join
abbrev pub join : Bytes → List Bytes → Bytes
join sep [] = []
join sep (p ∷ []) = p
join sep (p ∷ q ∷ ps) = p ++ (sep ++ join sep (q ∷ ps))

abbrev pub is_blank : ℕ → Bool
is_blank c = c == 32 || (c == 9 || (c == 13 || c == 10))

-- strings.TrimRight with the cut set of space, tab, carriage return and newline.
abbrev pub trim_right_blank : Bytes → Bytes
trim_right_blank [] = []
trim_right_blank (c ∷ s) =
    let rest = trim_right_blank s in if is_nil rest && is_blank c then [] else c ∷ rest

abbrev pub trim_left_hash : Codes → Codes
trim_left_hash [] = []
trim_left_hash (c ∷ s) = let rest = trim_left_hash s in if c == b'#' then rest else c ∷ s
