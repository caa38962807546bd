-- ===== src/Edit/Resolve.antt =====
-- `ResolveAnchor` of internal/tool/anchor/anchor.go, and where the lines that it returns stand.
use amplio.Common.{
  ℕ, zero, suc, ◌-◌, ◌≡◌, refl, Option, none, some, List, [], ◌∷◌, inl, inr, ◌==◌, if◌then◌else◌,
  any, Codes, same_codes, ◌⊎◌,
}
use amplio.Edit.Anchor.{bof, eof, hash, parse_anchor}

-- The errors: ErrAnchorParse, and the three of ErrAnchorResolve.
pub data AnchorError : Type 0 where
  unparsed not_found unmatched_hint ambiguous : AnchorError

-- A line's index, where -1 is `before_first`.
pub data Position : Type 0 where
  before_first : Position
  line : ℕ → Position

pub data Resolved : Type 0 where
  found : Position → Resolved
  refused : AnchorError → Resolved

-- The indices of the anchors that are the canonical one.
abbrev pub hits_from : ℕ → Codes → List Codes → List ℕ
hits_from i canonical [] = []
hits_from i canonical (a ∷ anchors) =
    let rest = hits_from (suc i) canonical anchors in
    if same_codes a canonical then i ∷ rest else rest

-- What the hits decide, with the line hint or without one.
abbrev pub choose_hit : List ℕ → Option ℕ → Resolved
choose_hit [] hint = refused not_found
choose_hit (h ∷ []) none = found (line h)
choose_hit (h ∷ k ∷ hits) none = refused ambiguous
choose_hit (h ∷ hits) (some n) =
    if any (λ i. i == n - 1) (h ∷ hits) then found (line (n - 1)) else refused unmatched_hint

-- `ResolveAnchor`
unfoldable pub resolve_anchor : Codes → List Codes → ℕ → Resolved
resolve_anchor text anchors n_lines = elim (parse_anchor text) [
  | none ↦ refused unparsed
  | some bof ↦ found before_first
  | some eof ↦ found (line n_lines)
  | some (hash canonical hint) ↦ choose_hit (hits_from 0 canonical anchors) hint
]

-- The anchor at an index.
abbrev pub anchor_at : List Codes → ℕ → Option Codes
anchor_at [] i = none
anchor_at (a ∷ anchors) zero = some a
anchor_at (a ∷ anchors) (suc i) = anchor_at anchors i

pub Resolved-cases :
    (r : Resolved) → ((p : Position) × (r ≡ found p)) ⊎ ((e : AnchorError) × (r ≡ refused e))
Resolved-cases (found p) = inl (p, refl)
Resolved-cases (refused e) = inr (e, refl)
