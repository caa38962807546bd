-- ===== src/Edit/Hits.antt =====
-- Which lines `ResolveAnchor` of internal/tool/anchor/anchor.go returns.
use mathlib.Core.Option.{some-injective}
use amplio.Common.{
  ℕ, zero, suc, ◌+◌, ◌-◌, ◌≤◌, ◌≡◌, ◌↔◌, refl, sym, ◌∙◌, ap, true, Option, none, some, List, [],
  ◌∷◌, inl, inr, arith, ◌==◌, any, filter, length, subst, Bool-cases, Codes, same_codes,
  same_codes-eq, same_codes_of_self,
}
use amplio.Edit.Anchor.{hash, parse_anchor}
use amplio.Edit.Resolve.{found, line, hits_from, choose_hit, resolve_anchor, anchor_at}

-- The anchor at the index `i`, counted from `k`, is the canonical one.
IsHit : ℕ → Codes → List Codes → ℕ → Type 0
IsHit k canonical anchors i = (k ≤ i) × (anchor_at anchors (i - k) ≡ some canonical)

IsHit-suc :
    (k : ℕ) (canonical a : Codes) (anchors : List Codes) (i : ℕ)
    → IsHit (suc k) canonical anchors i
    → IsHit k canonical (a ∷ anchors) i
unfolding IsHit
IsHit-suc k canonical a anchors i (h, e) =
    let next : i - k ≡ suc (i - suc k) = omega (arith, h) in (omega (arith, h), rw next e)

IsHit-here :
    (k : ℕ) (canonical a : Codes) (anchors : List Codes) (i : ℕ)
    → same_codes a canonical ≡ true
    → k ≡ i
    → IsHit k canonical (a ∷ anchors) i
unfolding IsHit
IsHit-here k canonical a anchors i same here =
    let first : i - k ≡ 0 = omega (arith, here) in
    (omega (arith, here), rw first (ap some (same_codes-eq a canonical same)))

hits-IsHit :
    (canonical : Codes) (anchors : List Codes) (k i : ℕ)
    → any (λ j. j == i) (hits_from k canonical anchors) ≡ true
    → IsHit k canonical anchors i
hits-IsHit canonical [] k i h = absurd (ground (arith, h))
hits-IsHit canonical (a ∷ anchors) k i h = elim (Bool-cases (same_codes a canonical)) [
  | inr other ↦
      IsHit-suc k canonical a anchors i (hits-IsHit canonical anchors (suc k) i (rw other at h))
  | inl same ↦ elim (Bool-cases (k == i)) [
    | inl here ↦ IsHit-here k canonical a anchors i same (ground (arith, here))
    | inr later ↦
        IsHit-suc k canonical a anchors i
          (hits-IsHit canonical anchors (suc k) i (rw (same, later) at h))
  ]
]

hits_complete :
    (canonical : Codes) (anchors : List Codes) (k j : ℕ)
    → anchor_at anchors j ≡ some canonical
    → any (λ i. i == k + j) (hits_from k canonical anchors) ≡ true
hits_complete canonical [] k j h = absurd (ground (arith, h))
hits_complete canonical (a ∷ anchors) k zero h =
    let same : same_codes a canonical ≡ true =
      ap (λ b. same_codes b canonical) (some-injective a canonical h)
      ∙ same_codes_of_self canonical in
    rw same (ground arith)
hits_complete canonical (a ∷ anchors) k (suc j) h =
    let rest : any (λ i. i == suc k + j) (hits_from (suc k) canonical anchors) ≡ true =
      hits_complete canonical anchors (suc k) j h in
    let moved : k + suc j ≡ suc k + j = omega arith in rw moved (ground (arith, rest))

-- The hits, from those counted from `0`, are the indices of the canonical anchor.
hit_iff :
    (canonical : Codes) (anchors : List Codes) (i : ℕ)
    → (any (λ j. j == i) (hits_from 0 canonical anchors) ≡ true)
      ↔ (anchor_at anchors i ≡ some canonical)
unfolding IsHit
hit_iff canonical anchors i =
    let same : i - 0 ≡ i = omega arith in
    let zero_plus : 0 + i ≡ i = omega arith in
    (
      λ h. rw same at (hits-IsHit canonical anchors 0 i h).1,
      λ h. rw zero_plus at (hits_complete canonical anchors 0 i h),
    )

hits_count :
    (canonical : Codes) (anchors : List Codes) (k : ℕ)
    → length (hits_from k canonical anchors) ≡ length (filter (λ a. same_codes a canonical) anchors)
hits_count canonical [] k = refl
hits_count canonical (a ∷ anchors) k = ground (arith, hits_count canonical anchors (suc k))

one_hit :
    (hits : List ℕ) (i : ℕ)
    → length hits ≡ 1
    → any (λ j. j == i) hits ≡ true
    → choose_hit hits none ≡ found (line i)
one_hit [] i one h = absurd (omega (arith, one))
one_hit (j ∷ []) i one h = let same : j ≡ i = ground (arith, h) in rw same refl
one_hit (j ∷ k ∷ hits) i one h = absurd (omega (arith, one))

-- Of a choice without a hint: the one hit.
choice_alone : (hits : List ℕ) (i : ℕ) → choose_hit hits none ≡ found (line i) → hits ≡ i ∷ []
choice_alone [] i h = absurd (cc h)
choice_alone (j ∷ []) i h = let same : j ≡ i = cc h in ap (λ n. n ∷ []) same
choice_alone (j ∷ k ∷ hits) i h = absurd (cc h)

choice_hinted :
    (hits : List ℕ) (n : ℕ)
    → any (λ j. j == n - 1) hits ≡ true
    → choose_hit hits (some n) ≡ found (line (n - 1))
choice_hinted [] n h = absurd (ground (arith, h))
choice_hinted (j ∷ hits) n h = rw h refl

chooses :
    (text canonical : Codes) (hint : Option ℕ) (anchors : List Codes) (n_lines : ℕ)
    → parse_anchor text ≡ some (hash canonical hint)
    → resolve_anchor text anchors n_lines ≡ choose_hit (hits_from 0 canonical anchors) hint
unfolding resolve_anchor
chooses text canonical hint anchors n_lines parsed = rw (resolve_anchor, parsed) refl

hint_chosen :
    (hits : List ℕ) (n i : ℕ)
    → choose_hit hits (some n) ≡ found (line i)
    → (any (λ j. j == n - 1) hits ≡ true) × (i ≡ n - 1)
hint_chosen [] n i h = absurd (cc h)
hint_chosen (j ∷ hits) n i h = elim (Bool-cases (any (λ j. j == n - 1) (j ∷ hits))) [
  | inl there ↦ (there, cc (rw there at h))
  | inr missing ↦ absurd (cc (rw missing at h))
]

-- An anchor without a line hint resolves to a line exactly if the line carries it and no other
-- line does.
pub resolve_anchor-unhinted :
    (text canonical : Codes) (anchors : List Codes) (n_lines i : ℕ)
    → parse_anchor text ≡ some (hash canonical none)
    → (resolve_anchor text anchors n_lines ≡ found (line i)) ↔ (
        (anchor_at anchors i ≡ some canonical)
        × (length (filter (λ a. same_codes a canonical) anchors) ≡ 1))
resolve_anchor-unhinted text canonical anchors n_lines i parsed =
    let hits : List ℕ = hits_from 0 canonical anchors in
    let opened : resolve_anchor text anchors n_lines ≡ choose_hit hits none =
      chooses text canonical none anchors n_lines parsed in
    let count : length hits ≡ length (filter (λ a. same_codes a canonical) anchors) =
      hits_count canonical anchors 0 in
    (
      λ h.
          let only : hits ≡ i ∷ [] = choice_alone hits i (sym opened ∙ h) in
          ((hit_iff canonical anchors i).0 (rw only (ground arith)), sym count ∙ ap length only),
      λ h. opened ∙ one_hit hits i (count ∙ h.1) ((hit_iff canonical anchors i).1 h.0),
    )

-- An anchor with a line hint resolves to a line exactly if the hint names it and it carries the
-- anchor, however many lines do.
pub resolve_anchor-hinted :
    (text canonical : Codes) (anchors : List Codes) (n_lines n i : ℕ)
    → parse_anchor text ≡ some (hash canonical (some n))
    → (resolve_anchor text anchors n_lines ≡ found (line i))
      ↔ ((anchor_at anchors i ≡ some canonical) × (i ≡ n - 1))
resolve_anchor-hinted text canonical anchors n_lines n i parsed =
    let hits : List ℕ = hits_from 0 canonical anchors in
    let opened : resolve_anchor text anchors n_lines ≡ choose_hit hits (some n) =
      chooses text canonical (some n) anchors n_lines parsed in
    (
      λ h.
          let chosen : (any (λ j. j == n - 1) hits ≡ true) × (i ≡ n - 1) =
            hint_chosen hits n i (sym opened ∙ h) in
          (rw chosen.1 ((hit_iff canonical anchors (n - 1)).0 chosen.0), chosen.1),
      λ h. rw h.1 (
          opened
          ∙ choice_hinted hits n (
              (hit_iff canonical anchors (n - 1)).1
                (subst (λ j. anchor_at anchors j ≡ some canonical) h.1 h.0))),
    )
