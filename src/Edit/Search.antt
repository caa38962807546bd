-- ===== src/Edit/Search.antt =====
-- What strings.Index and the loop over its results find.
use amplio.Common.{
  ℕ, zero, suc, ◌+◌, ◌-◌, ◌≤◌, ◌<◌, ◌≡◌, refl, sym, ◌∙◌, ap, subst, true, ◌&&◌, inl, inr, none,
  some, List, [], ◌∷◌, arith, ltb, any, All, length, take, drop, drop-drop, length-drop, Bool-cases,
  Option-cases,
}
use mathlib.Core.Option.{some-injective}
use amplio.Edit.Splice.{Bytes}
use amplio.Edit.Text.{has_prefix, index}
use amplio.Edit.Replace.{matches_from}

has_prefix-take :
    (s sub : Bytes)
    → has_prefix s sub ≡ true
    → (length sub ≤ length s) × (take (length sub) s ≡ sub)
has_prefix-take s [] h = (omega arith, refl)
has_prefix-take [] (p ∷ ps) h = absurd (ground (arith, h))
has_prefix-take (c ∷ s) (p ∷ ps) h =
    let rest : (length ps ≤ length s) × (take (length ps) s ≡ ps) =
      has_prefix-take s ps (ground (arith, h)) in
    let head : c ≡ p = ground (arith, h) in
    (omega (arith, rest.0), ap (λ x. x ∷ take (length ps) s) head ∙ ap (λ l. p ∷ l) rest.1)

-- A result of strings.Index is a place where the text has the other one, and the first such place.
index-some : (s sub : Bytes) (k : ℕ) → index s sub ≡ some k → has_prefix (drop k s) sub ≡ true
index-some [] [] k h =
    let first : 0 ≡ k = some-injective 0 k h in
    subst (λ j. has_prefix (drop j []) [] ≡ true) first refl
index-some [] (p ∷ ps) k h = absurd (cc h)
index-some (c ∷ s) sub k h = elim (Bool-cases (has_prefix (c ∷ s) sub)) [
  | inl here ↦
      let first : 0 ≡ k = some-injective 0 k (rw here at h) in
      subst (λ j. has_prefix (drop j (c ∷ s)) sub ≡ true) first here
  | inr later ↦ elim (Option-cases (index s sub)) [
    | inl missing ↦ absurd (cc (rw (later, missing) at h))
    | inr (j, there) ↦
        let next : suc j ≡ k = some-injective (suc j) k (rw (later, there) at h) in
        subst (λ n. has_prefix (drop n (c ∷ s)) sub ≡ true) next (index-some s sub j there)
  ]
]

index_first :
    (s sub : Bytes) (k j : ℕ) → index s sub ≡ some k → has_prefix (drop j s) sub ≡ true → k ≤ j
index_first [] [] k j h there = let first : 0 ≡ k = some-injective 0 k h in omega (arith, first)
index_first [] (p ∷ ps) k j h there = absurd (cc h)
index_first (c ∷ s) sub k zero h there =
    let first : 0 ≡ k = some-injective 0 k (rw there at h) in omega (arith, first)
index_first (c ∷ s) sub k (suc j) h there = elim (Bool-cases (has_prefix (c ∷ s) sub)) [
  | inl here ↦ let first : 0 ≡ k = some-injective 0 k (rw here at h) in omega (arith, first)
  | inr later ↦ elim (Option-cases (index s sub)) [
    | inl missing ↦ absurd (cc (rw (later, missing) at h))
    | inr (i, found) ↦
        let next : suc i ≡ k = some-injective (suc i) k (rw (later, found) at h) in
        omega (arith, next, index_first s sub i j found there)
  ]
]

absent_everywhere :
    (s sub : Bytes) (j : ℕ) → index s sub ≡ none → has_prefix (drop j s) sub ≡ true → ⊥
absent_everywhere [] [] j h there = absurd (cc h)
absent_everywhere [] (p ∷ ps) zero h there = absurd (cc there)
absent_everywhere [] (p ∷ ps) (suc j) h there = absurd (cc there)
absent_everywhere (c ∷ s) sub zero h there = absurd (cc (rw there at h))
absent_everywhere (c ∷ s) sub (suc j) h there = elim (Bool-cases (has_prefix (c ∷ s) sub)) [
  | inl here ↦ absurd (cc (rw here at h))
  | inr later ↦ elim (Option-cases (index s sub)) [
    | inl missing ↦ absent_everywhere s sub j missing there
    | inr (i, found) ↦ absurd (cc (rw (later, found) at h))
  ]
]

-- The positions from `p` on are places, in ascending order, none of which reaches into the next, of
-- a length `len` within `n`.
abbrev pub IsApart : ℕ → ℕ → ℕ → List ℕ → Type 0
IsApart p n len [] = p ≤ n
IsApart p n len (m ∷ ms) = (p ≤ m) × IsApart (m + len) n len ms

matches_stop :
    (fuel : ℕ) (text sub : Bytes) (p : ℕ)
    → index (drop p text) sub ≡ none
    → matches_from (suc fuel) text sub p ≡ []
unfolding matches_from
matches_stop fuel text sub p missing = rw (matches_from, missing) refl

matches_step :
    (fuel : ℕ) (text sub : Bytes) (p idx : ℕ)
    → index (drop p text) sub ≡ some idx
    → matches_from (suc fuel) text sub p
      ≡ (p + idx) ∷ matches_from fuel text sub (p + idx + length sub)
unfolding matches_from
matches_step fuel text sub p idx found = rw (matches_from, found) refl

module _ (text sub : Bytes) (nonempty : 1 ≤ length sub) where
  -- A match lies in the text, and is one.
  match_here :
      (p idx : ℕ)
      → index (drop p text) sub ≡ some idx
      → (p + idx + length sub ≤ length text) × (take (length sub) (drop (p + idx) text) ≡ sub)
  match_here p idx h =
      let moved : drop idx (drop p text) ≡ drop (p + idx) text = drop-drop idx p text in
      let found : (length sub ≤ length (drop (p + idx) text))
          × (take (length sub) (drop (p + idx) text) ≡ sub) =
        has_prefix-take (drop (p + idx) text) sub
          (subst (λ s. has_prefix s sub ≡ true) moved (index-some (drop p text) sub idx h)) in
      (omega (arith, found.0, nonempty, length-drop (p + idx) text), found.1)

  pub matches-IsApart :
      (fuel p : ℕ)
      → p ≤ length text
      → IsApart p (length text) (length sub) (matches_from fuel text sub p)
  unfolding matches_from
  matches-IsApart zero p h = h
  matches-IsApart (suc fuel) p h = elim (Option-cases (index (drop p text) sub)) [
    | inl missing ↦ rw (matches_stop fuel text sub p missing) h
    | inr (idx, found) ↦
        rw (matches_step fuel text sub p idx found)
          (omega arith, matches-IsApart fuel (p + idx + length sub) (match_here p idx found).0)
  ]

  pub matches_match :
      (fuel p : ℕ) → All (λ m. take (length sub) (drop m text) ≡ sub) (matches_from fuel text sub p)
  unfolding matches_from
  matches_match zero p = tt
  matches_match (suc fuel) p = elim (Option-cases (index (drop p text) sub)) [
    | inl missing ↦ rw (matches_stop fuel text sub p missing) tt
    | inr (idx, found) ↦
        rw (matches_step fuel text sub p idx found)
          ((match_here p idx found).1, matches_match fuel (p + idx + length sub))
  ]

  -- With a round for each byte, every place where the text has `sub` meets a match.
  pub matches_cover :
      (fuel p q : ℕ)
      → length text - p < fuel
      → p ≤ q
      → has_prefix (drop q text) sub ≡ true
      → any (λ m. ltb m (q + length sub) && ltb q (m + length sub)) (matches_from fuel text sub p)
        ≡ true
  unfolding matches_from
  matches_cover zero p q enough le there = absurd (omega (arith, enough))
  matches_cover (suc fuel) p q enough le there =
      let moved : drop q text ≡ drop (q - p) (drop p text) =
        ap (λ k. drop k text) (omega (arith, le)) ∙ sym (drop-drop (q - p) p text) in
      let here : has_prefix (drop (q - p) (drop p text)) sub ≡ true =
        subst (λ s. has_prefix s sub ≡ true) moved there in
      elim (Option-cases (index (drop p text) sub)) [
        | inl missing ↦ absurd (absent_everywhere (drop p text) sub (q - p) missing here)
        | inr (idx, found) ↦
            let first : idx ≤ q - p = index_first (drop p text) sub idx (q - p) found here in
            rw (matches_step fuel text sub p idx found)
              (elim (Bool-cases (ltb q (p + idx + length sub))) [
                | inl meets ↦ ground (arith, meets, first, le, nonempty)
                | inr behind ↦
                    let later : any (λ m. ltb m (q + length sub) && ltb q (m + length sub))
                          (matches_from fuel text sub (p + idx + length sub))
                        ≡ true =
                      matches_cover fuel (p + idx + length sub) q
                        (omega (arith, enough, nonempty, (match_here p idx found).0))
                        (ground (arith, behind)) there in
                    ground (arith, later)
              ])
      ]
