-- ===== src/Session/Picks.antt =====
-- A name is picked as long as one of the pool is free.
use mathlib.Core.List.{Memᴰ}
use mathlib.Core.List.Memᴰ
use amplio.Common.{
  ◌++◌, ℕ, zero, suc, ◌+◌, ◌≤◌, ◌<◌, ◌≡◌, refl, inl, inr, false, String, ◌<>◌, some, List, [], ◌∷◌,
  arith, length, Bool-cases,
}
use amplio.Event.{is_nil}
use amplio.Session.Nickname.{
  Picked, picked, all_used, panicked, is_used, word_at, two_words, accept, free_names, free_with,
  draw_free, pick_available, pick_unique, max_draws,
}

-- An attempt that is over does not panic.
IsCalm : Picked → Type 0
IsCalm (picked name) = Unit
IsCalm all_used = Unit
IsCalm panicked = ⊥

word_at-some :
    (words : List String) (n : ℕ) → n < length words → (w : String) × (word_at words n ≡ some w)
word_at-some [] n h = absurd (omega (arith, h))
word_at-some (w ∷ words) zero h = (w, refl)
word_at-some (w ∷ words) (suc n) h = word_at-some words n (omega (arith, h))

append-some_left : (xs ys : List String) → is_nil xs ≡ false → is_nil (xs ++ ys) ≡ false
append-some_left [] ys h = absurd (cc h)
append-some_left (x ∷ xs) ys h = refl

append-some_right : (xs ys : List String) → is_nil ys ≡ false → is_nil (xs ++ ys) ≡ false
append-some_right [] ys h = h
append-some_right (x ∷ xs) ys h = refl

free_with-some :
    (used : List String) (a : String) (noun : List String) (n : String)
    → Memᴰ n noun
    → is_used used (a <> ("-" <> n)) ≡ false
    → is_nil (free_with used a noun) ≡ false
free_with-some used a [] n of_noun unused = absurd (Memᴰ.not-nil of_noun)
free_with-some used a (m ∷ noun) n of_noun unused =
    elim (Bool-cases (is_used used (a <> ("-" <> m)))) [
      | inr free ↦ rw (free_with, free) refl
      | inl taken ↦ elim (Memᴰ.cases_cons of_noun) [
        | inl same ↦ absurd (cc (taken, unused, same))
        | inr later ↦ rw (free_with, taken) (free_with-some used a noun n later unused)
      ]
    ]

-- The names that are left include each unused one of the pools.
free_names-some :
    (used adj noun : List String) (a n : String)
    → Memᴰ a adj
    → Memᴰ n noun
    → is_used used (a <> ("-" <> n)) ≡ false
    → is_nil (free_names used adj noun) ≡ false
unfolding free_names
free_names-some used [] noun a n of_adj of_noun unused = absurd (Memᴰ.not-nil of_adj)
free_names-some used (b ∷ adj) noun a n of_adj of_noun unused = elim (Memᴰ.cases_cons of_adj) [
  | inl same ↦
      append-some_left (free_with used b noun) (free_names used adj noun)
        (free_with-some used b noun n of_noun (rw (← same) unused))
  | inr later ↦
      append-some_right (free_with used b noun) (free_names used adj noun)
        (free_names-some used adj noun a n later of_noun unused)
]

-- `rng.IntN` with a positive bound gives a number below it.
module _ (int_n : ℕ → ℕ → ℕ) (below : (k n : ℕ) → 1 ≤ n → int_n k n < n)
    (adj noun used : List String) (some_adj : 1 ≤ length adj) (some_noun : 1 ≤ length noun) where
  draw_free-IsCalm : (attempts k : ℕ) → IsCalm (draw_free int_n adj noun used attempts k)
  unfolding IsCalm
  draw_free-IsCalm zero k = tt
  draw_free-IsCalm (suc attempts) k =
      let (a, at_a) = word_at-some adj (int_n k (length adj)) (below k (length adj) some_adj) in
      let (n, at_n) =
        word_at-some noun (int_n (k + 1) (length noun)) (below (k + 1) (length noun) some_noun) in
      elim (Bool-cases (is_used used (a <> ("-" <> n)))) [
        | inl taken ↦
            rw (draw_free, two_words, at_a, at_n, accept, taken) (draw_free-IsCalm attempts (k + 2))
        | inr free ↦ rw (draw_free, two_words, at_a, at_n, accept, free) tt
      ]

  available_picked :
      (names : List String)
      → is_nil names ≡ false
      → (name : String) × (pick_available int_n adj noun used names ≡ picked name)
  available_picked [] h = absurd (cc h)
  available_picked (n ∷ names) h =
      let all : ℕ = length (n ∷ names) in
      let (w, there) = word_at-some (n ∷ names) (int_n 128 all) (below 128 all (omega arith)) in
      (w, rw (pick_available, there) refl)

  -- Where some adjective and some noun of the pools make a name that is not used, and the draws are
  -- within their bounds, PickUnique gives a name: it does not panic, however many of its draws fall
  -- on used names.
  pub pick_unique_picks :
      (a n : String)
      → Memᴰ a adj
      → Memᴰ n noun
      → is_used used (a <> ("-" <> n)) ≡ false
      → (name : String) × (pick_unique int_n adj noun used ≡ picked name)
  unfolding pick_unique IsCalm
  pick_unique_picks a n of_adj of_noun unused =
      after_draws (draw_free int_n adj noun used max_draws 0) (draw_free-IsCalm max_draws 0) (
        available_picked (free_names used adj noun)
          (free_names-some used adj noun a n of_adj of_noun unused))
    where
      after_draws :
          (p : Picked)
          → IsCalm p
          → ((name : String) × (pick_available int_n adj noun used (free_names used adj noun)
                ≡ picked name))
          → (name : String) × ((elim p [
            | picked n ↦ picked n
            | panicked ↦ panicked
            | all_used ↦ pick_available int_n adj noun used (free_names used adj noun)
          ])
              ≡ picked name)
      after_draws (picked n) calm available = (n, refl)
      after_draws all_used calm available = available
      after_draws panicked calm available = absurd calm
