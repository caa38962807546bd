-- ===== src/Session/Fresh.antt =====
-- The names that an allocator hands out.
use amplio.Common.{
  ℕ, zero, suc, ◌+◌, ◌≡◌, refl, subst, inl, inr, Bool, true, false, ◌&&◌, not, String, ◌<>◌, Option,
  none, some, List, [], ◌∷◌, ◌++◌, All, length, Bool-cases, Option-cases,
}
use amplio.Session.Nickname.{
  Picked, picked, all_used, panicked, is_used, word_at, two_words, with_suffix, suffix_of, accept,
  free_with, free_names, draw_free, draw_suffixed, pick_available, pick_unique,
  fallback_suffix_alphabet, pool_adj, pool_noun, max_draws, fallback_max_attempts,
}
use amplio.Session.Allocator.{
  NameAllocator, NextName, allocated, not_seeded, no_name, reserve, next_name, new_name_allocator,
}

-- A picked name is not used.
IsFree : List String → Picked → Type 0
IsFree used (picked name) = is_used used name ≡ false
IsFree used all_used = Unit
IsFree used panicked = Unit

accept-IsFree :
    (used : List String) (name : Option String) (later : Picked)
    → IsFree used later
    → IsFree used (accept used name later)
unfolding IsFree
accept-IsFree used none later h = tt
accept-IsFree used (some name) later h = elim (Bool-cases (is_used used name)) [
  | inl taken ↦ rw (accept, taken) h
  | inr free ↦ rw (accept, free) free
]

All-append : (P : String → Type 0) (xs ys : List String) → All P xs → All P ys → All P (xs ++ ys)
All-append P [] ys a b = b
All-append P (x ∷ xs) ys (p, a) b = (p, All-append P xs ys a b)

free_with_free :
    (used : List String) (a : String) (noun : List String)
    → All (λ name. is_used used name ≡ false) (free_with used a noun)
free_with_free used a [] = tt
free_with_free used a (n ∷ noun) = elim (Bool-cases (is_used used (a <> ("-" <> n)))) [
  | inl taken ↦ rw (free_with, taken) (free_with_free used a noun)
  | inr free ↦ rw (free_with, free) (free, free_with_free used a noun)
]

free_names_free :
    (used adj noun : List String)
    → All (λ name. is_used used name ≡ false) (free_names used adj noun)
unfolding free_names
free_names_free used [] noun = tt
free_names_free used (a ∷ adj) noun =
    All-append (λ name. is_used used name ≡ false) (free_with used a noun)
      (free_names used adj noun) (free_with_free used a noun) (free_names_free used adj noun)

word_at-All :
    (P : String → Type 0) (words : List String) (n : ℕ) (w : String)
    → All P words
    → word_at words n ≡ some w
    → P w
word_at-All P [] n w all h = absurd (cc h)
word_at-All P (v ∷ words) zero w all h = let same : v ≡ w = cc h in subst P same all.0
word_at-All P (v ∷ words) (suc n) w all h = word_at-All P words n w all.1 h

module _ (int_n : ℕ → ℕ → ℕ) (adj noun used : List String) where
  draw_free-IsFree : (attempts k : ℕ) → IsFree used (draw_free int_n adj noun used attempts k)
  unfolding IsFree
  draw_free-IsFree zero k = tt
  draw_free-IsFree (suc attempts) k =
      accept-IsFree used (two_words adj noun (int_n k (length adj)) (int_n (k + 1) (length noun)))
        (draw_free int_n adj noun used attempts (k + 2)) (draw_free-IsFree attempts (k + 2))

  draw_suffixed-IsFree :
      (attempts k : ℕ) → IsFree used (draw_suffixed int_n adj noun used attempts k)
  unfolding IsFree
  draw_suffixed-IsFree zero k = tt
  draw_suffixed-IsFree (suc attempts) k =
      accept-IsFree used
        (with_suffix (two_words adj noun (int_n k (length adj)) (int_n (k + 1) (length noun))) (
          suffix_of fallback_suffix_alphabet (int_n (k + 2) 36) (int_n (k + 3) 36)
            (int_n (k + 4) 36)))
        (draw_suffixed int_n adj noun used attempts (k + 5)) (draw_suffixed-IsFree attempts (k + 5))

  pick_available-IsFree :
      (names : List String)
      → All (λ name. is_used used name ≡ false) names
      → IsFree used (pick_available int_n adj noun used names)
  unfolding IsFree
  pick_available-IsFree [] all = draw_suffixed-IsFree fallback_max_attempts 128
  pick_available-IsFree (n ∷ names) all =
      elim (Option-cases (word_at (n ∷ names) (int_n 128 (length (n ∷ names))))) [
        | inl out ↦ rw (pick_available, out) tt
        | inr (name, there) ↦
            rw (pick_available, there)
              (word_at-All (λ w. is_used used w ≡ false) (n ∷ names)
                (int_n 128 (length (n ∷ names))) name all there)
      ]

pick_unique-IsFree :
    (int_n : ℕ → ℕ → ℕ) (adj noun used : List String)
    → IsFree used (pick_unique int_n adj noun used)
unfolding pick_unique IsFree
pick_unique-IsFree int_n adj noun used =
    after_draws (draw_free int_n adj noun used max_draws 0)
      (draw_free-IsFree int_n adj noun used max_draws 0)
  where
    after_draws :
        (p : Picked)
        → IsFree used p
        → IsFree used (elim p [
          | picked name ↦ picked name
          | panicked ↦ panicked
          | all_used ↦ pick_available int_n adj noun used (free_names used adj noun)
        ])
    after_draws (picked name) h = h
    after_draws panicked h = tt
    after_draws all_used h =
        pick_available-IsFree int_n adj noun used (free_names used adj noun)
          (free_names_free used adj noun)

-- A call of `Next`: what ListSessions returns, if it is asked, and the draws.
pub record Call : Type 0 where
  pub sessions : Option (List String)
  pub int_n : ℕ → ℕ → ℕ

abbrev pub name_of : NextName → List String
name_of (allocated name) = name ∷ []
name_of not_seeded = []
name_of no_name = []

-- The names that calls return, one after the other.
unfoldable pub names_of : List Call → NameAllocator → List String
unfolding next_name
names_of [] a = []
names_of (c ∷ calls) a =
    let result = next_name c.sessions c.int_n a in name_of result.0 ++ names_of calls result.1

-- The sessions by which the first call that reads them seeds the allocator.
abbrev pub seeds : List Call → List String
seeds [] = []
seeds (c ∷ calls) = let rest = seeds calls in elim c.sessions [ none ↦ rest | some ids ↦ ids ]

-- Each name is none of the used ones, and none of the names before it.
abbrev pub all_fresh : List String → List String → Bool
all_fresh used [] = true
all_fresh used (name ∷ names) = not (is_used used name) && all_fresh (name ∷ used) names

-- An allocator that has read the sessions.
abbrev seeded_with : List String → NameAllocator
seeded_with used = record { used = used; seeded = true }

after_reserve :
    (calls : List Call) (p : Picked) (used : List String)
    → IsFree used p
    → ((names : List String) → all_fresh names (names_of calls (seeded_with names)) ≡ true)
    → let result = reserve p (seeded_with used) in
      all_fresh used (name_of result.0 ++ names_of calls result.1) ≡ true
unfolding IsFree
after_reserve calls (picked name) used free rest = rw free (rest (name ∷ used))
after_reserve calls all_used used free rest = rest used
after_reserve calls panicked used free rest = rest used

seeded_fresh :
    (calls : List Call) (used : List String)
    → all_fresh used (names_of calls (seeded_with used)) ≡ true
unfolding names_of next_name
seeded_fresh [] used = refl
seeded_fresh (c ∷ calls) used =
    after_reserve calls (pick_unique c.int_n pool_adj pool_noun used) used
      (pick_unique-IsFree c.int_n pool_adj pool_noun used) (seeded_fresh calls)

-- Whatever the calls of a new allocator draw, and whether ListSessions fails in some: each name that
-- they return is none of the sessions that the first successful read lists, and none of the names
-- returned before it.
pub names_fresh :
    (calls : List Call) → all_fresh (seeds calls) (names_of calls new_name_allocator) ≡ true
unfolding names_of next_name new_name_allocator
names_fresh [] = refl
names_fresh (c ∷ calls) = elim (Option-cases c.sessions) [
  | inl fails ↦ rw (seeds, next_name, names_of, fails) (names_fresh calls)
  | inr (ids, listed) ↦
      rw (seeds, next_name, names_of, listed)
        (after_reserve calls (pick_unique c.int_n pool_adj pool_noun ids) ids
          (pick_unique-IsFree c.int_n pool_adj pool_noun ids) (seeded_fresh calls))
]
