-- ===== src/Stream/Lookup.antt =====
-- Where a subscription stands on the bus after an operation on it or on another.
use mathlib.Core.Option.{some-injective}
use amplio.Common.{
  ℕ, zero, suc, ◌≡◌, refl, ap, false, some, List, [], ◌∷◌, ◌++◌, map, arith, ◌==◌, length,
}
use amplio.Stream.Bus.{Subscription, sub_at, update_at}

pub sub_at-append :
    (i : ℕ) (s t : Subscription) (subs : List Subscription)
    → sub_at i subs ≡ some s
    → sub_at i (subs ++ t ∷ []) ≡ some s
sub_at-append i s t [] h = absurd (cc h)
sub_at-append zero s t (u ∷ subs) h = h
sub_at-append (suc i) s t (u ∷ subs) h = sub_at-append i s t subs h

pub sub_at-last :
    (t : Subscription) (subs : List Subscription) → sub_at (length subs) (subs ++ t ∷ []) ≡ some t
sub_at-last t [] = refl
sub_at-last t (u ∷ subs) = sub_at-last t subs

pub sub_at-map :
    (i : ℕ) (f : Subscription → Subscription) (s : Subscription) (subs : List Subscription)
    → sub_at i subs ≡ some s
    → sub_at i (map f subs) ≡ some (f s)
sub_at-map i f s [] h = absurd (cc h)
sub_at-map zero f s (u ∷ subs) h = ap (λ v. some (f v)) (some-injective u s h)
sub_at-map (suc i) f s (u ∷ subs) h = sub_at-map i f s subs h

pub sub_at-update_at :
    (i : ℕ) (f : Subscription → Subscription) (s : Subscription) (subs : List Subscription)
    → sub_at i subs ≡ some s
    → sub_at i (update_at i f subs) ≡ some (f s)
sub_at-update_at i f s [] h = absurd (cc h)
sub_at-update_at zero f s (u ∷ subs) h = ap (λ v. some (f v)) (some-injective u s h)
sub_at-update_at (suc i) f s (u ∷ subs) h = sub_at-update_at i f s subs h

pub sub_at_other :
    (i j : ℕ) (f : Subscription → Subscription) (subs : List Subscription)
    → (j == i) ≡ false
    → sub_at i (update_at j f subs) ≡ sub_at i subs
sub_at_other i j f [] h = refl
sub_at_other zero zero f (u ∷ subs) h = absurd (ground (arith, h))
sub_at_other zero (suc j) f (u ∷ subs) h = refl
sub_at_other (suc i) zero f (u ∷ subs) h = refl
sub_at_other (suc i) (suc j) f (u ∷ subs) h = sub_at_other i j f subs (ground (arith, h))
