-- ===== src/Stream/Flight.antt =====
-- The deliveries that calls of `Publish` have still to make.
use mathlib.Core.Option.{some-injective}
use mathlib.Core.List.{Perm}
use mathlib.Core.List.Perm
use amplio.Common.{
  ℕ, zero, suc, ◌+◌, ◌<◌, ◌≡◌, refl, ap, subst, true, false, inl, inr, some, List, [], ◌∷◌, ◌++◌,
  arith, ◌==◌, if◌then◌else◌, Bool-cases,
}
use amplio.Stream.Bus.{RunEvent, Subscription, sub_at, is_target, targets, delivery_at, without}
use amplio.Stream.Reader.{pending}

pub pending-append :
    (i : ℕ) (xs ys : List (ℕ × RunEvent)) → pending i (xs ++ ys) ≡ pending i xs ++ pending i ys
pending-append i [] ys = refl
pending-append i ((j, ev) ∷ xs) ys = elim (Bool-cases (j == i)) [
  | inl same ↦ rw same (ap (λ l. ev ∷ l) (pending-append i xs ys))
  | inr other ↦ rw other (pending-append i xs ys)
]

abbrev pub for_place : ℕ → ℕ × RunEvent → List RunEvent
for_place i (j, ev) = if j == i then ev ∷ [] else []

-- A delivery is taken out of what is left.
pub pending-without :
    (i n : ℕ) (ds : List (ℕ × RunEvent)) (d : ℕ × RunEvent)
    → delivery_at n ds ≡ some d
    → Perm (for_place i d ++ pending i (without n ds)) (pending i ds)
pending-without i n [] d h = absurd (cc h)
pending-without i zero ((j, ev) ∷ ds) (k, e) h =
    let same : (j, ev) ≡ (k, e) = some-injective (j, ev) (k, e) h in
    subst (λ x. Perm (for_place i x ++ pending i ds) (pending i ((j, ev) ∷ ds))) same
      (elim (Bool-cases (j == i)) [
        | inl here ↦ rw here (Perm.refl (ev ∷ pending i ds))
        | inr other ↦ rw other (Perm.refl (pending i ds))
      ])
pending-without i (suc n) ((j, ev) ∷ ds) (k, e) h =
    let rest = pending-without i n ds (k, e) h in
    elim (Bool-cases (j == i)) [
      | inr other ↦ rw other rest
      | inl here ↦ elim (Bool-cases (k == i)) [
        | inr away ↦ rw (here, away) (Perm.cons ev (rw away at rest))
        | inl too ↦
            rw (here, too)
              (Perm.trans (Perm.swap ev e (pending i (without n ds)))
                (Perm.cons ev (rw too at rest)))
      ]
    ]

targets-past :
    (i k : ℕ) (ev : RunEvent) (subs : List Subscription)
    → i < k
    → pending i (targets ev k subs) ≡ []
targets-past i k ev [] h = refl
targets-past i k ev (s ∷ subs) h =
    let rest = targets-past i (suc k) ev subs (omega (arith, h)) in
    let differs : (k == i) ≡ false = ground (arith, h) in
    elim (Bool-cases (is_target ev s)) [
      | inl target ↦ rw (target, differs) rest
      | inr other ↦ rw other rest
    ]

-- A snapshot has one delivery to a target, and none to another subscription.
pub pending-targets :
    (i k m : ℕ) (ev : RunEvent) (subs : List Subscription) (s : Subscription)
    → i ≡ k + m
    → sub_at m subs ≡ some s
    → pending i (targets ev k subs) ≡ (if is_target ev s then ev ∷ [] else [])
pending-targets i k m ev [] s place h = absurd (cc h)
pending-targets i k zero ev (t ∷ subs) s place h =
    let same : t ≡ s = some-injective t s h in
    let past = targets-past i (suc k) ev subs (omega (arith, place)) in
    let here : (k == i) ≡ true = ground (arith, place) in
    subst (λ x. pending i (targets ev k (t ∷ subs)) ≡ (if is_target ev x then ev ∷ [] else [])) same
      (elim (Bool-cases (is_target ev t)) [
        | inl target ↦ rw (target, here) (ap (λ l. ev ∷ l) past)
        | inr other ↦ rw other past
      ])
pending-targets i k (suc m) ev (t ∷ subs) s place h =
    let rest = pending-targets i (suc k) m ev subs s (omega (arith, place)) h in
    let differs : (k == i) ≡ false = ground (arith, place) in
    elim (Bool-cases (is_target ev t)) [
      | inl target ↦ rw (target, differs) rest
      | inr other ↦ rw other rest
    ]
