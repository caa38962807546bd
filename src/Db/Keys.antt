-- ===== src/Db/Keys.antt =====
-- Laws of finding and updating rows by key.
use amplio.Common.{
  String, true, false, ◌≡◌, ◌≢◌, ◌⊎◌, inl, inr, refl, List, [], ◌∷◌, some, arith, eq_iff, str_eq,
  Bool-cases,
}
use mathlib.Core.Option
use amplio.Db.Types.{SessionRecord}
use amplio.Db.Rows.{is_session, find_row, update_rows}

-- The update of a row keeps its key.
pub record KeepsKey (f : SessionRecord → SessionRecord) : Type 0 where
  pub run : (x : SessionRecord) → (f x).run_id ≡ x.run_id
  pub session : (x : SessionRecord) → (f x).session_id ≡ x.session_id

pub is_session-key :
    (r s : String) (x : SessionRecord)
    → is_session r s x ≡ true
    → (x.run_id ≡ r) × (x.session_id ≡ s)
unfolding is_session
is_session-key r s x h = ground (arith, eq_iff x.run_id r, eq_iff x.session_id s)

pub is_session_self : (x : SessionRecord) → is_session x.run_id x.session_id x ≡ true
unfolding is_session
is_session_self x = ground (arith, eq_iff x.run_id x.run_id, eq_iff x.session_id x.session_id)

pub is_session-keeps :
    (r s : String) {f : SessionRecord → SessionRecord} (x : SessionRecord)
    → KeepsKey f
    → is_session r s (f x) ≡ is_session r s x
unfolding is_session
is_session-keeps r s x k = rw (k.run x, k.session x)

-- One row is not the row of two keys.
pub is_session-ne :
    (r s r' s' : String) (x : SessionRecord)
    → (r ≢ r') ⊎ (s ≢ s')
    → is_session r s x ≡ true
    → is_session r' s' x ≡ false
unfolding is_session
is_session-ne r s r' s' x ne h =
    ground
      (arith, eq_iff x.run_id r, eq_iff x.session_id s, eq_iff x.run_id r', eq_iff x.session_id s')

pub find_row-key :
    (r s : String) (l : List SessionRecord) (x : SessionRecord)
    → find_row r s l ≡ some x
    → (x.run_id ≡ r) × (x.session_id ≡ s)
unfolding find_row
find_row-key r s [] x h = cc
find_row-key r s (y ∷ l) x h = ground (arith, is_session-key r s x, find_row-key r s l x)

module _ {f : SessionRecord → SessionRecord} (k : KeepsKey f) where
  pub find-update_self :
      (r s : String) (l : List SessionRecord)
      → find_row r s (update_rows r s f l) ≡ Option.map f (find_row r s l)
  unfolding find_row update_rows
  find-update_self r s [] = refl
  find-update_self r s (x ∷ l) = ground (arith, is_session-keeps r s x k, find-update_self r s l)

  pub find-update_ne :
      (r s r' s' : String) (l : List SessionRecord)
      → (r ≢ r') ⊎ (s ≢ s')
      → find_row r' s' (update_rows r s f l) ≡ find_row r' s' l
  unfolding find_row update_rows
  find-update_ne r s r' s' [] ne = refl
  find-update_ne r s r' s' (x ∷ l) ne = ground (
    arith,
    is_session-keeps r' s' x k,
    is_session-ne r s r' s' x ne,
    find-update_ne r s r' s' l ne,
  )

-- Two keys are the same or differ.
pub key-cases : (r s r' s' : String) → ((r ≡ r') × (s ≡ s')) ⊎ ((r ≢ r') ⊎ (s ≢ s'))
key-cases r s r' s' = elim (Bool-cases (str_eq r r')) [
  | inl p ↦ elim (Bool-cases (str_eq s s')) [
    | inl q ↦ inl ((eq_iff r r').0 p, (eq_iff s s').0 q)
    | inr q ↦ inr (inr (λ e. ground (arith, eq_iff s s')))
  ]
  | inr p ↦ inr (inl (λ e. ground (arith, eq_iff r r')))
]
