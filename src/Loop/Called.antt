-- ===== src/Loop/Called.antt =====
-- Which tool calls of a list of rows have no result: the ids that `orphans` collects.

use amplio.Common.{
  ℕ, String, Bool, true, false, not, ◌&&◌, ◌||◌, ◌≡◌, refl, ap, ◌∙◌, List, [], ◌∷◌, ◌++◌, arith,
  eq_iff, str_eq, filter, any,
}
use amplio.Event.{Event, ToolCall, assistant}
use amplio.Db.Types.{EventRecord}
use amplio.Db.Order.{order_rows, insert_row}
use amplio.Loop.Orphans.{
  declare, declare_calls, declare_event, declared_steps, has_result, orphaned, insert_id, sort_ids,
  orphans,
}

any-insert_row :
    (p : EventRecord → Bool) (x : EventRecord) (xs : List EventRecord)
    → any p (insert_row x xs) ≡ (p x || any p xs)
unfolding insert_row
any-insert_row p x [] = refl
any-insert_row p x (y ∷ ys) = ground (arith, any-insert_row p x ys)

pub any-order_rows :
    (p : EventRecord → Bool) (xs : List EventRecord) → any p (order_rows xs) ≡ any p xs
unfolding order_rows
any-order_rows p [] = refl
any-order_rows p (x ∷ xs) =
    any-insert_row p x (order_rows xs) ∙ ap (λ b. p x || b) (any-order_rows p xs)

pub any-filter-snoc {ℓ} :
    {A : Type ℓ} (q p : A → Bool) (xs : List A) (x : A)
    → p x ≡ true
    → any q (filter p (xs ++ x ∷ [])) ≡ (any q (filter p xs) || q x)
any-filter-snoc q p [] x px = ground (arith, px)
any-filter-snoc q p (y ∷ ys) x px = ground (arith, any-filter-snoc q p ys x px, px)

-- `id` is called in some assistant event of the rows.
abbrev pub calls : String → Event → Bool
calls id (assistant a) = any (λ (c : ToolCall). str_eq c.id id) a.tool_calls
calls id _ = false

unfoldable pub declared : String → List EventRecord → Bool
declared id xs = any (λ x. calls id x.event) xs

-- An id is a key of the map.
unfoldable pub has_key : String → List (String × ℕ) → Bool
has_key id m = any (λ (e : String × ℕ). str_eq e.0 id) m

pub has_key-nil : (id : String) → has_key id [] ≡ false
unfolding has_key
has_key-nil id = refl

has_key-declare :
    (id k : String) (n : ℕ) (m : List (String × ℕ))
    → has_key id (declare k n m) ≡ (str_eq k id || has_key id m)
unfolding has_key declare
has_key-declare id k n [] = ground arith
has_key-declare id k n ((j, i) ∷ m) = ground (arith, has_key-declare id k n m, eq_iff j k)

has_key-declare_calls :
    (id : String) (n : ℕ) (cs : List ToolCall) (m : List (String × ℕ))
    → has_key id (declare_calls n cs m)
      ≡ (any (λ (c : ToolCall). str_eq c.id id) cs || has_key id m)
unfolding declare_calls
has_key-declare_calls id n [] m = refl
has_key-declare_calls id n (c ∷ cs) m =
    ground (arith, has_key-declare_calls id n cs (declare c.id n m), has_key-declare id c.id n m)

has_key-declare_event :
    (id : String) (n : ℕ) (e : Event) (m : List (String × ℕ))
    → has_key id (declare_event n e m) ≡ (calls id e || has_key id m)
has_key-declare_event id n (assistant a) m = has_key-declare_calls id n a.tool_calls m
has_key-declare_event id n _ m = refl

has_key-declared_steps :
    (id : String) (xs : List EventRecord) (m : List (String × ℕ))
    → has_key id (declared_steps xs m) ≡ (declared id xs || has_key id m)
unfolding declared_steps declared
has_key-declared_steps id [] m = refl
has_key-declared_steps id (x ∷ xs) m = ground (
  arith,
  has_key-declared_steps id xs (declare_event x.step x.event m),
  has_key-declare_event id x.step x.event m,
)

has_key-insert_id :
    (id : String) (o : String × ℕ) (m : List (String × ℕ))
    → has_key id (insert_id o m) ≡ (str_eq o.0 id || has_key id m)
unfolding has_key insert_id
has_key-insert_id id (k, n) [] = refl
has_key-insert_id id (k, n) (y ∷ ys) = ground (arith, has_key-insert_id id (k, n) ys)

has_key-sort_ids : (id : String) (m : List (String × ℕ)) → has_key id (sort_ids m) ≡ has_key id m
unfolding sort_ids
has_key-sort_ids id [] = refl
has_key-sort_ids id (o ∷ m) =
    has_key-insert_id id o (sort_ids m)
    ∙ ap (λ b. str_eq o.0 id || b) (has_key-sort_ids id m)
    ∙ unfold has_key in refl

has_key-orphaned :
    (id : String) (xs : List EventRecord) (m : List (String × ℕ))
    → has_key id (filter (orphaned xs) m) ≡ (has_key id m && not (has_result id xs))
unfolding has_key
has_key-orphaned id xs [] = refl
has_key-orphaned id xs ((k, n) ∷ m) = ground (arith, has_key-orphaned id xs m, eq_iff k id)

-- The orphans are the ids that are called and have no result.
pub has_key-orphans :
    (id : String) (xs : List EventRecord)
    → has_key id (orphans xs) ≡ (declared id xs && not (has_result id xs))
unfolding orphans
has_key-orphans id xs = ground (
  arith,
  has_key-sort_ids id (filter (orphaned xs) (declared_steps xs [])),
  has_key-orphaned id xs (declared_steps xs []),
  has_key-declared_steps id xs [],
  has_key-nil id,
)
