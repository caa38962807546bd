-- ===== src/Db/Order.antt =====
-- ORDER BY step ASC, created_at ASC. Rows with equal keys keep the order of their insertion.
use amplio.Common.{Bool, ◌&&◌, ◌||◌, List, [], ◌∷◌, ltb, leb, ◌==◌, if◌then◌else◌}
use amplio.Db.Types.{EventRecord}

unfoldable pub not_after : EventRecord → EventRecord → Bool
not_after x y = ltb x.step y.step || (x.step == y.step && leb x.created_at y.created_at)

unfoldable pub insert_row : EventRecord → List EventRecord → List EventRecord
insert_row x [] = x ∷ []
insert_row x (y ∷ ys) = if not_after x y then x ∷ y ∷ ys else y ∷ insert_row x ys

unfoldable pub order_rows : List EventRecord → List EventRecord
order_rows [] = []
order_rows (x ∷ xs) = insert_row x (order_rows xs)
