-- ===== src/Db/Rows.antt =====
-- Rows of the tables by their key (run_id, session_id): the WHERE clauses that the queries share.
use amplio.Common.{String, Bool, ◌&&◌, List, [], ◌∷◌, Option, none, some, str_eq, if◌then◌else◌}
use amplio.Db.Types.{SessionRecord, EventRecord}
use amplio.Db.State.{Store}

-- run_id = ? AND session_id = ?
unfoldable pub is_session : String → String → SessionRecord → Bool
is_session r s x = str_eq x.run_id r && str_eq x.session_id s

unfoldable pub is_event_of : String → String → EventRecord → Bool
is_event_of r s x = str_eq x.run_id r && str_eq x.session_id s

unfoldable pub find_row : String → String → List SessionRecord → Option SessionRecord
find_row r s [] = none
find_row r s (x ∷ xs) = if is_session r s x then some x else find_row r s xs

-- The row of a session, if there is one.
unfoldable pub find_session : String → String → Store → Option SessionRecord
unfolding find_row
find_session r s d = find_row r s d.sessions

-- UPDATE Session SET ... WHERE run_id = ? AND session_id = ?
unfoldable pub update_rows :
    String → String → (SessionRecord → SessionRecord) → List SessionRecord → List SessionRecord
update_rows r s f [] = []
update_rows r s f (x ∷ xs) = (if is_session r s x then f x else x) ∷ update_rows r s f xs

unfoldable pub update_session : String → String → (SessionRecord → SessionRecord) → Store → Store
update_session r s f d = record d { sessions = update_rows r s f d.sessions }
