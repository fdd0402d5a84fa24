-- ===== src/Db/Drain.antt =====
-- gear/dbresponddrain.c: the thread that purges stored responses; and gear/db.c, `db_ensure`, which
-- makes the table, and `db_context_init`, which names its file.
use gonggo.Base.{
  ℕ, String, Bool, true, false, List, [], ◌∷◌, ◌++◌, if◌then◌else◌, Option, none, some, codes,
}
use gonggo.Db.{Row, db_error, PurgeStatus, db_respond_purge}

-- What SQLite gives for the file and the table; a database that is made new has no row.
unfoldable pub db_ensure : ℕ → ℕ → Option (List Row) → Bool × List Row
db_ensure open_db create_table rows =
    let found : List Row = elim rows [ none ↦ [] | some rs ↦ rs ] in
    if db_error open_db
    then (false, found)
    else if db_error create_table
    then (false, found)
    else (true, found)

-- The path is made once.
unfoldable pub db_context_init : Option (List ℕ) → List ℕ → List ℕ → List ℕ
db_context_init none gonggo_name path = path ++ (codes "/" ++ (gonggo_name ++ codes ".db"))
db_context_init (some db_path) gonggo_name path = db_path

-- One turn: `db_respond_end` at the head of the loop, SQLite's results, the time, and the table as
-- it is by then, to which other threads may have added.
pub record DrainTurn : Type 0 where
  pub stopping : Bool
  pub status : PurgeStatus
  pub now : ℕ
  pub added : List Row → List Row

-- The loop; whether it has ended, and the table.
unfoldable pub db_respond_drain :
    (String → String → Bool) → (ℕ → String) → ℕ → List Row → List DrainTurn → Bool × List Row
db_respond_drain before format overdue rows [] = (false, rows)
db_respond_drain before format overdue rows (t ∷ ts) =
    let found = t.added rows in
    let (good, kept) = db_respond_purge before format t.status found t.now overdue in
    let result = db_respond_drain before format overdue kept ts in
    if t.stopping then (true, found) else result
