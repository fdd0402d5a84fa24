-- ===== src/Db.antt =====
-- gear/db.c and db.h: the table `request` of stored responses. A database is its list of rows. What
-- SQLite's calls return is an argument: each may fail, and then the function stops there. The lock
-- is held throughout, so each function is one step.
pub mod Numbers
pub mod Rows
pub mod Pages
pub mod Drain
use gonggo.Base.{
  ℕ, zero, suc, ◌+◌, ◌-◌, String, Bool, true, false, Option, none, some, List, [], ◌∷◌, ◌++◌, map,
  if◌then◌else◌, ◌==◌, ◌&&◌, ltb, leb, string_eq, nat_eq, length, take,
}

-- CREATE TABLE request (id, num, respond, ts, PRIMARY KEY (id, num))
pub record Row : Type 0 where
  pub id : String
  pub num : ℕ
  pub respond : String
  pub ts : String

pub record RespondQueryResult : Type 0 where
  pub respond : List String
  pub stop : ℕ
  pub more : ℕ

abbrev pub sqlite_ok : ℕ
sqlite_ok = 0

abbrev pub sqlite_row : ℕ
sqlite_row = 100

abbrev pub sqlite_done : ℕ
sqlite_done = 101

-- `db_error`, without the log.
abbrev pub db_error : ℕ → Bool
db_error status = if status == sqlite_ok then false else true

-- SELECT MAX(num) FROM request WHERE id = ?; no row reads as 0.
unfoldable pub max_num : List Row → String → ℕ
max_num [] rid = 0
max_num (r ∷ rows) rid =
    let rest = max_num rows rid in
    if r.id == rid then (if ltb rest r.num then r.num else rest) else rest

-- What the calls of `db_respond_insert` return, in order.
pub record InsertStatus : Type 0 where
  pub open_db : ℕ
  pub prepare_max : ℕ
  pub bind_max_id : ℕ
  pub step_max : ℕ
  pub prepare_insert : ℕ
  pub bind_id : ℕ
  pub bind_num : ℕ
  pub bind_respond : ℕ
  pub step_insert : ℕ

-- The second statement: INSERT INTO request (id, num, respond) VALUES (?, ?, ?).
unfoldable pub insert_row : InsertStatus → List Row → String → ℕ → String → String → Bool × List Row
insert_row st rows rid num respond ts =
    if db_error st.prepare_insert
    then (false, rows)
    else if db_error st.bind_id
    then (false, rows)
    else if db_error st.bind_num
    then (false, rows)
    else if db_error st.bind_respond
    then (false, rows)
    else if st.step_insert == sqlite_done
    then (true, rows ++ (record { id = rid; num = num + 1; respond = respond; ts = ts }) ∷ [])
    else (false, rows)

-- `ts` is the column's default, the local time as text.
unfoldable pub db_respond_insert :
    InsertStatus → List Row → String → String → String → Bool × List Row
db_respond_insert st rows rid respond ts =
    if db_error st.open_db
    then (false, rows)
    else if db_error st.prepare_max
    then (false, rows)
    else if db_error st.bind_max_id
    then (false, rows)
    else if st.step_max == sqlite_row
    then insert_row st rows rid (max_num rows rid) respond ts
    else if st.step_max == sqlite_done
    then insert_row st rows rid 0 respond ts
    else (false, rows)

pub record PurgeStatus : Type 0 where
  pub open_db : ℕ
  pub prepare : ℕ
  pub bind_time : ℕ
  pub step : ℕ

-- DELETE FROM request WHERE ts < ?; `before` is SQLite's order on texts.
unfoldable pub keep_recent : (String → String → Bool) → List Row → String → List Row
keep_recent before [] limit = []
keep_recent before (r ∷ rows) limit =
    let rest = keep_recent before rows limit in if before r.ts limit then rest else r ∷ rest

-- `format t` is `strftime` of the local time at `t`.
unfoldable pub db_respond_purge :
    (String → String → Bool) → (ℕ → String) → PurgeStatus → List Row → ℕ → ℕ → Bool × List Row
db_respond_purge before format st rows now overdue =
    if db_error st.open_db
    then (false, rows)
    else if db_error st.prepare
    then (false, rows)
    else if db_error st.bind_time
    then (false, rows)
    else if st.step == sqlite_done
    then (true, keep_recent before rows (format (now - overdue)))
    else (false, rows)

-- WHERE id = ? AND num >= ?
unfoldable pub select_rows : List Row → String → ℕ → List Row
select_rows [] rid start = []
select_rows (r ∷ rows) rid start =
    let rest = select_rows rows rid start in
    if r.id == rid then (if leb start r.num then r ∷ rest else rest) else rest

-- ORDER BY num
unfoldable pub insert_by_num : Row → List Row → List Row
insert_by_num r [] = r ∷ []
insert_by_num r (q ∷ rows) = if leb r.num q.num then r ∷ q ∷ rows else q ∷ insert_by_num r rows

unfoldable pub order_by_num : List Row → List Row
order_by_num [] = []
order_by_num (r ∷ rows) = insert_by_num r (order_by_num rows)

-- What the calls of `db_respond_query` return: `fetched` steps of the last statement give a row,
-- the next one gives `last`.
pub record QueryStatus : Type 0 where
  pub open_db : ℕ
  pub prepare_count : ℕ
  pub bind_count_id : ℕ
  pub bind_count_start : ℕ
  pub step_count : ℕ
  pub prepare : ℕ
  pub bind_id : ℕ
  pub bind_start : ℕ
  pub bind_limit : ℕ
  pub fetched : ℕ
  pub last : ℕ

abbrev pub empty_result : RespondQueryResult
empty_result = record { respond = []; stop = 0; more = 0 }

-- The loop over the rows: each text is appended, and the last number stays.
unfoldable pub fetch_rows : List Row → RespondQueryResult → RespondQueryResult
fetch_rows [] r = r
fetch_rows (row ∷ rows) r =
    fetch_rows rows (record r { respond = r.respond ++ row.respond ∷ []; stop = row.num })

-- The second statement, with LIMIT `count`.
unfoldable pub query_page :
    QueryStatus → List Row → String → ℕ → ℕ → RespondQueryResult → Bool × RespondQueryResult
query_page st rows rid start count r =
    if db_error st.prepare
    then (false, r)
    else if db_error st.bind_id
    then (false, r)
    else if db_error st.bind_start
    then (false, r)
    else if db_error st.bind_limit
    then (false, r)
    else let selected = take count (order_by_num (select_rows rows rid start)) in
      (if st.last == sqlite_done then true else false, fetch_rows (take st.fetched selected) r)

-- With the total at hand.
unfoldable pub query_total : QueryStatus → List Row → String → ℕ → ℕ → ℕ → Bool × RespondQueryResult
query_total st rows rid start size total =
    if ltb total 1
    then (true, empty_result)
    else query_page st rows rid start (if ltb size total then size else total)
        (record empty_result { more = if ltb size total then total - size else 0 })

unfoldable pub db_respond_query :
    QueryStatus → List Row → String → ℕ → ℕ → Bool × RespondQueryResult
db_respond_query st rows rid start size =
    if db_error st.open_db
    then (false, empty_result)
    else if db_error st.prepare_count
    then (false, empty_result)
    else if db_error st.bind_count_id
    then (false, empty_result)
    else if db_error st.bind_count_start
    then (false, empty_result)
    else if st.step_count == sqlite_row
    then query_total st rows rid start size (length (select_rows rows rid start))
    else if st.step_count == sqlite_done
    then query_total st rows rid start size 0
    else (false, empty_result)
