-- ===== src/Db/Numbers.antt =====
-- gear/db.c: the numbers that responses get, and the table's primary key.
use gonggo.Base.{
  ℕ, ◌+◌, ◌-◌, ◌<◌, ◌≤◌, ◌≡◌, ◌≢◌, refl, String, Bool, false, List, [], ◌∷◌, ◌++◌, arith, ◌||◌,
  ◌&&◌, if◌then◌else◌, ◌==◌, string_eq, nat_eq, Bool-cases, inl, inr,
}
use gonggo.Db.{
  Row, sqlite_done, max_num, InsertStatus, insert_row, db_respond_insert, PurgeStatus, keep_recent,
  db_respond_purge,
}

abbrev pub has_key : List Row → String → ℕ → Bool
has_key [] rid num = false
has_key (r ∷ rows) rid num = (r.id == rid && r.num == num) || has_key rows rid num

-- PRIMARY KEY (id, num), and numbers from 1.
abbrev pub IsKeyed : List Row → Type 0
IsKeyed [] = Unit
IsKeyed (r ∷ rows) = (has_key rows r.id r.num ≡ false) × (1 ≤ r.num) × IsKeyed rows

has_key-above_max :
    (rows : List Row) (rid : String) (n : ℕ) → max_num rows rid < n → has_key rows rid n ≡ false
unfolding max_num
has_key-above_max [] rid n h = refl
has_key-above_max (r ∷ rows) rid n h = ground (arith, has_key-above_max rows rid n)

has_key-append_one :
    (rows : List Row) (q : Row) (rid : String) (n : ℕ)
    → has_key (rows ++ q ∷ []) rid n ≡ (has_key rows rid n || (q.id == rid && q.num == n))
has_key-append_one [] q rid n = ground arith
has_key-append_one (r ∷ rows) q rid n = ground (arith, has_key-append_one rows q rid n)

append_one-IsKeyed :
    (rows : List Row) (q : Row)
    → has_key rows q.id q.num ≡ false
    → 1 ≤ q.num
    → IsKeyed rows
    → IsKeyed (rows ++ q ∷ [])
append_one-IsKeyed [] q fresh pos k = (refl, pos, tt)
append_one-IsKeyed (r ∷ rows) q fresh pos k = (
  ground (arith, fresh, k.0, has_key-append_one rows q r.id r.num),
  k.1,
  append_one-IsKeyed rows q (ground (arith, fresh)) pos k.2,
)

has_key-keep_recent :
    (before : String → String → Bool) (rows : List Row) (limit rid : String) (n : ℕ)
    → has_key rows rid n ≡ false
    → has_key (keep_recent before rows limit) rid n ≡ false
unfolding keep_recent
has_key-keep_recent before [] limit rid n h = refl
has_key-keep_recent before (r ∷ rows) limit rid n h =
    ground (arith, has_key-keep_recent before rows limit rid n)

keep_recent-IsKeyed :
    (before : String → String → Bool) (rows : List Row) (limit : String)
    → IsKeyed rows
    → IsKeyed (keep_recent before rows limit)
unfolding keep_recent
keep_recent-IsKeyed before [] limit k = tt
keep_recent-IsKeyed before (r ∷ rows) limit k = elim (Bool-cases (before r.ts limit)) [
  | inl old ↦ rw old (keep_recent-IsKeyed before rows limit k.2)
  | inr new ↦ rw new (
    has_key-keep_recent before rows limit r.id r.num k.0,
    k.1,
    keep_recent-IsKeyed before rows limit k.2,
  )
]

abbrev pub next_row : List Row → String → String → String → Row
next_row rows rid respond ts = record {
  id = rid;
  num = max_num rows rid + 1;
  respond = respond;
  ts = ts;
}

-- Where `db_respond_insert` says true, the response is the table's last row, under the request's
-- next number; where it says false, the table is as it was. The aggregate query is taken to give a
-- row whenever it succeeds, as in SQL.
pub db_respond_insert-row :
    (st : InsertStatus) (rows : List Row) (rid respond ts : String)
    → st.step_max ≢ sqlite_done
    → (db_respond_insert st rows rid respond ts).1 ≡ (
        if (db_respond_insert st rows rid respond ts).0
        then rows ++ next_row rows rid respond ts ∷ []
        else rows)
unfolding db_respond_insert insert_row
db_respond_insert-row st rows rid respond ts h = ground arith

-- Every call of `db_respond_insert`, failed or not, keeps the primary key.
pub db_respond_insert-IsKeyed :
    (st : InsertStatus) (rows : List Row) (rid respond ts : String)
    → st.step_max ≢ sqlite_done
    → IsKeyed rows
    → IsKeyed (db_respond_insert st rows rid respond ts).1
db_respond_insert-IsKeyed st rows rid respond ts h k =
    rw (db_respond_insert-row st rows rid respond ts h)
      (elim (Bool-cases (db_respond_insert st rows rid respond ts).0) [
        | inl good ↦ rw good (
            append_one-IsKeyed rows (next_row rows rid respond ts)
              (has_key-above_max rows rid _ (omega arith)) (omega arith) k)
        | inr bad ↦ rw bad k
      ])

-- Every call of `db_respond_purge`, failed or not, keeps the primary key.
db_respond_purge-IsKeyed :
    (before : String → String → Bool) (format : ℕ → String) (st : PurgeStatus) (rows : List Row)
    (now overdue : ℕ)
    → IsKeyed rows
    → IsKeyed (db_respond_purge before format st rows now overdue).1
unfolding db_respond_purge
db_respond_purge-IsKeyed before format st rows now overdue k =
    ground (arith, k, keep_recent-IsKeyed before rows (format (now - overdue)) k)
