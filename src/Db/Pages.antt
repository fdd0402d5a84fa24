-- ===== src/Db/Pages.antt =====
-- gear/db.c, `db_respond_query`: the pages of a request's responses.
use gonggo.Base.{
  ℕ, zero, suc, ◌+◌, ◌-◌, ◌≤◌, ◌≡◌, ◌≢◌, refl, String, Bool, true, List, [], ◌∷◌, ◌++◌, arith,
  if◌then◌else◌, nat_eq, ltb, Bool-cases, inl, inr, drop, take, length, ap, ◌∙◌, length-take,
  take_all,
}
use mathlib.Core.List.{append_assoc, append-nil}
use gonggo.Db.{
  Row, RespondQueryResult, QueryStatus, sqlite_ok, sqlite_row, sqlite_done, select_rows,
  insert_by_num, order_by_num, fetch_rows, query_page, query_total, db_respond_query, empty_result,
}
use gonggo.Db.Numbers.{IsKeyed}
use gonggo.Db.Rows.{rows_from, last_num, rows_from-drop}

abbrev pub texts : List Row → List String
texts [] = []
texts (r ∷ rows) = r.respond ∷ texts rows

-- No call fails, and the loop gets every row of its statement.
pub record IsHealthy (st : QueryStatus) (rows : List Row) : Type 0 where
  pub open_ok : st.open_db ≡ sqlite_ok
  pub prepare_count_ok : st.prepare_count ≡ sqlite_ok
  pub bind_count_id_ok : st.bind_count_id ≡ sqlite_ok
  pub bind_count_start_ok : st.bind_count_start ≡ sqlite_ok
  pub step_count_row : st.step_count ≡ sqlite_row
  pub prepare_ok : st.prepare ≡ sqlite_ok
  pub bind_id_ok : st.bind_id ≡ sqlite_ok
  pub bind_start_ok : st.bind_start ≡ sqlite_ok
  pub bind_limit_ok : st.bind_limit ≡ sqlite_ok
  pub fetched_all : length rows ≤ st.fetched
  pub last_done : st.last ≡ sqlite_done

length-insert_by_num : (r : Row) (xs : List Row) → length (insert_by_num r xs) ≡ length xs + 1
unfolding insert_by_num
length-insert_by_num r [] = omega arith
length-insert_by_num r (x ∷ xs) = ground (arith, length-insert_by_num r xs)

length-order_by_num : (xs : List Row) → length (order_by_num xs) ≡ length xs
unfolding order_by_num
length-order_by_num [] = refl
length-order_by_num (x ∷ xs) =
    omega (arith, length-insert_by_num x (order_by_num xs), length-order_by_num xs)

length-select :
    (rows : List Row) (rid : String) (start : ℕ) → length (select_rows rows rid start) ≤ length rows
unfolding select_rows
length-select [] rid start = omega arith
length-select (r ∷ rows) rid start = ground (arith, length-select rows rid start)

fetch_rows_lem :
    (xs : List Row) (r : RespondQueryResult)
    → fetch_rows xs r ≡ record r { respond = r.respond ++ texts xs; stop = last_num r.stop xs }
unfolding fetch_rows
fetch_rows_lem [] r = ground (arith, append-nil r.respond)
fetch_rows_lem (x ∷ xs) r =
    fetch_rows_lem xs (record r { respond = r.respond ++ x.respond ∷ []; stop = x.num })
    ∙ ground (arith, append_assoc r.respond (x.respond ∷ []) (texts xs))

-- The page of at most `size` rows.
abbrev pub page : List Row → String → ℕ → ℕ → List Row
page rows rid start size = take size (rows_from rows rid start)

count-take :
    (xs : List Row) (size total : ℕ)
    → length xs ≡ total
    → take (if ltb size total then size else total) xs ≡ take size xs
count-take xs size total h = elim (Bool-cases (ltb size total)) [
  | inl more ↦ rw more
  | inr fits ↦
      rw (fits, take_all total xs (omega (arith, h)), take_all size xs (ground (arith, h, fits)))
]

query_page_lem :
    (st : QueryStatus) (rows : List Row) (rid : String) (start count : ℕ) (r : RespondQueryResult)
    → IsHealthy st rows
    → query_page st rows rid start count r
      ≡ (true, fetch_rows (take count (rows_from rows rid start)) r)
unfolding query_page
query_page_lem st rows rid start count r h = ground (
  arith,
  h,
  take_all st.fetched (take count (rows_from rows rid start)) (
      omega (
        arith,
        h.fetched_all,
        length-take count (rows_from rows rid start),
        length-order_by_num (select_rows rows rid start),
        length-select rows rid start,
      )),
)

abbrev whole_page : List Row → ℕ → Bool × RespondQueryResult
whole_page xs size = (
  true,
  record {
    respond = texts (take size xs);
    stop = last_num 0 (take size xs);
    more = length xs - size;
  },
)

query_total_lem :
    (st : QueryStatus) (rows : List Row) (rid : String) (start size total : ℕ)
    → IsHealthy st rows
    → length (rows_from rows rid start) ≡ total
    → query_total st rows rid start size total ≡ whole_page (rows_from rows rid start) size
unfolding query_total
query_total_lem st rows rid start size total h e = elim (Bool-cases (ltb total 1)) [
  | inl none_left ↦
      rw (none_left, short (rows_from rows rid start) (ground (arith, e, none_left))) (none_of size)
  | inr some_left ↦
      rw
        (
          some_left,
          query_page_lem st rows rid start (if ltb size total then size else total)
              (record empty_result { more = if ltb size total then total - size else 0 }) h,
          count-take (rows_from rows rid start) size total e,
          fetch_rows_lem (page rows rid start size)
              (record empty_result { more = if ltb size total then total - size else 0 }),
        )
        (ground (arith, e))
]
  where
    short : (xs : List Row) → length xs ≡ 0 → xs ≡ []
    short [] e = refl
    short (x ∷ xs) e = absurd (omega arith)

    none_of :
        (size : ℕ) → ◌≡◌ {A = Bool × RespondQueryResult} (true, empty_result) (whole_page [] size)
    none_of zero = ground arith
    none_of (suc size) = ground arith

-- A query that no call fails gives the texts of the first `size` rows of the request from number
-- `start` on, in the order of their numbers, the number of the last of them, and how many rows
-- remain.
pub db_respond_query-page :
    (st : QueryStatus) (rows : List Row) (rid : String) (start size : ℕ)
    → IsHealthy st rows
    → db_respond_query st rows rid start size ≡ (
      true,
      record {
        respond = texts (page rows rid start size);
        stop = last_num 0 (page rows rid start size);
        more = length (rows_from rows rid start) - size;
      },
    )
unfolding db_respond_query
db_respond_query-page st rows rid start size h = ground (
  arith,
  h,
  query_total_lem st rows rid start size (length (select_rows rows rid start)) h
      (length-order_by_num (select_rows rows rid start)),
)

-- Pages join: behind a page that is not empty, asking again from the number after its last one
-- gives the rest, and the page has said how many these are. The first page with the texts of the
-- rest is all that was asked for.
pub db_respond_query-pages :
    (st : QueryStatus) (rows : List Row) (rid : String) (start size : ℕ)
    → IsKeyed rows
    → IsHealthy st rows
    → 1 ≤ start
    → 1 ≤ size
    → rows_from rows rid start ≢ []
    → let r = (db_respond_query st rows rid start size).1 in
      (r.respond ++ texts (rows_from rows rid (r.stop + 1)) ≡ texts (rows_from rows rid start))
      × (r.more ≡ length (rows_from rows rid (r.stop + 1)))
db_respond_query-pages st rows rid start size k h s z ne =
    rw (db_respond_query-page st rows rid start size h, rows_from-drop rows rid start size k s z ne)
      (join (rows_from rows rid start) size, left (rows_from rows rid start) size)
  where
    join : (xs : List Row) (n : ℕ) → texts (take n xs) ++ texts (drop n xs) ≡ texts xs
    join xs zero = refl
    join [] (suc n) = refl
    join (x ∷ xs) (suc n) = ap (◌∷◌ x.respond) (join xs n)

    left : (xs : List Row) (n : ℕ) → length xs - n ≡ length (drop n xs)
    left xs zero = omega arith
    left [] (suc n) = omega arith
    left (x ∷ xs) (suc n) = omega (arith, left xs n)

length-texts : (xs : List Row) → length (texts xs) ≡ length xs
length-texts [] = refl
length-texts (x ∷ xs) = ap suc (length-texts xs)

query_page_bound :
    (st : QueryStatus) (rows : List Row) (rid : String) (start count : ℕ) (r : RespondQueryResult)
    → r.respond ≡ []
    → length (query_page st rows rid start count r).1.respond ≤ count
unfolding query_page
query_page_bound st rows rid start count r e =
    let selected = take count (rows_from rows rid start) in
    ground (
      arith,
      e,
      fetch_rows_lem (take st.fetched selected) r,
      length-texts (take st.fetched selected),
      length-take st.fetched selected,
      length-take count (rows_from rows rid start),
    )

-- Whatever fails, the responses of a query are never more than it has made room for.
pub db_respond_query_bound :
    (st : QueryStatus) (rows : List Row) (rid : String) (start size : ℕ)
    → length (db_respond_query st rows rid start size).1.respond ≤ size
unfolding db_respond_query query_total
db_respond_query_bound st rows rid start size = ground (
  arith,
  query_page_bound st rows rid start size
      (record empty_result { more = length (select_rows rows rid start) - size }) refl,
  query_page_bound st rows rid start (length (select_rows rows rid start)) empty_result refl,
)
