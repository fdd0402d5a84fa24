-- ===== src/Tests/Storage.antt =====
-- The theorems on the database and on the configuration file, on small files.
use gonggo.Base.{
  ℕ, ◌+◌, ◌≡◌, ◌≢◌, ◌++◌, refl, String, Bool, true, false, Option, some, List, [], ◌∷◌, arith,
  string_eq, nat_eq, bytes_eq, codes, length,
}
use gonggo.Db.{
  Row, InsertStatus, QueryStatus, PurgeStatus, db_respond_insert, db_respond_query, sqlite_done,
  insert_row, max_num, order_by_num, select_rows, insert_by_num,
}
use gonggo.Db.Numbers.{IsKeyed, db_respond_insert-row}
use gonggo.Db.Rows.{rows_from}
use gonggo.Db.Pages.{IsHealthy, texts, db_respond_query-pages}
use gonggo.Conf.{
  parse, squeeze_space, confvar_create, confvar_absent, confvar_validate, valid, before, behind,
  make_var, parse_text, create, confvar_value, first_absent, is_space, is_digit, skip_space,
  read_digits, signed_long, read_long, strtol_unspaced, strtol, confvar_long, check_positive,
  check_ping, check_numbers, check_vars,
}
use gonggo.Conf.Text.{is_plain, squeeze_space_plain, IsLine}
use gonggo.Conf.Validate.{IsChecked, confvar_validate-IsChecked}

abbrev row : ℕ → String → Row
row n s = record { id = "r1"; num = n; respond = s; ts = "t" }

abbrev rows : List Row
rows = row 2 "b" ∷ row 1 "a" ∷ []

rows-IsKeyed : IsKeyed rows
rows-IsKeyed = (ground arith, omega arith, (ground arith, omega arith, tt))

abbrev good_insert : InsertStatus
good_insert = record {
  open_db = 0;
  prepare_max = 0;
  bind_max_id = 0;
  step_max = 100;
  prepare_insert = 0;
  bind_id = 0;
  bind_num = 0;
  bind_respond = 0;
  step_insert = 101;
}

row_given : good_insert.step_max ≢ sqlite_done
row_given = ground arith

db_respond_insert-row_example :
    (db_respond_insert good_insert rows "r1" "c" "t").1 ≡ rows ++ row 3 "c" ∷ []
unfolding string_eq nat_eq db_respond_insert insert_row max_num
db_respond_insert-row_example = db_respond_insert-row good_insert rows "r1" "c" "t" row_given

abbrev never : String → String → Bool
never s t = false

abbrev stamp : ℕ → String
stamp n = "t"

abbrev good_purge : PurgeStatus
good_purge = record { open_db = 0; prepare = 0; bind_time = 0; step = 101 }

abbrev good_query : QueryStatus
good_query = record {
  open_db = 0;
  prepare_count = 0;
  bind_count_id = 0;
  bind_count_start = 0;
  step_count = 100;
  prepare = 0;
  bind_id = 0;
  bind_start = 0;
  bind_limit = 0;
  fetched = 2;
  last = 101;
}

query-IsHealthy : IsHealthy good_query rows
query-IsHealthy = record {
  open_ok = refl;
  prepare_count_ok = refl;
  bind_count_id_ok = refl;
  bind_count_start_ok = refl;
  step_count_row = refl;
  prepare_ok = refl;
  bind_id_ok = refl;
  bind_start_ok = refl;
  bind_limit_ok = refl;
  fetched_all = omega arith;
  last_done = refl;
}

has_rows : rows_from rows "r1" 1 ≢ []
unfolding string_eq nat_eq order_by_num select_rows insert_by_num
has_rows = ground arith

db_respond_query-pages_example :
    let r = (db_respond_query good_query rows "r1" 1 1).1 in
    (r.respond ++ texts (rows_from rows "r1" (r.stop + 1)) ≡ texts (rows_from rows "r1" 1))
    × (r.more ≡ length (rows_from rows "r1" (r.stop + 1)))
db_respond_query-pages_example =
    db_respond_query-pages good_query rows "r1" 1 1 rows-IsKeyed query-IsHealthy (omega arith)
      (omega arith) has_rows

squeeze_space_plain_example : is_plain (squeeze_space (codes " a b#c")) ≡ true
squeeze_space_plain_example = squeeze_space_plain (codes " a b#c")

-- The line ` port = 80 #http`, in its parts.
IsLine-given :
    IsLine
      (codes " ")
      (codes "port")
      (codes " ")
      (codes " ")
      (codes "80")
      (codes " ")
      (codes "http")
unfolding nat_eq
IsLine-given = record {
  a_blank = refl;
  b_blank = refl;
  c_blank = refl;
  d_blank = refl;
  key_plain = refl;
  val_plain = refl;
  val_filled = ground arith;
  left_free = refl;
  no_nul = refl;
  no_newline = refl;
}

-- A file with the ten keys.
abbrev line : String → List ℕ
line s = codes s ++ 10 ∷ []

abbrev conf_file : Option (List (List ℕ))
conf_file = some (
    line "pidfile=a"
    ∷ line "logpath=b"
    ∷ line "port=80"
    ∷ line "gonggo=g"
    ∷ line "dbpath=d"
    ∷ line "responddrainoverdue=60"
    ∷ line "responddrainperiod=5"
    ∷ line "respondquerysize=10"
    ∷ line "clienttimeoutperiod=1"
    ∷ line "pingms=0"
    ∷ [])

conf-valid : confvar_validate conf_file false ≡ valid (confvar_create conf_file) false
unfolding nat_eq bytes_eq confvar_validate confvar_create confvar_absent before behind make_var
    parse parse_text squeeze_space create confvar_value first_absent is_space is_digit skip_space
    read_digits signed_long read_long strtol_unspaced strtol confvar_long check_positive check_ping
    check_numbers check_vars
conf-valid = refl

confvar_validate-IsChecked_example :
    IsChecked (confvar_create conf_file) × (confvar_create conf_file ≡ confvar_create conf_file)
confvar_validate-IsChecked_example =
    confvar_validate-IsChecked conf_file false false (confvar_create conf_file) conf-valid
