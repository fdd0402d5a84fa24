-- ===== src/Client/Request/Laws.antt =====
-- What the functions of gear/clientrequesttable.c do, request by request.
use gonggo.Base.{
  ℕ, ◌≡◌, refl, String, Bool, true, false, none, some, List, [], ◌∷◌, arith, if◌then◌else◌, ◌==◌,
  string_eq, contains, distinct,
}
use gonggo.Base.Int.{ℤ}
use gonggo.Glib.{Glib, find_entry, keys, find_entry-absent}
use gonggo.Client.Request.{
  Conn, null, ClientRequestTableContext, RequestTable, is_expired, collect_expired,
  client_request_table_set, client_request_table_get_conn, client_request_table_remove,
  client_request_table_expired,
}

contains-collect_expired :
    (es : List (String × ClientRequestTableContext)) (now : ℕ) (rid : String)
    → distinct (keys es) ≡ true
    → contains rid (collect_expired es now)
      ≡ elim (find_entry es rid) [ none ↦ false | some ctx ↦ is_expired ctx now ]
unfolding collect_expired
contains-collect_expired [] now rid d = refl
contains-collect_expired ((j, ctx) ∷ es) now rid d =
    ground (arith, contains-collect_expired es now rid, find_entry-absent es rid)

contains-collect_expired-keys :
    (es : List (String × ClientRequestTableContext)) (now : ℕ) (rid : String)
    → contains rid (keys es) ≡ false
    → contains rid (collect_expired es now) ≡ false
unfolding collect_expired
contains-collect_expired-keys [] now rid h = refl
contains-collect_expired-keys ((j, ctx) ∷ es) now rid h =
    ground (arith, contains-collect_expired-keys es now rid)

distinct-collect_expired :
    (es : List (String × ClientRequestTableContext)) (now : ℕ)
    → distinct (keys es) ≡ true
    → distinct (collect_expired es now) ≡ true
unfolding collect_expired
distinct-collect_expired [] now d = refl
distinct-collect_expired ((j, ctx) ∷ es) now d =
    ground (arith, distinct-collect_expired es now, contains-collect_expired-keys es now j)

module _ (G : Glib) where
  abbrev pub conn_of : RequestTable G → String → Conn
  conn_of t rid = elim (G.lookup t rid) [ none ↦ null | some ctx ↦ ctx.conn ]

  -- A request that is entered again takes the new connection, time and limit.
  pub lookup-set :
      (t : RequestTable G) (rid : String) (conn : Conn) (timeoutsec : ℤ) (now : ℕ) (j : String)
      → G.lookup (client_request_table_set G t rid conn timeoutsec now) j ≡ (
          if rid == j
          then some (record { conn = conn; timestamp = now; timeoutsec = timeoutsec })
          else G.lookup t j)
  unfolding client_request_table_set
  lookup-set t rid conn timeoutsec now j = ground (
    arith,
    G.lookup-insert (G.remove t rid) rid
        (record { conn = conn; timestamp = now; timeoutsec = timeoutsec }) j,
    G.lookup-remove t rid j,
  )

  pub get_conn-conn_of :
      (t : RequestTable G) (rid : String) (u r : Bool) (now : ℕ)
      → (client_request_table_get_conn G t rid u r now).0 ≡ conn_of t rid
  unfolding client_request_table_get_conn
  get_conn-conn_of t rid u r now = ground arith

  pub lookup-get_conn_removed :
      (t : RequestTable G) (rid : String) (u : Bool) (now : ℕ) (j : String)
      → G.lookup (client_request_table_get_conn G t rid u true now).1 j
        ≡ (if rid == j then none else G.lookup t j)
  unfolding client_request_table_get_conn
  lookup-get_conn_removed t rid u now j = ground (arith, G.lookup-remove t rid j)

  pub lookup-remove :
      (t : RequestTable G) (rid j : String)
      → G.lookup (client_request_table_remove G t rid) j ≡ (if rid == j then none else G.lookup t j)
  unfolding client_request_table_remove
  lookup-remove t rid j = G.lookup-remove t rid j

  -- The copied ids are those of exactly the requests whose time has run out.
  pub contains-expired :
      (t : RequestTable G) (now : ℕ) (rid : String)
      → contains rid (client_request_table_expired G t now)
        ≡ elim (G.lookup t rid) [ none ↦ false | some ctx ↦ is_expired ctx now ]
  unfolding client_request_table_expired
  contains-expired t now rid = ground (
    arith,
    contains-collect_expired (G.entries t) now rid (G.distinct-entries t),
    G.lookup-entries t rid,
  )

  pub distinct-expired :
      (t : RequestTable G) (now : ℕ) → distinct (client_request_table_expired G t now) ≡ true
  unfolding client_request_table_expired
  distinct-expired t now = distinct-collect_expired (G.entries t) now (G.distinct-entries t)
