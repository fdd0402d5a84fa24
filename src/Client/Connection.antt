-- ===== src/Client/Connection.antt =====
-- gear/clientconnectiontable.c: the requests of each connection. Each function is one step on the
-- table, under its lock; `table` is the shared one or a caller's own.
pub mod Laws
use gonggo.Base.{
  ℕ, String, Bool, true, false, Option, none, some, List, [], ◌∷◌, ◌++◌, ltb, if◌then◌else◌,
  string_eq, nat_eq, length,
}
use gonggo.Glib.{Glib, find_index, remove_index}
use gonggo.Client.Request.{Conn}

module _ (G : Glib) where
  abbrev pub ConnectionTable : Type 0
  ConnectionTable = G.Table Conn (List String)

  unfoldable pub client_connection_table_set : ConnectionTable → Conn → String → ConnectionTable
  client_connection_table_set t conn rid = elim (G.lookup t conn) [
    | none ↦ G.insert t conn (rid ∷ [])
    | some arr ↦ elim (find_index arr rid) [ some _ ↦ t | none ↦ G.insert t conn (arr ++ rid ∷ []) ]
  ]

  unfoldable pub client_connection_table_drop : ConnectionTable → Conn → String → ConnectionTable
  client_connection_table_drop t conn rid = elim (G.lookup t conn) [
    | none ↦ t
    | some arr ↦ elim (find_index arr rid) [
      | none ↦ t
      | some idx ↦
          let arr' = remove_index arr idx in
          if ltb (length arr') 1 then G.remove t conn else G.insert t conn arr'
    ]
  ]

  unfoldable pub client_connection_table_request_dup : ConnectionTable → Conn → Option (List String)
  client_connection_table_request_dup t conn = G.lookup t conn

  unfoldable pub client_connection_table_remove : ConnectionTable → Conn → ConnectionTable
  client_connection_table_remove t conn = G.remove t conn
