-- ===== src/Client/Request.antt =====
-- gear/clientrequesttable.c and .h: which connection waits for a request, and since when. Each
-- function holds the table's lock from start to end, so it is one step on the table.
pub mod Laws
use gonggo.Base.{
  ℕ, ◌+◌, String, Bool, true, false, Option, none, some, List, [], ◌∷◌, ltb, if◌then◌else◌, ◌&&◌,
  string_eq,
}
use gonggo.Base.Int.{ℤ, pos, negsuc}
use gonggo.Glib.{Glib}

-- A `struct mg_connection*` is its address; 0 is NULL.
abbrev pub Conn : Type 0
Conn = ℕ

abbrev pub null : Conn
null = 0

pub record ClientRequestTableContext : Type 0 where
  pub conn : Conn
  pub timestamp : ℕ
  pub timeoutsec : ℤ

-- `timeoutsec>0`, and then `timestamp + timeoutsec < now`.
unfoldable pub is_expired : ClientRequestTableContext → ℕ → Bool
is_expired ctx now = elim ctx.timeoutsec [
  | pos n ↦ if ltb 0 n then ltb (ctx.timestamp + n) now else false
  | negsuc _ ↦ false
]

-- The walk of the iterator, with the array of copied keys.
unfoldable pub collect_expired : List (String × ClientRequestTableContext) → ℕ → List String
collect_expired [] now = []
collect_expired ((rid, ctx) ∷ rest) now =
    let others = collect_expired rest now in if is_expired ctx now then rid ∷ others else others

module _ (G : Glib) where
  abbrev pub RequestTable : Type 0
  RequestTable = G.Table String ClientRequestTableContext

  unfoldable pub client_request_table_set : RequestTable → String → Conn → ℤ → ℕ → RequestTable
  client_request_table_set t rid conn timeoutsec now =
      G.insert (G.remove t rid) rid
        (record { conn = conn; timestamp = now; timeoutsec = timeoutsec })

  -- The connection, or NULL, and the table after the removal or the new time.
  unfoldable pub client_request_table_get_conn :
      RequestTable → String → Bool → Bool → ℕ → Conn × RequestTable
  client_request_table_get_conn t rid update_time remove_request now = elim (G.lookup t rid) [
    | none ↦ (null, t)
    | some p ↦ (
      p.conn,
      if remove_request
          then G.remove t rid
          else if update_time
          then G.insert t rid (record p { timestamp = now })
          else t,
    )
  ]

  unfoldable pub client_request_table_remove : RequestTable → String → RequestTable
  client_request_table_remove t rid = G.remove t rid

  unfoldable pub client_request_table_expired : RequestTable → ℕ → List String
  client_request_table_expired t now = collect_expired (G.entries t) now
