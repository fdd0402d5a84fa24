-- ===== src/Client/Timeout/Replies.antt =====
-- One turn of the thread `client_timeout`: what goes to the clients and into the database.
use gonggo.Base.{
  ◌≡◌, refl, String, true, false, some, List, [], ◌∷◌, ◌++◌, arith, ◌==◌, if◌then◌else◌, string_eq,
  nat_eq, contains, distinct, sym, ◌∙◌,
}
use mathlib.Core.List.{append_assoc, append-nil}
use gonggo.Glib.{Glib}
use gonggo.Json.{Cjson}
use gonggo.Client.Request.{Conn, null, RequestTable, client_request_table_expired}
use gonggo.Client.Request.Laws as RequestLaws
use gonggo.Client.World.{World}
use gonggo.Client.Reply.{
  client_service_expired_reply, save_if, write_if, parsing_status_text, expired,
}
use gonggo.Client.Timeout.{expire_request, expire_each, client_timeout_turn}
use gonggo.Client.Timeout.Laws.{expire_request-requests}

-- The text that says that a request has run out of time.
abbrev pub expired_text : Cjson → String → String
expired_text C rid = parsing_status_text C (some rid) expired

-- One message to each connection that is still known, and one row for each request with an id.
abbrev pub expired_writes : (G : Glib) → Cjson → RequestTable G → List String → List (Conn × String)
expired_writes G C t [] = []
expired_writes G C t (rid ∷ rids) =
    let rest = expired_writes G C t rids in
    let conn = RequestLaws.conn_of G t rid in
    if conn == null then rest else (conn, expired_text C rid) ∷ rest

abbrev pub expired_saves : Cjson → List String → List (String × String)
expired_saves C [] = []
expired_saves C (rid ∷ rids) =
    let rest = expired_saves C rids in if rid == "" then rest else (rid, expired_text C rid) ∷ rest

module _ {G : Glib} (C : Cjson) where
  expire_request-saves :
      (w : World G) (rid : String)
      → (expire_request C w rid).saves ≡ w.saves ++ expired_saves C (rid ∷ [])
  unfolding expire_request client_service_expired_reply save_if write_if
  expire_request-saves w rid = ground (arith, append-nil w.saves)

  expire_request-writes :
      (w : World G) (rid : String)
      → (expire_request C w rid).writes ≡ w.writes ++ expired_writes G C w.requests (rid ∷ [])
  unfolding expire_request client_service_expired_reply save_if write_if
  expire_request-writes w rid =
      ground (
        arith,
        append-nil w.writes,
        RequestLaws.get_conn-conn_of G w.requests rid false false w.now,
      )

  expire_each-saves :
      (w : World G) (rids : List String)
      → (expire_each C w rids).saves ≡ w.saves ++ expired_saves C rids
  unfolding expire_each
  expire_each-saves w [] = sym (append-nil w.saves)
  expire_each-saves w (rid ∷ rids) =
      expire_each-saves (expire_request C w rid) rids
      ∙ rw expire_request-saves (append_assoc w.saves _ _ ∙ ground arith)

  -- The connections of requests that are not yet dealt with are those at the start.
  expired_writes-removed :
      (w : World G) (rid : String) (rids : List String)
      → contains rid rids ≡ false
      → expired_writes G C (expire_request C w rid).requests rids
        ≡ expired_writes G C w.requests rids
  expired_writes-removed w rid [] h = refl
  expired_writes-removed w rid (j ∷ rids) h =
      ground (arith, expired_writes-removed w rid rids, expire_request-requests C w rid j)

  expire_each-writes :
      (w : World G) (rids : List String)
      → distinct rids ≡ true
      → (expire_each C w rids).writes ≡ w.writes ++ expired_writes G C w.requests rids
  unfolding expire_each
  expire_each-writes w [] d = sym (append-nil w.writes)
  expire_each-writes w (rid ∷ rids) d =
      expire_each-writes (expire_request C w rid) rids (ground arith)
      ∙ rw (expired_writes-removed w rid rids (ground arith), expire_request-writes)
          (append_assoc w.writes _ _ ∙ ground arith)

  -- A turn of the time-out thread tells, in the order of the table's iterator, each connection
  -- whose request has run out of time, once for each such request, and stores the same text under
  -- the request's id. Nothing else is sent or stored.
  pub client_timeout_turn-replies :
      (w : World G)
      → let rids = client_request_table_expired G w.requests w.now in
        ((client_timeout_turn C w).writes ≡ w.writes ++ expired_writes G C w.requests rids)
        × ((client_timeout_turn C w).saves ≡ w.saves ++ expired_saves C rids)
  unfolding client_timeout_turn
  client_timeout_turn-replies w = (
    expire_each-writes w _ (RequestLaws.distinct-expired G w.requests w.now),
    expire_each-saves w _,
  )
