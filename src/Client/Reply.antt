-- ===== src/Client/Reply.antt =====
-- gear/clientreply.c and gear/servicestatus.h: the messages to clients.
use gonggo.Base.{
  ℕ, String, Bool, false, Option, none, some, List, [], ◌∷◌, ◌++◌, if◌then◌else◌, ◌==◌, string_eq,
  nat_eq, not, ◌&&◌,
}
use gonggo.Glib.{Glib}
use gonggo.Json.{Cjson}
use gonggo.Client.Request.{Conn, null, client_request_table_get_conn}
use gonggo.Client.Connection.{ConnectionTable, client_connection_table_set}
use gonggo.Client.Proxyname.{client_proxyname_table_request_dup}
use gonggo.Client.World.{World}

pub data ServiceStatus : Type 0 where
  acknowledged headers_missing rid_missing rid_overlength service_missing : ServiceStatus
  service_reserved payload_missing payload_invalid gonggo_service_invalid : ServiceStatus
  timeout_missing timeout_invalid : ServiceStatus
  answered proxy_alive_notification expired : ServiceStatus

-- The numbers of the protocol.
unfoldable pub status_code : ServiceStatus → ℕ
status_code acknowledged = 1
status_code headers_missing = 2
status_code rid_missing = 3
status_code rid_overlength = 4
status_code service_missing = 5
status_code service_reserved = 6
status_code payload_missing = 7
status_code payload_invalid = 8
status_code gonggo_service_invalid = 9
status_code timeout_missing = 10
status_code timeout_invalid = 11
status_code answered = 20
status_code proxy_alive_notification = 21
status_code expired = 22

abbrev pub alive_start : ℕ
alive_start = 1

abbrev pub alive_termination : ℕ
alive_termination = 2

-- `mg_websocket_write` of a text frame.
abbrev pub write : {G : Glib} → World G → Conn → String → World G
write w conn s = record w { writes = w.writes ++ (conn, s) ∷ [] }

-- `if(db_save && rid!=NULL && strlen(rid)>0) db_respond_insert(rid, s)`
unfoldable pub save_if : {G : Glib} → World G → Bool → String → String → World G
save_if w db_save rid s =
    if db_save && not (rid == "") then record w { saves = w.saves ++ (rid, s) ∷ [] } else w

-- `if(conn!=NULL) mg_websocket_write(conn, ...)`
unfoldable pub write_if : {G : Glib} → World G → Conn → String → World G
write_if w conn s = if conn == null then w else write w conn s

module _ (C : Cjson) where
  -- The text of a reply that carries a status only; a NULL request id is written as "".
  unfoldable pub parsing_status_text : Option String → ServiceStatus → String
  parsing_status_text rid status =
      let id : String = elim rid [ none ↦ "" | some r ↦ r ] in
      let header = C.add_item_to_object C.create_object "rid" (C.create_string id) in
      let header' =
        C.add_item_to_object header "requestStatus" (C.create_number (status_code status)) in
      C.print_unformatted (C.add_item_to_object C.create_object "headers" header')

  -- Each header of the proxy is added behind those of gonggo.
  unfoldable pub merge_headers : C.Json → C.Json → List String → C.Json
  merge_headers headers proxy_headers [] = headers
  merge_headers headers proxy_headers (name ∷ names) =
      merge_headers
        (elim (C.get_object_item proxy_headers name) [
          | none ↦ headers
          | some value ↦ C.add_item_to_object headers name value
        ])
        proxy_headers names

  unfoldable pub service_text : String → C.Json → Option C.Json → String
  service_text rid proxy_headers proxy_payload =
      let headers = C.add_item_to_object C.create_object "rid" (C.create_string rid) in
      let headers' =
        C.add_item_to_object headers "requestStatus" (C.create_number (status_code answered)) in
      let merged = merge_headers headers' proxy_headers (C.fields proxy_headers) in
      let reply = C.add_item_to_object C.create_object "headers" merged in
      C.print_unformatted (elim proxy_payload [
        | none ↦ reply
        | some payload ↦ C.add_item_to_object reply "payload" payload
      ])

  unfoldable pub string_array : C.Json → List String → C.Json
  string_array arr [] = arr
  string_array arr (s ∷ rest) = string_array (C.add_item_to_array arr (C.create_string s)) rest

  unfoldable pub alive_text : String → List String → Bool → String
  alive_text proxy_name rids started =
      let status =
        C.add_item_to_object C.create_object "requestStatus"
          (C.create_number (status_code proxy_alive_notification)) in
      let header =
        C.add_item_to_object status "serviceStatus"
          (C.create_number (if started then alive_start else alive_termination)) in
      let proxy = C.add_item_to_object C.create_object "proxy" (C.create_string proxy_name) in
      let payload = C.add_item_to_object proxy "rid" (string_array C.create_array rids) in
      C.print_unformatted (
        C.add_item_to_object (C.add_item_to_object C.create_object "headers" header) "payload"
          payload)

module _ {G : Glib} (C : Cjson) where
  unfoldable pub client_parsing_status_reply :
      World G → Conn → Option String → ServiceStatus → World G
  client_parsing_status_reply w conn rid status = write w conn (parsing_status_text C rid status)

  unfoldable pub client_service_reply :
      World G → Conn → String → C.Json → Option C.Json → Bool → World G
  client_service_reply w conn rid proxy_headers proxy_payload db_save =
      let s = service_text C rid proxy_headers proxy_payload in
      write_if (save_if w db_save rid s) conn s

  unfoldable pub client_service_expired_reply : World G → Conn → String → Bool → World G
  client_service_expired_reply w conn rid db_save =
      let s = parsing_status_text C (some rid) expired in write_if (save_if w db_save rid s) conn s

  unfoldable pub client_proxy_alive_notification_do :
      World G → Conn → String → List String → Bool → World G
  client_proxy_alive_notification_do w conn proxy_name rids started =
      write w conn (alive_text C proxy_name rids started)

  -- The requests of the proxy that still have a connection, grouped by connection in a table of
  -- its own.
  unfoldable pub group_by_conn : World G → List String → ConnectionTable G → ConnectionTable G
  group_by_conn w [] t = t
  group_by_conn w (rid ∷ rids) t =
      let (conn, _) = client_request_table_get_conn G w.requests rid false false w.now in
      group_by_conn w rids (if conn == null then t else client_connection_table_set G t conn rid)

  unfoldable pub notify_each : World G → List (Conn × List String) → String → Bool → World G
  notify_each w [] proxy_name started = w
  notify_each w ((conn, rids) ∷ rest) proxy_name started =
      notify_each (client_proxy_alive_notification_do w conn proxy_name rids started) rest
        proxy_name started

  unfoldable pub client_proxy_alive_notification : World G → String → Bool → World G
  client_proxy_alive_notification w proxy_name started =
      let rids : List String =
        elim (client_proxyname_table_request_dup G w.proxynames proxy_name false) [
          | none ↦ []
          | some rids ↦ rids
        ] in
      notify_each w (G.entries (group_by_conn w rids G.new)) proxy_name started
