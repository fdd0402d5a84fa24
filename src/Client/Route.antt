-- ===== src/Client/Route.antt =====
-- gear/clientservice.c, `client_service_route`: what a message of a client does. The calls under
-- one handler run in the source's order; each is one step on its table.
pub mod Outcome
pub mod Accepted
pub mod Request
pub mod Fault
pub mod Verdict
use Prim.Native.String.{len}
use gonggo.Base.{
  ℕ, ◌-◌, String, Bool, true, false, Option, none, some, List, [], ◌∷◌, ◌++◌, if◌then◌else◌, ◌==◌,
  ◌||◌, string_eq, ltb,
}
use gonggo.Base.Int.{ℤ, pos, negsuc}
use gonggo.Glib.{Glib, keys}
use gonggo.Json.{Cjson}
use gonggo.Client.Request.{Conn, client_request_table_set}
use gonggo.Client.Connection.{client_connection_table_set}
use gonggo.Client.Service.{client_service_table_set}
use gonggo.Client.Proxyname.{client_proxyname_table_set}
use gonggo.Client.World.{World}
use gonggo.Client.Reply.{
  ServiceStatus, acknowledged, headers_missing, rid_missing, rid_overlength, service_missing,
  service_reserved, payload_missing, payload_invalid, gonggo_service_invalid, timeout_missing,
  timeout_invalid, client_parsing_status_reply, client_service_reply, string_array,
}
use gonggo.Db.{RespondQueryResult}

-- UUIDBUFLEN
abbrev pub uuid_buf_len : ℕ
uuid_buf_len = 37

-- GONGGOSERVICE_REQUEST_DROP
abbrev pub request_drop : String
request_drop = "gonggorequestdrop"

-- `v < 1`
abbrev pub less_than_one : ℤ → Bool
less_than_one (pos n) = ltb n 1
less_than_one (negsuc n) = true

-- A value at least 1, as `unsigned int`.
abbrev pub to_unsigned : ℤ → ℕ
to_unsigned (pos n) = n
to_unsigned (negsuc n) = 0

-- `s==NULL || strlen(s)<1`
abbrev pub is_blank : Option String → Bool
is_blank none = true
is_blank (some s) = ltb (len s) 1

-- The signal to the channel thread of a proxy, if it has one.
unfoldable pub wake_channel : {G : Glib} → World G → String → World G
wake_channel {G} w proxy_name = elim (G.lookup w.channels proxy_name) [
  | none ↦ w
  | some _ ↦ record w { wakeups = w.wakeups ++ proxy_name ∷ [] }
]

module _ (C : Cjson) where
  -- `item!=NULL ? item->valuestring : NULL`, and so for `valueint`, where 0 stands for NULL.
  abbrev pub item_string : Option C.Json → Option String
  item_string none = none
  item_string (some item) = C.valuestring item

  abbrev pub item_int : Option C.Json → ℤ
  item_int none = pos 0
  item_int (some item) = C.valueint item

  -- Each stored response that can be parsed again.
  unfoldable pub parsed_array : C.Json → List String → C.Json
  parsed_array arr [] = arr
  parsed_array arr (s ∷ rest) =
      parsed_array (elim (C.parse s) [ none ↦ arr | some j ↦ C.add_item_to_array arr j ]) rest

module _ {G : Glib} (C : Cjson) where
  -- A message for a proxy: its time limit is checked, and it is entered into the four tables.
  unfoldable pub save_request :
      World G → Conn → String → String → String → Option C.Json → ℤ → World G
  save_request w conn rid proxy_name service_name payload timeout = record w {
    requests = client_request_table_set G w.requests rid conn timeout w.now;
    connections = client_connection_table_set G w.connections conn rid;
    services = client_service_table_set G C w.services rid service_name payload;
    proxynames = client_proxyname_table_set G w.proxynames proxy_name rid;
  }

  unfoldable pub route_proxy :
      World G → Conn → String → String → String → C.Json → Option C.Json → World G
  route_proxy w conn rid proxy_name service_name headers payload =
      let reply = client_parsing_status_reply C w conn (some rid) in
      elim (C.get_object_item headers "timeout") [
        | none ↦ reply timeout_missing
        | some item ↦
            if less_than_one (C.valuedouble item)
            then reply timeout_invalid
            else wake_channel
                (save_request (reply acknowledged) conn rid proxy_name service_name payload
                  (C.valuedouble item))
                proxy_name
      ]

module _ {G : Glib} (C : Cjson) (query : String → ℕ → ℕ → Bool × RespondQueryResult) where
  unfoldable pub gonggo_test : World G → String → Conn → World G
  gonggo_test w rid conn =
      let headers = C.add_item_to_object C.create_object "serviceStatus" (C.create_number 1) in
      let services = string_array C C.create_array ("test" ∷ "responseDump" ∷ []) in
      let proxies = string_array C C.create_array (keys (G.entries w.alives)) in
      let payload =
        C.add_item_to_object (C.add_item_to_object C.create_object "services" services) "proxies"
          proxies in
      client_service_reply C w conn rid headers (some payload) true

  unfoldable pub gonggo_response_dump : World G → String → Conn → String → ℕ → ℕ → World G
  gonggo_response_dump w rid conn dump_rid start size =
      let (found, r) = query dump_rid start size in
      let responses = parsed_array C C.create_array r.respond in
      let filled =
        C.add_item_to_object
          (C.add_item_to_object (C.add_item_to_object C.create_object "responses" responses) "stop"
            (C.create_number r.stop))
          "more" (C.create_number r.more) in
      let payload = if found then filled else C.create_object in
      let headers =
        C.add_item_to_object C.create_object "serviceStatus"
          (C.create_number (if found then 1 else 2)) in
      client_service_reply C w conn rid headers (some payload) false

  -- The service `responseDump`.
  unfoldable pub route_dump : World G → Conn → String → Option C.Json → World G
  route_dump w conn rid none = client_parsing_status_reply C w conn (some rid) payload_missing
  route_dump w conn rid (some p) =
      let dump_rid = item_string C (C.get_object_item p "rid") in
      let start = item_int C (C.get_object_item p "start") in
      let size = item_int C (C.get_object_item p "size") in
      if is_blank dump_rid || (less_than_one start || less_than_one size)
      then client_parsing_status_reply C w conn (some rid) payload_invalid
      else gonggo_response_dump (client_parsing_status_reply C w conn (some rid) acknowledged) rid
          conn (elim dump_rid [ none ↦ "" | some s ↦ s ]) (to_unsigned start) (to_unsigned size)

  -- A message with no proxy: a service of gonggo itself.
  unfoldable pub route_gonggo : World G → Conn → String → String → Option C.Json → World G
  route_gonggo w conn rid service_name payload =
      if service_name == "test"
      then gonggo_test (client_parsing_status_reply C w conn (some rid) acknowledged) rid conn
      else if service_name == "responseDump"
      then route_dump w conn rid payload
      else client_parsing_status_reply C w conn (some rid) gonggo_service_invalid

  unfoldable pub route_named :
      World G → Conn → String → String → Option String → C.Json → Option C.Json → World G
  route_named w conn rid service_name none headers payload =
      route_gonggo w conn rid service_name payload
  route_named w conn rid service_name (some proxy_name) headers payload =
      route_proxy C w conn rid proxy_name service_name headers payload

  -- The service name, when the request id is there.
  unfoldable pub route_service : World G → Conn → String → C.Json → C.Json → World G
  route_service w conn rid root headers =
      let proxy_name = item_string C (C.get_object_item headers "proxy") in
      let payload = C.get_object_item root "payload" in
      elim (item_string C (C.get_object_item headers "service")) [
        | none ↦ client_parsing_status_reply C w conn (some rid) service_missing
        | some service_name ↦
            if ltb (len service_name) 1
            then client_parsing_status_reply C w conn (some rid) service_missing
            else if service_name == request_drop
            then client_parsing_status_reply C w conn (some rid) service_reserved
            else route_named w conn rid service_name proxy_name headers payload
      ]

  unfoldable pub route_headers : World G → Conn → C.Json → C.Json → World G
  route_headers w conn root headers = elim (item_string C (C.get_object_item headers "rid")) [
    | none ↦ client_parsing_status_reply C w conn none rid_missing
    | some rid ↦
        if ltb (len rid) 1
        then client_parsing_status_reply C w conn none rid_missing
        else if ltb (uuid_buf_len - 1) (len rid)
        then client_parsing_status_reply C w conn (some rid) rid_overlength
        else route_service w conn rid root headers
  ]

  unfoldable pub client_service_route : Option String → World G → String → String → Conn → World G
  client_service_route gonggo_path w uri text conn = elim gonggo_path [
    | none ↦ w
    | some path ↦
        if uri == path
        then elim (C.parse text) [
          | none ↦ w
          | some root ↦ elim (C.get_object_item root "headers") [
            | none ↦ client_parsing_status_reply C w conn none headers_missing
            | some headers ↦ route_headers w conn root headers
          ]
        ]
        else w
  ]
