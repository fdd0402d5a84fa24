-- ===== src/Client/Route/Outcome.antt =====
-- `client_service_route`: the four things that a message can lead to.
use Prim.Native.String.{len}
use gonggo.Base.{
  ℕ, ◌≡◌, ◌≢◌, refl, String, Bool, true, false, Option, none, some, List, arith, ◌==◌, ◌||◌,
  string_eq, nat_eq, ltb, inl, inr, Bool-cases, Option-cases,
}
use gonggo.Base.Int.{ℤ}
use gonggo.Glib.{Glib}
use gonggo.Json.{Cjson}
use gonggo.Client.Request.{Conn}
use gonggo.Client.World.{World}
use gonggo.Client.Reply.{
  ServiceStatus, acknowledged, headers_missing, rid_missing, rid_overlength, service_missing,
  service_reserved, payload_missing, payload_invalid, gonggo_service_invalid, timeout_missing,
  timeout_invalid, client_parsing_status_reply, client_service_reply, parsing_status_text, save_if,
  write_if, write, service_text,
}
use gonggo.Client.Route.{
  wake_channel, item_string, gonggo_test, gonggo_response_dump, route_gonggo, route_dump,
  route_named, route_proxy, route_service, route_headers, client_service_route, save_request,
  less_than_one, request_drop, is_blank, item_int,
}
use gonggo.Db.{RespondQueryResult}

module _ {G : Glib} (C : Cjson) (query : String → ℕ → ℕ → Bool × RespondQueryResult) where
  -- A message is ignored; or rejected, with one reply that says why; or answered by gonggo, with an
  -- acknowledgement and one answer, which may be stored; or accepted for a proxy.
  pub data Outcome (w : World G) (conn : Conn) (w' : World G) : Type 0 where
    ignored : w' ≡ w → Outcome w conn w'
    rejected :
        (rid : Option String) (status : ServiceStatus)
        → status ≢ acknowledged
        → w' ≡ write w conn (parsing_status_text C rid status)
        → Outcome w conn w'
    answered :
        (rid text : String) (saves : List (String × String))
        → w'
          ≡ record (write_if
              (write w conn (parsing_status_text C (some rid) acknowledged))
              conn
              text) { saves = saves }
        → Outcome w conn w'
    accepted :
        (rid proxy service : String) (payload : Option C.Json) (timeout : ℤ)
        → ltb (len rid) 1 ≡ false
        → ltb 36 (len rid) ≡ false
        → less_than_one timeout ≡ false
        → w'
          ≡ wake_channel
              (save_request C
                (write w conn (parsing_status_text C (some rid) acknowledged))
                conn
                rid
                proxy
                service
                payload
                timeout)
              proxy
        → Outcome w conn w'

  reply-rejected :
      (w : World G) (conn : Conn) (rid : Option String) (status : ServiceStatus)
      → status ≢ acknowledged
      → Outcome w conn (client_parsing_status_reply C w conn rid status)
  unfolding client_parsing_status_reply
  reply-rejected w conn rid status ne = rejected rid status ne refl

  service_reply-answered :
      (w : World G) (conn : Conn) (rid : String) (headers : C.Json) (payload : Option C.Json)
      (db_save : Bool)
      → Outcome w conn (
          client_service_reply C
            (client_parsing_status_reply C w conn (some rid) acknowledged)
            conn
            rid
            headers
            payload
            db_save)
  unfolding client_parsing_status_reply client_service_reply save_if write_if
  service_reply-answered w conn rid headers payload db_save =
      answered rid (service_text C rid headers payload)
        (save_if (write w conn (parsing_status_text C (some rid) acknowledged)) db_save rid
          (service_text C rid headers payload)).saves
        (ground arith)

  route_dump-Outcome :
      (w : World G) (conn : Conn) (rid : String) (payload : Option C.Json)
      → Outcome w conn (route_dump C query w conn rid payload)
  unfolding route_dump gonggo_response_dump
  route_dump-Outcome w conn rid none =
      reply-rejected w conn (some rid) payload_missing (ground arith)
  route_dump-Outcome w conn rid (some p) =
      elim (Bool-cases (
        is_blank (item_string C (C.get_object_item p "rid"))
        || (less_than_one (item_int C (C.get_object_item p "start"))
            || less_than_one (item_int C (C.get_object_item p "size"))))) [
              | inl bad ↦ rw bad (reply-rejected w conn (some rid) payload_invalid (ground arith))
              | inr good ↦ rw good (service_reply-answered w conn rid _ _ false)
            ]

  route_gonggo-Outcome :
      (w : World G) (conn : Conn) (rid service : String) (payload : Option C.Json)
      → Outcome w conn (route_gonggo C query w conn rid service payload)
  unfolding route_gonggo gonggo_test
  route_gonggo-Outcome w conn rid service payload = elim (Bool-cases (service == "test")) [
    | inl test ↦ rw test (service_reply-answered w conn rid _ _ true)
    | inr e ↦ rw e (elim (Bool-cases (service == "responseDump")) [
      | inl dump ↦ rw dump (route_dump-Outcome w conn rid payload)
      | inr e' ↦ rw e' (reply-rejected w conn (some rid) gonggo_service_invalid (ground arith))
    ])
  ]

  route_proxy-Outcome :
      (w : World G) (conn : Conn) (rid proxy service : String) (headers : C.Json)
      (payload : Option C.Json)
      → ltb (len rid) 1 ≡ false
      → ltb 36 (len rid) ≡ false
      → Outcome w conn (route_proxy C w conn rid proxy service headers payload)
  unfolding route_proxy
  route_proxy-Outcome w conn rid proxy service headers payload lo hi =
      elim (Option-cases (C.get_object_item headers "timeout")) [
        | inl e ↦
            rw (e, route_proxy) (reply-rejected w conn (some rid) timeout_missing (ground arith))
        | inr (item, e) ↦
            rw (e, route_proxy)
              (elim (Bool-cases (less_than_one (C.valuedouble item))) [
                | inl bad ↦ rw bad (reply-rejected w conn (some rid) timeout_invalid (ground arith))
                | inr good ↦ rw good (
                    accepted rid proxy service payload (C.valuedouble item) lo hi good
                      (unfold client_parsing_status_reply in refl))
              ])
      ]

  route_named-Outcome :
      (w : World G) (conn : Conn) (rid service : String) (proxy : Option String) (headers : C.Json)
      (payload : Option C.Json)
      → ltb (len rid) 1 ≡ false
      → ltb 36 (len rid) ≡ false
      → Outcome w conn (route_named C query w conn rid service proxy headers payload)
  unfolding route_named
  route_named-Outcome w conn rid service none headers payload lo hi =
      route_gonggo-Outcome w conn rid service payload
  route_named-Outcome w conn rid service (some proxy) headers payload lo hi =
      route_proxy-Outcome w conn rid proxy service headers payload lo hi

  route_service-Outcome :
      (w : World G) (conn : Conn) (rid : String) (root headers : C.Json)
      → ltb (len rid) 1 ≡ false
      → ltb 36 (len rid) ≡ false
      → Outcome w conn (route_service C query w conn rid root headers)
  unfolding route_service
  route_service-Outcome w conn rid root headers lo hi =
      elim (Option-cases (item_string C (C.get_object_item headers "service"))) [
        | inl e ↦
            rw (e, route_service) (reply-rejected w conn (some rid) service_missing (ground arith))
        | inr (service, e) ↦
            rw (e, route_service)
              (elim (Bool-cases (ltb (len service) 1)) [
                | inl short ↦
                    rw short (reply-rejected w conn (some rid) service_missing (ground arith))
                | inr long ↦ rw long (elim (Bool-cases (service == request_drop)) [
                  | inl own ↦
                      rw own (reply-rejected w conn (some rid) service_reserved (ground arith))
                  | inr free ↦ rw free (
                      route_named-Outcome w conn rid service
                        (item_string C (C.get_object_item headers "proxy")) headers
                        (C.get_object_item root "payload") lo hi)
                ])
              ])
      ]

  route_headers-Outcome :
      (w : World G) (conn : Conn) (root headers : C.Json)
      → Outcome w conn (route_headers C query w conn root headers)
  unfolding route_headers
  route_headers-Outcome w conn root headers =
      elim (Option-cases (item_string C (C.get_object_item headers "rid"))) [
        | inl e ↦ rw (e, route_headers) (reply-rejected w conn none rid_missing (ground arith))
        | inr (rid, e) ↦
            rw (e, route_headers)
              (elim (Bool-cases (ltb (len rid) 1)) [
                | inl short ↦ rw short (reply-rejected w conn none rid_missing (ground arith))
                | inr lo ↦ rw lo (elim (Bool-cases (ltb 36 (len rid))) [
                  | inl long ↦
                      rw long (reply-rejected w conn (some rid) rid_overlength (ground arith))
                  | inr hi ↦ rw hi (route_service-Outcome w conn rid root headers lo hi)
                ])
              ])
      ]

  -- Whatever a client sends, the handler ignores it, rejects it with one reply and no other change,
  -- answers it itself with an acknowledgement and one answer and no change of a table, or enters it
  -- for a proxy with an acknowledgement, an id of 1 to 36 bytes and a time limit of at least 1.
  pub client_service_route-Outcome :
      (path : Option String) (w : World G) (uri text : String) (conn : Conn)
      → Outcome w conn (client_service_route C query path w uri text conn)
  unfolding client_service_route
  client_service_route-Outcome none w uri text conn = ignored refl
  client_service_route-Outcome (some path) w uri text conn = elim (Bool-cases (uri == path)) [
    | inr e ↦ rw e (ignored refl)
    | inl e ↦ rw e (elim (Option-cases (C.parse text)) [
      | inl bad ↦ rw (bad, client_service_route) (ignored refl)
      | inr (root, good) ↦
          rw (good, client_service_route)
            (elim (Option-cases (C.get_object_item root "headers")) [
              | inl no_headers ↦
                  rw (no_headers, client_service_route)
                    (reply-rejected w conn none headers_missing (ground arith))
              | inr (headers, found) ↦
                  rw (found, client_service_route) (route_headers-Outcome w conn root headers)
            ])
    ])
  ]
