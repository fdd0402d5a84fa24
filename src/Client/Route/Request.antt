-- ===== src/Client/Route/Request.antt =====
-- `client_service_route`: what a well-formed request for a proxy does.
use Prim.Native.String.{len}
use gonggo.Base.{
  ℕ, ◌≡◌, ◌≢◌, ◌≤◌, String, Bool, Option, none, some, [], ◌∷◌, ◌++◌, arith, string_eq, nat_eq,
}
use gonggo.Base.Int.{ℤ, pos}
use gonggo.Glib.{Glib}
use gonggo.Json.{Cjson}
use gonggo.Client.Request.{Conn}
use gonggo.Client.World.{World}
use gonggo.Client.Invariant.{IsConsistent}
use gonggo.Client.Reply.{acknowledged, parsing_status_text, client_parsing_status_reply, write}
use gonggo.Client.Route.{
  wake_channel, save_request, client_service_route, route_headers, route_service, route_named,
  route_proxy, item_string, request_drop,
}
use gonggo.Client.Route.Accepted.{IsEntered, save_request-IsEntered, same-IsConsistent}
use gonggo.Db.{RespondQueryResult}

module _ (C : Cjson) where
  -- A message in the form that the protocol asks for.
  pub record IsRequest (text rid proxy service : String) (payload : Option C.Json) (n : ℕ)
      : Type 0 where
    pub root : C.Json
    pub headers : C.Json
    pub time : C.Json
    pub parsed : C.parse text ≡ some root
    pub with_headers : C.get_object_item root "headers" ≡ some headers
    pub with_payload : C.get_object_item root "payload" ≡ payload
    pub with_rid : item_string C (C.get_object_item headers "rid") ≡ some rid
    pub rid_long : 1 ≤ len rid
    pub rid_short : len rid ≤ 36
    pub with_proxy : item_string C (C.get_object_item headers "proxy") ≡ some proxy
    pub with_service : item_string C (C.get_object_item headers "service") ≡ some service
    pub service_long : 1 ≤ len service
    pub service_free : service ≢ request_drop
    pub with_timeout : C.get_object_item headers "timeout" ≡ some time
    pub limit : C.valuedouble time ≡ pos n
    pub limit_positive : 1 ≤ n

module _ {G : Glib} (C : Cjson) (query : String → ℕ → ℕ → Bool × RespondQueryResult) where
  request-path :
      (path : String) (w : World G) (text : String) (conn : Conn) (rid proxy service : String)
      (payload : Option C.Json) (n : ℕ)
      → IsRequest C text rid proxy service payload n
      → client_service_route C query (some path) w path text conn
        ≡ wake_channel
            (save_request C
              (write w conn (parsing_status_text C (some rid) acknowledged))
              conn
              rid
              proxy
              service
              payload
              (pos n))
            proxy
  unfolding client_service_route route_headers route_service route_named route_proxy
      client_parsing_status_reply
  request-path path w text conn rid proxy service payload n r = ground arith

  wake_channel-IsEntered :
      (w : World G) (conn : Conn) (rid proxy service : String) (payload : Option C.Json) (t : ℤ)
      (w' : World G) (p : String)
      → IsEntered C w conn rid proxy service payload t w'
      → IsEntered C w conn rid proxy service payload t (wake_channel w' p)
  unfolding wake_channel
  wake_channel-IsEntered w conn rid proxy service payload t w' p e = record {
    in_requests = ground (arith, e.in_requests);
    in_connections = ground (arith, e.in_connections);
    in_services = ground (arith, e.in_services);
    in_proxynames = ground (arith, e.in_proxynames);
  }

  -- A well-formed request for a proxy, on consistent tables: the connection gets one reply, which
  -- acknowledges it; the request stands in the four tables, with the clock's time and its limit,
  -- and is unsent unless the proxy had it before; the proxy's channel thread is woken, if it has
  -- one; and nothing is stored.
  pub client_service_route-IsEntered :
      (path : String) (w : World G) (text : String) (conn : Conn) (rid proxy service : String)
      (payload : Option C.Json) (n : ℕ)
      → IsConsistent w
      → IsRequest C text rid proxy service payload n
      → let w' = client_service_route C query (some path) w path text conn in
        IsEntered C w conn rid proxy service payload (pos n) w'
        × (w'.writes ≡ w.writes ++ (conn, parsing_status_text C (some rid) acknowledged) ∷ [])
        × (w'.saves ≡ w.saves)
        × (w'.wakeups ≡ elim (G.lookup w.channels proxy) [
          | none ↦ w.wakeups
          | some _ ↦ w.wakeups ++ proxy ∷ []
        ])
  unfolding wake_channel save_request
  client_service_route-IsEntered path w text conn rid proxy service payload n c r =
      let woken = write w conn (parsing_status_text C (some rid) acknowledged) in
      rw (request-path path w text conn rid proxy service payload n r) (
        wake_channel-IsEntered w conn rid proxy service payload (pos n) _ proxy (
            let e =
              save_request-IsEntered C woken conn rid proxy service payload (pos n)
                (same-IsConsistent {w = w} (ground arith) c) in
            record {
              in_requests = e.in_requests;
              in_connections = e.in_connections;
              in_services = e.in_services;
              in_proxynames = e.in_proxynames;
            }),
        ground arith,
        ground arith,
        ground arith,
      )
