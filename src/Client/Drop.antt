-- ===== src/Client/Drop.antt =====
-- gear/clientservice.c, `client_service_drop_conn`: what happens to the requests of a connection
-- that closes. `uuid n` is the n-th identifier that `gonggo_uuid_generate` makes.
pub mod Grows
pub mod Laws
use gonggo.Base.{ℕ, ◌+◌, String, Option, none, some, List, [], ◌∷◌, ◌++◌, string_eq}
use gonggo.Glib.{Glib}
use gonggo.Json.{Cjson}
use gonggo.Client.Request.{Conn, client_request_table_remove}
use gonggo.Client.Connection.{client_connection_table_request_dup, client_connection_table_remove}
use gonggo.Client.Service.{client_service_table_set, client_service_table_remove}
use gonggo.Client.Proxyname.{
  ProxynameTable, ClientProxynameTableValue, client_proxyname_table_set,
  client_proxyname_table_drop_all, client_proxyname_table_proxy_name_dup,
}
use gonggo.Client.World.{World}
use gonggo.Client.Route.{request_drop, wake_channel}

module _ {G : Glib} where
  -- The first loop: each request leaves the tables, and its proxy is noted in a table of its own.
  unfoldable pub forget_request : World G → String → World G
  forget_request w rid = record w {
    requests = client_request_table_remove G w.requests rid;
    services = client_service_table_remove G w.services rid;
    proxynames = client_proxyname_table_drop_all G w.proxynames rid;
  }

  unfoldable pub note_proxy : World G → ProxynameTable G → String → ProxynameTable G
  note_proxy w noted rid = elim (client_proxyname_table_proxy_name_dup G w.proxynames rid) [
    | none ↦ noted
    | some proxy_name ↦ client_proxyname_table_set G noted proxy_name rid
  ]

  unfoldable pub forget_each : World G → ProxynameTable G → List String → World G × ProxynameTable G
  forget_each w noted [] = (w, noted)
  forget_each w noted (rid ∷ rids) =
      forget_each (forget_request w rid) (note_proxy w noted rid) rids

module _ {G : Glib} (C : Cjson) (uuid : ℕ → String) where
  -- A new request, of gonggo itself, that asks the proxy to drop `rid`.
  unfoldable pub request_drop_of : World G → String → String → World G
  request_drop_of w proxy_name rid =
      let payload = C.add_item_to_object C.create_object "rid" (C.create_string rid) in
      let drop_rid = uuid w.uuids in
      record w {
        services = client_service_table_set G C w.services drop_rid request_drop (some payload);
        proxynames = client_proxyname_table_set G w.proxynames proxy_name drop_rid;
        uuids = w.uuids + 1;
      }

  unfoldable pub request_drops : World G → String → List String → World G
  request_drops w proxy_name [] = w
  request_drops w proxy_name (rid ∷ rids) =
      request_drops (request_drop_of w proxy_name rid) proxy_name rids

  -- The second loop: each noted proxy that has a channel thread is asked, and its thread woken.
  unfoldable pub ask_proxy : World G → String → ClientProxynameTableValue → World G
  ask_proxy w proxy_name value = elim (G.lookup w.channels proxy_name) [
    | none ↦ w
    | some _ ↦ wake_channel (request_drops w proxy_name value.request_uuids) proxy_name
  ]

  unfoldable pub ask_each : World G → List (String × ClientProxynameTableValue) → World G
  ask_each w [] = w
  ask_each w ((proxy_name, value) ∷ rest) = ask_each (ask_proxy w proxy_name value) rest

  unfoldable pub client_service_drop_conn : World G → Conn → World G
  client_service_drop_conn w conn =
      elim (client_connection_table_request_dup G w.connections conn) [
        | none ↦ w
        | some rids ↦
            let (forgotten, noted) = forget_each w G.new rids in
            let asked = ask_each forgotten (G.entries noted) in
            record asked { connections = client_connection_table_remove G asked.connections conn }
      ]
