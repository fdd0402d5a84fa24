-- ===== src/Client/Timeout.antt =====
-- gear/clienttimeout.c, the thread `client_timeout`: one turn of its loop, without the wait.
pub mod Laws
pub mod Replies
pub mod Cleared
pub mod Loop
pub mod Race
use gonggo.Base.{String, true, false, List, [], ◌∷◌}
use gonggo.Glib.{Glib}
use gonggo.Json.{Cjson}
use gonggo.Client.Request.{
  client_request_table_get_conn, client_request_table_remove, client_request_table_expired,
}
use gonggo.Client.Connection.{client_connection_table_drop}
use gonggo.Client.Service.{client_service_table_remove}
use gonggo.Client.Proxyname.{client_proxyname_table_drop_all}
use gonggo.Client.World.{World}
use gonggo.Client.Reply.{client_service_expired_reply}

module _ {G : Glib} (C : Cjson) where
  -- What is done for one request that has run out of time.
  unfoldable pub expire_request : World G → String → World G
  expire_request w rid =
      let (conn, _) = client_request_table_get_conn G w.requests rid false false w.now in
      let w' = client_service_expired_reply C w conn rid true in
      record w' {
        requests = client_request_table_remove G w'.requests rid;
        connections = client_connection_table_drop G w'.connections conn rid;
        services = client_service_table_remove G w'.services rid;
        proxynames = client_proxyname_table_drop_all G w'.proxynames rid;
      }

  unfoldable pub expire_each : World G → List String → World G
  expire_each w [] = w
  expire_each w (rid ∷ rids) = expire_each (expire_request w rid) rids

  unfoldable pub client_timeout_turn : World G → World G
  client_timeout_turn w = expire_each w (client_request_table_expired G w.requests w.now)
