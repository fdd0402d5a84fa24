-- ===== src/Client/Timeout/Race.antt =====
-- gear/clienttimeout.c beside gear/clientservice.c: the loop's calls for one request are made one by
-- one, each under the lock of its own table only, and a message may be routed between two of them.
use gonggo.Base.{◌≡◌, refl, String, true, false, Option, none, some, arith, string_eq, nat_eq, ◌∙◌}
use gonggo.Base.Int.{ℤ}
use gonggo.Glib.{Glib}
use gonggo.Json.{Cjson}
use gonggo.Client.Request.{Conn, client_request_table_get_conn, client_request_table_remove}
use gonggo.Client.Request.Laws as RequestLaws
use gonggo.Client.Connection.{client_connection_table_drop}
use gonggo.Client.Service.{client_service_table_remove}
use gonggo.Client.Proxyname.{client_proxyname_table_drop_all}
use gonggo.Client.World.{World}
use gonggo.Client.Invariant.{IsConsistent}
use gonggo.Client.Reply.{client_service_expired_reply}
use gonggo.Client.Route.{save_request}
use gonggo.Client.Timeout.{expire_request}

module _ {G : Glib} (C : Cjson) where
  -- The connection is looked up, the reply is sent, and the request leaves its table.
  unfoldable pub expire_begin : World G → String → Conn × World G
  expire_begin w rid =
      let (conn, _) = client_request_table_get_conn G w.requests rid false false w.now in
      let w' = client_service_expired_reply C w conn rid true in
      (conn, record w' { requests = client_request_table_remove G w'.requests rid })

module _ {G : Glib} where
  -- The three calls that remain, for the connection that was looked up.
  unfoldable pub expire_end : World G → Conn → String → World G
  expire_end w conn rid = record w {
    connections = client_connection_table_drop G w.connections conn rid;
    services = client_service_table_remove G w.services rid;
    proxynames = client_proxyname_table_drop_all G w.proxynames rid;
  }

module _ {G : Glib} (C : Cjson) where
  -- With nothing in between, the two parts are what the loop does for one request.
  expire_request-parts :
      (w : World G) (rid : String)
      → expire_end (expire_begin C w rid).1 (expire_begin C w rid).0 rid ≡ expire_request C w rid
  unfolding expire_begin expire_end expire_request
  expire_request-parts w rid = refl

  -- When a request is entered under an id that is being timed out, behind the removal of that id
  -- from the request table and before the three calls that remain, it stands in the request table
  -- with its connection, time and limit but has no text that a proxy could be handed, and the tables
  -- are not consistent, whatever they were before.
  pub expire_request_race :
      (w : World G) (conn : Conn) (rid proxy service : String) (payload : Option C.Json)
      (timeout : ℤ)
      → let (old, begun) = expire_begin C w rid in
        let w' = expire_end (save_request C begun conn rid proxy service payload timeout) old rid in
        (G.lookup w'.requests rid
          ≡ some (record { conn = conn; timestamp = begun.now; timeoutsec = timeout }))
        × (G.lookup w'.services rid ≡ none)
        × ¬ IsConsistent w'
  unfolding expire_end save_request client_service_table_remove
  expire_request_race w conn rid proxy service payload timeout =
      let begun = (expire_begin C w rid).1 in
      let old = (expire_begin C w rid).0 in
      let saved = save_request C begun conn rid proxy service payload timeout in
      let there =
        RequestLaws.lookup-set G begun.requests rid conn timeout begun.now rid ∙ ground arith in
      let without = G.lookup-remove saved.services rid rid ∙ ground arith in
      (there, without, λ c. (c.tracked rid _ there).with_text without)
