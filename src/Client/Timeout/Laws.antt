-- ===== src/Client/Timeout/Laws.antt =====
-- One turn of the thread `client_timeout`: which requests it ends, and what their clients hear.
use gonggo.Base.{
  ◌≡◌, refl, String, true, none, some, List, [], ◌∷◌, arith, ◌==◌, if◌then◌else◌, string_eq, nat_eq,
  contains, ◌∙◌,
}
use gonggo.Glib.{Glib}
use gonggo.Json.{Cjson}
use gonggo.Client.Request.{Conn, is_expired, client_request_table_expired}
use gonggo.Client.Request.Laws as RequestLaws
use gonggo.Client.Connection.Laws as ConnectionLaws
use gonggo.Client.Proxyname.Valid as ProxynameValid
use gonggo.Client.Proxyname.Everywhere as ProxynameEverywhere
use gonggo.Client.Service.{client_service_table_remove}
use gonggo.Client.World.{World}
use gonggo.Client.Reply.{client_service_expired_reply, save_if, write_if}
use gonggo.Client.Invariant.{IsConsistent, Forgets, Forgets-IsConsistent}
use gonggo.Client.Timeout.{expire_request, expire_each, client_timeout_turn}

module _ {G : Glib} (C : Cjson) where
  pub reply-tables :
      (w : World G) (conn : Conn) (rid : String)
      → client_service_expired_reply C w conn rid true ≡ record w {
        writes = (client_service_expired_reply C w conn rid true).writes;
        saves = (client_service_expired_reply C w conn rid true).saves;
      }
  unfolding client_service_expired_reply save_if write_if
  reply-tables w conn rid = ground arith

  pub expire_request-requests :
      (w : World G) (rid j : String)
      → G.lookup (expire_request C w rid).requests j
        ≡ (if rid == j then none else G.lookup w.requests j)
  unfolding expire_request
  expire_request-requests w rid j = rw reply-tables (RequestLaws.lookup-remove G w.requests rid j)

  pub expire_request-Forgets :
      (w : World G) (rid : String) → IsConsistent w → Forgets rid w (expire_request C w rid)
  unfolding expire_request client_service_table_remove
  expire_request-Forgets w rid c = record {
    connections_valid =
        rw reply-tables (ConnectionLaws.drop-IsValid G w.connections _ rid c.connections_valid);
    proxynames_valid =
        rw reply-tables (ProxynameValid.drop_all-IsValid G w.proxynames rid c.proxynames_valid);
    requests_without = expire_request-requests w rid;
    listed_same = λ conn j ne. rw reply-tables (
        ConnectionLaws.listed-drop G w.connections _ rid conn j c.connections_valid
        ∙ ground (arith, ne));
    text_same = λ j ne. rw reply-tables (G.lookup-remove w.services rid j ∙ ground (arith, ne));
    flag_same = λ p j ne.
        rw reply-tables
          (ProxynameEverywhere.drop_all_other G w.proxynames rid p j c.proxynames_valid ne);
  }

  pub expire_request-IsConsistent :
      (w : World G) (rid : String) → IsConsistent w → IsConsistent (expire_request C w rid)
  expire_request-IsConsistent w rid c = Forgets-IsConsistent (expire_request-Forgets w rid c) c

  expire_each-IsConsistent :
      (w : World G) (rids : List String) → IsConsistent w → IsConsistent (expire_each C w rids)
  unfolding expire_each
  expire_each-IsConsistent w [] c = c
  expire_each-IsConsistent w (rid ∷ rids) c =
      expire_each-IsConsistent (expire_request C w rid) rids (expire_request-IsConsistent w rid c)

  -- One turn of the time-out thread keeps the tables consistent.
  pub client_timeout_turn-IsConsistent :
      (w : World G) → IsConsistent w → IsConsistent (client_timeout_turn C w)
  unfolding client_timeout_turn
  client_timeout_turn-IsConsistent w c = expire_each-IsConsistent w _ c

  expire_each-requests :
      (w : World G) (rids : List String) (j : String)
      → G.lookup (expire_each C w rids).requests j
        ≡ (if contains j rids then none else G.lookup w.requests j)
  unfolding expire_each
  expire_each-requests w [] j = refl
  expire_each-requests w (rid ∷ rids) j =
      expire_each-requests (expire_request C w rid) rids j
      ∙ ground (arith, expire_request-requests w rid j)

  -- After a turn of the time-out thread exactly the requests whose time had run out are gone from
  -- the request table, and every other request is there with its connection, time and limit.
  pub client_timeout_turn-requests :
      (w : World G) (j : String)
      → G.lookup (client_timeout_turn C w).requests j ≡ elim (G.lookup w.requests j) [
        | none ↦ none
        | some ctx ↦ if is_expired ctx w.now then none else some ctx
      ]
  unfolding client_timeout_turn
  client_timeout_turn-requests w j =
      expire_each-requests w (client_request_table_expired G w.requests w.now) j
      ∙ ground (arith, RequestLaws.contains-expired G w.requests w.now j)
