-- ===== src/Proxy/Subscribe/Laws.antt =====
-- gear/proxysubscribe.c: what the answers of a proxy do to the tables of requests.
use gonggo.Base.{
  ◌≡◌, ◌≢◌, refl, String, Bool, true, false, Option, none, some, List, [], ◌∷◌, arith, ◌==◌,
  if◌then◌else◌, string_eq, nat_eq, inl, inr, ap, subst, sym, ◌∙◌, Option-cases, Bool-cases,
}
use gonggo.Glib.{Glib}
use gonggo.Json.{Cjson}
use gonggo.Client.Request.{Conn, null, ClientRequestTableContext, client_request_table_get_conn}
use gonggo.Client.Request.Laws as RequestLaws
use gonggo.Client.Connection.{client_connection_table_drop}
use gonggo.Client.Connection.Laws as ConnectionLaws
use gonggo.Client.Proxyname.Laws as ProxynameLaws
use gonggo.Client.Proxyname.Valid as ProxynameValid
use gonggo.Client.Proxyname.Everywhere as ProxynameEverywhere
use gonggo.Client.Service.{client_service_table_remove}
use gonggo.Client.World.{World}
use gonggo.Client.Reply.{client_service_reply, save_if, write_if}
use gonggo.Client.Invariant.{IsConsistent, Forgets, Forgets-IsConsistent}
use gonggo.Proxy.Subscribe.{
  proxy_subscribe_purge_rid, reply_removal, proxy_subscribe_reply, reply_each, clear_request,
  answer_clients, rid_items, is_clearing,
}

module _ {G : Glib} where
  drop_if-IsValid :
      (w : World G) (conn : Conn) (rid : String)
      → IsConsistent w
      → ConnectionLaws.IsValid G (
          if conn == null
          then w.connections
          else client_connection_table_drop G w.connections conn rid)
  drop_if-IsValid w conn rid c = elim (Bool-cases (conn == null)) [
    | inl e ↦ rw e c.connections_valid
    | inr e ↦ rw e (ConnectionLaws.drop-IsValid G w.connections conn rid c.connections_valid)
  ]

  listed-drop_if :
      (w : World G) (conn : Conn) (rid : String) (conn' : Conn) (j : String)
      → IsConsistent w
      → rid ≢ j
      → ConnectionLaws.listed G
          (if conn == null
            then w.connections
            else client_connection_table_drop G w.connections conn rid)
          conn'
          j
        ≡ ConnectionLaws.listed G w.connections conn' j
  listed-drop_if w conn rid conn' j c ne = elim (Bool-cases (conn == null)) [
    | inl e ↦ rw e refl
    | inr e ↦ rw e (
        ConnectionLaws.listed-drop G w.connections conn rid conn' j c.connections_valid
        ∙ ground (arith, ne))
  ]

  pub purge_rid-Forgets :
      (w : World G) (rid : String)
      → IsConsistent w
      → Forgets rid w (proxy_subscribe_purge_rid w rid)
  unfolding proxy_subscribe_purge_rid client_service_table_remove
  purge_rid-Forgets w rid c = record {
    connections_valid = drop_if-IsValid w _ rid c;
    proxynames_valid = ProxynameValid.drop_all-IsValid G w.proxynames rid c.proxynames_valid;
    requests_without = RequestLaws.lookup-get_conn_removed G w.requests rid false w.now;
    listed_same = λ conn j ne. listed-drop_if w _ rid conn j c ne;
    text_same = λ j ne. G.lookup-remove w.services rid j ∙ ground (arith, ne);
    flag_same =
        λ p j ne. ProxynameEverywhere.drop_all_other G w.proxynames rid p j c.proxynames_valid ne;
  }

  pub purge_rid-IsConsistent :
      (w : World G) (rid : String) → IsConsistent w → IsConsistent (proxy_subscribe_purge_rid w rid)
  purge_rid-IsConsistent w rid c = Forgets-IsConsistent (purge_rid-Forgets w rid c) c

module _ {G : Glib} (C : Cjson) where
  pub service_reply-tables :
      (w : World G) (conn : Conn) (rid : String) (headers : C.Json) (payload : Option C.Json)
      → client_service_reply C w conn rid headers payload true ≡ record w {
        writes = (client_service_reply C w conn rid headers payload true).writes;
        saves = (client_service_reply C w conn rid headers payload true).saves;
      }
  unfolding client_service_reply save_if write_if
  service_reply-tables w conn rid headers payload = ground arith

  reply_removed-Forgets :
      (w : World G) (proxy_name rid : String) (headers : C.Json) (payload : Option C.Json)
      → IsConsistent w
      → Forgets rid w (proxy_subscribe_reply C w proxy_name rid headers payload true)
  unfolding proxy_subscribe_reply reply_removal client_service_table_remove
  reply_removed-Forgets w proxy_name rid headers payload c = record {
    connections_valid = rw service_reply-tables (drop_if-IsValid w _ rid c);
    proxynames_valid =
        rw service_reply-tables
          (ProxynameValid.drop-IsValid G w.proxynames proxy_name rid c.proxynames_valid);
    requests_without = λ j.
        rw service_reply-tables (RequestLaws.lookup-get_conn_removed G w.requests rid true w.now j);
    listed_same = λ conn j ne. rw service_reply-tables (listed-drop_if w _ rid conn j c ne);
    text_same =
        λ j ne. rw service_reply-tables (G.lookup-remove w.services rid j ∙ ground (arith, ne));
    flag_same = λ p j ne. rw service_reply-tables (
        ProxynameLaws.sent_flag-drop G w.proxynames proxy_name rid p j c.proxynames_valid
        ∙ ground (arith, ne));
  }

  -- A request that is touched keeps its connection.
  touched :
      (w : World G) (rid j : String) (ctx : ClientRequestTableContext)
      → G.lookup (client_request_table_get_conn G w.requests rid true false w.now).1 j ≡ some ctx
      → (old : ClientRequestTableContext) × (G.lookup w.requests j ≡ some old)
        × (old.conn ≡ ctx.conn)
  unfolding client_request_table_get_conn
  touched w rid j ctx h = elim (Option-cases (G.lookup w.requests rid)) [
    | inl e ↦ (ctx, ground (arith, e, h), refl)
    | inr (p, e) ↦
        let law = G.lookup-insert w.requests rid (record p { timestamp = w.now }) j in
        elim (string_eq.dec rid j) [
          | yes same ↦ (p, ap (G.lookup w.requests) (sym same) ∙ e, ground (arith, e, h, law, same))
          | no differ ↦ (ctx, ground (arith, e, h, law, differ), refl)
        ]
  ]

  reply_kept-IsConsistent :
      (w : World G) (proxy_name rid : String) (headers : C.Json) (payload : Option C.Json)
      → IsConsistent w
      → IsConsistent (proxy_subscribe_reply C w proxy_name rid headers payload false)
  unfolding proxy_subscribe_reply
  reply_kept-IsConsistent w proxy_name rid headers payload c = rw service_reply-tables (record {
    connections_valid = c.connections_valid;
    proxynames_valid = c.proxynames_valid;
    tracked = λ j ctx h.
        let (old, e, same) = touched w rid j ctx h in
        let t = c.tracked j old e in
        record {
          by_connection =
              ap (λ conn. ConnectionLaws.listed G w.connections conn j) (sym same)
              ∙ t.by_connection;
          with_text = t.with_text;
          by_proxy = t.by_proxy;
        };
  })

  -- One reply keeps the tables consistent, whether it ends its request or not.
  pub proxy_subscribe_reply-IsConsistent :
      (w : World G) (proxy_name rid : String) (headers : C.Json) (payload : Option C.Json)
      (remove_request : Bool)
      → IsConsistent w
      → IsConsistent (proxy_subscribe_reply C w proxy_name rid headers payload remove_request)
  proxy_subscribe_reply-IsConsistent w proxy_name rid headers payload true c =
      Forgets-IsConsistent (reply_removed-Forgets w proxy_name rid headers payload c) c
  proxy_subscribe_reply-IsConsistent w proxy_name rid headers payload false c =
      reply_kept-IsConsistent w proxy_name rid headers payload c

  reply_each-IsConsistent :
      (w w' : World G) (proxy_name : String) (items : List C.Json) (headers : C.Json)
      (payload : Option C.Json) (remove_request : Bool)
      → reply_each C w proxy_name items headers payload remove_request ≡ some w'
      → IsConsistent w
      → IsConsistent w'
  unfolding reply_each
  reply_each-IsConsistent w w' proxy_name [] headers payload remove_request h c =
      subst IsConsistent (ground (arith, h)) c
  reply_each-IsConsistent w w' proxy_name (item ∷ items) headers payload remove_request h c =
      elim (Option-cases (C.valuestring item)) [
        | inl e ↦ absurd (ground (arith, e, h))
        | inr (rid, e) ↦
            reply_each-IsConsistent
              (proxy_subscribe_reply C w proxy_name rid headers payload remove_request) w'
              proxy_name items headers payload remove_request (ground (arith, e, h))
              (proxy_subscribe_reply-IsConsistent w proxy_name rid headers payload remove_request c)
      ]

  clear_request-IsConsistent :
      (w : World G) (payload : Option C.Json)
      → IsConsistent w
      → IsConsistent (clear_request C w payload)
  unfolding clear_request
  clear_request-IsConsistent w none c = c
  clear_request-IsConsistent w (some payload) c =
      elim (Option-cases (C.get_object_item payload "rid")) [
        | inl e ↦ rw (e, clear_request) c
        | inr (item, e) ↦ elim (Option-cases (C.valuestring item)) [
          | inl e' ↦ rw (e, clear_request, e') c
          | inr (rid, e') ↦ rw (e, clear_request, e') (purge_rid-IsConsistent w rid c)
        ]
      ]

  pub answer_clients-IsConsistent :
      (w w' : World G) (proxy_name : String) (rid_item headers : C.Json) (payload : Option C.Json)
      (remove_request : Bool)
      → answer_clients C w proxy_name rid_item headers payload remove_request ≡ some w'
      → IsConsistent w
      → IsConsistent w'
  unfolding answer_clients
  answer_clients-IsConsistent w w' proxy_name rid_item headers payload remove_request h c =
      elim (Bool-cases (is_clearing C headers payload)) [
        | inl e ↦
            reply_each-IsConsistent (clear_request C w payload) w' proxy_name (rid_items C rid_item)
              headers none remove_request (ground (arith, e, h))
              (clear_request-IsConsistent w payload c)
        | inr e ↦
            reply_each-IsConsistent w w' proxy_name (rid_items C rid_item) headers payload
              remove_request (ground (arith, e, h)) c
      ]
