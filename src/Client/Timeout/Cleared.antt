-- ===== src/Client/Timeout/Cleared.antt =====
-- One turn of the thread `client_timeout`: what of an ended request is removed from the tables.
use gonggo.Base.{
  ◌≡◌, ◌≢◌, String, true, false, none, some, List, [], ◌∷◌, arith, string_eq, nat_eq, contains,
  distinct, sym, ◌∙◌, subst,
}
use gonggo.Glib.{Glib}
use gonggo.Json.{Cjson}
use gonggo.Client.Request.{
  Conn, ClientRequestTableContext, is_expired, client_request_table_expired,
}
use gonggo.Client.Request.Laws as RequestLaws
use gonggo.Client.Connection.Laws as ConnectionLaws
use gonggo.Client.Proxyname.Laws as ProxynameLaws
use gonggo.Client.Proxyname.Everywhere as ProxynameEverywhere
use gonggo.Client.Service.{client_service_table_remove}
use gonggo.Client.World.{World}
use gonggo.Client.Invariant.{IsConsistent}
use gonggo.Client.Timeout.{expire_request, expire_each, client_timeout_turn}
use gonggo.Client.Timeout.Laws.{
  client_timeout_turn-requests, reply-tables, expire_request-Forgets, expire_request-IsConsistent,
  expire_request-requests,
}

module _ {G : Glib} where
  -- The request is not listed under the connection, has no text, and stands under no proxy.
  pub record IsCleared (w : World G) (conn : Conn) (rid : String) : Type 0 where
    pub unlisted : ConnectionLaws.listed G w.connections conn rid ≡ false
    pub without_text : G.lookup w.services rid ≡ none
    pub without_proxy : (p : String) → ProxynameLaws.sent_flag G w.proxynames p rid ≡ none

  -- At most one proxy has the request.
  abbrev pub HasOneProxy : World G → String → Type 0
  HasOneProxy w rid =
      (p p' : String)
      → ProxynameLaws.sent_flag G w.proxynames p rid ≢ none
      → ProxynameLaws.sent_flag G w.proxynames p' rid ≢ none
      → p ≡ p'

module _ {G : Glib} (C : Cjson) where
  expire_request-clears :
      (w : World G) (rid : String) (ctx : ClientRequestTableContext)
      → IsConsistent w
      → G.lookup w.requests rid ≡ some ctx
      → HasOneProxy w rid
      → IsCleared (expire_request C w rid) ctx.conn rid
  unfolding expire_request client_service_table_remove
  expire_request-clears w rid ctx c here one = record {
    unlisted = rw reply-tables (
        ConnectionLaws.listed-drop G w.connections _ rid ctx.conn rid c.connections_valid
        ∙ ground (arith, here, RequestLaws.get_conn-conn_of G w.requests rid false false w.now));
    without_text = rw reply-tables (G.lookup-remove w.services rid rid ∙ ground arith);
    without_proxy = λ p.
        rw reply-tables
          (ProxynameEverywhere.drop_all_single G w.proxynames rid p c.proxynames_valid one);
  }

  expire_each-keeps :
      (w : World G) (rids : List String) (conn : Conn) (j : String)
      → IsConsistent w
      → contains j rids ≡ false
      → IsCleared w conn j
      → IsCleared (expire_each C w rids) conn j
  unfolding expire_each
  expire_each-keeps w [] conn j c out k = k
  expire_each-keeps w (rid ∷ rids) conn j c out k =
      let f = expire_request-Forgets C w rid c in
      let ne : rid ≢ j = λ e. ground (arith, e, out) in
      expire_each-keeps (expire_request C w rid) rids conn j (expire_request-IsConsistent C w rid c)
        (ground (arith, out))
        (record {
          unlisted = f.listed_same conn j ne ∙ k.unlisted;
          without_text = f.text_same j ne ∙ k.without_text;
          without_proxy = λ p. f.flag_same p j ne ∙ k.without_proxy p;
        })

  expire_each-clears :
      (w : World G) (rids : List String) (j : String) (ctx : ClientRequestTableContext)
      → IsConsistent w
      → distinct rids ≡ true
      → contains j rids ≡ true
      → G.lookup w.requests j ≡ some ctx
      → HasOneProxy w j
      → IsCleared (expire_each C w rids) ctx.conn j
  unfolding expire_each
  expire_each-clears w [] j ctx c d there h one = cc
  expire_each-clears w (rid ∷ rids) j ctx c d there h one = elim (string_eq.dec rid j) [
    | yes e ↦
        expire_each-keeps (expire_request C w rid) rids ctx.conn j
          (expire_request-IsConsistent C w rid c) (ground (arith, d, e))
          (subst (λ r. IsCleared (expire_request C w r) ctx.conn j) (sym e)
            (expire_request-clears w j ctx c h one))
    | no ne ↦
        let f = expire_request-Forgets C w rid c in
        expire_each-clears (expire_request C w rid) rids j ctx
          (expire_request-IsConsistent C w rid c) (ground (arith, d)) (ground (arith, there, ne))
          (expire_request-requests C w rid j ∙ ground (arith, ne, h))
          (λ p p' a b.
            one p p' (λ e. a (f.flag_same p j ne ∙ e)) (λ e. b (f.flag_same p' j ne ∙ e)))
  ]

  -- On consistent tables, a request that has run out of time, and that at most one proxy has: after
  -- the turn it is gone from the request table, the connection that waited for it does not list it,
  -- it has no text, and no proxy has it.
  pub client_timeout_turn-IsCleared :
      (w : World G) (rid : String) (ctx : ClientRequestTableContext)
      → IsConsistent w
      → G.lookup w.requests rid ≡ some ctx
      → is_expired ctx w.now ≡ true
      → HasOneProxy w rid
      → (G.lookup (client_timeout_turn C w).requests rid ≡ none)
        × IsCleared (client_timeout_turn C w) ctx.conn rid
  unfolding client_timeout_turn
  client_timeout_turn-IsCleared w rid ctx c here late one = (
    client_timeout_turn-requests C w rid ∙ ground (arith, here, late),
    expire_each-clears w (client_request_table_expired G w.requests w.now) rid ctx c
        (RequestLaws.distinct-expired G w.requests w.now)
        (RequestLaws.contains-expired G w.requests w.now rid ∙ ground (arith, here, late)) here one,
  )
