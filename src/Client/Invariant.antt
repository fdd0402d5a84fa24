-- ===== src/Client/Invariant.antt =====
-- What holds of the client side's tables between any two handlers.
use gonggo.Base.{
  ◌≡◌, ◌≢◌, String, true, none, some, arith, ◌==◌, if◌then◌else◌, string_eq, nat_eq, sym, ◌∙◌,
}
use gonggo.Glib.{Glib}
use gonggo.Client.Request.{Conn, ClientRequestTableContext}
use gonggo.Client.Connection.Laws as ConnectionLaws
use gonggo.Client.Proxyname.Laws as ProxynameLaws
use gonggo.Client.World.{World}

module _ {G : Glib} where
  -- A request with a connection is listed under it, has its text, and stands under a proxy.
  pub record IsTracked (w : World G) (rid : String) (ctx : ClientRequestTableContext) : Type 0 where
    pub by_connection : ConnectionLaws.listed G w.connections ctx.conn rid ≡ true
    pub with_text : G.lookup w.services rid ≢ none
    pub by_proxy : (p : String) × (ProxynameLaws.sent_flag G w.proxynames p rid ≢ none)

  pub record IsConsistent (w : World G) : Type 0 where
    pub connections_valid : ConnectionLaws.IsValid G w.connections
    pub proxynames_valid : ProxynameLaws.IsValid G w.proxynames
    pub tracked :
        (rid : String) (ctx : ClientRequestTableContext)
        → G.lookup w.requests rid ≡ some ctx
        → IsTracked w rid ctx

  -- The effect on the tables of one request that leaves them.
  pub record Forgets (rid : String) (w w' : World G) : Type 0 where
    pub connections_valid : ConnectionLaws.IsValid G w'.connections
    pub proxynames_valid : ProxynameLaws.IsValid G w'.proxynames
    pub requests_without :
        (j : String) → G.lookup w'.requests j ≡ (if rid == j then none else G.lookup w.requests j)
    pub listed_same :
        (conn : Conn) (j : String)
        → rid ≢ j
        → ConnectionLaws.listed G w'.connections conn j
          ≡ ConnectionLaws.listed G w.connections conn j
    pub text_same : (j : String) → rid ≢ j → G.lookup w'.services j ≡ G.lookup w.services j
    pub flag_same :
        (p j : String)
        → rid ≢ j
        → ProxynameLaws.sent_flag G w'.proxynames p j ≡ ProxynameLaws.sent_flag G w.proxynames p j

  other :
      {rid : String} {w w' : World G} (j : String) (ctx : ClientRequestTableContext)
      → Forgets rid w w'
      → G.lookup w'.requests j ≡ some ctx
      → (rid ≢ j) × (G.lookup w.requests j ≡ some ctx)
  other j ctx f h = ground (arith, h, f.requests_without j)

  pub Forgets-IsConsistent :
      {rid : String} {w w' : World G} → Forgets rid w w' → IsConsistent w → IsConsistent w'
  Forgets-IsConsistent {rid} {w} {w'} f c = record {
    connections_valid = f.connections_valid;
    proxynames_valid = f.proxynames_valid;
    tracked = λ j ctx h.
        let (ne, old) = other j ctx f h in
        let t = c.tracked j ctx old in
        record {
          by_connection = f.listed_same ctx.conn j ne ∙ t.by_connection;
          with_text = λ e. t.with_text (sym (f.text_same j ne) ∙ e);
          by_proxy = (t.by_proxy.0, λ e. t.by_proxy.1 (sym (f.flag_same t.by_proxy.0 j ne) ∙ e));
        };
  }
