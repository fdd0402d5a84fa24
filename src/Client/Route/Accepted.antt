-- ===== src/Client/Route/Accepted.antt =====
-- `client_service_route`: what an accepted request leaves in the four tables, and that every
-- message keeps them consistent.
use gonggo.Base.{
  ℕ, ◌≡◌, ◌≢◌, String, Bool, true, false, Option, none, some, arith, string_eq, nat_eq, ◌∙◌, sym,
  subst,
}
use gonggo.Base.Int.{ℤ}
use gonggo.Glib.{Glib}
use gonggo.Json.{Cjson}
use gonggo.Client.Request.{Conn, ClientRequestTableContext}
use gonggo.Client.Request.Laws as RequestLaws
use gonggo.Client.Connection.Laws as ConnectionLaws
use gonggo.Client.Proxyname.Laws as ProxynameLaws
use gonggo.Client.Proxyname.Valid as ProxynameValid
use gonggo.Client.Service.{client_service_table_set, client_service_table_service_payload_create}
use gonggo.Client.World.{World}
use gonggo.Client.Invariant.{IsConsistent, IsTracked}
use gonggo.Client.Reply.{write_if}
use gonggo.Client.Route.{wake_channel, save_request, client_service_route}
use gonggo.Client.Route.Outcome.{
  Outcome, ignored, rejected, answered, accepted, client_service_route-Outcome,
}
use gonggo.Db.{RespondQueryResult}

module _ {G : Glib} where
  -- Only what goes out differs.
  pub record SameTables (w w' : World G) : Type 0 where
    pub requests_same : w'.requests ≡ w.requests
    pub connections_same : w'.connections ≡ w.connections
    pub services_same : w'.services ≡ w.services
    pub proxynames_same : w'.proxynames ≡ w.proxynames

  pub same-IsConsistent : {w w' : World G} → SameTables w w' → IsConsistent w → IsConsistent w'
  same-IsConsistent s c = record {
    connections_valid = rw s.connections_same c.connections_valid;
    proxynames_valid = rw s.proxynames_same c.proxynames_valid;
    tracked = λ rid ctx h.
        let t = c.tracked rid ctx (ground (arith, h, s.requests_same)) in
        record {
          by_connection = rw s.connections_same t.by_connection;
          with_text = rw s.services_same t.with_text;
          by_proxy = rw s.proxynames_same t.by_proxy;
        };
  }

  pub wake_channel-SameTables : (w : World G) (p : String) → SameTables w (wake_channel w p)
  unfolding wake_channel
  wake_channel-SameTables w p = ground arith

-- The text that the proxy will read.
abbrev pub request_text : (C : Cjson) → String → Option C.Json → String
request_text C = client_service_table_service_payload_create C

module _ {G : Glib} (C : Cjson) where
  -- An accepted request stands in all four tables.
  pub record IsEntered (w : World G) (conn : Conn) (rid proxy service : String)
      (payload : Option C.Json) (timeout : ℤ) (w' : World G) : Type 0 where
    pub in_requests :
        G.lookup w'.requests rid
        ≡ some (record { conn = conn; timestamp = w.now; timeoutsec = timeout })
    pub in_connections : ConnectionLaws.listed G w'.connections conn rid ≡ true
    pub in_services : G.lookup w'.services rid ≡ some (request_text C service payload)
    pub in_proxynames :
        ProxynameLaws.sent_flag G w'.proxynames proxy rid
        ≡ elim (ProxynameLaws.sent_flag G w.proxynames proxy rid) [
          | none ↦ some false
          | some sent ↦ some sent
        ]

  pub save_request-IsEntered :
      (w : World G) (conn : Conn) (rid proxy service : String) (payload : Option C.Json)
      (timeout : ℤ)
      → IsConsistent w
      → IsEntered w conn rid proxy service payload timeout
          (save_request C w conn rid proxy service payload timeout)
  unfolding save_request client_service_table_set
  save_request-IsEntered w conn rid proxy service payload timeout c = record {
    in_requests = RequestLaws.lookup-set G w.requests rid conn timeout w.now rid ∙ ground arith;
    in_connections = ConnectionLaws.listed-set G w.connections conn rid conn rid ∙ ground arith;
    in_services =
        G.lookup-insert (G.remove w.services rid) rid (request_text C service payload) rid
        ∙ ground arith;
    in_proxynames =
        ProxynameLaws.sent_flag-set G w.proxynames proxy rid proxy rid c.proxynames_valid
        ∙ ground arith;
  }

  save_request-IsTracked :
      (w : World G) (conn : Conn) (rid proxy service : String) (payload : Option C.Json)
      (timeout : ℤ) (j : String) (ctx : ClientRequestTableContext)
      → IsConsistent w
      → rid ≢ j
      → IsTracked w j ctx
      → IsTracked (save_request C w conn rid proxy service payload timeout) j ctx
  unfolding save_request client_service_table_set
  save_request-IsTracked w conn rid proxy service payload timeout j ctx c ne t = record {
    by_connection =
        ConnectionLaws.listed-set G w.connections conn rid ctx.conn j
        ∙ ground (arith, ne, t.by_connection);
    with_text = λ e. t.with_text (
        ground (
          arith,
          e,
          ne,
          G.lookup-insert (G.remove w.services rid) rid (request_text C service payload) j,
          G.lookup-remove w.services rid j,
        ));
    by_proxy = (
      t.by_proxy.0,
      λ e. t.by_proxy.1 (
          ground (
            arith,
            e,
            ne,
            ProxynameLaws.sent_flag-set G w.proxynames proxy rid t.by_proxy.0 j c.proxynames_valid,
          )),
    );
  }

  entered-IsTracked :
      (w : World G) (conn : Conn) (rid proxy service : String) (payload : Option C.Json)
      (timeout : ℤ) (w' : World G) (ctx : ClientRequestTableContext)
      → IsEntered w conn rid proxy service payload timeout w'
      → G.lookup w'.requests rid ≡ some ctx
      → IsTracked w' rid ctx
  entered-IsTracked w conn rid proxy service payload timeout w' ctx e h = record {
    by_connection = ground (arith, h, e.in_requests, e.in_connections);
    with_text = ground (arith, e.in_services);
    by_proxy = (proxy, ground (arith, e.in_proxynames));
  }

  save_request-requests :
      (w : World G) (conn : Conn) (rid proxy service : String) (payload : Option C.Json)
      (timeout : ℤ) (j : String)
      → rid ≢ j
      → G.lookup (save_request C w conn rid proxy service payload timeout).requests j
        ≡ G.lookup w.requests j
  unfolding save_request
  save_request-requests w conn rid proxy service payload timeout j ne =
      RequestLaws.lookup-set G w.requests rid conn timeout w.now j ∙ ground (arith, ne)

  pub save_request-IsConsistent :
      (w : World G) (conn : Conn) (rid proxy service : String) (payload : Option C.Json)
      (timeout : ℤ)
      → IsConsistent w
      → IsConsistent (save_request C w conn rid proxy service payload timeout)
  save_request-IsConsistent w conn rid proxy service payload timeout c = record {
    connections_valid =
        unfold save_request in
        ConnectionLaws.set-IsValid G w.connections conn rid c.connections_valid;
    proxynames_valid =
        unfold save_request in
        ProxynameValid.set-IsValid G w.proxynames proxy rid c.proxynames_valid;
    tracked = λ j ctx h. elim (string_eq.dec rid j) [
      | yes e ↦
          subst
            (λ k.
              G.lookup (save_request C w conn rid proxy service payload timeout).requests k
                ≡ some ctx
              → IsTracked (save_request C w conn rid proxy service payload timeout) k ctx)
            e
            (entered-IsTracked w conn rid proxy service payload timeout _ ctx
              (save_request-IsEntered w conn rid proxy service payload timeout c))
            h
      | no ne ↦ save_request-IsTracked w conn rid proxy service payload timeout j ctx c ne (
          c.tracked j ctx
            (sym (save_request-requests w conn rid proxy service payload timeout j ne) ∙ h))
    ];
  }

module _ {G : Glib} (C : Cjson) (query : String → ℕ → ℕ → Bool × RespondQueryResult) where
  Outcome-IsConsistent :
      {w w' : World G} {conn : Conn} → Outcome C query w conn w' → IsConsistent w → IsConsistent w'
  unfolding write_if
  Outcome-IsConsistent {w} (ignored e) c = subst IsConsistent (sym e) c
  Outcome-IsConsistent {w} (rejected rid status ne e) c =
      same-IsConsistent {w = w} (ground (arith, e)) c
  Outcome-IsConsistent {w} (answered rid text saves e) c =
      same-IsConsistent {w = w} (ground (arith, e)) c
  Outcome-IsConsistent {w} {conn = conn} (accepted rid proxy service payload timeout lo hi ok e) c =
      subst IsConsistent (sym e) (
        same-IsConsistent (wake_channel-SameTables _ proxy) (
          save_request-IsConsistent C _ conn rid proxy service payload timeout
            (same-IsConsistent {w = w} (ground arith) c)))

  -- No message of a client, well formed or not, makes the tables inconsistent.
  pub client_service_route-IsConsistent :
      (path : Option String) (w : World G) (uri text : String) (conn : Conn)
      → IsConsistent w
      → IsConsistent (client_service_route C query path w uri text conn)
  client_service_route-IsConsistent path w uri text conn =
      Outcome-IsConsistent (client_service_route-Outcome C query path w uri text conn)
