-- ===== src/Client/Drop/Laws.antt =====
-- `client_service_drop_conn`: which requests leave the tables, and what stays.
use gonggo.Base.{
  ℕ, ◌≡◌, refl, String, false, none, some, List, [], ◌∷◌, arith, if◌then◌else◌, ◌==◌, string_eq,
  nat_eq, ◌∙◌, contains, Option-cases, inl, inr, ap,
}
use gonggo.Glib.{Glib}
use gonggo.Json.{Cjson}
use gonggo.Client.Request.{Conn}
use gonggo.Client.Request.Laws as RequestLaws
use gonggo.Client.Connection.{client_connection_table_request_dup, client_connection_table_remove}
use gonggo.Client.Connection.Laws as ConnectionLaws
use gonggo.Client.Proxyname.{ProxynameTable}
use gonggo.Client.Proxyname.Valid as ProxynameValid
use gonggo.Client.Proxyname.Everywhere as ProxynameEverywhere
use gonggo.Client.Service.{client_service_table_remove}
use gonggo.Client.World.{World}
use gonggo.Client.Invariant.{IsConsistent, Forgets, Forgets-IsConsistent}
use gonggo.Client.Drop.{forget_request, forget_each, note_proxy, ask_each, client_service_drop_conn}
use gonggo.Client.Drop.Grows.{Grows, Grows-IsConsistent, ask_each-Grows}

module _ {G : Glib} where
  forget_request-Forgets :
      (w : World G) (rid : String) → IsConsistent w → Forgets rid w (forget_request w rid)
  unfolding forget_request client_service_table_remove
  forget_request-Forgets w rid c = record {
    connections_valid = c.connections_valid;
    proxynames_valid = ProxynameValid.drop_all-IsValid G w.proxynames rid c.proxynames_valid;
    requests_without = RequestLaws.lookup-remove G w.requests rid;
    listed_same = λ conn j ne. refl;
    text_same = λ j ne. G.lookup-remove w.services rid j ∙ ground (arith, ne);
    flag_same =
        λ p j ne. ProxynameEverywhere.drop_all_other G w.proxynames rid p j c.proxynames_valid ne;
  }

  forget_request-connections :
      (w : World G) (rid : String) → (forget_request w rid).connections ≡ w.connections
  unfolding forget_request
  forget_request-connections w rid = refl

  forget_each-IsConsistent :
      (w : World G) (noted : ProxynameTable G) (rids : List String)
      → IsConsistent w
      → IsConsistent (forget_each w noted rids).0
  unfolding forget_each
  forget_each-IsConsistent w noted [] c = c
  forget_each-IsConsistent w noted (rid ∷ rids) c =
      forget_each-IsConsistent (forget_request w rid) (note_proxy w noted rid) rids
        (Forgets-IsConsistent (forget_request-Forgets w rid c) c)

  forget_each-requests :
      (w : World G) (noted : ProxynameTable G) (rids : List String) (j : String)
      → G.lookup (forget_each w noted rids).0.requests j
        ≡ (if contains j rids then none else G.lookup w.requests j)
  unfolding forget_each forget_request
  forget_each-requests w noted [] j = refl
  forget_each-requests w noted (rid ∷ rids) j =
      forget_each-requests (forget_request w rid) (note_proxy w noted rid) rids j
      ∙ ground (arith, RequestLaws.lookup-remove G w.requests rid j)

  forget_each-connections :
      (w : World G) (noted : ProxynameTable G) (rids : List String)
      → (forget_each w noted rids).0.connections ≡ w.connections
  unfolding forget_each
  forget_each-connections w noted [] = refl
  forget_each-connections w noted (rid ∷ rids) =
      forget_each-connections (forget_request w rid) (note_proxy w noted rid) rids
      ∙ forget_request-connections w rid

module _ {G : Glib} (C : Cjson) (uuid : ℕ → String) where
  -- What the handler has done when it removes the connection's entry.
  dropped : World G → List String → World G
  dropped w rids =
      let (forgotten, noted) = forget_each w G.new rids in
      ask_each C uuid forgotten (G.entries noted)

  dropped-Grows :
      (w : World G) (rids : List String)
      → IsConsistent w
      → Grows (forget_each w G.new rids).0 (dropped w rids)
  unfolding dropped
  dropped-Grows w rids c =
      ask_each-Grows C uuid _ _ (forget_each-IsConsistent w G.new rids c).proxynames_valid

  -- When a connection closes, exactly its own requests leave the request table.
  pub client_service_drop_conn-requests :
      (w : World G) (conn : Conn) (j : String)
      → IsConsistent w
      → G.lookup (client_service_drop_conn C uuid w conn).requests j
        ≡ (if ConnectionLaws.listed G w.connections conn j then none else G.lookup w.requests j)
  unfolding client_service_drop_conn client_connection_table_request_dup dropped
  client_service_drop_conn-requests w conn j c = elim (Option-cases (G.lookup w.connections conn)) [
    | inl e ↦ ground (arith, e)
    | inr (rids, e) ↦
        rw (e, client_service_drop_conn, client_connection_table_request_dup)
          (ap (λ t. G.lookup t j) (dropped-Grows w rids c).requests_same
            ∙ (forget_each-requests w G.new rids j ∙ ground (arith, e)))
  ]

  -- When a connection closes, no request is listed under it any more, and the lists of the other
  -- connections stay.
  pub client_service_drop_conn-listed :
      (w : World G) (conn conn' : Conn) (j : String)
      → IsConsistent w
      → ConnectionLaws.listed G (client_service_drop_conn C uuid w conn).connections conn' j
        ≡ (if conn == conn' then false else ConnectionLaws.listed G w.connections conn' j)
  unfolding client_service_drop_conn client_connection_table_request_dup dropped
  client_service_drop_conn-listed w conn conn' j c =
      elim (Option-cases (G.lookup w.connections conn)) [
        | inl e ↦ ground (arith, e)
        | inr (rids, e) ↦
            rw (e, client_service_drop_conn, client_connection_table_request_dup)
              (ConnectionLaws.listed-remove G (dropped w rids).connections conn conn' j
                ∙ ap (λ t. if conn == conn' then false else ConnectionLaws.listed G t conn' j)
                    ((dropped-Grows w rids c).connections_same
                      ∙ forget_each-connections w G.new rids))
      ]

  removed-IsConsistent :
      (w v : World G) (conn : Conn) (rids : List String)
      → IsConsistent w
      → IsConsistent v
      → G.lookup w.connections conn ≡ some rids
      → v.connections ≡ w.connections
      → ((j : String)
          → G.lookup v.requests j ≡ (if contains j rids then none else G.lookup w.requests j))
      → IsConsistent
          (record v { connections = client_connection_table_remove G v.connections conn })
  removed-IsConsistent w v conn rids c cv here same gone = record {
    connections_valid = ConnectionLaws.remove-IsValid G v.connections conn cv.connections_valid;
    proxynames_valid = cv.proxynames_valid;
    tracked = λ j ctx h.
        let t = cv.tracked j ctx h in
        let s = c.tracked j ctx (ground (arith, h, gone j)) in
        record {
          by_connection =
              ConnectionLaws.listed-remove G v.connections conn ctx.conn j
              ∙ ground (arith, t.by_connection, s.by_connection, here, gone j, h);
          with_text = t.with_text;
          by_proxy = t.by_proxy;
        };
  }

  -- The end of a connection leaves the tables consistent.
  pub client_service_drop_conn-IsConsistent :
      (w : World G) (conn : Conn)
      → IsConsistent w
      → IsConsistent (client_service_drop_conn C uuid w conn)
  unfolding client_service_drop_conn client_connection_table_request_dup dropped
  client_service_drop_conn-IsConsistent w conn c =
      elim (Option-cases (G.lookup w.connections conn)) [
        | inl e ↦ rw (e, client_service_drop_conn, client_connection_table_request_dup) c
        | inr (rids, e) ↦
            let g = dropped-Grows w rids c in
            rw (e, client_service_drop_conn, client_connection_table_request_dup)
              (removed-IsConsistent w (dropped w rids) conn rids c
                (Grows-IsConsistent g (forget_each-IsConsistent w G.new rids c)) e
                (g.connections_same ∙ forget_each-connections w G.new rids)
                (λ j. ap (λ t. G.lookup t j) g.requests_same ∙ forget_each-requests w G.new rids j))
      ]
