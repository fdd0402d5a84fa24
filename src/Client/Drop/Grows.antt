-- ===== src/Client/Drop/Grows.antt =====
-- gear/clientservice.c, `client_service_drop_conn`: what asking the proxies does to the tables.
use gonggo.Base.{
  ℕ, ◌≡◌, ◌≢◌, refl, String, none, some, List, [], ◌∷◌, arith, string_eq, nat_eq, ◌∙◌, Option-cases,
  inl, inr,
}
use gonggo.Glib.{Glib}
use gonggo.Json.{Cjson}
use gonggo.Client.Proxyname.{ClientProxynameTableValue}
use gonggo.Client.Proxyname.Laws as ProxynameLaws
use gonggo.Client.Proxyname.Valid as ProxynameValid
use gonggo.Client.Service.{client_service_table_set, client_service_table_service_payload_create}
use gonggo.Client.World.{World}
use gonggo.Client.Invariant.{IsConsistent}
use gonggo.Client.Route.{wake_channel, request_drop}
use gonggo.Client.Drop.{request_drop_of, request_drops, ask_proxy, ask_each}

module _ {G : Glib} where
  -- New requests of gonggo's own take nothing away.
  pub record Grows (w w' : World G) : Type 0 where
    pub requests_same : w'.requests ≡ w.requests
    pub connections_same : w'.connections ≡ w.connections
    pub text_kept : (j : String) → G.lookup w.services j ≢ none → G.lookup w'.services j ≢ none
    pub flag_kept :
        (p j : String)
        → ProxynameLaws.sent_flag G w.proxynames p j ≢ none
        → ProxynameLaws.sent_flag G w'.proxynames p j ≢ none
    pub valid_kept : ProxynameLaws.IsValid G w'.proxynames

  pub Grows-refl : (w : World G) → ProxynameLaws.IsValid G w.proxynames → Grows w w
  Grows-refl w v = record {
    requests_same = refl;
    connections_same = refl;
    text_kept = λ j h. h;
    flag_kept = λ p j h. h;
    valid_kept = v;
  }

  pub Grows-trans : {w w' w'' : World G} → Grows w w' → Grows w' w'' → Grows w w''
  Grows-trans f g = record {
    requests_same = g.requests_same ∙ f.requests_same;
    connections_same = g.connections_same ∙ f.connections_same;
    text_kept = λ j h. g.text_kept j (f.text_kept j h);
    flag_kept = λ p j h. g.flag_kept p j (f.flag_kept p j h);
    valid_kept = g.valid_kept;
  }

  pub Grows-IsConsistent : {w w' : World G} → Grows w w' → IsConsistent w → IsConsistent w'
  Grows-IsConsistent g c = record {
    connections_valid = rw g.connections_same c.connections_valid;
    proxynames_valid = g.valid_kept;
    tracked = λ rid ctx h.
        let t = c.tracked rid ctx (ground (arith, h, g.requests_same)) in
        record {
          by_connection = rw g.connections_same t.by_connection;
          with_text = g.text_kept rid t.with_text;
          by_proxy = (t.by_proxy.0, g.flag_kept t.by_proxy.0 rid t.by_proxy.1);
        };
  }

  wake_channel-Grows :
      (w : World G) (p : String) → ProxynameLaws.IsValid G w.proxynames → Grows w (wake_channel w p)
  unfolding wake_channel
  wake_channel-Grows w p v = elim (Option-cases (G.lookup w.channels p)) [
    | inl e ↦ rw (e, wake_channel) (Grows-refl w v)
    | inr (_, e) ↦
        rw (e, wake_channel)
          (record {
            requests_same = refl;
            connections_same = refl;
            text_kept = λ j h. h;
            flag_kept = λ q j h. h;
            valid_kept = v;
          })
  ]

module _ {G : Glib} (C : Cjson) (uuid : ℕ → String) where
  request_drop_of-Grows :
      (w : World G) (p rid : String)
      → ProxynameLaws.IsValid G w.proxynames
      → Grows w (request_drop_of C uuid w p rid)
  unfolding request_drop_of client_service_table_set
  request_drop_of-Grows w p rid v = record {
    requests_same = refl;
    connections_same = refl;
    text_kept = λ j h. ground (
      arith,
      h,
      G.lookup-insert (G.remove w.services (uuid w.uuids)) (uuid w.uuids)
          (client_service_table_service_payload_create C request_drop
            (some (C.add_item_to_object C.create_object "rid" (C.create_string rid))))
          j,
      G.lookup-remove w.services (uuid w.uuids) j,
    );
    flag_kept = λ q j h.
        ground (arith, h, ProxynameLaws.sent_flag-set G w.proxynames p (uuid w.uuids) q j v);
    valid_kept = ProxynameValid.set-IsValid G w.proxynames p (uuid w.uuids) v;
  }

  request_drops-Grows :
      (w : World G) (p : String) (rids : List String)
      → ProxynameLaws.IsValid G w.proxynames
      → Grows w (request_drops C uuid w p rids)
  unfolding request_drops
  request_drops-Grows w p [] v = Grows-refl w v
  request_drops-Grows w p (rid ∷ rids) v =
      let g = request_drop_of-Grows w p rid v in
      Grows-trans g (request_drops-Grows (request_drop_of C uuid w p rid) p rids g.valid_kept)

  ask_proxy-Grows :
      (w : World G) (p : String) (x : ClientProxynameTableValue)
      → ProxynameLaws.IsValid G w.proxynames
      → Grows w (ask_proxy C uuid w p x)
  unfolding ask_proxy
  ask_proxy-Grows w p x v = elim (Option-cases (G.lookup w.channels p)) [
    | inl e ↦ rw (e, ask_proxy) (Grows-refl w v)
    | inr (_, e) ↦
        let g = request_drops-Grows w p x.request_uuids v in
        rw (e, ask_proxy)
          (Grows-trans g
            (wake_channel-Grows (request_drops C uuid w p x.request_uuids) p g.valid_kept))
  ]

  pub ask_each-Grows :
      (w : World G) (es : List (String × ClientProxynameTableValue))
      → ProxynameLaws.IsValid G w.proxynames
      → Grows w (ask_each C uuid w es)
  unfolding ask_each
  ask_each-Grows w [] v = Grows-refl w v
  ask_each-Grows w ((p, x) ∷ es) v =
      let g = ask_proxy-Grows w p x v in
      Grows-trans g (ask_each-Grows (ask_proxy C uuid w p x) es g.valid_kept)
