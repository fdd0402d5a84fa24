-- ===== src/System/Steady.antt =====
-- gear/proxysubscribe.c, gear/proxychannel.c and gear/wshandler.c: answers and requests in transit
-- never change which threads a proxy has.
use gonggo.Base.{
  ℕ, ◌≡◌, refl, String, Bool, true, false, Option, none, some, List, [], ◌∷◌, arith, ◌∙◌, ap, subst,
  sym, Option-cases, Bool-cases, inl, inr, string_eq, nat_eq, ◌%◌, ◌==◌,
}
use gonggo.Glib.{Glib}
use gonggo.Json.{Cjson}
use gonggo.Client.World.{World}
use gonggo.Client.Reply.{client_service_reply}
use gonggo.Client.Request.{Conn}
use gonggo.Client.Steady.{
  SameThreads, threads_refl, threads_trans, client_service_reply-SameThreads,
  client_service_route-SameThreads,
}
use gonggo.Proxy.Subscribe.{
  SubscribeState, ProxySubscribeShm, proxy_subscribe_exchange, proxy_subscribe_reply, reply_removal,
  reply_each, clear_request, proxy_subscribe_purge_rid, answer_clients, is_clearing, rid_items,
}
use gonggo.Proxy.Subscribe.Exchange.{proxy_subscribe_exchange-IsExchange, finished}
use gonggo.Proxy.Channel.{ChannelShm, proxy_channel_exchange}
use gonggo.Proxy.Channel as Channel
use gonggo.Proxy.Channel.Flags.{proxy_channel_exchange-IsMarking}
use gonggo.Client.Proxyname.Laws.{IsValid}
use gonggo.System.{Outside, opcode_text, ws_data_handler}

module _ {G : Glib} where
  finished-some :
      (C : Cjson) (o : Option (World G)) (w' : World G) (state : SubscribeState)
      → finished C o ≡ some (state, w')
      → o ≡ some w'
  finished-some C none w' state e = absurd (ground (arith, e))
  finished-some C (some w) w' state e = ground (arith, e)

module _ {G : Glib} (C : Cjson) where
  replied :
      {w w' : World G} (conn : Conn) (rid : String) (headers : C.Json) (payload : Option C.Json)
      → SameThreads w w'
      → SameThreads w (client_service_reply C w' conn rid headers payload true)
  replied {w} {w'} conn rid headers payload s =
      threads_trans s (client_service_reply-SameThreads C w' conn rid headers payload true)

  reply-SameThreads :
      (w : World G) (name rid : String) (headers : C.Json) (payload : Option C.Json) (remove : Bool)
      → SameThreads w (proxy_subscribe_reply C w name rid headers payload remove)
  unfolding proxy_subscribe_reply reply_removal
  reply-SameThreads w name rid headers payload true =
      replied _ rid headers payload (record { channels = refl; alives = refl })
  reply-SameThreads w name rid headers payload false =
      replied _ rid headers payload (record { channels = refl; alives = refl })

  reply_each-SameThreads :
      (w w' : World G) (name : String) (items : List C.Json) (headers : C.Json)
      (payload : Option C.Json) (remove : Bool)
      → reply_each C w name items headers payload remove ≡ some w'
      → SameThreads w w'
  unfolding reply_each
  reply_each-SameThreads w w' name [] headers payload remove e =
      subst (SameThreads w) (ground (arith, e)) (threads_refl w)
  reply_each-SameThreads w w' name (item ∷ items) headers payload remove e =
      elim (Option-cases (C.valuestring item)) [
        | inl f ↦ absurd (ground (arith, e, f))
        | inr (rid, f) ↦
            let next = proxy_subscribe_reply C w name rid headers payload remove in
            threads_trans (reply-SameThreads w name rid headers payload remove) (
              reply_each-SameThreads next w' name items headers payload remove
                (ground (arith, e, f)))
      ]

  clear_request-SameThreads :
      (w : World G) (payload : Option C.Json) → SameThreads w (clear_request C w payload)
  unfolding clear_request proxy_subscribe_purge_rid
  clear_request-SameThreads w none = threads_refl w
  clear_request-SameThreads w (some payload) =
      elim (Option-cases (C.get_object_item payload "rid")) [
        | inl e ↦ rw (e, clear_request) (threads_refl w)
        | inr (item, e) ↦ elim (Option-cases (C.valuestring item)) [
          | inl f ↦ rw (e, f, clear_request) (threads_refl w)
          | inr (rid, f) ↦ rw (e, f, clear_request) (record { channels = refl; alives = refl })
        ]
      ]

  answer_clients-SameThreads :
      (w w' : World G) (name : String) (rid_item headers : C.Json) (payload : Option C.Json)
      (remove : Bool)
      → answer_clients C w name rid_item headers payload remove ≡ some w'
      → SameThreads w w'
  unfolding answer_clients
  answer_clients-SameThreads w w' name rid_item headers payload remove e =
      elim (Bool-cases (is_clearing C headers payload)) [
        | inl f ↦ threads_trans (clear_request-SameThreads w payload) (
            reply_each-SameThreads _ w' name (rid_items C rid_item) headers none remove
              (ground (arith, e, f)))
        | inr f ↦
            reply_each-SameThreads w w' name (rid_items C rid_item) headers payload remove
              (ground (arith, e, f))
      ]

  pub proxy_subscribe_exchange-SameThreads :
      (answer_of : String → Option String) (w w' : World G) (name : String)
      (shm : ProxySubscribeShm) (state : SubscribeState)
      → proxy_subscribe_exchange C answer_of w name shm ≡ some (state, w')
      → SameThreads w w'
  proxy_subscribe_exchange-SameThreads answer_of w w' name shm state h =
      elim (proxy_subscribe_exchange-IsExchange C answer_of w name shm) [
        | inl e ↦ subst (SameThreads w) (ground (arith, e, h)) (threads_refl w)
        | inr (rid_item, headers, payload, _, e) ↦
            answer_clients-SameThreads w w' name rid_item headers payload shm.remove_request (
              finished-some C (answer_clients C w name rid_item headers payload shm.remove_request)
                w' state (sym e ∙ h))
      ]

module _ {G : Glib} where
  pub proxy_channel_exchange-SameThreads :
      (strlen : String → ℕ) (turn : String → Channel.Turn) (w : World G) (name : String)
      (shm : ChannelShm)
      → IsValid G w.proxynames
      → SameThreads w (proxy_channel_exchange strlen turn w name shm).1
  proxy_channel_exchange-SameThreads strlen turn w name shm v =
      let m = proxy_channel_exchange-IsMarking strlen turn w name shm v in
      record {
        channels = ap (λ x. x.channels) m.rest_same;
        alives = ap (λ x. x.alives) m.rest_same;
      }

  pub ws_data_handler-SameThreads :
      (O : Outside) (path : Option String) (w : World G) (uri : String) (opcode : ℕ) (text : String)
      (conn : Conn)
      → SameThreads w (ws_data_handler O path w uri opcode text conn).0
  unfolding ws_data_handler
  ws_data_handler-SameThreads O path w uri opcode text conn =
      elim (Bool-cases (opcode % 16 == opcode_text)) [
        | inl e ↦ rw e (client_service_route-SameThreads O.C O.query path w uri text conn)
        | inr e ↦ rw e (threads_refl w)
      ]
