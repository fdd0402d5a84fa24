-- ===== src/Proxy/Subscribe/Answered.antt =====
-- gear/proxysubscribe.c, `proxy_subscribe_exchange`: what the clients of a complete answer receive,
-- and what becomes of an answer that is not complete.
use gonggo.Base.{
  ◌≡◌, refl, String, Bool, true, Option, none, some, List, arith, ◌∙◌, ap, inl, inr, distinct,
  string_eq, nat_eq, if◌then◌else◌, Option-cases, Bool-cases,
}
use gonggo.Glib.{Glib}
use gonggo.Json.{Cjson}
use gonggo.Client.World.{World}
use gonggo.Proxy.Subscribe.{
  subscribe_failed, subscribe_done, ProxySubscribeShm, answer_clients, exchange_root,
  proxy_subscribe_exchange, is_clearing, clear_request, rid_items, reply_each,
  proxy_subscribe_purge_rid,
}
use gonggo.Proxy.Subscribe.Answers.{read_rids, IsAnswered, reply_each-IsAnswered}
use gonggo.Proxy.Subscribe.Exchange.{IsAnswer, finished, proxy_subscribe_exchange-IsExchange}

module _ (C : Cjson) where
  -- The payload that goes on to the clients.
  abbrev pub forwarded : C.Json → Option C.Json → Option C.Json
  forwarded headers payload = if is_clearing C headers payload then none else payload

module _ {G : Glib} (C : Cjson) where
  -- The server once the request that a clearing answer names is gone.
  abbrev pub cleared : World G → C.Json → Option C.Json → World G
  cleared w headers payload = if is_clearing C headers payload then clear_request C w payload else w

  clear_request-quiet :
      (w : World G) (payload : Option C.Json)
      → ((clear_request C w payload).writes ≡ w.writes)
        × ((clear_request C w payload).saves ≡ w.saves)
  unfolding clear_request proxy_subscribe_purge_rid
  clear_request-quiet w none = (refl, refl)
  clear_request-quiet w (some payload) = elim (Option-cases (C.get_object_item payload "rid")) [
    | inl e ↦ rw (e, clear_request) (refl, refl)
    | inr (item, e) ↦
        rw (e, clear_request)
          (elim (Option-cases (C.valuestring item)) [
            | inl f ↦ rw (f, clear_request) (refl, refl)
            | inr (rid, f) ↦ rw (f, clear_request) (refl, refl)
          ])
  ]

  cleared-quiet :
      (w : World G) (headers : C.Json) (payload : Option C.Json)
      → ((cleared w headers payload).writes ≡ w.writes)
        × ((cleared w headers payload).saves ≡ w.saves)
  cleared-quiet w headers payload = elim (Bool-cases (is_clearing C headers payload)) [
    | inl e ↦ rw e (clear_request-quiet w payload)
    | inr e ↦ rw e (refl, refl)
  ]

  answer_clients-parts :
      (w : World G) (proxy_name : String) (rid_item headers : C.Json) (payload : Option C.Json)
      (remove : Bool)
      → answer_clients C w proxy_name rid_item headers payload remove
        ≡ reply_each C
            (cleared w headers payload)
            proxy_name
            (rid_items C rid_item)
            headers
            (forwarded C headers payload)
            remove
  unfolding answer_clients
  answer_clients-parts w proxy_name rid_item headers payload remove =
      elim (Bool-cases (is_clearing C headers payload)) [
        | inl e ↦ rw (e, answer_clients) refl
        | inr e ↦ rw (e, answer_clients) refl
      ]

  exchange_complete :
      (answer_of : String → Option String) (w : World G) (proxy_name : String)
      (shm : ProxySubscribeShm) (rid_item headers : C.Json) (payload : Option C.Json)
      → IsAnswer C answer_of shm rid_item headers payload
      → proxy_subscribe_exchange C answer_of w proxy_name shm
        ≡ finished C (answer_clients C w proxy_name rid_item headers payload shm.remove_request)
  unfolding proxy_subscribe_exchange exchange_root
  exchange_complete answer_of w proxy_name shm rid_item headers payload a =
      ground
        (arith, a.long, a.opened, a.parsed, a.has_rid, a.rid_kind, a.has_headers, a.maybe_payload)

  -- An answer that is complete and whose ids are texts (none twice where the answer ends its
  -- requests) is done: behind the purge of the request that a clearing answer names, each connection
  -- that waits for one of the ids is sent the reply once for each of them, in the answer's order,
  -- each id that is not empty is stored with the same text, and nothing else is sent or stored. The
  -- reply has the answer's headers and payload, but a clearing answer goes on without its payload.
  pub proxy_subscribe_exchange-IsAnswered :
      (answer_of : String → Option String) (w : World G) (proxy_name : String)
      (shm : ProxySubscribeShm) (rid_item headers : C.Json) (payload : Option C.Json)
      (rids : List String)
      → IsAnswer C answer_of shm rid_item headers payload
      → read_rids C (rid_items C rid_item) ≡ some rids
      → (shm.remove_request ≡ true → distinct rids ≡ true)
      → let start = cleared w headers payload in
        (w' : World G) × (proxy_subscribe_exchange C answer_of w proxy_name shm
          ≡ some (subscribe_done, w'))
        × IsAnswered C proxy_name headers (forwarded C headers payload) start rids w'
        × (start.writes ≡ w.writes)
        × (start.saves ≡ w.saves)
  proxy_subscribe_exchange-IsAnswered answer_of w proxy_name shm rid_item headers payload rids a h
        d =
      let (w', done, answered) =
        reply_each-IsAnswered C proxy_name headers (forwarded C headers payload)
          (cleared w headers payload) (rid_items C rid_item) rids shm.remove_request h d in
      let (writes, saves) = cleared-quiet w headers payload in
      (
        w',
        exchange_complete answer_of w proxy_name shm rid_item headers payload a
            ∙ ap (finished C) (
                answer_clients-parts w proxy_name rid_item headers payload shm.remove_request
                ∙ done),
        answered,
        writes,
        saves,
      )

  -- An answer that is not complete, because its segment cannot be read, or its text is not JSON, or
  -- lacks the ids or the headers, fails, and nothing changes.
  proxy_subscribe_exchange-failed :
      (answer_of : String → Option String) (w : World G) (proxy_name : String)
      (shm : ProxySubscribeShm)
      → ((rid_item headers : C.Json) (payload : Option C.Json)
          → ¬ IsAnswer C answer_of shm rid_item headers payload)
      → proxy_subscribe_exchange C answer_of w proxy_name shm ≡ some (subscribe_failed, w)
  proxy_subscribe_exchange-failed answer_of w proxy_name shm no_answer =
      elim (proxy_subscribe_exchange-IsExchange C answer_of w proxy_name shm) [
        | inl e ↦ e
        | inr (rid_item, headers, payload, a, _) ↦ absurd (no_answer rid_item headers payload a)
      ]
