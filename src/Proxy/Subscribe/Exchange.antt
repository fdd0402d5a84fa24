-- ===== src/Proxy/Subscribe/Exchange.antt =====
-- gear/proxysubscribe.c: how `proxy_subscribe_exchange` ends.
use gonggo.Base.{
  ◌<◌, ◌⊎◌, ltb, ◌||◌, ◌≡◌, refl, String, Bool, true, Option, none, some, arith, string_eq, nat_eq,
  inl, inr, subst, sym, ◌∙◌, Option-cases, Bool-cases,
}
use gonggo.Glib.{Glib}
use gonggo.Json.{Cjson}
use gonggo.Client.World.{World}
use gonggo.Client.Invariant.{IsConsistent}
use gonggo.Proxy.Subscribe.Laws.{answer_clients-IsConsistent}
use gonggo.Proxy.Subscribe.{
  SubscribeState, subscribe_failed, subscribe_done, ProxySubscribeShm, answer_clients,
  exchange_root, proxy_subscribe_exchange,
}

-- An answer that has all that an exchange wants of it.
pub record IsAnswer (C : Cjson) (answer_of : String → Option String) (shm : ProxySubscribeShm)
    (rid_item headers : C.Json) (payload : Option C.Json) : Type 0 where
  pub long : 0 < shm.payload_buff_length
  pub text : String
  pub opened : answer_of shm.aid ≡ some text
  pub root : C.Json
  pub parsed : C.parse text ≡ some root
  pub has_rid : C.get_object_item root "rid" ≡ some rid_item
  pub rid_kind : (C.is_array rid_item || C.is_string rid_item) ≡ true
  pub has_headers : C.get_object_item root "headers" ≡ some headers
  pub maybe_payload : C.get_object_item root "payload" ≡ payload

module _ {G : Glib} (C : Cjson) where
  -- The result of an exchange whose replies have been made.
  abbrev pub finished : Option (World G) → Option (SubscribeState × World G)
  finished none = none
  finished (some w) = some (subscribe_done, w)

  abbrev pub IsExchange :
      (String → Option String)
      → World G
      → String
      → ProxySubscribeShm
      → Option (SubscribeState × World G)
      → Type 0
  IsExchange answer_of w proxy_name shm result =
      (result ≡ some (subscribe_failed, w))
      ⊎ ((rid_item : C.Json) × (headers : C.Json) × (payload : Option C.Json) × IsAnswer C answer_of
            shm rid_item headers payload
          × (result
              ≡ finished
                  (answer_clients C w proxy_name rid_item headers payload shm.remove_request)))

  finished-IsConsistent :
      (w w' : World G) (proxy_name : String) (rid_item headers : C.Json) (payload : Option C.Json)
      (remove_request : Bool) (state : SubscribeState)
      → finished (answer_clients C w proxy_name rid_item headers payload remove_request)
        ≡ some (state, w')
      → IsConsistent w
      → IsConsistent w'
  finished-IsConsistent w w' proxy_name rid_item headers payload remove_request state h c =
      elim (Option-cases (answer_clients C w proxy_name rid_item headers payload remove_request)) [
        | inl e ↦ absurd (ground (arith, e, h))
        | inr (v, e) ↦
            answer_clients-IsConsistent C w w' proxy_name rid_item headers payload remove_request
              (ground (arith, e, h)) c
      ]

  exchange_root-cases :
      (answer_of : String → Option String) (w : World G) (proxy_name : String)
      (shm : ProxySubscribeShm) (text : String)
      → 0 < shm.payload_buff_length
      → answer_of shm.aid ≡ some text
      → IsExchange answer_of w proxy_name shm
          (exchange_root C w proxy_name (C.parse text) shm.remove_request)
  unfolding exchange_root
  exchange_root-cases answer_of w proxy_name shm text long opened =
      elim (Option-cases (C.parse text)) [
        | inl e ↦ inl (ground (arith, e))
        | inr (root, parsed) ↦ elim (Option-cases (C.get_object_item root "rid")) [
          | inl e ↦ inl (ground (arith, parsed, e))
          | inr (rid_item, has_rid) ↦
              elim (Bool-cases (C.is_array rid_item || C.is_string rid_item)) [
                | inr e ↦ inl (ground (arith, parsed, has_rid, e))
                | inl kind ↦ elim (Option-cases (C.get_object_item root "headers")) [
                  | inl e ↦ inl (ground (arith, parsed, has_rid, kind, e))
                  | inr (headers, has_headers) ↦ inr (
                    rid_item,
                    headers,
                    C.get_object_item root "payload",
                    record {
                      long = long;
                      text = text;
                      opened = opened;
                      root = root;
                      parsed = parsed;
                      has_rid = has_rid;
                      rid_kind = kind;
                      has_headers = has_headers;
                      maybe_payload = refl;
                    },
                    ground (arith, parsed, has_rid, kind, has_headers),
                  )
                ]
              ]
        ]
      ]

  -- An exchange fails and changes nothing, or the answer is complete and the result is that of the
  -- replies to its clients.
  pub proxy_subscribe_exchange-IsExchange :
      (answer_of : String → Option String) (w : World G) (proxy_name : String)
      (shm : ProxySubscribeShm)
      → IsExchange answer_of w proxy_name shm
          (proxy_subscribe_exchange C answer_of w proxy_name shm)
  unfolding proxy_subscribe_exchange exchange_root
  proxy_subscribe_exchange-IsExchange answer_of w proxy_name shm =
      elim (Bool-cases (ltb shm.payload_buff_length 1)) [
        | inl e ↦ rw e (inl refl)
        | inr long ↦ elim (Option-cases (answer_of shm.aid)) [
          | inl e ↦ rw (long, e) (inl refl)
          | inr (text, opened) ↦
              rw (long, opened)
                (exchange_root-cases answer_of w proxy_name shm text (ground (arith, long)) opened)
        ]
      ]

  -- An exchange keeps the tables consistent, however it ends.
  pub proxy_subscribe_exchange-IsConsistent :
      (answer_of : String → Option String) (w w' : World G) (proxy_name : String)
      (shm : ProxySubscribeShm) (state : SubscribeState)
      → proxy_subscribe_exchange C answer_of w proxy_name shm ≡ some (state, w')
      → IsConsistent w
      → IsConsistent w'
  proxy_subscribe_exchange-IsConsistent answer_of w w' proxy_name shm state h c =
      elim (proxy_subscribe_exchange-IsExchange answer_of w proxy_name shm) [
        | inl e ↦ subst IsConsistent (ground (arith, e, h)) c
        | inr (rid_item, headers, payload, _, e) ↦
            finished-IsConsistent w w' proxy_name rid_item headers payload shm.remove_request state
              (sym e ∙ h) c
      ]
