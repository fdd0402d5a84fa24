-- ===== src/Client/Route/Fault.antt =====
-- `client_service_route`: what can be wrong with a message, described by the message alone.
use Prim.Native.String.{len}
use gonggo.Base.{ℕ, ◌≡◌, ◌≢◌, ◌≤◌, ◌<◌, String, true, Option, none, some, ◌||◌, string_eq, nat_eq}
use gonggo.Base.Int.{ℤ, pos}
use gonggo.Json.{Cjson}
use gonggo.Client.Reply.{
  ServiceStatus, headers_missing, rid_missing, rid_overlength, service_missing, service_reserved,
  payload_missing, payload_invalid, gonggo_service_invalid, timeout_missing, timeout_invalid,
}
use gonggo.Client.Route.{item_string, less_than_one, request_drop, is_blank, item_int}

module _ (C : Cjson) where
  abbrev pub text_at : C.Json → String → Option String
  text_at object key = item_string C (C.get_object_item object key)

  abbrev pub number_at : C.Json → String → ℤ
  number_at object key = item_int C (C.get_object_item object key)

  pub record IsHeaded (text : String) (root headers : C.Json) : Type 0 where
    pub parsed : C.parse text ≡ some root
    pub with_headers : C.get_object_item root "headers" ≡ some headers

  -- With an id of 1 to 36 bytes.
  pub record HasRid (text : String) (root headers : C.Json) (rid : String) : Type 0 where
    pub headed : IsHeaded text root headers
    pub with_rid : text_at headers "rid" ≡ some rid
    pub rid_long : 1 ≤ len rid
    pub rid_short : len rid ≤ 36

  -- With a service that a client may name.
  pub record HasService (text : String) (root headers : C.Json) (rid service : String)
      : Type 0 where
    pub has_rid : HasRid text root headers rid
    pub with_service : text_at headers "service" ≡ some service
    pub service_long : 1 ≤ len service
    pub service_free : service ≢ request_drop

  -- What is wrong with a message, the first thing first: the id that the reply names, and its
  -- status.
  pub data Fault (text : String) : Option String → ServiceStatus → Type 0 where
    no_headers :
        (root : C.Json)
        → C.parse text ≡ some root
        → C.get_object_item root "headers" ≡ none
        → Fault text none headers_missing
    no_rid :
        (root headers : C.Json)
        → IsHeaded text root headers
        → is_blank (text_at headers "rid") ≡ true
        → Fault text none rid_missing
    long_rid :
        (root headers : C.Json) (rid : String)
        → IsHeaded text root headers
        → text_at headers "rid" ≡ some rid
        → 36 < len rid
        → Fault text (some rid) rid_overlength
    no_service :
        (root headers : C.Json) (rid : String)
        → HasRid text root headers rid
        → is_blank (text_at headers "service") ≡ true
        → Fault text (some rid) service_missing
    reserved :
        (root headers : C.Json) (rid : String)
        → HasRid text root headers rid
        → text_at headers "service" ≡ some request_drop
        → Fault text (some rid) service_reserved
    no_timeout :
        (root headers : C.Json) (rid service proxy : String)
        → HasService text root headers rid service
        → text_at headers "proxy" ≡ some proxy
        → C.get_object_item headers "timeout" ≡ none
        → Fault text (some rid) timeout_missing
    bad_timeout :
        (root headers item : C.Json) (rid service proxy : String)
        → HasService text root headers rid service
        → text_at headers "proxy" ≡ some proxy
        → C.get_object_item headers "timeout" ≡ some item
        → less_than_one (C.valuedouble item) ≡ true
        → Fault text (some rid) timeout_invalid
    no_payload :
        (root headers : C.Json) (rid : String)
        → HasService text root headers rid "responseDump"
        → text_at headers "proxy" ≡ none
        → C.get_object_item root "payload" ≡ none
        → Fault text (some rid) payload_missing
    bad_payload :
        (root headers payload : C.Json) (rid : String)
        → HasService text root headers rid "responseDump"
        → text_at headers "proxy" ≡ none
        → C.get_object_item root "payload" ≡ some payload
        → (is_blank (text_at payload "rid")
            || (less_than_one (number_at payload "start")
                || less_than_one (number_at payload "size")))
          ≡ true
        → Fault text (some rid) payload_invalid
    unknown :
        (root headers : C.Json) (rid service : String)
        → HasService text root headers rid service
        → text_at headers "proxy" ≡ none
        → service ≢ "test"
        → service ≢ "responseDump"
        → Fault text (some rid) gonggo_service_invalid

  -- A message that asks gonggo itself for stored responses.
  pub record IsDump (text : String) (rid dump : String) (start size : ℕ) : Type 0 where
    pub root : C.Json
    pub headers : C.Json
    pub payload : C.Json
    pub has_service : HasService text root headers rid "responseDump"
    pub without_proxy : text_at headers "proxy" ≡ none
    pub with_payload : C.get_object_item root "payload" ≡ some payload
    pub with_dump : text_at payload "rid" ≡ some dump
    pub dump_long : 1 ≤ len dump
    pub with_start : number_at payload "start" ≡ pos start
    pub start_positive : 1 ≤ start
    pub with_size : number_at payload "size" ≡ pos size
    pub size_positive : 1 ≤ size
