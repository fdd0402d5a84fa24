-- ===== src/Proxy/Subscribe.antt =====
-- gear/proxysubscribe.c: the answers of a proxy. The shared memory that holds the text of an answer
-- is a parameter: `answer_of aid` is what the segment `/aid` holds, or `none` where it cannot be
-- opened.
pub mod Laws
pub mod Exchange
pub mod Answers
pub mod Answered
pub mod Loop
use gonggo.Base.{
  ℕ, String, Bool, true, false, Option, none, some, List, [], ◌∷◌, if◌then◌else◌, ◌==◌, ◌&&◌, ◌||◌,
  nat_eq, not, ltb,
}
use gonggo.Base.Int.{ℤ, pos, negsuc}
use gonggo.Glib.{Glib}
use gonggo.Json.{Cjson}
use gonggo.Client.Request.{null, client_request_table_get_conn}
use gonggo.Client.Connection.{client_connection_table_drop}
use gonggo.Client.Service.{client_service_table_remove}
use gonggo.Client.Proxyname.{client_proxyname_table_drop, client_proxyname_table_drop_all}
use gonggo.Client.World.{World}
use gonggo.Client.Reply.{client_service_reply}

pub data SubscribeState : Type 0 where
  subscribe_init subscribe_idle subscribe_answer : SubscribeState
  subscribe_failed subscribe_done subscribe_termination : SubscribeState

-- What of `ProxySubscribeShm` the proxy fills in.
pub record ProxySubscribeShm : Type 0 where
  pub state : SubscribeState
  pub aid : String
  pub payload_buff_length : ℕ
  pub remove_request : Bool

-- PROXYSERVICESTATUS_MULTIRESPOND_CLEAR_SUCCESS
abbrev pub clear_success : ℤ → Bool
clear_success (pos n) = n == 3
clear_success (negsuc n) = false

unfoldable pub is_clearing : (C : Cjson) → C.Json → Option C.Json → Bool
is_clearing C headers none = false
is_clearing C headers (some payload) = elim (C.get_object_item headers "serviceStatus") [
  | none ↦ false
  | some item ↦ clear_success (C.valuedouble item)
]

-- An array is taken item by item; a text is one id.
unfoldable pub rid_items : (C : Cjson) → C.Json → List C.Json
rid_items C rid_item = if C.is_array rid_item then C.array_items rid_item else rid_item ∷ []

module _ {G : Glib} where
  unfoldable pub proxy_subscribe_purge_rid : World G → String → World G
  proxy_subscribe_purge_rid w rid =
      let (conn, requests) = client_request_table_get_conn G w.requests rid false true w.now in
      record w {
        requests = requests;
        connections =
            if conn == null
            then w.connections
            else client_connection_table_drop G w.connections conn rid;
        proxynames = client_proxyname_table_drop_all G w.proxynames rid;
        services = client_service_table_remove G w.services rid;
      }

  -- The part of `proxy_subscribe_reply` under `remove_request`, behind the look-up.
  unfoldable pub reply_removal : World G → ℕ → String → String → World G
  reply_removal w conn proxy_name rid = record w {
    connections =
        if conn == null
        then w.connections
        else client_connection_table_drop G w.connections conn rid;
    proxynames = (client_proxyname_table_drop G w.proxynames proxy_name rid).0;
    services = client_service_table_remove G w.services rid;
  }

  unfoldable pub proxy_subscribe_reply :
      (C : Cjson) → World G → String → String → C.Json → Option C.Json → Bool → World G
  proxy_subscribe_reply C w proxy_name rid headers payload remove_request =
      let (conn, requests) =
        client_request_table_get_conn G w.requests rid true remove_request w.now in
      let looked = record w { requests = requests } in
      client_service_reply C
        (if remove_request then reply_removal looked conn proxy_name rid else looked) conn rid
        headers payload true

  -- The loop over an array of request ids. An item that is not a text gives NULL, which the tables'
  -- hash function reads: the process ends there, `none`.
  unfoldable pub reply_each :
      (C : Cjson)
      → World G
      → String
      → List C.Json
      → C.Json
      → Option C.Json
      → Bool
      → Option (World G)
  reply_each C w proxy_name [] headers payload remove_request = some w
  reply_each C w proxy_name (item ∷ items) headers payload remove_request =
      elim (C.valuestring item) [
        | none ↦ none
        | some rid ↦
            reply_each C (proxy_subscribe_reply C w proxy_name rid headers payload remove_request)
              proxy_name items headers payload remove_request
      ]

  -- The request that a clearing answer names leaves the tables.
  unfoldable pub clear_request : (C : Cjson) → World G → Option C.Json → World G
  clear_request C w none = w
  clear_request C w (some payload) = elim (C.get_object_item payload "rid") [
    | none ↦ w
    | some item ↦ elim (C.valuestring item) [
      | none ↦ w
      | some rid ↦ proxy_subscribe_purge_rid w rid
    ]
  ]

  unfoldable pub answer_clients :
      (C : Cjson) → World G → String → C.Json → C.Json → Option C.Json → Bool → Option (World G)
  answer_clients C w proxy_name rid_item headers payload remove_request =
      if is_clearing C headers payload
      then reply_each C (clear_request C w payload) proxy_name (rid_items C rid_item) headers none
          remove_request
      else reply_each C w proxy_name (rid_items C rid_item) headers payload remove_request

  -- From the text on; `root` is NULL where the text is not JSON.
  unfoldable pub exchange_root :
      (C : Cjson) → World G → String → Option C.Json → Bool → Option (SubscribeState × World G)
  exchange_root C w proxy_name none remove_request = some (subscribe_failed, w)
  exchange_root C w proxy_name (some root) remove_request = elim (C.get_object_item root "rid") [
    | none ↦ some (subscribe_failed, w)
    | some rid_item ↦
        if C.is_array rid_item || C.is_string rid_item
        then elim (C.get_object_item root "headers") [
          | none ↦ some (subscribe_failed, w)
          | some headers ↦
              elim (answer_clients C w proxy_name rid_item headers
                (C.get_object_item root "payload") remove_request) [
                  | none ↦ none
                  | some w' ↦ some (subscribe_done, w')
                ]
        ]
        else some (subscribe_failed, w)
  ]

  unfoldable pub proxy_subscribe_exchange :
      Cjson
      → (String → Option String)
      → World G
      → String
      → ProxySubscribeShm
      → Option (SubscribeState × World G)
  proxy_subscribe_exchange C answer_of w proxy_name shm =
      if ltb shm.payload_buff_length 1
      then some (subscribe_failed, w)
      else elim (answer_of shm.aid) [
        | none ↦ some (subscribe_failed, w)
        | some text ↦ exchange_root C w proxy_name (C.parse text) shm.remove_request
      ]
