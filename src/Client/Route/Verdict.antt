-- ===== src/Client/Route/Verdict.antt =====
-- `client_service_route`: which message leads to what, described by the message alone.
use gonggo.Base.{ℕ, ◌≡◌, String, Bool, Option, none, some, nat_eq}
use gonggo.Base.Int.{pos}
use gonggo.Glib.{Glib}
use gonggo.Json.{Cjson}
use gonggo.Client.Request.{Conn}
use gonggo.Client.World.{World}
use gonggo.Client.Reply.{ServiceStatus, acknowledged, parsing_status_text, write}
use gonggo.Client.Route.{wake_channel, gonggo_test, gonggo_response_dump, save_request}
use gonggo.Client.Route.Request.{IsRequest}
use gonggo.Db.{RespondQueryResult}
use gonggo.Client.Route.Fault.{text_at, HasService, Fault, IsDump}

module _ {G : Glib} (C : Cjson) (query : String → ℕ → ℕ → Bool × RespondQueryResult) where
  -- The state with the one acknowledgement.
  abbrev pub acknowledging : World G → Conn → String → World G
  acknowledging w conn rid = write w conn (parsing_status_text C (some rid) acknowledged)

  -- What a message leads to at the server's path.
  pub data Verdict (w : World G) (conn : Conn) (text : String) (w' : World G) : Type 0 where
    unreadable : C.parse text ≡ none → w' ≡ w → Verdict w conn text w'
    rejected :
        (rid : Option String) (status : ServiceStatus)
        → Fault C text rid status
        → w' ≡ write w conn (parsing_status_text C rid status)
        → Verdict w conn text w'
    tested :
        (root headers : C.Json) (rid : String)
        → HasService C text root headers rid "test"
        → text_at C headers "proxy" ≡ none
        → w' ≡ gonggo_test C query (acknowledging w conn rid) rid conn
        → Verdict w conn text w'
    dumped :
        (rid dump : String) (start size : ℕ)
        → IsDump C text rid dump start size
        → w' ≡ gonggo_response_dump C query (acknowledging w conn rid) rid conn dump start size
        → Verdict w conn text w'
    requested :
        (rid proxy service : String) (payload : Option C.Json) (n : ℕ)
        → IsRequest C text rid proxy service payload n
        → w'
          ≡ wake_channel
              (save_request C (acknowledging w conn rid) conn rid proxy service payload (pos n))
              proxy
        → Verdict w conn text w'
