-- ===== src/System.antt =====
-- The server as a whole: the state that its threads share, and one step for each turn of a thread
-- and each callback of CivetWeb (gear/wshandler.c). The steps come in any order; each is taken
-- whole, which is coarser than the locks of the single tables.
pub mod Steady
pub mod Effects
pub mod Phases
pub mod Moves
pub mod Starts
pub mod Invariant
pub mod Stop
pub mod Dying
use gonggo.Base.{
  ℕ, ◌+◌, ◌%◌, ◌≡◌, String, Bool, true, Option, none, some, List, if◌then◌else◌, ◌==◌, nat_eq,
}
use gonggo.Glib.{Glib}
use gonggo.Json.{Cjson}
use gonggo.Client.Request.{Conn}
use gonggo.Client.World.{World}
use gonggo.Client.Route.{client_service_route}
use gonggo.Client.Drop.{client_service_drop_conn}
use gonggo.Client.Timeout.{client_timeout_turn}
use gonggo.Db.{RespondQueryResult}
use gonggo.Proxy.Subscribe.{SubscribeState, ProxySubscribeShm, proxy_subscribe_exchange}
use gonggo.Proxy.Channel.{ChannelShm, proxy_channel_exchange}
use gonggo.Proxy.Channel as Channel
use gonggo.Proxy.Thread.{Threads, proxy_alive_turn, proxy_terminator_turn, proxy_thread_kill_all}
use gonggo.Proxy.Activator.{Activator, Handshake}
use gonggo.Proxy.Activation.Turn.{Signal, proxy_activator_turn}

-- What the code outside the repository does: cJSON, the database, libuuid, `strlen`.
pub record Outside : Type 1 where
  pub C : Cjson
  pub query : String → ℕ → ℕ → Bool × RespondQueryResult
  pub uuid : ℕ → String
  pub strlen : String → ℕ

-- MG_WEBSOCKET_OPCODE_TEXT
abbrev pub opcode_text : ℕ
opcode_text = 1

module _ {G : Glib} (O : Outside) where
  -- `ws_connect_handler` accepts every connection; the callback for data never closes one.
  unfoldable pub ws_data_handler :
      Option String → World G → String → ℕ → String → Conn → World G × ℕ
  ws_data_handler gonggo_path w uri opcode text conn = (
    if opcode % 16 == opcode_text
        then client_service_route O.C O.query gonggo_path w uri text conn
        else w,
    1,
  )

  unfoldable pub ws_close_handler : World G → Conn → World G
  ws_close_handler w conn = client_service_drop_conn O.C O.uuid w conn

abbrev pub ws_connect_handler : ℕ
ws_connect_handler = 0

-- The proxy that asks leaves its name in the shared memory until it is answered.
pub record IsKeeping (signal : Signal) (h : Handshake) : Type 0 where
  pub relocked : h.relock.memory.proxy_name ≡ signal.found.memory.proxy_name
  pub responded : h.respond.memory.proxy_name ≡ signal.found.memory.proxy_name

-- The world and the threads within the activator's state.
abbrev pub world_of : {G : Glib} → Activator G → World G
world_of a = a.threads.world

abbrev pub with_world : {G : Glib} → Activator G → World G → Activator G
with_world a w = record a { threads = record a.threads { world = w } }

abbrev pub with_threads : {G : Glib} → Activator G → Threads G → Activator G
with_threads a s = record a { threads = s }

module _ {G : Glib} (O : Outside) where
  pub data Step (a : Activator G) : Activator G → Type 0 where
    message :
        (gonggo_path : Option String) (uri : String) (opcode : ℕ) (text : String) (conn : Conn)
        → Step a (with_world a (ws_data_handler O gonggo_path (world_of a) uri opcode text conn).0)
    close : (conn : Conn) → Step a (with_world a (ws_close_handler O (world_of a) conn))
    timeout : Step a (with_world a (client_timeout_turn O.C (world_of a)))
    answer :
        (answer_of : String → Option String) (proxy_name : String) (shm : ProxySubscribeShm)
        (state : SubscribeState) (w : World G)
        → proxy_subscribe_exchange O.C answer_of (world_of a) proxy_name shm ≡ some (state, w)
        → Step a (with_world a w)
    hand :
        (turn : String → Channel.Turn) (proxy_name : String) (shm : ChannelShm)
        → Step a (with_world a (proxy_channel_exchange O.strlen turn (world_of a) proxy_name shm).1)
    watch :
        (proxy_name : String) (owner_dead acquired alive : Bool)
        → Step a
            (with_threads a (proxy_alive_turn O.C a.threads proxy_name owner_dead acquired alive).1)
    terminate : Step a (with_threads a (proxy_terminator_turn a.threads))
    activate :
        (signal : Signal) (h : Handshake)
        → IsKeeping signal h
        → Step a (proxy_activator_turn O.C a signal h).1
    stop : Step a (with_threads a (proxy_thread_kill_all a.threads))
    tick :
        (seconds : ℕ)
        → Step a (with_world a (record (world_of a) { now = (world_of a).now + seconds }))

  pub data Reach (a : Activator G) : Activator G → Type 0 where
    here : Reach a a
    later : {b c : Activator G} → Reach a b → Step b c → Reach a c
