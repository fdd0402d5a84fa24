-- ===== src/Work.antt =====
-- gear/work.c: how the server starts, serves and stops, as the list of what it does to its tables,
-- contexts and threads. What can fail is the environment's. A destroy function does nothing to what
-- is not there, as in the source.
pub mod Traces
pub mod Order
pub mod Options
use gonggo.Base.{
  ltb, suc, ℕ, String, Bool, true, false, Option, none, some, List, [], ◌∷◌, ◌++◌, if◌then◌else◌,
  ◌&&◌, not, codes, bytes_eq, nat_eq,
}
use gonggo.Base.Int.{ℤ, pos, negsuc}
use gonggo.Conf.{ConfVar, confvar_value}

-- ERROR_TERMHANDLER, ERROR_START, ERROR_DBINIT
abbrev pub error_termhandler : ℕ
error_termhandler = 1

abbrev pub error_start : ℕ
error_start = 2

abbrev pub error_dbinit : ℕ
error_dbinit = 3

-- What is created and destroyed. A mapped segment of shared memory goes with its context; the last
-- two are named segments that were made but could not be mapped.
pub data Resource : Type 0 where
  log_context uuid_lock thread_killer db_context : Resource
  subscribe_threads channel_threads alive_threads : Resource
  requests connections services proxynames terminate_array : Resource
  alive_mutex activator_context terminator_context drain_context timeout_context : Resource
  mg_library alive_segment activator_segment : Resource

-- The four threads of the server itself.
pub data Worker : Type 0 where
  respond_drain client_timeout proxy_terminator proxy_activator : Worker

pub data Action : Type 0 where
  create destroy : Resource → Action
  start stop join : Worker → Action
  alive_mutex_lock alive_mutex_die proxy_thread_kill_all mg_start mg_stop pause : Action

-- Which calls succeed; and whether a create that fails had made its named segment, which `mmap` then
-- refused.
pub record Boot : Type 0 where
  pub db_ensure : Bool
  pub sigaction : Bool
  pub alive_mutex_create : Bool
  pub alive_segment_made : Bool
  pub activator_init : Bool
  pub activator_segment_made : Bool
  pub made : Worker → Bool
  pub mg_start2 : Bool

-- `mg_stop` if there is a server, `mg_exit_library` if it was initialized.
unfoldable pub clean_up : Bool → Bool → List Action
clean_up http_ctx initialized =
    destroy log_context
    ∷ destroy uuid_lock
    ∷ destroy subscribe_threads
    ∷ destroy channel_threads
    ∷ destroy alive_threads
    ∷ destroy requests
    ∷ destroy connections
    ∷ destroy services
    ∷ destroy proxynames
    ∷ destroy terminate_array
    ∷ destroy alive_mutex
    ∷ ((if http_ctx then mg_stop ∷ [] else [])
        ++ ((if initialized then destroy mg_library ∷ [] else [])
            ++ destroy db_context ∷ destroy thread_killer ∷ []))

-- `started` says which threads have set their flag.
abbrev pub if_started : (Worker → Bool) → (Worker → Action) → Worker → List Action
if_started started action w = if started w then action w ∷ [] else []

abbrev pub each_worker : (Worker → List Action) → List Action
each_worker f = f proxy_activator ++ (f respond_drain ++ (f client_timeout ++ f proxy_terminator))

unfoldable pub threads_stop : (Worker → Bool) → List Action
threads_stop started =
    each_worker (if_started started stop)
    ++ (each_worker (if_started started join)
        ++ destroy activator_context
          ∷ destroy drain_context
          ∷ destroy timeout_context
          ∷ destroy terminator_context
          ∷ [])

-- The threads, one behind the other, and whether each is up: a thread that is made is waited for
-- until it has set its flag.
unfoldable pub start_workers : (Worker → Bool) → List Action
start_workers made =
    if made respond_drain
    then start respond_drain
      ∷ (if made client_timeout
          then start client_timeout
            ∷ (if made proxy_terminator
                then start proxy_terminator
                  ∷ alive_mutex_lock
                  ∷ (if made proxy_activator
                      then start proxy_activator ∷ []
                      else alive_mutex_die ∷ [])
                else [])
          else [])
    else []

unfoldable pub is_started : (Worker → Bool) → Worker → Bool
is_started made respond_drain = made respond_drain
is_started made client_timeout = made respond_drain && made client_timeout
is_started made proxy_terminator =
    made respond_drain && (made client_timeout && made proxy_terminator)
is_started made proxy_activator =
    made respond_drain && (made client_timeout && (made proxy_terminator && made proxy_activator))

-- The four flags, tested together.
unfoldable pub all_started : (Worker → Bool) → Bool
all_started made =
    is_started made proxy_activator
    && (is_started made respond_drain
        && (is_started made client_timeout && is_started made proxy_terminator))

abbrev pub created : List Action
created = create log_context ∷ create uuid_lock ∷ create thread_killer ∷ create db_context ∷ []

abbrev pub tables_created : List Action
tables_created =
    create subscribe_threads
    ∷ create channel_threads
    ∷ create alive_threads
    ∷ create requests
    ∷ create connections
    ∷ create services
    ∷ create proxynames
    ∷ create terminate_array
    ∷ []

abbrev pub contexts_created : List Action
contexts_created =
    create activator_context
    ∷ create terminator_context
    ∷ create drain_context
    ∷ create timeout_context
    ∷ []

abbrev pub made_if : Bool → Resource → List Action
made_if made r = if made then create r ∷ [] else []

-- The web server, and the end of the process.
unfoldable pub serve : Boot → ℕ × List Action
serve b =
    if b.mg_start2
    then (
      0,
      create mg_library
          ∷ mg_start
          ∷ pause
          ∷ alive_mutex_die
          ∷ proxy_thread_kill_all
          ∷ (threads_stop (is_started b.made) ++ clean_up true true),
    )
    else (
      error_start,
      create mg_library
          ∷ alive_mutex_die
          ∷ (threads_stop (is_started b.made) ++ clean_up false true),
    )

unfoldable pub start_threads : Boot → ℕ × List Action
start_threads b =
    let started = is_started b.made in
    let (code, served) = serve b in
    if all_started b.made
    then (code, start_workers b.made ++ served)
    else (error_start, start_workers b.made ++ (threads_stop started ++ clean_up false false))

unfoldable pub start_contexts : Boot → ℕ × List Action
start_contexts b =
    let (code, rest) = start_threads b in
    if b.alive_mutex_create
    then if b.activator_init
      then (code, tables_created ++ create alive_mutex ∷ (contexts_created ++ rest))
      else (
        error_start,
        tables_created
            ++ create alive_mutex
              ∷ (made_if b.activator_segment_made activator_segment ++ clean_up false false),
      )
    else (
      error_start,
      tables_created ++ (made_if b.alive_segment_made alive_segment ++ clean_up false false),
    )

unfoldable pub work : Boot → ℕ × List Action
work b =
    let (code, rest) = start_contexts b in
    if b.db_ensure
    then if b.sigaction
      then (code, created ++ rest)
      else (error_termhandler, created ++ clean_up false false)
    else (error_dbinit, created ++ clean_up false false)

-- The options of `mg_start2`, as pairs of entries of the array `mg_options`.
abbrev pub option_if : String → Option (List ℕ) → List (List ℕ)
option_if name none = []
option_if name (some value) = codes name ∷ value ∷ []

abbrev pub positive : ℤ → Bool
positive (pos n) = ltb 0 n
positive (negsuc n) = false

-- A missing value is a NULL entry, at which the reader of the array ends; the configuration has
-- been found to have a port and a ping.
abbrev pub text_of : Option (List ℕ) → List ℕ
text_of none = []
text_of (some s) = s

unfoldable pub mg_options : List ConfVar → ℤ → List (List ℕ)
mg_options cv ping =
    option_if "ssl_certificate" (confvar_value cv (codes "sslcert"))
    ++ (codes "listening_ports"
        ∷ text_of (confvar_value cv (codes "port"))
        ∷ (option_if "num_threads" (confvar_value cv (codes "threads"))
            ++ codes "enable_websocket_ping_pong"
              ∷ codes (if positive ping then "yes" else "no")
              ∷ ((if positive ping
                    then codes "websocket_timeout_ms"
                      ∷ text_of (confvar_value cv (codes "pingms"))
                      ∷ []
                    else [])
                  ++ codes "error_log_file" ∷ codes "error.log" ∷ [])))
