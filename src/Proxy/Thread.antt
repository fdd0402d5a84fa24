-- ===== src/Proxy/Thread.antt =====
-- gear/proxy.c, gear/proxyterminator.c, gear/proxyalive.c and the three thread tables: how the
-- threads of a proxy are ended when the proxy dies or the server stops. A thread is a number.
pub mod Kill
pub mod Terminate
use gonggo.Base.{
  ℕ, String, Bool, true, false, Option, none, some, List, [], ◌∷◌, ◌++◌, if◌then◌else◌, ◌||◌, not,
  string_eq,
}
use gonggo.Glib.{Glib, keys}
use gonggo.Json.{Cjson}
use gonggo.Client.Proxyname.{client_proxyname_table_request_unsent}
use gonggo.Client.World.{World}
use gonggo.Client.Reply.{client_proxy_alive_notification}
use gonggo.Proxy.Names.{proxy_thread_terminating_set, proxy_thread_terminating_drop}

module _ (G : Glib) where
  abbrev pub ThreadTable : Type 0
  ThreadTable = G.Table String ℕ

  unfoldable pub proxy_subscribe_thread_table_set : ThreadTable → String → ℕ → ThreadTable
  proxy_subscribe_thread_table_set t proxy_name thread =
      G.insert (G.remove t proxy_name) proxy_name thread

  unfoldable pub proxy_channel_thread_table_set : ThreadTable → String → ℕ → ThreadTable
  proxy_channel_thread_table_set t proxy_name thread =
      G.insert (G.remove t proxy_name) proxy_name thread

  unfoldable pub proxy_alive_thread_table_set : ThreadTable → String → ℕ → ThreadTable
  proxy_alive_thread_table_set t proxy_name thread =
      G.insert (G.remove t proxy_name) proxy_name thread

  unfoldable pub proxy_alive_thread_table_char_keys_create : ThreadTable → List String
  proxy_alive_thread_table_char_keys_create t = keys (G.entries t)

  -- The table without the entry, where there was one.
  abbrev pub remove_if : ThreadTable → String → Option ℕ → ThreadTable
  remove_if t proxy_name none = t
  remove_if t proxy_name (some _) = G.remove t proxy_name

-- What is asked of a thread: to stop, and to be waited for.
pub data Event : Type 0 where
  subscribe_stop channel_stop alive_stop join : ℕ → Event

-- The tables of threads (two of them in the world), the proxies whose threads are about to be
-- ended, the queue of the terminator, and what the threads were asked.
pub record Threads (G : Glib) : Type 0 where
  pub world : World G
  pub subscribes : ThreadTable G
  pub terminating : List String
  pub queue : List String
  pub events : List Event

-- `if(p!=NULL)` with one call.
abbrev pub ask : (ℕ → Event) → Option ℕ → List Event
ask event none = []
ask event (some thread) = event thread ∷ []

module _ {G : Glib} where
  -- The three pointers are read first, and tested twice.
  unfoldable pub proxy_thread_kill : Threads G → String → Threads G
  proxy_thread_kill s proxy_name =
      let p_subscribe = G.lookup s.subscribes proxy_name in
      let p_channel = G.lookup s.world.channels proxy_name in
      let p_alive = G.lookup s.world.alives proxy_name in
      record s {
        subscribes = remove_if G s.subscribes proxy_name p_subscribe;
        world = record s.world {
          channels = remove_if G s.world.channels proxy_name p_channel;
          alives = remove_if G s.world.alives proxy_name p_alive;
        };
        events =
            s.events
            ++ (ask subscribe_stop p_subscribe
                ++ (ask channel_stop p_channel
                    ++ (ask alive_stop p_alive
                        ++ (ask join p_subscribe ++ (ask join p_channel ++ ask join p_alive)))));
      }

  -- The body of the loop of `proxy_thread_kill_all`, and the loop over the copied names.
  unfoldable pub kill_one : Threads G → String → Threads G
  kill_one s proxy_name =
      let marked = record s {
        terminating = proxy_thread_terminating_set s.terminating proxy_name;
      } in
      let killed = proxy_thread_kill marked proxy_name in
      record killed { terminating = proxy_thread_terminating_drop killed.terminating proxy_name }

  unfoldable pub kill_each : Threads G → List String → Threads G
  kill_each s [] = s
  kill_each s (proxy_name ∷ rest) = kill_each (kill_one s proxy_name) rest

  unfoldable pub proxy_thread_kill_all : Threads G → Threads G
  proxy_thread_kill_all s = kill_each s (proxy_alive_thread_table_char_keys_create G s.world.alives)

  unfoldable pub proxy_terminator_awake : Threads G → String → Threads G
  proxy_terminator_awake s proxy_name = record s { queue = s.queue ++ proxy_name ∷ [] }

  -- What the terminator does for one proxy.
  unfoldable pub terminate_proxy : Threads G → String → Threads G
  terminate_proxy s proxy_name =
      let unsent = record s {
        world = record s.world {
          proxynames = client_proxyname_table_request_unsent G s.world.proxynames proxy_name;
        };
      } in
      let killed = proxy_thread_kill unsent proxy_name in
      record killed { terminating = proxy_thread_terminating_drop killed.terminating proxy_name }

  unfoldable pub terminate_each : Threads G → List String → Threads G
  terminate_each s [] = s
  terminate_each s (proxy_name ∷ rest) = terminate_each (terminate_proxy s proxy_name) rest

  -- One turn of `proxy_terminator` behind its wait: the queue is emptied.
  unfoldable pub proxy_terminator_turn : Threads G → Threads G
  proxy_terminator_turn s = terminate_each (record s { queue = [] }) s.queue

  -- One turn of `proxy_alive` behind its wait for the mutex; `owner_dead` and `acquired` are the
  -- two results of the wait that it tells apart, `alive` the flag in the shared memory. Also
  -- whether the proxy is dead.
  unfoldable pub proxy_alive_turn :
      Cjson → Threads G → String → Bool → Bool → Bool → Bool × Threads G
  proxy_alive_turn C s proxy_name owner_dead acquired alive =
      let dead = owner_dead || (if acquired then not alive else false) in
      let marked = record s {
        terminating = proxy_thread_terminating_set s.terminating proxy_name;
      } in
      let awake = proxy_terminator_awake marked proxy_name in
      if dead
      then (
        true,
        record awake { world = client_proxy_alive_notification C awake.world proxy_name false },
      )
      else (false, s)
