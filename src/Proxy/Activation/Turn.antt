-- ===== src/Proxy/Activation/Turn.antt =====
-- gear/proxyactivator.c, `proxy_activator`: one turn of its loop, the whole loop, and its stop.
use Prim.Native.String.{len}
use gonggo.Base.{
  ℕ, ◌≡◌, String, Bool, true, false, Option, none, some, List, [], ◌∷◌, ◌++◌, if◌then◌else◌, ◌&&◌,
  ◌||◌, not, arith, ltb, string_eq,
}
use gonggo.Glib.{Glib}
use gonggo.Json.{Cjson}
use gonggo.Client.Reply.{client_proxy_alive_notification}
use gonggo.Proxy.Thread.{
  ThreadTable, Threads, proxy_subscribe_thread_table_set, proxy_channel_thread_table_set,
  proxy_alive_thread_table_set,
}
use gonggo.Proxy.Activation.{proxy_activator_shm_idle, proxy_activation}
use gonggo.Proxy.Activator.{
  Activator, ActivationShm, Found, Handshake, RespondState, terminated, activation_termination,
  is_request, is_ended, is_success,
}

-- `proxy_activator_end` at the loop's head and behind the wait for a signal, and the memory found
-- there.
pub record Signal : Type 0 where
  pub stopping : Bool
  pub ended : Bool
  pub found : Found

abbrev pub is_terminated : RespondState → Bool
is_terminated terminated = true
is_terminated _ = false

-- The shared memory and `proxy_activator_end`, as `proxy_activator_stop` leaves them.
unfoldable pub proxy_activator_stop : ActivationShm → ActivationShm × Bool
proxy_activator_stop shm = (record shm { state = activation_termination }, true)

abbrev is_ending : Signal → Bool
is_ending signal = signal.stopping || is_ended signal.found.memory.state

abbrev pub is_ending_among : List (Signal × Handshake) → Bool
is_ending_among [] = false
is_ending_among ((signal, h) ∷ rest) = is_ending signal || is_ending_among rest

-- A living proxy asks to be activated, and the thread is not to end.
abbrev pub is_asked : Signal → Bool
is_asked signal =
    not signal.ended
    && (not signal.found.owner_dead
        && (ltb 0 (len signal.found.memory.proxy_name) && is_request signal.found.memory.state))

module _ (G : Glib) where
  -- A handle is set once `pthread_create` has succeeded.
  abbrev pub set_thread :
      (ThreadTable G → String → ℕ → ThreadTable G)
      → ThreadTable G
      → String
      → Option ℕ
      → ThreadTable G
  set_thread set t proxy_name none = t
  set_thread set t proxy_name (some thread) = set t proxy_name thread

module _ {G : Glib} where
  -- The threads are entered, the channel thread is woken, and the clients are told.
  abbrev pub entered : Activator G → Threads G
  entered a =
      let proxy_name = a.shm.proxy_name in
      let w = a.threads.world in
      record a.threads {
        subscribes =
            set_thread G (proxy_subscribe_thread_table_set G) a.threads.subscribes proxy_name
              a.subscribe_slot.handle;
        world = record w {
          channels =
              set_thread G (proxy_channel_thread_table_set G) w.channels proxy_name
                a.channel_slot.handle;
          alives =
              set_thread G (proxy_alive_thread_table_set G) w.alives proxy_name a.alive_slot.handle;
          wakeups = w.wakeups ++ proxy_name ∷ [];
        };
      }

  unfoldable pub enter_threads : Cjson → Activator G → Activator G
  enter_threads C a = record a {
    threads = record (entered a) {
      world = client_proxy_alive_notification C (entered a).world a.shm.proxy_name true;
    };
  }

  -- What the result of an activation leads to: whether the loop goes on, and the state.
  unfoldable pub follow_up : Cjson → RespondState → Activator G → Bool × Activator G
  follow_up C state a =
      if is_terminated state
      then (false, a)
      else if is_success state
      then (true, enter_threads C a)
      else (true, a)

  unfoldable pub proxy_activator_turn :
      Cjson → Activator G → Signal → Handshake → Bool × Activator G
  proxy_activator_turn C a signal h =
      let woken = record (proxy_activator_shm_idle a) { shm = signal.found.memory } in
      if is_ended woken.shm.state
      then (false, woken)
      else if is_asked signal
      then follow_up C (proxy_activation woken h).0 (proxy_activation woken h).1
      else (true, woken)

  -- The loop, over the turns that the environment gives; also whether it has ended.
  unfoldable pub proxy_activator :
      Cjson → Activator G → List (Signal × Handshake) → Bool × Activator G
  proxy_activator C a [] = (false, a)
  proxy_activator C a ((signal, h) ∷ rest) =
      let (more, a') = proxy_activator_turn C a signal h in
      let result = proxy_activator C a' rest in
      if signal.stopping then (true, a) else if more then result else (true, a')

  -- Once the thread is told to stop, by the flag at the head of its loop or by the state that it
  -- finds behind a wait, the loop ends, whatever the proxies did before.
  pub proxy_activator-ends :
      (C : Cjson) (a : Activator G) (turns : List (Signal × Handshake))
      → is_ending_among turns ≡ true
      → (proxy_activator C a turns).0 ≡ true
  unfolding proxy_activator proxy_activator_turn
  proxy_activator-ends C a [] e = absurd (ground (arith, e))
  proxy_activator-ends C a ((signal, h) ∷ rest) e =
      ground (arith, e, proxy_activator-ends C (proxy_activator_turn C a signal h).1 rest)
