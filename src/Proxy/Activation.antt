-- ===== src/Proxy/Activation.antt =====
-- gear/proxyactivator.c: how a proxy that starts is given its three threads. What the proxy, the
-- operating system and the scheduler do is the environment's: what each call gives back, and the
-- whole shared memory that is found behind each wait.
pub mod Outcome
pub mod Balance
pub mod Contexts
pub mod Tables
pub mod Handles
pub mod Joins
pub mod Turn
pub mod Entered
use Prim.Native.String.{len}
use gonggo.Base.{
  ℕ, String, Bool, true, false, Option, none, some, List, [], ◌∷◌, ◌++◌, if◌then◌else◌, ◌&&◌, not,
  ltb, string_eq,
}
use gonggo.Glib.{Glib}
use gonggo.Proxy.Activator.{
  Activator, ActivationShm, ActivationState, Call, Found, Handshake, RespondState, Role, Slot,
  activation_done, activation_failed, activation_idle, activation_init, activation_proxy_dying,
  activation_request, activation_success, activation_termination, alive, channel, clear_slot,
  context_create, context_destroy, created, dispatcher_failed, dispatcher_success, is_done,
  is_ended, is_request, is_success, is_timeout, join_calls, joined, open_calls, open_slot,
  proxy_dead, proxy_timeout, stop_calls, stopped, subscribe, terminated, unmap_if, unmapped,
}
use gonggo.Json.{Cjson}
use gonggo.Client.World.{World}
use gonggo.Client.Reply.{client_proxy_alive_notification}
use gonggo.Proxy.Names.{proxy_thread_zombie, proxy_terminate_array_set}
use gonggo.Proxy.Thread.{
  Threads, proxy_thread_kill, proxy_subscribe_thread_table_set, proxy_channel_thread_table_set,
  proxy_alive_thread_table_set,
}

module _ {G : Glib} where
  unfoldable pub proxy_activator_shm_idle : Activator G → Activator G
  proxy_activator_shm_idle a = record a {
    shm = record a.shm { proxy_name = ""; state = activation_idle };
  }

  -- The chain of the three threads: it ends at the first that cannot be made.
  abbrev pub open_subscribe : Activator G → Handshake → Activator G
  open_subscribe a h = record a {
    shm = record a.shm { state = activation_failed };
    subscribe_slot = open_slot h.subscribe_thread;
    calls = a.calls ++ open_calls subscribe h.subscribe_thread;
  }

  abbrev pub open_channel : Activator G → Handshake → Activator G
  open_channel a h = record a {
    channel_slot = open_slot h.channel_thread;
    calls = a.calls ++ open_calls channel h.channel_thread;
  }

  abbrev pub open_alive : Activator G → Handshake → Activator G
  open_alive a h = record a {
    alive_slot = open_slot h.alive_thread;
    calls = a.calls ++ open_calls alive h.alive_thread;
  }

  unfoldable pub start_alive : Activator G → Handshake → RespondState × Activator G
  start_alive a h =
      let opened = open_alive a h in
      elim h.alive_thread [
        | none ↦ (dispatcher_failed, opened)
        | some _ ↦ (
          dispatcher_success,
          record opened { shm = record opened.shm { state = activation_success } },
        )
      ]

  unfoldable pub start_channel : Activator G → Handshake → RespondState × Activator G
  start_channel a h = elim h.channel_thread [
    | none ↦ (dispatcher_failed, open_channel a h)
    | some _ ↦ start_alive (open_channel a h) h
  ]

  unfoldable pub start_threads : Activator G → Handshake → RespondState × Activator G
  start_threads a h = elim h.subscribe_thread [
    | none ↦ (dispatcher_failed, open_subscribe a h)
    | some _ ↦ start_channel (open_subscribe a h) h
  ]

  -- The wait for the proxy.
  unfoldable pub wait_respond : RespondState → Activator G → Handshake → RespondState × Activator G
  wait_respond state a h =
      let locked = record a { shm = h.relock.memory } in
      let waited = record a { shm = h.respond.memory } in
      if h.relock.owner_dead
      then (proxy_dead, locked)
      else if is_done locked.shm.state
      then (state, locked)
      else if is_ended waited.shm.state
      then (terminated, waited)
      else if h.respond.owner_dead
      then (proxy_dead, waited)
      else if not (is_done waited.shm.state) && is_success state
      then (proxy_timeout, waited)
      else (state, waited)

  -- What follows the wait: a proxy that timed out is noted and its channel thread woken, and
  -- without success the threads are stopped, then joined.
  unfoldable pub note_timeout : RespondState → Activator G → Activator G
  note_timeout state a =
      if is_timeout state && a.channel_slot.context
      then record a {
        timeouts = proxy_terminate_array_set a.timeouts a.shm.proxy_name;
        threads = record a.threads {
          world = record a.threads.world {
            wakeups = a.threads.world.wakeups ++ a.shm.proxy_name ∷ [];
          };
        };
      }
      else a

  abbrev pub undo_calls : Activator G → List Call
  undo_calls a =
      stop_calls subscribe a.subscribe_slot
      ++ (stop_calls channel a.channel_slot
          ++ (stop_calls alive a.alive_slot
              ++ (join_calls subscribe a.subscribe_slot
                  ++ (join_calls channel a.channel_slot ++ join_calls alive a.alive_slot))))

  unfoldable pub undo_threads : Activator G → Activator G
  undo_threads a = record a {
    calls = a.calls ++ undo_calls a;
    subscribe_slot = clear_slot a.subscribe_slot;
    channel_slot = clear_slot a.channel_slot;
    alive_slot = clear_slot a.alive_slot;
  }

  unfoldable pub respond_wait : RespondState → Activator G → Handshake → RespondState × Activator G
  respond_wait state a h =
      let (answered, waited) = wait_respond state a h in
      let noted = note_timeout answered waited in
      (answered, if is_success answered then noted else undo_threads noted)

  -- The part for a proxy that is no zombie: its old threads go, and its segments are tested.
  abbrev pub kill_old : Activator G → Activator G
  kill_old a = record a { threads = proxy_thread_kill a.threads a.shm.proxy_name }

  unfoldable pub activate_killed : Activator G → Handshake → RespondState × Activator G
  activate_killed a h =
      let with_subscribe = h.channel_shm && h.subscribe_shm in
      let with_alive = with_subscribe && h.alive_shm in
      if with_alive then respond_wait (start_threads a h).0 (start_threads a h).1 h else (
        dispatcher_failed,
        record a {
          calls =
              a.calls
              ++ (unmap_if h.channel_shm channel
                  ++ (unmap_if with_subscribe subscribe ++ unmap_if with_alive alive));
        },
      )

  abbrev pub clear_contexts : Activator G → Activator G
  clear_contexts a = record a {
    subscribe_slot = clear_slot a.subscribe_slot;
    channel_slot = clear_slot a.channel_slot;
    alive_slot = clear_slot a.alive_slot;
  }

  abbrev pub set_dying : Activator G → Activator G
  set_dying a = record a { shm = record a.shm { state = activation_proxy_dying } }

  unfoldable pub proxy_activation : Activator G → Handshake → RespondState × Activator G
  proxy_activation a h =
      let begun = clear_contexts a in
      if proxy_thread_zombie begun.threads.terminating begun.shm.proxy_name
      then respond_wait dispatcher_failed (set_dying begun) h
      else activate_killed (kill_old begun) h
