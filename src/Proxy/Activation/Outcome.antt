-- ===== src/Proxy/Activation/Outcome.antt =====
-- gear/proxyactivator.c, `proxy_activation`: when it is successful.
use gonggo.Base.{◌≡◌, Bool, true, false, Option, none, some, arith, ◌&&◌, ◌||◌, not}
use gonggo.Glib.{Glib}
use gonggo.Proxy.Names.{proxy_thread_zombie}
use gonggo.Proxy.Activation.{
  start_threads, start_channel, start_alive, wait_respond, respond_wait, activate_killed,
  proxy_activation, kill_old, clear_contexts, set_dying,
}
use gonggo.Proxy.Activator.{
  Activator, RespondState, dispatcher_failed, ActivationState, Handshake, is_done, is_ended,
  is_success,
}

abbrev pub has_segments : Handshake → Bool
has_segments h = h.channel_shm && (h.subscribe_shm && h.alive_shm)

abbrev pub is_made : {A : Type 0} → Option A → Bool
is_made none = false
is_made (some _) = true

abbrev pub has_threads : Handshake → Bool
has_threads h = is_made h.subscribe_thread && (is_made h.channel_thread && is_made h.alive_thread)

-- The proxy lives and has written that it is done, at the latest when the wait ends.
abbrev pub is_answered : Handshake → Bool
is_answered h =
    not h.relock.owner_dead
    && (is_done h.relock.memory.state
        || (is_done h.respond.memory.state && not h.respond.owner_dead))

done-ended : (s : ActivationState) → is_done s ≡ true → is_ended s ≡ false
done-ended s h = ground (arith, h)

module _ {G : Glib} where
  pub wait_respond-success :
      (state : RespondState) (a : Activator G) (h : Handshake)
      → is_success (wait_respond state a h).0 ≡ (is_success state && is_answered h)
  unfolding wait_respond
  wait_respond-success state a h = ground (arith, done-ended h.respond.memory.state)

  pub respond_wait-success :
      (state : RespondState) (a : Activator G) (h : Handshake)
      → is_success (respond_wait state a h).0 ≡ (is_success state && is_answered h)
  unfolding respond_wait
  respond_wait-success state a h = wait_respond-success state a h

  pub start_threads-success :
      (a : Activator G) (h : Handshake) → is_success (start_threads a h).0 ≡ has_threads h
  unfolding start_threads start_channel start_alive
  start_threads-success a h = ground arith

  activate_killed-success :
      (a : Activator G) (h : Handshake)
      → is_success (activate_killed a h).0 ≡ (has_segments h && (has_threads h && is_answered h))
  unfolding activate_killed
  activate_killed-success a h = ground (
    arith,
    respond_wait-success (start_threads a h).0 (start_threads a h).1 h,
    start_threads-success a h,
  )

  -- An activation is successful exactly if the proxy is not about to be ended, its three memory
  -- segments are there, its three threads could be made, and the proxy itself, alive, has answered
  -- that it is done.
  pub proxy_activation-success :
      (a : Activator G) (h : Handshake)
      → is_success (proxy_activation a h).0 ≡ (
          not (proxy_thread_zombie a.threads.terminating a.shm.proxy_name)
          && (has_segments h && (has_threads h && is_answered h)))
  unfolding proxy_activation
  proxy_activation-success a h = ground (
    arith,
    respond_wait-success dispatcher_failed (set_dying (clear_contexts a)) h,
    activate_killed-success (kill_old (clear_contexts a)) h,
  )
