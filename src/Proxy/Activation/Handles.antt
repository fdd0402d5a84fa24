-- ===== src/Proxy/Activation/Handles.antt =====
-- gear/proxyactivator.c, `proxy_activation`: the handles and the name that are left for the tables.
use gonggo.Base.{
  false, ℕ, ◌≡◌, refl, String, true, Option, arith, ◌&&◌, Bool-cases, inl, inr, ◌∙◌, string_eq,
}
use gonggo.Glib.{Glib}
use gonggo.Proxy.Activation.{
  start_threads, start_channel, start_alive, activate_killed, proxy_activation, clear_contexts,
  kill_old, wait_respond, note_timeout, undo_threads, respond_wait,
}
use gonggo.Proxy.Activator.{
  Activator, Role, subscribe, channel, alive, Handshake, RespondState, is_success, is_timeout,
  open_slot,
}
use gonggo.Proxy.Names.{proxy_thread_zombie}
use gonggo.Proxy.Activation.Outcome.{has_segments, has_threads}
use gonggo.Proxy.Activation.Balance.{slot_of}
use gonggo.Base.{false}

abbrev pub thread_of : Role → Handshake → Option ℕ
thread_of subscribe h = h.subscribe_thread
thread_of channel h = h.channel_thread
thread_of alive h = h.alive_thread

module _ {G : Glib} where
  start_threads-handle :
      (r : Role) (a : Activator G) (h : Handshake)
      → has_threads h ≡ true
      → (slot_of r (start_threads a h).1).handle ≡ thread_of r h
  unfolding start_threads start_channel start_alive open_slot
  start_threads-handle r a h e = ground (arith, e)

  wait_respond-handle :
      (r : Role) (state : RespondState) (a : Activator G) (h : Handshake)
      → (slot_of r (wait_respond state a h).1).handle ≡ (slot_of r a).handle
  unfolding wait_respond
  wait_respond-handle r state a h = ground arith

  note_timeout-handle :
      (r : Role) (state : RespondState) (a : Activator G)
      → (slot_of r (note_timeout state a)).handle ≡ (slot_of r a).handle
  unfolding note_timeout
  note_timeout-handle r state a = ground arith

  undo_threads-handle :
      (r : Role) (a : Activator G) → (slot_of r (undo_threads a)).handle ≡ (slot_of r a).handle
  unfolding undo_threads
  undo_threads-handle subscribe a = refl
  undo_threads-handle channel a = refl
  undo_threads-handle alive a = refl

  respond_wait-handle :
      (r : Role) (state : RespondState) (a : Activator G) (h : Handshake)
      → (slot_of r (respond_wait state a h).1).handle ≡ (slot_of r a).handle
  unfolding respond_wait
  respond_wait-handle r state a h =
      let (answered, b) = wait_respond state a h in
      let noted = note_timeout-handle r answered b ∙ wait_respond-handle r state a h in
      elim (Bool-cases (is_success answered)) [
        | inl e ↦ rw e noted
        | inr e ↦ rw e (undo_threads-handle r (note_timeout answered b) ∙ noted)
      ]

  wait_respond-name :
      (state : RespondState) (a : Activator G) (h : Handshake) (name : String)
      → h.relock.memory.proxy_name ≡ name
      → h.respond.memory.proxy_name ≡ name
      → (wait_respond state a h).1.shm.proxy_name ≡ name
  unfolding wait_respond
  wait_respond-name state a h name e f = ground (arith, e, f)

  respond_wait-name :
      (state : RespondState) (a : Activator G) (h : Handshake) (name : String)
      → h.relock.memory.proxy_name ≡ name
      → h.respond.memory.proxy_name ≡ name
      → (respond_wait state a h).1.shm.proxy_name ≡ name
  unfolding respond_wait note_timeout undo_threads
  respond_wait-name state a h name e f =
      let (answered, b) = wait_respond state a h in
      let n = wait_respond-name state a h name e f in
      elim (Bool-cases (is_success answered)) [
        | inl s ↦ rw s (elim (Bool-cases (is_timeout answered && b.channel_slot.context)) [
          | inl t ↦ rw t n
          | inr t ↦ rw t n
        ])
        | inr s ↦ rw s (elim (Bool-cases (is_timeout answered && b.channel_slot.context)) [
          | inl t ↦ rw t n
          | inr t ↦ rw t n
        ])
      ]

  -- What an activation comes to when nothing is missing on this side.
  abbrev pub begun : Activator G → Activator G
  begun a = kill_old (clear_contexts a)

  pub activated :
      (a : Activator G) (h : Handshake)
      → proxy_thread_zombie a.threads.terminating a.shm.proxy_name ≡ false
      → has_segments h ≡ true
      → proxy_activation a h
        ≡ respond_wait (start_threads (begun a) h).0 (start_threads (begun a) h).1 h
  unfolding proxy_activation activate_killed
  activated a h z s =
      let segments : h.channel_shm && h.subscribe_shm && h.alive_shm ≡ true = ground (arith, s) in
      rw (z, segments) refl

  pub activated-handle :
      (r : Role) (a : Activator G) (h : Handshake)
      → proxy_thread_zombie a.threads.terminating a.shm.proxy_name ≡ false
      → has_segments h ≡ true
      → has_threads h ≡ true
      → (slot_of r (proxy_activation a h).1).handle ≡ thread_of r h
  activated-handle r a h z s t =
      let (state, started) = start_threads (begun a) h in
      rw (activated a h z s)
        (respond_wait-handle r state started h ∙ start_threads-handle r (begun a) h t)

  pub activated-name :
      (a : Activator G) (h : Handshake) (name : String)
      → proxy_thread_zombie a.threads.terminating a.shm.proxy_name ≡ false
      → has_segments h ≡ true
      → h.relock.memory.proxy_name ≡ name
      → h.respond.memory.proxy_name ≡ name
      → (proxy_activation a h).1.shm.proxy_name ≡ name
  activated-name a h name z s e f =
      let (state, started) = start_threads (begun a) h in
      rw (activated a h z s) (respond_wait-name state started h name e f)
