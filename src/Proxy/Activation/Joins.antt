-- ===== src/Proxy/Activation/Joins.antt =====
-- gear/proxyactivator.c, `proxy_activation`: what is waited for when a thread cannot be made.
use gonggo.Base.{
  Bool, arith, ◌+◌, ℕ, List, ◌≡◌, refl, false, none, [], ◌∷◌, ◌++◌, ◌∙◌, ◌&&◌, not, if◌then◌else◌,
  Bool-cases, Option-cases, inl, inr, string_eq, Option, some,
}
use gonggo.Glib.{Glib}
use gonggo.Proxy.Names.{proxy_thread_zombie}
use gonggo.Proxy.Activation.{
  unmap_if, clear_contexts, set_dying, Role, open_channel, open_subscribe, start_alive, Call,
  start_channel, activate_killed, start_threads, respond_wait, proxy_activation, undo_threads,
  undo_calls, wait_respond, note_timeout,
}
use gonggo.Proxy.Activator.{
  Activator, subscribe, joined, Handshake, RespondState, is_success, dispatcher_failed, open_slot,
  open_calls, channel, alive,
}
use gonggo.Proxy.Activation.Balance.{IsCleared, IsSame, wait_respond-IsSame, note_timeout-IsSame}
use gonggo.Proxy.Activation.Outcome.{
  start_threads-success, has_threads, has_segments, respond_wait-success,
}
use gonggo.Proxy.Activation.Handles.{begun}

-- How often a handle is waited for that is undefined.
abbrev pub undefined_joins : List Call → ℕ
undefined_joins [] = 0
undefined_joins (joined r none ∷ cs) = 1 + undefined_joins cs
undefined_joins (_ ∷ cs) = undefined_joins cs

undefined_joins-append :
    (cs ds : List Call) → undefined_joins (cs ++ ds) ≡ undefined_joins cs + undefined_joins ds
undefined_joins-append [] ds = omega arith
undefined_joins-append (c ∷ cs) ds = ground (arith, undefined_joins-append cs ds)

opened-joins :
    (cs : List Call) (r : Role) (thread : Option ℕ)
    → undefined_joins (cs ++ open_calls r thread) ≡ undefined_joins cs
unfolding open_calls
opened-joins cs r none = undefined_joins-append cs _ ∙ omega arith
opened-joins cs r (some x) = undefined_joins-append cs _ ∙ omega arith

unmapped-joins :
    (cs : List Call) (x y z : Bool)
    → undefined_joins (cs ++ (unmap_if x channel ++ (unmap_if y subscribe ++ unmap_if z alive)))
      ≡ undefined_joins cs
unmapped-joins cs x y z = undefined_joins-append cs _ ∙ ground arith

module _ {G : Glib} where
  same-undo_calls : (a b : Activator G) → IsSame a b → undo_calls b ≡ undo_calls a
  same-undo_calls a b s =
      let first : b.subscribe_slot ≡ a.subscribe_slot = s.slots subscribe in
      let second : b.channel_slot ≡ a.channel_slot = s.slots channel in
      let third : b.alive_slot ≡ a.alive_slot = s.slots alive in rw (first, second, third) refl

  -- The waits of the undoing for handles that are undefined.
  abbrev pending : Activator G → ℕ
  pending a = undefined_joins (undo_calls a)

  respond_wait-joins :
      (state : RespondState) (a : Activator G) (h : Handshake)
      → undefined_joins (respond_wait state a h).1.calls
        ≡ undefined_joins a.calls + (if is_success (respond_wait state a h).0 then 0 else pending a)
  unfolding respond_wait undo_threads
  respond_wait-joins state a h =
      let (answered, b) = wait_respond state a h in
      let w = wait_respond-IsSame state a h in
      let n = note_timeout-IsSame answered b in
      let undone = same-undo_calls b (note_timeout answered b) n ∙ same-undo_calls a b w in
      let calls = n.calls ∙ w.calls in
      elim (Bool-cases (is_success answered)) [
        | inl e ↦ rw (e, calls) (omega arith)
        | inr e ↦ rw (e, undone, calls) (undefined_joins-append a.calls (undo_calls a))
      ]

  start_calls :
      (a : Activator G) (h : Handshake)
      → undefined_joins (start_threads a h).1.calls ≡ undefined_joins a.calls
  unfolding start_threads start_channel start_alive
  start_calls a h =
      let two = open_channel (open_subscribe a h) h in
      ground (
        arith,
        opened-joins a.calls subscribe h.subscribe_thread,
        opened-joins (open_subscribe a h).calls channel h.channel_thread,
        opened-joins two.calls alive h.alive_thread,
      )

  start_pending :
      (a : Activator G) (h : Handshake)
      → a.subscribe_slot.context ≡ false
      → a.channel_slot.context ≡ false
      → a.alive_slot.context ≡ false
      → pending (start_threads a h).1 ≡ (if has_threads h then 0 else 1)
  unfolding start_threads start_channel start_alive open_slot
  start_pending a h s c l = elim (Option-cases h.subscribe_thread) [
    | inl e ↦ rw (e, c, l) refl
    | inr (x, e) ↦ elim (Option-cases h.channel_thread) [
      | inl f ↦ rw (e, f, l) refl
      | inr (y, f) ↦ elim (Option-cases h.alive_thread) [
        | inl g ↦ rw (e, f, g) refl
        | inr (z, g) ↦ rw (e, f, g) refl
      ]
    ]
  ]

  start_threads-joins :
      (a : Activator G) (h : Handshake)
      → IsCleared a
      → (undefined_joins (start_threads a h).1.calls ≡ undefined_joins a.calls)
        × (pending (start_threads a h).1 ≡ (if has_threads h then 0 else 1))
  start_threads-joins a h (s, c, l) = (start_calls a h, start_pending a h s c l)

  dying-joins :
      (a : Activator G) (h : Handshake)
      → IsCleared a
      → undefined_joins (respond_wait dispatcher_failed a h).1.calls ≡ undefined_joins a.calls
  dying-joins a h (s, c, l) =
      let failed : is_success (respond_wait dispatcher_failed a h).0 ≡ false =
        respond_wait-success dispatcher_failed a h in
      respond_wait-joins dispatcher_failed a h ∙ rw (failed, s, c, l) (omega arith)

  killed-joins :
      (a : Activator G) (h : Handshake)
      → IsCleared a
      → undefined_joins (activate_killed a h).1.calls
        ≡ undefined_joins a.calls + (if has_segments h && not (has_threads h) then 1 else 0)
  unfolding activate_killed
  killed-joins a h c =
      let (state, b) = start_threads a h in
      let (calls, waits) = start_threads-joins a h c in
      ground (
        arith,
        unmapped-joins a.calls h.channel_shm (h.channel_shm && h.subscribe_shm)
            (h.channel_shm && h.subscribe_shm && h.alive_shm),
        respond_wait-joins state b h,
        respond_wait-success state b h,
        start_threads-success a h,
        calls,
        waits,
      )

  -- An activation waits for the end of a thread whose handle is undefined once, exactly if the proxy
  -- is no zombie and its segments are there but one of its three threads could not be made; and
  -- never otherwise.
  pub proxy_activation-unmade :
      (a : Activator G) (h : Handshake)
      → undefined_joins (proxy_activation a h).1.calls
        ≡ undefined_joins a.calls
          + (if not (proxy_thread_zombie a.threads.terminating a.shm.proxy_name)
                && (has_segments h && not (has_threads h))
              then 1
              else 0)
  unfolding proxy_activation
  proxy_activation-unmade a h =
      elim (Bool-cases (proxy_thread_zombie a.threads.terminating a.shm.proxy_name)) [
        | inl z ↦
            rw z (dying-joins (set_dying (clear_contexts a)) h (refl, refl, refl) ∙ omega arith)
        | inr z ↦ rw z (killed-joins (begun a) h (refl, refl, refl))
      ]
