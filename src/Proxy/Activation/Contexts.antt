-- ===== src/Proxy/Activation/Contexts.antt =====
-- gear/proxyactivator.c, `proxy_activation`: the contexts that it makes and destroys.
use gonggo.Base.{
  ◌+◌, ◌≡◌, refl, Bool, true, false, List, [], ◌++◌, arith, ◌&&◌, Bool-cases, inl, inr, ◌∙◌, ap,
}
use gonggo.Glib.{Glib}
use gonggo.Proxy.Names.{proxy_thread_zombie}
use gonggo.Proxy.Activation.{
  start_threads, respond_wait, activate_killed, proxy_activation, clear_contexts, set_dying,
  kill_old,
}
use gonggo.Proxy.Activator.{
  Activator, Role, Call, Handshake, RespondState, is_success, subscribe, channel, alive, unmap_if,
  dispatcher_failed,
}
use gonggo.Proxy.Activation.Outcome.{respond_wait-success}
use gonggo.Proxy.Activation.Balance.{
  creates, destroys, creates-append, destroys-append, bit, slot_of, IsBalanced, IsCleared,
  start_threads-IsBalanced, start_threads-open, respond_wait-IsBalanced, respond_wait-context,
}

unmapped-balance :
    (r : Role) (cs : List Call) (c s : Bool)
    → creates r (cs ++ (unmap_if c channel ++ (unmap_if s subscribe ++ []))) + destroys r cs
      ≡ creates r cs + (destroys r (cs ++ (unmap_if c channel ++ (unmap_if s subscribe ++ []))) + 0)
unmapped-balance r cs c s =
    let tail = unmap_if c channel ++ (unmap_if s subscribe ++ []) in
    ground (arith, creates-append r cs tail, destroys-append r cs tail)

module _ {G : Glib} where
  -- The pointer behind an activation, and what was made and destroyed for it.
  pub record IsSettled (r : Role) (success : Bool) (a b : Activator G) : Type 0 where
    pub context : (slot_of r b).context ≡ success
    pub balance :
        creates r b.calls + destroys r a.calls
        ≡ creates r a.calls + (destroys r b.calls + bit success)

  respond_wait-IsSettled :
      (r : Role) (state : RespondState) (a b : Activator G) (h : Handshake)
      → (slot_of r a).context ≡ false
      → IsBalanced r a b
      → (is_success (respond_wait state b h).0 ≡ true → (slot_of r b).context ≡ true)
      → IsSettled r (is_success (respond_wait state b h).0) a (respond_wait state b h).1
  respond_wait-IsSettled r state a b h f bal run =
      let c = respond_wait-context r state b h in
      let d = respond_wait-IsBalanced r state b h in
      let context : (slot_of r (respond_wait state b h).1).context
          ≡ is_success (respond_wait state b h).0 =
        c ∙ elim (Bool-cases (is_success (respond_wait state b h).0)) [
          | inl e ↦ rw e (run e)
          | inr e ↦ rw e refl
        ] in
      record { context = context; balance = omega (arith, bal, d, ap bit context, ap bit f) }

  with_calls-slot :
      (r : Role) (a : Activator G) (cs : List Call)
      → slot_of r (record a { calls = cs }) ≡ slot_of r a
  with_calls-slot subscribe a cs = refl
  with_calls-slot channel a cs = refl
  with_calls-slot alive a cs = refl

  activate_killed-IsSettled :
      (r : Role) (a : Activator G) (h : Handshake)
      → IsCleared a
      → (slot_of r a).context ≡ false
      → IsSettled r (is_success (activate_killed a h).0) a (activate_killed a h).1
  unfolding activate_killed
  activate_killed-IsSettled r a h cleared f =
      let with_subscribe = h.channel_shm && h.subscribe_shm in
      let with_alive = with_subscribe && h.alive_shm in
      let b = (start_threads a h).1 in
      elim (Bool-cases with_alive) [
        | inl e ↦ rw e (
            respond_wait-IsSettled r (start_threads a h).0 a b h f
              (start_threads-IsBalanced r a h cleared)
              (λ e.
                start_threads-open r a h
                  (ground (arith, e, respond_wait-success (start_threads a h).0 b h))))
        | inr e ↦ rw e (record {
          context = ap (λ x. x.context) (with_calls-slot r a _) ∙ f;
          balance = unmapped-balance r a.calls h.channel_shm with_subscribe;
        })
      ]

  from_same :
      (r : Role) (success : Bool) (a b c : Activator G)
      → b.calls ≡ a.calls
      → IsSettled r success b c
      → IsSettled r success a c
  from_same r success a b c e s = record {
    context = s.context;
    balance = omega (arith, s.balance, ap (creates r) e, ap (destroys r) e);
  }

  cleared-slot :
      (r : Role) (a : Activator G)
      → ((slot_of r (set_dying (clear_contexts a))).context ≡ false)
        × ((slot_of r (kill_old (clear_contexts a))).context ≡ false)
  cleared-slot subscribe a = (refl, refl)
  cleared-slot channel a = (refl, refl)
  cleared-slot alive a = (refl, refl)

  -- An activation keeps the three contexts that it makes exactly if it is successful: without
  -- success each context that was made is destroyed again, once, and no pointer to one is left.
  pub proxy_activation-IsSettled :
      (r : Role) (a : Activator G) (h : Handshake)
      → IsSettled r (is_success (proxy_activation a h).0) a (proxy_activation a h).1
  unfolding proxy_activation
  proxy_activation-IsSettled r a h =
      let dying = set_dying (clear_contexts a) in
      let killed = kill_old (clear_contexts a) in
      elim (Bool-cases (proxy_thread_zombie a.threads.terminating a.shm.proxy_name)) [
        | inl e ↦ rw e (
            from_same r _ a dying _ refl (
              respond_wait-IsSettled r dispatcher_failed dying dying h (cleared-slot r a).0 refl
                (λ s. absurd (ground (arith, s, respond_wait-success dispatcher_failed dying h)))))
        | inr e ↦ rw e (
            from_same r _ a killed _ refl
              (activate_killed-IsSettled r killed h (refl, refl, refl) (cleared-slot r a).1))
      ]
