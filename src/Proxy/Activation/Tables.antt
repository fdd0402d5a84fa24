-- ===== src/Proxy/Activation/Tables.antt =====
-- gear/proxyactivator.c, `proxy_activation`: what it does to the tables.
use gonggo.Base.{
  ◌≡◌, refl, String, List, [], ◌∷◌, arith, if◌then◌else◌, ◌&&◌, Bool-cases, inl, inr, ◌∙◌, subst,
}
use gonggo.Glib.{Glib}
use gonggo.Proxy.Names.{proxy_thread_zombie}
use gonggo.Proxy.Thread.{Threads, proxy_thread_kill}
use gonggo.Proxy.Thread.Kill.{IsKilled, proxy_thread_kill-IsKilled}
use gonggo.Proxy.Activation.{
  start_threads, start_channel, start_alive, wait_respond, note_timeout, undo_threads, respond_wait,
  activate_killed, proxy_activation, clear_contexts, set_dying, kill_old,
}
use gonggo.Proxy.Activator.{
  Activator, Handshake, RespondState, is_success, is_timeout, dispatcher_failed,
}

module _ {G : Glib} where
  -- The tables of requests and the lists of names are as they were.
  pub record IsAside (s s' : Threads G) : Type 0 where
    pub requests : s'.world.requests ≡ s.world.requests
    pub connections : s'.world.connections ≡ s.world.connections
    pub services : s'.world.services ≡ s.world.services
    pub proxynames : s'.world.proxynames ≡ s.world.proxynames
    pub writes : s'.world.writes ≡ s.world.writes
    pub terminating : s'.terminating ≡ s.terminating
    pub queue : s'.queue ≡ s.queue

  -- Only the threads of `names` are gone.
  pub record IsCut (names : List String) (s s' : Threads G) : Type 0 where
    pub killed : IsKilled names s s'
    pub aside : IsAside s s'

  pub proxy_thread_kill-IsCut :
      (s : Threads G) (name : String) → IsCut (name ∷ []) s (proxy_thread_kill s name)
  unfolding proxy_thread_kill
  proxy_thread_kill-IsCut s name = record {
    killed = proxy_thread_kill-IsKilled s name;
    aside = record {
      requests = refl;
      connections = refl;
      services = refl;
      proxynames = refl;
      writes = refl;
      terminating = refl;
      queue = refl;
    };
  }

  -- A signal to a channel thread.
  woken-IsCut :
      (s : Threads G) (names : List String)
      → IsCut [] s (record s { world = record s.world { wakeups = names } })
  woken-IsCut s names = record {
    killed = record { subscribes = λ j. refl; channels = λ j. refl; alives = λ j. refl };
    aside = record {
      requests = refl;
      connections = refl;
      services = refl;
      proxynames = refl;
      writes = refl;
      terminating = refl;
      queue = refl;
    };
  }

  same-IsCut : (s : Threads G) → IsCut [] s s
  same-IsCut s = woken-IsCut s s.world.wakeups

  start_threads-threads :
      (a : Activator G) (h : Handshake) → (start_threads a h).1.threads ≡ a.threads
  unfolding start_threads start_channel start_alive
  start_threads-threads a h = ground arith

  wait_respond-threads :
      (state : RespondState) (a : Activator G) (h : Handshake)
      → (wait_respond state a h).1.threads ≡ a.threads
  unfolding wait_respond
  wait_respond-threads state a h = ground arith

  note_timeout-IsCut :
      (state : RespondState) (a : Activator G) → IsCut [] a.threads (note_timeout state a).threads
  unfolding note_timeout
  note_timeout-IsCut state a = elim (Bool-cases (is_timeout state && a.channel_slot.context)) [
    | inl e ↦ rw e (woken-IsCut a.threads _)
    | inr e ↦ rw e (same-IsCut a.threads)
  ]

  respond_wait-IsCut :
      (state : RespondState) (a : Activator G) (h : Handshake)
      → IsCut [] a.threads (respond_wait state a h).1.threads
  unfolding respond_wait undo_threads
  respond_wait-IsCut state a h =
      let (answered, b) = wait_respond state a h in
      let noted =
        subst (λ t. IsCut [] t (note_timeout answered b).threads) (wait_respond-threads state a h)
          (note_timeout-IsCut answered b) in
      elim (Bool-cases (is_success answered)) [ inl e ↦ rw e noted | inr e ↦ rw e noted ]

  joined-IsCut :
      {names : List String} {s s' s'' : Threads G}
      → IsCut names s s'
      → IsCut [] s' s''
      → IsCut names s s''
  joined-IsCut a b = record {
    killed = record {
      subscribes = λ j. b.killed.subscribes j ∙ a.killed.subscribes j;
      channels = λ j. b.killed.channels j ∙ a.killed.channels j;
      alives = λ j. b.killed.alives j ∙ a.killed.alives j;
    };
    aside = record {
      requests = b.aside.requests ∙ a.aside.requests;
      connections = b.aside.connections ∙ a.aside.connections;
      services = b.aside.services ∙ a.aside.services;
      proxynames = b.aside.proxynames ∙ a.aside.proxynames;
      writes = b.aside.writes ∙ a.aside.writes;
      terminating = b.aside.terminating ∙ a.aside.terminating;
      queue = b.aside.queue ∙ a.aside.queue;
    };
  }

  activate_killed-IsCut :
      (a : Activator G) (h : Handshake) → IsCut [] a.threads (activate_killed a h).1.threads
  unfolding activate_killed
  activate_killed-IsCut a h = elim (Bool-cases (h.channel_shm && h.subscribe_shm && h.alive_shm)) [
    | inl e ↦ rw e (
        subst
          (λ t. IsCut [] t (respond_wait (start_threads a h).0 (start_threads a h).1 h).1.threads)
          (start_threads-threads a h)
          (respond_wait-IsCut (start_threads a h).0 (start_threads a h).1 h))
    | inr e ↦ rw e (same-IsCut a.threads)
  ]

  -- An activation ends the old threads of a proxy that is no zombie, and nothing else: of a zombie
  -- it ends none, it enters no new thread, and it changes neither the tables of requests, nor which
  -- proxies are zombies or queued for the terminator, nor what was written to clients.
  pub proxy_activation-IsCut :
      (a : Activator G) (h : Handshake)
      → IsCut
          (if proxy_thread_zombie a.threads.terminating a.shm.proxy_name
            then []
            else a.shm.proxy_name ∷ [])
          a.threads
          (proxy_activation a h).1.threads
  unfolding proxy_activation
  proxy_activation-IsCut a h =
      let begun = clear_contexts a in
      elim (Bool-cases (proxy_thread_zombie a.threads.terminating a.shm.proxy_name)) [
        | inl e ↦ rw e (respond_wait-IsCut dispatcher_failed (set_dying begun) h)
        | inr e ↦ rw e (
            joined-IsCut (proxy_thread_kill-IsCut a.threads a.shm.proxy_name)
              (activate_killed-IsCut (kill_old begun) h))
      ]
