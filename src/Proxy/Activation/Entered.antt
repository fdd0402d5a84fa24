-- ===== src/Proxy/Activation/Entered.antt =====
-- gear/proxyactivator.c: a proxy whose activation is successful gets its three threads.
use gonggo.Base.{false, ltb, ◌==◌, ℕ, ◌≡◌, refl, String, true, Option, arith, ◌&&◌, ◌∙◌, string_eq}
use gonggo.Glib.{Glib}
use gonggo.Proxy.Activation.{Cjson, len, Threads, proxy_activation}
use gonggo.Proxy.Activator.{
  Activator, is_request, Role, subscribe, channel, alive, Handshake, is_success, is_ended,
}
use gonggo.Proxy.Names.{proxy_thread_zombie}
use gonggo.Proxy.Activation.Outcome.{
  proxy_activation-success, is_answered, is_made, has_segments, has_threads,
}
use gonggo.Proxy.Activation.Balance.{slot_of}
use gonggo.Proxy.Activation.Turn.{
  Signal, set_thread, entered, enter_threads, follow_up, is_terminated, proxy_activator_turn,
}
use gonggo.Proxy.Activation.Tables.{IsCut, proxy_activation-IsCut}
use gonggo.Client.Steady.{notification-SameTables}
use gonggo.Proxy.Thread.{
  ThreadTable, proxy_subscribe_thread_table_set, proxy_channel_thread_table_set,
  proxy_alive_thread_table_set,
}
use gonggo.Proxy.Activation.{proxy_activator_shm_idle}
use gonggo.Base.{not, sym, subst, if◌then◌else◌, contains, false, none, some, [], ◌∷◌}
use gonggo.Proxy.Activation.Handles.{thread_of, activated-handle, activated-name}

-- The proxy that asks, and that nobody changes the name until it has answered.
pub record IsAsking (signal : Signal) (h : Handshake) (name : String) : Type 0 where
  pub running : signal.ended ≡ false
  pub living : signal.found.owner_dead ≡ false
  pub named : ltb 0 (len name) ≡ true
  pub request : is_request signal.found.memory.state ≡ true
  pub found : signal.found.memory.proxy_name ≡ name
  pub relocked : h.relock.memory.proxy_name ≡ name
  pub responded : h.respond.memory.proxy_name ≡ name

module _ (G : Glib) where
  -- A thread that is set is found, and the others are as before the name was cut.
  set_thread-lookup :
      (t t' : ThreadTable G) (set : ThreadTable G → String → ℕ → ThreadTable G) (name j : String)
      (thread : Option ℕ)
      → ((t : ThreadTable G) (n : ℕ) → set t name n ≡ G.insert (G.remove t name) name n)
      → is_made thread ≡ true
      → G.lookup t' j ≡ (if contains j (name ∷ []) then none else G.lookup t j)
      → G.lookup (set_thread G set t' name thread) j ≡ (if name == j then thread else G.lookup t j)
  set_thread-lookup t t' set name j none e made l = absurd (ground (arith, made))
  set_thread-lookup t t' set name j (some n) e made l =
      rw (e t' n)
        (G.lookup-insert (G.remove t' name) name n j ∙ ground (arith, G.lookup-remove t' name j, l))

module _ {G : Glib} where
  -- The three threads of the proxy `name` are those that were made, and those of the others stay.
  pub record IsEntered (h : Handshake) (name : String) (s s' : Threads G) : Type 0 where
    pub subscribes :
        (j : String)
        → G.lookup s'.subscribes j
          ≡ (if name == j then h.subscribe_thread else G.lookup s.subscribes j)
    pub channels :
        (j : String)
        → G.lookup s'.world.channels j
          ≡ (if name == j then h.channel_thread else G.lookup s.world.channels j)
    pub alives :
        (j : String)
        → G.lookup s'.world.alives j
          ≡ (if name == j then h.alive_thread else G.lookup s.world.alives j)

  enter_threads-IsEntered :
      (C : Cjson) (s : Threads G) (a : Activator G) (h : Handshake)
      → has_threads h ≡ true
      → ((r : Role) → (slot_of r a).handle ≡ thread_of r h)
      → IsCut (a.shm.proxy_name ∷ []) s a.threads
      → IsEntered h a.shm.proxy_name s (enter_threads C a).threads
  unfolding enter_threads proxy_subscribe_thread_table_set proxy_channel_thread_table_set
      proxy_alive_thread_table_set
  enter_threads-IsEntered C s a h made handles cut =
      let name = a.shm.proxy_name in
      let told = (notification-SameTables C (entered a).world name true).1 in
      record {
        subscribes = λ j. rw (handles subscribe) (
            set_thread-lookup G s.subscribes a.threads.subscribes
              (proxy_subscribe_thread_table_set G) name j _ (λ _ _. refl) (ground (arith, made))
              (cut.killed.subscribes j));
        channels = λ j.
            rw (told.channels, handles channel)
              (set_thread-lookup G s.world.channels a.threads.world.channels
                (proxy_channel_thread_table_set G) name j _ (λ _ _. refl) (ground (arith, made))
                (cut.killed.channels j));
        alives = λ j.
            rw (told.alives, handles alive)
              (set_thread-lookup G s.world.alives a.threads.world.alives
                (proxy_alive_thread_table_set G) name j _ (λ _ _. refl) (ground (arith, made))
                (cut.killed.alives j));
      }

  abbrev pub woken : Activator G → Signal → Activator G
  woken a signal = record (proxy_activator_shm_idle a) { shm = signal.found.memory }

  turn-entered :
      (C : Cjson) (a : Activator G) (signal : Signal) (h : Handshake) (name : String)
      → IsAsking signal h name
      → is_success (proxy_activation (woken a signal) h).0 ≡ true
      → proxy_activator_turn C a signal h
        ≡ (true, enter_threads C (proxy_activation (woken a signal) h).1)
  unfolding proxy_activator_turn follow_up proxy_activator_shm_idle
  turn-entered C a signal h name q e =
      let state = signal.found.memory.state in
      let ended : is_ended state ≡ false = ground (arith, q.request) in
      let guard : not signal.ended
            && (not signal.found.owner_dead
                && (ltb 0 (len signal.found.memory.proxy_name) && is_request state))
          ≡ true =
        ground (arith, q.running, q.living, q.named, q.request, q.found) in
      let more : is_terminated (proxy_activation (woken a signal) h).0 ≡ false =
        ground (arith, e) in
      rw (ended, guard, more, e) refl

  -- A living proxy that asks, that is no zombie, whose segments are there, whose threads can be
  -- made, and which answers that it is done, has exactly these three threads after the turn; every
  -- other proxy keeps the threads it had.
  pub proxy_activator_turn-IsEntered :
      (C : Cjson) (a : Activator G) (signal : Signal) (h : Handshake) (name : String)
      → IsAsking signal h name
      → proxy_thread_zombie a.threads.terminating name ≡ false
      → has_segments h ≡ true
      → has_threads h ≡ true
      → is_answered h ≡ true
      → let (more, a') = proxy_activator_turn C a signal h in
        (more ≡ true) × IsEntered h name a.threads a'.threads
  unfolding proxy_activator_shm_idle
  proxy_activator_turn-IsEntered C a signal h name q z s t w =
      let x = woken a signal in
      let b = (proxy_activation x h).1 in
      let zombie : proxy_thread_zombie x.threads.terminating x.shm.proxy_name ≡ false =
        rw q.found z in
      let success = proxy_activation-success x h ∙ ground (arith, zombie, s, t, w) in
      let named = activated-name x h name zombie s q.relocked q.responded in
      let cut : IsCut (x.shm.proxy_name ∷ []) x.threads b.threads =
        subst (λ v. IsCut (if v then [] else x.shm.proxy_name ∷ []) x.threads b.threads) zombie
          (proxy_activation-IsCut x h) in
      let cut' : IsCut (b.shm.proxy_name ∷ []) a.threads b.threads =
        subst (λ n. IsCut (n ∷ []) a.threads b.threads) (q.found ∙ sym named) cut in
      let i =
        enter_threads-IsEntered C a.threads b h t (λ r. activated-handle r x h zombie s t) cut' in
      rw (turn-entered C a signal h name q success)
        ((refl, subst (λ n. IsEntered h n a.threads (enter_threads C b).threads) named i))
