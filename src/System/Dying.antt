-- ===== src/System/Dying.antt =====
-- gear/proxyactivator.c and gear/proxyalive.c within the whole server: what becomes of a proxy that
-- is dying before the terminator has freed it.
use gonggo.Base.{
  ◌≡◌, ◌≢◌, refl, String, Bool, true, false, arith, ◌∙◌, string_eq, Bool-cases, inl, inr, subst,
  sym, if◌then◌else◌, ◌||◌, contains,
}
use gonggo.Json.{Cjson}
use gonggo.Base.{List, [], ◌∷◌, ap, not}
use gonggo.Proxy.Activator.{Handshake, is_success}
use gonggo.Proxy.Activation.{proxy_activator_shm_idle, proxy_activation}
use gonggo.Proxy.Activation.Outcome.{
  proxy_activation-success, has_segments, has_threads, is_answered,
}
use gonggo.Proxy.Activation.Tables.{IsCut, proxy_activation-IsCut}
use gonggo.Proxy.Activation.Turn.{Signal, is_asked, proxy_activator_turn}
use gonggo.Proxy.Activation.Entered.{woken, IsEntered, proxy_activator_turn-IsEntered}
use gonggo.System.{IsKeeping, world_of}
use gonggo.System.Effects.{IsApart, proxy_activator_turn-IsApart}
use gonggo.System.Starts.{is_taken, asking, killed_free, turn_quiet, turn_unsuccessful}
use gonggo.System.Steady.{
  ws_data_handler-SameThreads, proxy_subscribe_exchange-SameThreads,
  proxy_channel_exchange-SameThreads,
}
use gonggo.Client.Steady.{client_service_drop_conn-SameThreads, client_timeout_turn-SameThreads}
use gonggo.Glib.{Glib}
use gonggo.Client.World.{World}
use gonggo.Client.Steady.{SameThreads, notification-SameTables}
use gonggo.Proxy.Names.{proxy_thread_zombie, zombie-set}
use gonggo.Proxy.Thread.{Threads, proxy_alive_turn, proxy_terminator_awake}
use gonggo.Proxy.Activator.{Activator}
use gonggo.System.{
  Outside, Step, Reach, message, close, timeout, answer, hand, watch, terminate, activate, stop,
  tick,
}
use gonggo.System as System
use gonggo.System.Invariant.{IsSound, Reach-IsSound}

module _ {G : Glib} where
  -- The proxy is dying still, and has in each table the thread that it had, or none as before.
  pub record IsLeft (p : String) (s s' : Threads G) : Type 0 where
    pub zombie : proxy_thread_zombie s'.terminating p ≡ true
    pub subscribes : G.lookup s'.subscribes p ≡ G.lookup s.subscribes p
    pub channels : G.lookup s'.world.channels p ≡ G.lookup s.world.channels p
    pub alives : G.lookup s'.world.alives p ≡ G.lookup s.world.alives p

  IsLeft-trans :
      (p : String) (s s' s'' : Threads G) → IsLeft p s s' → IsLeft p s' s'' → IsLeft p s s''
  IsLeft-trans p s s' s'' a b = record {
    zombie = b.zombie;
    subscribes = b.subscribes ∙ a.subscribes;
    channels = b.channels ∙ a.channels;
    alives = b.alives ∙ a.alives;
  }

  IsLeft-refl :
      (s : Threads G) (p : String) → proxy_thread_zombie s.terminating p ≡ true → IsLeft p s s
  IsLeft-refl s p z = record { zombie = z; subscribes = refl; channels = refl; alives = refl }

  zombie_out :
      (s : Threads G) (name p : String)
      → proxy_thread_zombie s.terminating p ≡ true
      → contains p (if proxy_thread_zombie s.terminating name then [] else name ∷ []) ≡ false
  zombie_out s name p z =
      elim (Bool-cases
        (contains p (if proxy_thread_zombie s.terminating name then [] else name ∷ []))) [
          | inl e ↦ absurd (ground (arith, z, killed_free s name p e))
          | inr e ↦ e
        ]

  world-IsLeft :
      (s : Threads G) (w : World G) (p : String)
      → proxy_thread_zombie s.terminating p ≡ true
      → SameThreads s.world w
      → IsLeft p s (record s { world = w })
  world-IsLeft s w p z t = record {
    zombie = z;
    subscribes = refl;
    channels = rw t.channels refl;
    alives = rw t.alives refl;
  }

  alive-IsLeft :
      (C : Cjson) (s : Threads G) (name p : String) (owner_dead acquired alive : Bool)
      → proxy_thread_zombie s.terminating p ≡ true
      → IsLeft p s (proxy_alive_turn C s name owner_dead acquired alive).1
  unfolding proxy_alive_turn proxy_terminator_awake
  alive-IsLeft C s name p owner_dead acquired alive z =
      let dead = owner_dead || (if acquired then not alive else false) in
      let t = (notification-SameTables C s.world name false).1 in
      elim (Bool-cases dead) [
        | inr e ↦ rw (e, proxy_alive_turn) (IsLeft-refl s p z)
        | inl e ↦
            rw (e, proxy_alive_turn)
              (record {
                zombie = ground (arith, z, zombie-set s.terminating name p);
                subscribes = refl;
                channels = rw t.channels refl;
                alives = rw t.alives refl;
              })
      ]

  cut-IsLeft :
      (names : List String) (s s' : Threads G) (p : String)
      → proxy_thread_zombie s.terminating p ≡ true
      → contains p names ≡ false
      → IsCut names s s'
      → IsLeft p s s'
  cut-IsLeft names s s' p z out c = record {
    zombie = rw c.aside.terminating z;
    subscribes = c.killed.subscribes p ∙ rw out refl;
    channels = c.killed.channels p ∙ rw out refl;
    alives = c.killed.alives p ∙ rw out refl;
  }

  entered-IsLeft :
      (h : Handshake) (name p : String) (s s' : Threads G)
      → proxy_thread_zombie s.terminating p ≡ true
      → name ≢ p
      → IsEntered h name s s'
      → IsApart s s'
      → IsLeft p s s'
  entered-IsLeft h name p s s' z ne i a = record {
    zombie = rw a.terminating z;
    subscribes = i.subscribes p ∙ ground (arith, ne);
    channels = i.channels p ∙ ground (arith, ne);
    alives = i.alives p ∙ ground (arith, ne);
  }

  -- A turn of the activator leaves a proxy that is dying, whoever asks.
  activator-IsLeft :
      (C : Cjson) (a : Activator G) (signal : Signal) (h : Handshake) (p : String)
      → proxy_thread_zombie a.threads.terminating p ≡ true
      → IsKeeping signal h
      → IsLeft p a.threads (proxy_activator_turn C a signal h).1.threads
  unfolding proxy_activator_shm_idle
  activator-IsLeft C a signal h p z k =
      let x = woken a signal in
      let name = signal.found.memory.proxy_name in
      let success = proxy_activation-success x h in
      elim (Bool-cases (is_taken signal)) [
        | inr e ↦
            subst (λ s. IsLeft p a.threads s) (sym (turn_quiet C a signal h e))
              (IsLeft-refl a.threads p z)
        | inl e ↦ elim (Bool-cases (is_success (proxy_activation x h).0)) [
          | inl s ↦
              let asked : is_asked signal ≡ true = ground (arith, e) in
              let free : proxy_thread_zombie a.threads.terminating name ≡ false =
                ground (arith, s, success) in
              let made : has_threads h ≡ true = ground (arith, s, success) in
              let there : has_segments h ≡ true = ground (arith, s, success) in
              let done : is_answered h ≡ true = ground (arith, s, success) in
              let ne : name ≢ p = λ same.
                ground (arith, z, free, ap (proxy_thread_zombie a.threads.terminating) same) in
              entered-IsLeft h name p a.threads _ z ne
                (proxy_activator_turn-IsEntered C a signal h name (asking signal h asked k) free
                  there made done).1
                (proxy_activator_turn-IsApart C a signal h)
          | inr s ↦
              let names =
                if proxy_thread_zombie a.threads.terminating name then [] else name ∷ [] in
              let out : contains p names ≡ false = zombie_out a.threads name p z in
              subst (λ b. IsLeft p a.threads b.threads) (sym (turn_unsuccessful C a signal h e s))
                (cut-IsLeft names a.threads _ p z out (proxy_activation-IsCut x h))
        ]
      ]

module _ {G : Glib} (O : Outside) where
  -- The two steps that free a proxy: a turn of the terminator, and the server's end.
  abbrev pub is_freeing : {a b : Activator G} → Step O a b → Bool
  is_freeing terminate = true
  is_freeing stop = true
  is_freeing _ = false

  abbrev pub has_freeing : {a b : Activator G} → Reach O a b → Bool
  has_freeing System.here = false
  has_freeing (System.later r step) = has_freeing r || is_freeing step

  Step-IsLeft :
      (a b : Activator G) (p : String) (step : Step O a b)
      → IsSound a
      → proxy_thread_zombie a.threads.terminating p ≡ true
      → is_freeing step ≡ false
      → IsLeft p a.threads b.threads
  unfolding System.ws_close_handler
  Step-IsLeft a b p (message path uri opcode text conn) s z f =
      world-IsLeft a.threads _ p z
        (ws_data_handler-SameThreads O path (world_of a) uri opcode text conn)
  Step-IsLeft a b p (close conn) s z f =
      world-IsLeft a.threads _ p z
        (client_service_drop_conn-SameThreads O.C O.uuid (world_of a) conn)
  Step-IsLeft a b p timeout s z f =
      world-IsLeft a.threads _ p z (client_timeout_turn-SameThreads O.C (world_of a))
  Step-IsLeft a b p (answer answer_of name shm state w e) s z f =
      world-IsLeft a.threads w p z
        (proxy_subscribe_exchange-SameThreads O.C answer_of (world_of a) w name shm state e)
  Step-IsLeft a b p (hand turn name shm) s z f = world-IsLeft a.threads _ p z (
      proxy_channel_exchange-SameThreads O.strlen turn (world_of a) name shm
        s.consistent.proxynames_valid)
  Step-IsLeft a b p (watch name owner_dead acquired alive) s z f =
      alive-IsLeft O.C a.threads name p owner_dead acquired alive z
  Step-IsLeft a b p terminate s z f = absurd (ground (arith, f))
  Step-IsLeft a b p (activate signal h k) s z f = activator-IsLeft O.C a signal h p z k
  Step-IsLeft a b p stop s z f = absurd (ground (arith, f))
  Step-IsLeft a b p (tick seconds) s z f =
      world-IsLeft a.threads _ p z (record { channels = refl; alives = refl })

  -- From a sound state in which a proxy is dying, in any sequence of whole handlers and whole turns,
  -- one after the other, that has neither a turn of the terminator nor the end of the server's
  -- threads: the proxy stays among the dying, and in each of the three tables it has the very thread
  -- that it had, or none as before, whoever asks for its activation.
  pub Reach-IsLeft :
      (a b : Activator G) (p : String) (r : Reach O a b)
      → IsSound a
      → proxy_thread_zombie a.threads.terminating p ≡ true
      → has_freeing r ≡ false
      → IsLeft p a.threads b.threads
  Reach-IsLeft a b p System.here s z f = IsLeft-refl a.threads p z
  Reach-IsLeft a b p (System.later {b = c} r step) s z f =
      let before = Reach-IsLeft a c p r s z (ground (arith, f)) in
      IsLeft-trans p a.threads c.threads b.threads before
        (Step-IsLeft c b p step (Reach-IsSound O a c r s) before.zombie (ground (arith, f)))
