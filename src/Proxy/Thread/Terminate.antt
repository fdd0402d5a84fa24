-- ===== src/Proxy/Thread/Terminate.antt =====
-- gear/proxyterminator.c and gear/proxyalive.c: from a proxy's death to the end of its threads.
use gonggo.Base.{
  ◌≡◌, refl, String, Bool, true, false, none, some, List, [], ◌∷◌, arith, if◌then◌else◌, string_eq,
  contains, contains-append, distinct, ◌∙◌,
}
use gonggo.Glib.{Glib}
use gonggo.Json.{Cjson}
use gonggo.Client.Proxyname.Laws.{sent_flag, sent_flag-request_unsent}
use gonggo.Proxy.Names.{proxy_thread_zombie, zombie-set, zombie-drop, set-distinct, drop-distinct}
use gonggo.Proxy.Thread.{
  Threads, proxy_thread_kill, terminate_proxy, terminate_each, proxy_terminator_turn,
  proxy_terminator_awake, proxy_alive_turn,
}
use gonggo.Proxy.Thread.Kill.{IsKilled, proxy_thread_kill-IsKilled, joined-IsKilled}

module _ {G : Glib} where
  -- What the terminator does for the proxies `names`.
  pub record IsTerminated (names : List String) (s s' : Threads G) : Type 0 where
    pub killed : IsKilled names s s'
    pub flags :
        (p rid : String)
        → sent_flag G s'.world.proxynames p rid ≡ (
            if contains p names
            then elim (sent_flag G s.world.proxynames p rid) [ none ↦ none | some _ ↦ some false ]
            else sent_flag G s.world.proxynames p rid)
    pub zombies :
        (p : String)
        → proxy_thread_zombie s'.terminating p
          ≡ (if contains p names then false else proxy_thread_zombie s.terminating p)
    pub single : distinct s'.terminating ≡ true
    pub queue_same : s'.queue ≡ s.queue

  terminate_proxy-IsTerminated :
      (s : Threads G) (name : String)
      → distinct s.terminating ≡ true
      → IsTerminated (name ∷ []) s (terminate_proxy s name)
  unfolding terminate_proxy proxy_thread_kill
  terminate_proxy-IsTerminated s name d = record {
    killed =
        let k = proxy_thread_kill-IsKilled s name in
        record { subscribes = k.subscribes; channels = k.channels; alives = k.alives };
    flags = λ p rid. sent_flag-request_unsent G s.world.proxynames name p rid ∙ ground arith;
    zombies = λ p. zombie-drop s.terminating name p d ∙ ground arith;
    single = drop-distinct s.terminating name d;
    queue_same = refl;
  }

  joined-IsTerminated :
      {s s1 s2 : Threads G} {name : String} {names : List String}
      → IsTerminated (name ∷ []) s s1
      → IsTerminated names s1 s2
      → IsTerminated (name ∷ names) s s2
  joined-IsTerminated a b = record {
    killed = joined-IsKilled a.killed b.killed;
    flags = λ p rid. b.flags p rid ∙ ground (arith, a.flags p rid);
    zombies = λ p. b.zombies p ∙ ground (arith, a.zombies p);
    single = b.single;
    queue_same = b.queue_same ∙ a.queue_same;
  }

  terminate_each-IsTerminated :
      (s : Threads G) (names : List String)
      → distinct s.terminating ≡ true
      → IsTerminated names s (terminate_each s names)
  unfolding terminate_each
  terminate_each-IsTerminated s [] d = record {
    killed = record { subscribes = λ j. refl; channels = λ j. refl; alives = λ j. refl };
    flags = λ p rid. refl;
    zombies = λ p. refl;
    single = d;
    queue_same = refl;
  }
  terminate_each-IsTerminated s (name ∷ names) d =
      let a = terminate_proxy-IsTerminated s name d in
      joined-IsTerminated a (terminate_each-IsTerminated (terminate_proxy s name) names a.single)

  -- A turn of the terminator empties its queue. Every proxy that stood in it has no thread left in
  -- any table, may be activated again, and has all its requests marked as not sent; the other
  -- proxies keep their threads, their flags and whether they are about to be ended.
  pub proxy_terminator_turn-IsTerminated :
      (s : Threads G)
      → distinct s.terminating ≡ true
      → ((proxy_terminator_turn s).queue ≡ [])
        × IsTerminated s.queue (record s { queue = [] }) (proxy_terminator_turn s)
  unfolding proxy_terminator_turn
  proxy_terminator_turn-IsTerminated s d =
      let t = terminate_each-IsTerminated (record s { queue = [] }) s.queue d in (t.queue_same, t)

  alive_turn-dead :
      (C : Cjson) (s : Threads G) (name : String) (owner_dead acquired alive : Bool)
      → distinct s.terminating ≡ true
      → (proxy_alive_turn C s name owner_dead acquired alive).0 ≡ true
      → let dead = (proxy_alive_turn C s name owner_dead acquired alive).1 in
        (proxy_thread_zombie dead.terminating name ≡ true)
        × (contains name dead.queue ≡ true)
        × (distinct dead.terminating ≡ true)
  unfolding proxy_alive_turn proxy_terminator_awake
  alive_turn-dead C s name owner_dead acquired alive d h = (
    ground (arith, h, zombie-set s.terminating name name),
    ground (arith, h, contains-append name s.queue (name ∷ [])),
    ground (arith, h, set-distinct s.terminating name d),
  )

  -- A proxy that is found dead cannot be activated until the terminator has ended its threads: it
  -- is a zombie from then on and stands in the queue, and after the terminator's next turn it is
  -- no zombie and has no thread.
  pub proxy_alive_turn-terminated :
      (C : Cjson) (s : Threads G) (name : String) (owner_dead acquired alive : Bool)
      → distinct s.terminating ≡ true
      → (proxy_alive_turn C s name owner_dead acquired alive).0 ≡ true
      → let dead = (proxy_alive_turn C s name owner_dead acquired alive).1 in
        let ended = proxy_terminator_turn dead in
        (proxy_thread_zombie dead.terminating name ≡ true)
        × (contains name dead.queue ≡ true)
        × (proxy_thread_zombie ended.terminating name ≡ false)
        × (G.lookup ended.subscribes name ≡ none)
        × (G.lookup ended.world.channels name ≡ none)
        × (G.lookup ended.world.alives name ≡ none)
  proxy_alive_turn-terminated C s name owner_dead acquired alive d h =
      let dead = (proxy_alive_turn C s name owner_dead acquired alive).1 in
      let (zombie, queued, single) = alive_turn-dead C s name owner_dead acquired alive d h in
      let (_, t) = proxy_terminator_turn-IsTerminated dead single in
      (
        zombie,
        queued,
        t.zombies name ∙ ground (arith, queued),
        t.killed.subscribes name ∙ ground (arith, queued),
        t.killed.channels name ∙ ground (arith, queued),
        t.killed.alives name ∙ ground (arith, queued),
      )
