-- ===== src/System/Effects.antt =====
-- What the single steps of the server do to the tables of requests.
use gonggo.Base.{
  ◌||◌, not, if◌then◌else◌, ℕ, ◌≡◌, refl, String, Bool, true, false, List, [], ◌∷◌, arith, ◌∙◌, ap,
  Bool-cases, inl, inr, string_eq, nat_eq, distinct,
}
use gonggo.Glib.{Glib}
use gonggo.Json.{Cjson}
use gonggo.Client.World.{World}
use gonggo.Client.Invariant.{IsConsistent}
use gonggo.Client.Steady.{notification-SameTables}
use gonggo.Client.Route.Accepted.{SameTables, same-IsConsistent}
use gonggo.Client.Drop.Grows.{Grows, Grows-refl, Grows-trans}
use gonggo.Client.Proxyname.Laws.{sent_flag-request_unsent, IsValid}
use gonggo.Client.Proxyname.Valid.{request_unsent-IsValid}
use gonggo.Proxy.Channel.Flags.{IsMarking}
use gonggo.Proxy.Channel.{proxy_channel_exchange}
use gonggo.Proxy.Names.{proxy_thread_terminating_set, set-distinct, drop-distinct}
use gonggo.Proxy.Thread.{
  Threads, proxy_thread_kill, terminate_proxy, terminate_each, kill_one, kill_each,
  proxy_alive_turn, proxy_terminator_awake,
}
use gonggo.Proxy.Activation.{proxy_activation, proxy_activator_shm_idle}
use gonggo.Proxy.Activator.{Activator, Handshake, RespondState, is_success, is_ended}
use gonggo.Proxy.Activation.Turn.{
  entered, is_terminated, is_asked, Signal, proxy_activator_turn, follow_up, enter_threads,
}
use gonggo.Proxy.Activation.Tables.{IsAside, proxy_activation-IsCut}

module _ {G : Glib} where
  pub marking-Grows :
      (strlen : String → ℕ) (turn : String → gonggo.Proxy.Channel.Turn) (name : String)
      (rids : List String) (w w' : World G)
      → IsMarking strlen turn name rids w w'
      → Grows w w'
  marking-Grows strlen turn name rids w w' m = record {
    requests_same = ap (λ x. x.requests) m.rest_same;
    connections_same = ap (λ x. x.connections) m.rest_same;
    text_kept = λ j h. rw (ap (λ x. x.services) m.rest_same) h;
    flag_kept = λ p j h. ground (arith, h, m.flags p j);
    valid_kept = m.valid;
  }

  terminate_proxy-Grows :
      (s : Threads G) (name : String)
      → IsValid G s.world.proxynames
      → Grows s.world (terminate_proxy s name).world
  unfolding terminate_proxy proxy_thread_kill
  terminate_proxy-Grows s name v = record {
    requests_same = refl;
    connections_same = refl;
    text_kept = λ j h. h;
    flag_kept = λ p j h. ground (arith, h, sent_flag-request_unsent G s.world.proxynames name p j);
    valid_kept = request_unsent-IsValid G s.world.proxynames name v;
  }

  pub terminate_each-Grows :
      (s : Threads G) (names : List String)
      → IsValid G s.world.proxynames
      → Grows s.world (terminate_each s names).world
  unfolding terminate_each
  terminate_each-Grows s [] v = Grows-refl s.world v
  terminate_each-Grows s (name ∷ names) v =
      let g = terminate_proxy-Grows s name v in
      Grows-trans g (terminate_each-Grows (terminate_proxy s name) names g.valid_kept)

  -- The end of the server's threads leaves the tables of requests alone.
  pub kill_each-SameTables :
      (s : Threads G) (names : List String)
      → distinct s.terminating ≡ true
      → SameTables s.world (kill_each s names).world
        × (distinct (kill_each s names).terminating ≡ true)
  unfolding kill_each kill_one proxy_thread_kill
  kill_each-SameTables s [] d = (
    record {
      requests_same = refl;
      connections_same = refl;
      services_same = refl;
      proxynames_same = refl;
    },
    d,
  )
  kill_each-SameTables s (name ∷ names) d =
      let set = set-distinct s.terminating name d in
      let (t, e) =
        kill_each-SameTables (kill_one s name) names
          (drop-distinct (proxy_thread_terminating_set s.terminating name) name set) in
      (
        record {
          requests_same = t.requests_same;
          connections_same = t.connections_same;
          services_same = t.services_same;
          proxynames_same = t.proxynames_same;
        },
        e,
      )

  -- A turn of the activator leaves the tables of requests and the lists of names alone.
  pub record IsApart (s s' : Threads G) : Type 0 where
    pub tables : SameTables s.world s'.world
    pub terminating : s'.terminating ≡ s.terminating
    pub queue : s'.queue ≡ s.queue

  aside-IsApart : (s s' : Threads G) → IsAside s s' → IsApart s s'
  aside-IsApart s s' a = record {
    tables = record {
      requests_same = a.requests;
      connections_same = a.connections;
      services_same = a.services;
      proxynames_same = a.proxynames;
    };
    terminating = a.terminating;
    queue = a.queue;
  }

  IsApart-refl : (s : Threads G) → IsApart s s
  IsApart-refl s = record {
    tables = record {
      requests_same = refl;
      connections_same = refl;
      services_same = refl;
      proxynames_same = refl;
    };
    terminating = refl;
    queue = refl;
  }

  enter_threads-IsApart :
      (C : Cjson) (s : Threads G) (a : Activator G)
      → IsApart s a.threads
      → IsApart s (enter_threads C a).threads
  unfolding enter_threads
  enter_threads-IsApart C s a p =
      let t = (notification-SameTables C (entered a).world a.shm.proxy_name true).0 in
      record {
        tables = record {
          requests_same = t.requests_same ∙ p.tables.requests_same;
          connections_same = t.connections_same ∙ p.tables.connections_same;
          services_same = t.services_same ∙ p.tables.services_same;
          proxynames_same = t.proxynames_same ∙ p.tables.proxynames_same;
        };
        terminating = p.terminating;
        queue = p.queue;
      }

  follow_up-IsApart :
      (C : Cjson) (s : Threads G) (state : RespondState) (a : Activator G)
      → IsApart s a.threads
      → IsApart s (follow_up C state a).1.threads
  unfolding follow_up
  follow_up-IsApart C s state a p = elim (Bool-cases (is_terminated state)) [
    | inl e ↦ rw (e, follow_up) p
    | inr e ↦ elim (Bool-cases (is_success state)) [
      | inl f ↦ rw (e, f, follow_up) (enter_threads-IsApart C s a p)
      | inr f ↦ rw (e, f, follow_up) p
    ]
  ]

  pub proxy_activator_turn-IsApart :
      (C : Cjson) (a : Activator G) (signal : Signal) (h : Handshake)
      → IsApart a.threads (proxy_activator_turn C a signal h).1.threads
  unfolding proxy_activator_turn proxy_activator_shm_idle
  proxy_activator_turn-IsApart C a signal h =
      let woken = record a { shm = signal.found.memory } in
      let p =
        aside-IsApart a.threads (proxy_activation woken h).1.threads
          (proxy_activation-IsCut woken h).aside in
      elim (Bool-cases (is_ended signal.found.memory.state)) [
        | inl e ↦ rw (e, proxy_activator_turn) (IsApart-refl a.threads)
        | inr e ↦ elim (Bool-cases (is_asked signal)) [
          | inl f ↦
              rw (e, f, proxy_activator_turn)
                (follow_up-IsApart C a.threads (proxy_activation woken h).0
                  (proxy_activation woken h).1 p)
          | inr f ↦ rw (e, f, proxy_activator_turn) (IsApart-refl a.threads)
        ]
      ]

  pub alive_turn-IsConsistent :
      (C : Cjson) (s : Threads G) (name : String) (owner_dead acquired alive : Bool)
      → IsConsistent s.world
      → IsConsistent (proxy_alive_turn C s name owner_dead acquired alive).1.world
  unfolding proxy_alive_turn proxy_terminator_awake
  alive_turn-IsConsistent C s name owner_dead acquired alive c =
      let dead = owner_dead || (if acquired then not alive else false) in
      let t = (notification-SameTables C s.world name false).0 in
      elim (Bool-cases dead) [
        | inl e ↦ rw (e, proxy_alive_turn) (same-IsConsistent t c)
        | inr e ↦ rw (e, proxy_alive_turn) c
      ]

  pub alive_turn-single :
      (C : Cjson) (s : Threads G) (name : String) (owner_dead acquired alive : Bool)
      → distinct s.terminating ≡ true
      → distinct (proxy_alive_turn C s name owner_dead acquired alive).1.terminating ≡ true
  unfolding proxy_alive_turn proxy_terminator_awake
  alive_turn-single C s name owner_dead acquired alive d =
      let dead = owner_dead || (if acquired then not alive else false) in
      elim (Bool-cases dead) [
        | inl e ↦ rw (e, proxy_alive_turn) (set-distinct s.terminating name d)
        | inr e ↦ rw (e, proxy_alive_turn) d
      ]
