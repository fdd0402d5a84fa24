-- ===== src/System/Moves.antt =====
-- What each step of the server is for one proxy: a move of the abstract machine.
use gonggo.Base.{
  ◌≡◌, ◌≢◌, refl, String, Bool, true, false, List, [], ◌∷◌, ◌++◌, arith, subst, Option-cases,
  Bool-cases, inl, inr, string_eq, distinct, contains, contains-append, if◌then◌else◌, ◌==◌, not,
  ◌||◌,
}
use gonggo.Glib.{Glib, keys}
use gonggo.Json.{Cjson}
use gonggo.Client.World.{World}
use gonggo.Client.Steady.{SameThreads, notification-SameTables}
use gonggo.Proxy.Names.{
  proxy_thread_zombie, proxy_thread_terminating_set, set-distinct, drop-distinct, zombie-set,
  zombie-drop,
}
use gonggo.Proxy.Thread.{
  Threads, proxy_thread_kill, proxy_terminator_turn, kill_one, kill_each, proxy_thread_kill_all,
  proxy_alive_turn, proxy_terminator_awake, proxy_alive_thread_table_char_keys_create,
}
use gonggo.Proxy.Thread.Kill.{proxy_thread_kill_all-threads, contains-keys}
use gonggo.Proxy.Thread.Terminate.{proxy_terminator_turn-IsTerminated}
use gonggo.Proxy.Activation.Outcome.{is_made}
use gonggo.Proxy.Activator.{Handshake}
use gonggo.Proxy.Activation.Outcome.{has_threads}
use gonggo.Proxy.Activation.Tables.{IsCut}
use gonggo.Proxy.Activation.Entered.{IsEntered}
use gonggo.System.Effects.{IsApart}
use gonggo.System.Phases.{phase, Move, stay, started, taken_back, died, freed, halted}

test_yes : (a b : String) → a ≡ b → (a == b) ≡ true
test_yes a b e = ground (arith, e)

test_no : (a b : String) → a ≢ b → (a == b) ≡ false
test_no a b e = ground (arith, e)

module _ {G : Glib} where
  -- Clients change nothing for a proxy's threads.
  pub world-stays :
      (s : Threads G) (w : World G) (p : String)
      → SameThreads s.world w
      → Move (phase s p) (phase (record s { world = w }) p)
  world-stays s w p t = stay (rw (t.channels, t.alives) refl)

  -- The terminator frees the queued proxies.
  pub terminator-moves :
      (s : Threads G) (p : String)
      → distinct s.terminating ≡ true
      → Move (phase s p) (phase (proxy_terminator_turn s) p)
  terminator-moves s p d =
      let (empty, t) = proxy_terminator_turn-IsTerminated s d in
      let subscribes = t.killed.subscribes p in
      let channels = t.killed.channels p in
      let alives = t.killed.alives p in
      let zombies = t.zombies p in
      elim (Bool-cases (contains p s.queue)) [
        | inl e ↦ freed e (rw (empty, subscribes, channels, alives, zombies) (rw e refl))
        | inr e ↦ stay (rw (empty, subscribes, channels, alives, zombies) (rw e refl))
      ]

  -- A proxy that is found dead dies; every other one stays.
  pub alive-moves :
      (C : Cjson) (s : Threads G) (name p : String) (owner_dead acquired alive : Bool)
      → Move (phase s p) (phase (proxy_alive_turn C s name owner_dead acquired alive).1 p)
  unfolding proxy_alive_turn proxy_terminator_awake
  alive-moves C s name p owner_dead acquired alive =
      let dead = owner_dead || (if acquired then not alive else false) in
      let t = (notification-SameTables C s.world name false).1 in
      let set = proxy_thread_terminating_set s.terminating name in
      let z = zombie-set s.terminating name p in
      let q = contains-append p s.queue (name ∷ []) in
      elim (Bool-cases dead) [
        | inr e ↦ rw (e, proxy_alive_turn) (stay refl)
        | inl e ↦
            rw (e, proxy_alive_turn)
              (elim (string_eq.dec name p) [
                | yes same ↦
                    let dying : proxy_thread_zombie set p ≡ true = ground (arith, same, z) in
                    let queued : contains p (s.queue ++ name ∷ []) ≡ true =
                      ground (arith, same, q) in
                    died (rw (t.channels, t.alives, dying, queued) refl)
                | no differ ↦
                    let dying : proxy_thread_zombie set p ≡ proxy_thread_zombie s.terminating p =
                      ground (arith, differ, z) in
                    let queued : contains p (s.queue ++ name ∷ []) ≡ contains p s.queue =
                      ground (arith, differ, q) in
                    stay (rw (t.channels, t.alives, dying, queued) refl)
              ])
      ]

  kill_each-zombies :
      (s : Threads G) (names : List String) (p : String)
      → distinct s.terminating ≡ true
      → proxy_thread_zombie (kill_each s names).terminating p
        ≡ (if contains p names then false else proxy_thread_zombie s.terminating p)
  unfolding kill_each kill_one proxy_thread_kill
  kill_each-zombies s [] p d = refl
  kill_each-zombies s (name ∷ names) p d =
      let set = proxy_thread_terminating_set s.terminating name in
      let single = set-distinct s.terminating name d in
      ground (
        arith,
        kill_each-zombies (kill_one s name) names p (drop-distinct set name single),
        zombie-drop set name p single,
        zombie-set s.terminating name p,
      )

  kill_each-queue : (s : Threads G) (names : List String) → (kill_each s names).queue ≡ s.queue
  unfolding kill_each kill_one proxy_thread_kill
  kill_each-queue s [] = refl
  kill_each-queue s (name ∷ names) = kill_each-queue (kill_one s name) names

  kill_all-zombies :
      (s : Threads G) (p : String)
      → distinct s.terminating ≡ true
      → proxy_thread_zombie (proxy_thread_kill_all s).terminating p ≡ (
          if is_made (G.lookup s.world.alives p)
          then false
          else proxy_thread_zombie s.terminating p)
  unfolding proxy_thread_kill_all proxy_alive_thread_table_char_keys_create
  kill_all-zombies s p d = ground (
    arith,
    kill_each-zombies s (keys (G.entries s.world.alives)) p d,
    contains-keys (G.entries s.world.alives) p,
    G.lookup-entries s.world.alives p,
  )

  kill_all-queue : (s : Threads G) → (proxy_thread_kill_all s).queue ≡ s.queue
  unfolding proxy_thread_kill_all
  kill_all-queue s = kill_each-queue s _

  -- The server's end halts the watched proxies.
  pub kill_all-moves :
      (s : Threads G) (p : String)
      → distinct s.terminating ≡ true
      → Move (phase s p) (phase (proxy_thread_kill_all s) p)
  kill_all-moves s p d =
      let (alives, channels, subscribes) = proxy_thread_kill_all-threads s p in
      let zombies = kill_all-zombies s p d in
      let queue = kill_all-queue s in
      elim (Option-cases (G.lookup s.world.alives p)) [
        | inl e ↦ stay (rw (alives, channels, subscribes, zombies, queue) (rw e refl))
        | inr (x, e) ↦
            halted (rw e refl) (rw (alives, channels, subscribes, zombies, queue) (rw e refl))
      ]

module _ {G : Glib} where
  -- The threads of one proxy, given by `value`, and those of the others as they were.
  pub cut-moves :
      (names : List String) (s s' : Threads G) (p : String)
      → (contains p names ≡ true → proxy_thread_zombie s.terminating p ≡ false)
      → IsCut names s s'
      → Move (phase s p) (phase s' p)
  cut-moves names s s' p free c =
      let subscribes = c.killed.subscribes p in
      let channels = c.killed.channels p in
      let alives = c.killed.alives p in
      elim (Bool-cases (contains p names)) [
        | inl e ↦
            taken_back (free e)
              (rw (subscribes, channels, alives, c.aside.terminating, c.aside.queue) (rw e refl))
        | inr e ↦
            stay (rw (subscribes, channels, alives, c.aside.terminating, c.aside.queue) (rw e refl))
      ]

  pub entered-moves :
      (h : Handshake) (name p : String) (s s' : Threads G)
      → proxy_thread_zombie s.terminating name ≡ false
      → has_threads h ≡ true
      → IsEntered h name s s'
      → IsApart s s'
      → Move (phase s p) (phase s' p)
  entered-moves h name p s s' z made i a =
      let subscribes = i.subscribes p in
      let channels = i.channels p in
      let alives = i.alives p in
      let first : is_made h.subscribe_thread ≡ true = ground (arith, made) in
      let second : is_made h.channel_thread ≡ true = ground (arith, made) in
      let third : is_made h.alive_thread ≡ true = ground (arith, made) in
      elim (string_eq.dec name p) [
        | yes same ↦ started (subst (λ n. proxy_thread_zombie s.terminating n ≡ false) same z) (
            rw (subscribes, channels, alives, a.terminating, a.queue)
              (rw (test_yes name p same) (rw (first, second, third) refl)))
        | no differ ↦ stay (
            rw (subscribes, channels, alives, a.terminating, a.queue)
              (rw (test_no name p differ) refl))
      ]
