-- ===== src/Proxy/Subscribe/Loop.antt =====
-- gear/proxysubscribe.c, `proxy_subscribe` and `proxy_subscribe_stop`: the loop of the thread. Each
-- wait is one of the environment's turns.
use gonggo.Base.{
  ◌≡◌, refl, String, Bool, true, false, Option, none, some, List, [], ◌∷◌, arith, if◌then◌else◌,
  ◌||◌, Option-cases, Bool-cases, inl, inr,
}
use gonggo.Glib.{Glib}
use gonggo.Json.{Cjson}
use gonggo.Client.World.{World}
use gonggo.Proxy.Subscribe.{
  SubscribeState, subscribe_answer, subscribe_termination, ProxySubscribeShm,
  proxy_subscribe_exchange,
}

abbrev pub is_answer : SubscribeState → Bool
is_answer subscribe_answer = true
is_answer _ = false

abbrev pub is_termination : SubscribeState → Bool
is_termination subscribe_termination = true
is_termination _ = false

-- `ctx->stop` at the head of the loop and behind the wait; what the wait gives; the memory found;
-- what the other threads and the clock have made of the server by then; and what the segments of
-- answers hold.
pub record SubscribeWake (G : Glib) : Type 0 where
  pub stopping : Bool
  pub owner_dead : Bool
  pub stopped : Bool
  pub found : ProxySubscribeShm
  pub others : World G → World G
  pub answer_of : String → Option String

-- The context's flag and the memory, as `proxy_subscribe_stop` leaves them.
unfoldable pub proxy_subscribe_stop : ProxySubscribeShm → Bool × ProxySubscribeShm
proxy_subscribe_stop shm = (true, record shm { state = subscribe_termination })

module _ {G : Glib} (C : Cjson) where
  -- Behind the wait: a proxy's answer is taken, and the state is its result. `none` is the end of
  -- the process.
  unfoldable pub take_answer :
      World G → String → SubscribeWake G → Option (World G × ProxySubscribeShm)
  take_answer w proxy_name wake =
      if wake.stopped
      then some (w, wake.found)
      else if is_answer wake.found.state
      then elim (proxy_subscribe_exchange C wake.answer_of w proxy_name wake.found) [
        | none ↦ none
        | some (state, w') ↦ some (w', record wake.found { state = state })
      ]
      else some (w, wake.found)

  -- The loop; whether it has ended, the world and the memory. `died` says that the proxy had died
  -- when the thread first took the lock.
  unfoldable pub proxy_subscribe :
      World G
      → String
      → ProxySubscribeShm
      → Bool
      → List (SubscribeWake G)
      → Option (Bool × World G × ProxySubscribeShm)
  proxy_subscribe w proxy_name shm died [] = some (died || is_termination shm.state, w, shm)
  proxy_subscribe w proxy_name shm died (wake ∷ wakes) =
      if died || (wake.stopping || is_termination shm.state)
      then some (true, w, shm)
      else if wake.owner_dead
      then some (true, wake.others w, wake.found)
      else elim (take_answer (wake.others w) proxy_name wake) [
        | none ↦ none
        | some (w', shm') ↦ proxy_subscribe w' proxy_name shm' died wakes
      ]

abbrev is_last : {G : Glib} → SubscribeWake G → Bool
is_last wake = wake.stopping || (wake.owner_dead || is_termination wake.found.state)

abbrev pub is_last_among : {G : Glib} → List (SubscribeWake G) → Bool
is_last_among [] = false
is_last_among (wake ∷ wakes) = is_last wake || is_last_among wakes

module _ {G : Glib} (C : Cjson) where
  abbrev pub has_ended : Option (Bool × World G × ProxySubscribeShm) → Bool
  has_ended none = true
  has_ended (some (ended, w, shm)) = ended

  terminated-ends :
      (w : World G) (proxy_name : String) (shm : ProxySubscribeShm) (died : Bool)
      (wakes : List (SubscribeWake G))
      → (died || is_termination shm.state) ≡ true
      → has_ended (proxy_subscribe C w proxy_name shm died wakes) ≡ true
  unfolding proxy_subscribe
  terminated-ends w proxy_name shm died [] h = h
  terminated-ends w proxy_name shm died (wake ∷ wakes) h =
      let stops : died || (wake.stopping || is_termination shm.state) ≡ true = ground (arith, h) in
      rw (stops, proxy_subscribe) refl

  take_answer-terminated :
      (w : World G) (proxy_name : String) (wake : SubscribeWake G)
      → is_termination wake.found.state ≡ true
      → take_answer C w proxy_name wake ≡ some (w, wake.found)
  unfolding take_answer
  take_answer-terminated w proxy_name wake h = ground (arith, h)

  -- The loop ends once the thread is told to stop, the proxy has died with the lock, or the state
  -- that it finds is that of the termination, however many answers came before.
  pub proxy_subscribe-ends :
      (w : World G) (proxy_name : String) (shm : ProxySubscribeShm) (died : Bool)
      (wakes : List (SubscribeWake G))
      → is_last_among wakes ≡ true
      → has_ended (proxy_subscribe C w proxy_name shm died wakes) ≡ true
  unfolding proxy_subscribe take_answer
  proxy_subscribe-ends w proxy_name shm died [] h = absurd (ground (arith, h))
  proxy_subscribe-ends w proxy_name shm died (wake ∷ wakes) h =
      elim (Bool-cases (died || (wake.stopping || is_termination shm.state))) [
        | inl e ↦ rw (e, proxy_subscribe) refl
        | inr e ↦ elim (Bool-cases wake.owner_dead) [
          | inl f ↦ rw (e, f, proxy_subscribe) refl
          | inr f ↦ elim (Option-cases (take_answer C (wake.others w) proxy_name wake)) [
            | inl g ↦ rw (e, f, g, proxy_subscribe) refl
            | inr (r, g) ↦
                rw (e, f, g, proxy_subscribe)
                  (elim (Bool-cases (is_termination r.1.state)) [
                    | inl t ↦ terminated-ends r.0 proxy_name r.1 died wakes (ground (arith, t))
                    | inr t ↦ proxy_subscribe-ends r.0 proxy_name r.1 died wakes (
                        ground (
                          arith,
                          h,
                          e,
                          f,
                          g,
                          t,
                          take_answer-terminated (wake.others w) proxy_name wake,
                        ))
                  ])
          ]
        ]
      ]
