-- ===== src/Proxy/Channel/Wait.antt =====
-- gear/proxychannel.c: the wait for a free channel, and who holds its lock.
use gonggo.Base.{
  ℕ, ◌≡◌, ◌≢◌, String, Bool, true, false, none, List, [], ◌∷◌, arith, inl, inr, if◌then◌else◌,
  string_eq, Option-cases, Bool-cases, not,
}
use gonggo.Glib.{Glib}
use gonggo.Client.Service.{client_service_table_dup}
use gonggo.Client.Proxyname.{client_proxyname_table_request_dup}
use gonggo.Client.World.{World}
use gonggo.Proxy.Channel.{
  ChannelShm, Wake, Turn, woken, is_termination, is_idle, settle, proxy_channel_idle_wait,
  exchange_text, exchange_request, exchange_each, proxy_channel_exchange,
}

-- The lock is held behind the wait, however it ends.
pub idle_wait-held :
    (lock idle : Wake) (shm : ChannelShm) → (proxy_channel_idle_wait lock idle shm).1.held ≡ true
unfolding proxy_channel_idle_wait woken
idle_wait-held lock idle shm = ground arith

-- Whether the channel becomes free depends on the environment alone.
abbrev pub is_free : Turn → Bool
is_free t =
    if t.lock.owner_dead
    then false
    else if is_termination t.lock.found
    then false
    else if is_idle t.lock.found
    then true
    else if t.idle.owner_dead
    then false
    else not (is_termination t.idle.found)

pub idle_wait-is_free :
    (t : Turn) (shm : ChannelShm) → (proxy_channel_idle_wait t.lock t.idle shm).0 ≡ is_free t
unfolding proxy_channel_idle_wait woken
idle_wait-is_free t shm = ground arith

module _ {G : Glib} (strlen : String → ℕ) (turn : String → Turn) where
  exchange_request-held :
      (w : World G) (proxy_name rid : String) (shm : ChannelShm)
      → shm.held ≡ false
      → let (alive, _, shm') = exchange_request strlen turn w proxy_name rid shm in
        alive ≡ true → shm'.held ≡ false
  unfolding exchange_request exchange_text settle
  exchange_request-held w proxy_name rid shm h alive =
      elim (Option-cases (client_service_table_dup G w.services rid)) [
        | inl e ↦ ground (arith, e, h, alive)
        | inr (text, e) ↦ ground (arith, e, h, alive)
      ]

  exchange_each-held :
      (w : World G) (proxy_name : String) (rids : List String) (shm : ChannelShm)
      → shm.held ≡ false
      → (exchange_each strlen turn w proxy_name rids shm).0 ≡ true
      → (exchange_each strlen turn w proxy_name rids shm).2.held ≡ false
  unfolding exchange_each
  exchange_each-held w proxy_name [] shm h alive = h
  exchange_each-held w proxy_name (rid ∷ rids) shm h alive =
      let (one, w', shm') = exchange_request strlen turn w proxy_name rid shm in
      elim (Bool-cases one) [
        | inr dead ↦ ground (arith, dead, alive)
        | inl live ↦
            let free = exchange_request-held w proxy_name rid shm h live in
            ground (arith, live, alive, exchange_each-held w' proxy_name rids shm' free)
      ]

  -- An exchange that says that the channel is alive has given the channel's lock back.
  pub proxy_channel_exchange-held :
      (w : World G) (proxy_name : String) (shm : ChannelShm)
      → shm.held ≡ false
      → (proxy_channel_exchange strlen turn w proxy_name shm).0 ≡ true
      → (proxy_channel_exchange strlen turn w proxy_name shm).2.held ≡ false
  unfolding proxy_channel_exchange
  proxy_channel_exchange-held w proxy_name shm h alive =
      elim (Option-cases (client_proxyname_table_request_dup G w.proxynames proxy_name true)) [
        | inl e ↦ ground (arith, e, h)
        | inr (rids, e) ↦ ground (arith, e, alive, exchange_each-held w proxy_name rids shm h)
      ]

  -- The thread keeps the lock when the channel does not become free for its first request: the
  -- exchange then ends with the lock held, and nobody gives it back.
  pub exchange_request_unfree :
      (w : World G) (proxy_name rid : String) (rids : List String) (shm : ChannelShm)
      → client_service_table_dup G w.services rid ≢ none
      → is_free (turn rid) ≡ false
      → let (alive, w', shm') = exchange_each strlen turn w proxy_name (rid ∷ rids) shm in
        (alive ≡ false) × (w' ≡ w) × (shm'.held ≡ true)
  unfolding exchange_each exchange_request exchange_text
  exchange_request_unfree w proxy_name rid rids shm has unfree =
      elim (Option-cases (client_service_table_dup G w.services rid)) [
        | inl e ↦ absurd (has e)
        | inr (text, e) ↦
            let t = turn rid in
            ground (arith, e, unfree, idle_wait-is_free t shm, idle_wait-held t.lock t.idle shm)
      ]
