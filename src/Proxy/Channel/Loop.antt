-- ===== src/Proxy/Channel/Loop.antt =====
-- gear/proxychannel.c, `proxy_channel` and `proxy_channel_stop`: the loop of the thread that hands
-- requests over, with the array of proxies whose activation ran out of time.
use gonggo.Base.{
  ◌≡◌, refl, String, Bool, true, false, List, [], ◌∷◌, ℕ, arith, if◌then◌else◌, ◌||◌, Bool-cases,
  inl, inr, ◌∙◌, string_eq,
}
use gonggo.Glib.{Glib}
use gonggo.Client.World.{World}
use gonggo.Proxy.Names.{proxy_terminate_array_exists, proxy_terminate_array_drop}
use gonggo.Proxy.Channel.{
  ChannelShm, channel_termination, channel_stop_request, Wake, Turn, proxy_channel_idle_wait,
  proxy_channel_exchange,
}

-- One turn of the environment: `ctx->stop` at the head of the loop, the two waits of
-- `proxy_channel_idle_wait`, and what is met for each request.
pub record ChannelTurn : Type 0 where
  pub stopping : Bool
  pub lock : Wake
  pub idle : Wake
  pub turn : String → Turn

-- The memory and the context's flag, as `proxy_channel_stop` leaves them.
unfoldable pub proxy_channel_stop : ChannelShm → ChannelShm × Bool
proxy_channel_stop shm = (record shm { state = channel_termination; held = false }, true)

-- What the thread works on.
pub record ChannelThread (G : Glib) : Type 0 where
  pub world : World G
  pub shm : ChannelShm
  pub timeouts : List String

module _ {G : Glib} (strlen : String → ℕ) where
  -- A proxy whose activation ran out of time is asked to stop, and leaves the array.
  unfoldable pub stop_proxy : ChannelThread G → String → Wake → Wake → ChannelThread G
  stop_proxy s proxy_name lock idle =
      let (free, shm) = proxy_channel_idle_wait lock idle s.shm in
      record s {
        shm = if free then record shm { state = channel_stop_request; held = false } else shm;
        timeouts = proxy_terminate_array_drop s.timeouts proxy_name;
      }

  -- The body of the loop, up to the wait for a signal: whether the loop goes on.
  unfoldable pub proxy_channel_turn :
      ChannelThread G → String → ChannelTurn → Bool × ChannelThread G
  proxy_channel_turn s proxy_name t =
      if proxy_terminate_array_exists s.timeouts proxy_name
      then (false, stop_proxy s proxy_name t.lock t.idle)
      else let (alive, w, shm) = proxy_channel_exchange strlen t.turn s.world proxy_name s.shm in
        (alive, record s { world = w; shm = shm })

  -- The loop, over the environment's turns; also whether it has ended.
  unfoldable pub proxy_channel :
      ChannelThread G → String → List ChannelTurn → Bool × ChannelThread G
  proxy_channel s proxy_name [] = (false, s)
  proxy_channel s proxy_name (t ∷ ts) =
      let (more, s') = proxy_channel_turn s proxy_name t in
      let result = proxy_channel s' proxy_name ts in
      if t.stopping then (true, s) else if more then result else (true, s')

  -- A proxy whose activation ran out of time, and whose thread is stopped before it has looked,
  -- stays in the array; when it is activated again, its new thread ends in its first turn, and hands
  -- over no request.
  pub proxy_channel-left :
      (s s' : ChannelThread G) (proxy_name : String) (t t' : ChannelTurn)
      (ts ts' : List ChannelTurn)
      → t.stopping ≡ true
      → t'.stopping ≡ false
      → proxy_terminate_array_exists s.timeouts proxy_name ≡ true
      → s'.timeouts ≡ (proxy_channel s proxy_name (t ∷ ts)).1.timeouts
      → let (ended, s'') = proxy_channel s' proxy_name (t' ∷ ts') in
        (ended ≡ true) × (s''.world ≡ s'.world)
  unfolding proxy_channel proxy_channel_turn stop_proxy
  proxy_channel-left s s' proxy_name t t' ts ts' h h' e k =
      let same : s'.timeouts ≡ s.timeouts = k ∙ rw (h, proxy_channel) refl in
      let left : proxy_terminate_array_exists s'.timeouts proxy_name ≡ true = rw same e in
      rw (h', left, proxy_channel, proxy_channel_turn) ((refl, refl))

abbrev pub is_stopping_among : List ChannelTurn → Bool
is_stopping_among [] = false
is_stopping_among (t ∷ ts) = t.stopping || is_stopping_among ts

module _ {G : Glib} (strlen : String → ℕ) where
  -- The loop ends once the thread is told to stop, whatever was handed over before.
  pub proxy_channel-ends :
      (s : ChannelThread G) (proxy_name : String) (ts : List ChannelTurn)
      → is_stopping_among ts ≡ true
      → (proxy_channel strlen s proxy_name ts).0 ≡ true
  unfolding proxy_channel proxy_channel_turn
  proxy_channel-ends s proxy_name [] h = absurd (ground (arith, h))
  proxy_channel-ends s proxy_name (t ∷ ts) h =
      let (more, s') = proxy_channel_turn strlen s proxy_name t in
      elim (Bool-cases t.stopping) [
        | inl e ↦ rw (e, proxy_channel) refl
        | inr e ↦ elim (Bool-cases more) [
          | inl f ↦
              rw (e, f, proxy_channel) (proxy_channel-ends s' proxy_name ts (ground (arith, h, e)))
          | inr f ↦ rw (e, f, proxy_channel) refl
        ]
      ]
