-- ===== src/Proxy/Channel.antt =====
-- gear/proxychannel.c: how requests are handed to a proxy through its shared memory. Each wait of
-- the thread is one of the environment's turns: what `pthread_mutex_lock` or `pthread_cond_wait`
-- gives back, and the state that the proxy has left in the shared memory by then.
pub mod Wait
pub mod Flags
pub mod Sent
pub mod Loop
pub mod Respond
use gonggo.Base.{
  ℕ, ◌+◌, String, Bool, true, false, Option, none, some, List, [], ◌∷◌, if◌then◌else◌, ltb,
  string_eq,
}
use gonggo.Glib.{Glib}
use gonggo.Client.Service.{client_service_table_dup}
use gonggo.Client.Proxyname.{
  client_proxyname_table_request_dup, client_proxyname_table_request_sent,
}
use gonggo.Client.World.{World}

pub data ChannelState : Type 0 where
  channel_init channel_idle channel_request channel_acknowledged channel_fails : ChannelState
  channel_done channel_stop_request channel_rest channel_rest_respond : ChannelState
  channel_termination : ChannelState

abbrev pub is_termination : ChannelState → Bool
is_termination channel_termination = true
is_termination _ = false

abbrev pub is_idle : ChannelState → Bool
is_idle channel_idle = true
is_idle _ = false

-- `state == CHANNEL_ACKNOWLEDGED || state == CHANNEL_FAILS`
abbrev pub is_settled : ChannelState → Bool
is_settled channel_acknowledged = true
is_settled channel_fails = true
is_settled _ = false

-- The shared memory; `held` says that the thread holds `lock`.
pub record ChannelShm : Type 0 where
  pub state : ChannelState
  pub rid : String
  pub payload_buff_length : ℕ
  pub held : Bool

-- EOWNERDEAD or not, and the state found.
pub record Wake : Type 0 where
  pub owner_dead : Bool
  pub found : ChannelState

unfoldable pub woken : ChannelShm → Wake → ChannelShm
woken shm wake = record shm { state = wake.found; held = true }

abbrev pub unlock : ChannelShm → ChannelShm
unlock shm = record shm { held = false }

-- Whether the channel is free, and the memory then. The lock is held either way.
unfoldable pub proxy_channel_idle_wait : Wake → Wake → ChannelShm → Bool × ChannelShm
proxy_channel_idle_wait lock idle shm =
    let locked = woken shm lock in
    let waited = woken locked idle in
    if lock.owner_dead
    then (false, locked)
    else if is_termination locked.state
    then (false, locked)
    else if is_idle locked.state
    then (true, locked)
    else if idle.owner_dead
    then (false, waited)
    else if is_termination waited.state
    then (false, waited)
    else (true, waited)

-- What the environment does for one request: the lock, the wait until idle, whether the segment is
-- opened and mapped, and the wait for the proxy.
pub record Turn : Type 0 where
  pub lock : Wake
  pub idle : Wake
  pub opened : Bool
  pub mapped : Bool
  pub answer : Wake

module _ (strlen : String → ℕ) where
  -- The length of the segment that is made, 0 if it is not.
  unfoldable pub proxy_channel_create_request : Bool → Bool → String → ℕ
  proxy_channel_create_request opened mapped text =
      if opened then (if mapped then strlen text + 1 else 0) else 0

module _ {G : Glib} where
  -- Behind the wait for the proxy.
  unfoldable pub settle :
      World G → String → String → ChannelShm → Bool → Bool × World G × ChannelShm
  settle w proxy_name rid shm owner_dead =
      if owner_dead
      then (false, w, unlock shm)
      else if is_termination shm.state
      then (false, w, unlock shm)
      else if is_settled shm.state
      then (
        true,
        record w { proxynames = client_proxyname_table_request_sent G w.proxynames proxy_name rid },
        unlock (record shm { state = channel_done }),
      )
      else (true, w, unlock shm)

module _ {G : Glib} (strlen : String → ℕ) (turn : String → Turn) where
  -- From the text of the request on.
  unfoldable pub exchange_text :
      World G → String → String → String → ChannelShm → Bool × World G × ChannelShm
  exchange_text w proxy_name rid text shm =
      let t = turn rid in
      let (free, waited) = proxy_channel_idle_wait t.lock t.idle shm in
      let n = proxy_channel_create_request strlen t.opened t.mapped text in
      let sized = record waited { payload_buff_length = n } in
      if free
      then if ltb n 1
        then (true, w, unlock sized)
        else settle w proxy_name rid
            (woken (record sized { rid = rid; state = channel_request }) t.answer)
            t.answer.owner_dead
      else (false, w, waited)

  -- The body of the loop: whether the channel is alive, and the state then.
  unfoldable pub exchange_request :
      World G → String → String → ChannelShm → Bool × World G × ChannelShm
  exchange_request w proxy_name rid shm = elim (client_service_table_dup G w.services rid) [
    | none ↦ (true, w, shm)
    | some text ↦ exchange_text w proxy_name rid text shm
  ]

  unfoldable pub exchange_each :
      World G → String → List String → ChannelShm → Bool × World G × ChannelShm
  exchange_each w proxy_name [] shm = (true, w, shm)
  exchange_each w proxy_name (rid ∷ rids) shm =
      let (alive, w', shm') = exchange_request w proxy_name rid shm in
      let rest = exchange_each w' proxy_name rids shm' in if alive then rest else (false, w', shm')

  unfoldable pub proxy_channel_exchange :
      World G → String → ChannelShm → Bool × World G × ChannelShm
  proxy_channel_exchange w proxy_name shm =
      elim (client_proxyname_table_request_dup G w.proxynames proxy_name true) [
        | none ↦ (true, w, shm)
        | some rids ↦ exchange_each w proxy_name rids shm
      ]
