-- ===== src/Proxy/Activator.antt =====
-- gear/proxyactivator.c: the state of the thread that activates proxies, what it finds in its
-- shared memory, and what it does to the threads of a proxy.
use gonggo.Base.{
  ℕ, String, Bool, true, false, Option, none, some, List, [], ◌∷◌, if◌then◌else◌, string_eq,
}
use gonggo.Glib.{Glib}
use gonggo.Proxy.Thread.{Threads}

pub data ActivationState : Type 0 where
  activation_init activation_idle activation_request activation_proxy_dying : ActivationState
  activation_failed activation_success activation_done activation_termination : ActivationState

-- ProxyActivationRespondState
pub data RespondState : Type 0 where
  dispatcher_failed dispatcher_success proxy_timeout proxy_dead terminated : RespondState

abbrev pub is_done : ActivationState → Bool
is_done activation_done = true
is_done _ = false

abbrev pub is_request : ActivationState → Bool
is_request activation_request = true
is_request _ = false

abbrev pub is_ended : ActivationState → Bool
is_ended activation_termination = true
is_ended _ = false

abbrev pub is_success : RespondState → Bool
is_success dispatcher_success = true
is_success _ = false

abbrev pub is_timeout : RespondState → Bool
is_timeout proxy_timeout = true
is_timeout _ = false

-- Of `ProxyActivationShm`, without its lock and conditions.
pub record ActivationShm : Type 0 where
  pub proxy_name : String
  pub pid : ℕ
  pub state : ActivationState

-- Which of the three threads of a proxy.
pub data Role : Type 0 where
  subscribe channel alive : Role

-- What is done to a thread, its context and its shared memory, in order. The handle that is joined
-- is `none` where it is undefined: no `pthread_create` has set it, or the last one failed.
pub data Call : Type 0 where
  unmapped context_create context_destroy stopped : Role → Call
  created : Role → ℕ → Call
  joined : Role → Option ℕ → Call

-- A context pointer that is not NULL, and the thread's handle, which outlives an activation.
pub record Slot : Type 0 where
  pub context : Bool
  pub handle : Option ℕ

-- The state of the thread `proxy_activator`; `timeouts` is the array of gear/proxyterminatearray.c.
pub record Activator (G : Glib) : Type 0 where
  pub shm : ActivationShm
  pub threads : Threads G
  pub timeouts : List String
  pub subscribe_slot : Slot
  pub channel_slot : Slot
  pub alive_slot : Slot
  pub calls : List Call

-- EOWNERDEAD or not, and the memory found.
pub record Found : Type 0 where
  pub owner_dead : Bool
  pub memory : ActivationShm

-- One handshake: whether the three segments are there, the threads that `pthread_create` makes, the
-- lock taken again, and the wait for the proxy.
pub record Handshake : Type 0 where
  pub channel_shm : Bool
  pub subscribe_shm : Bool
  pub alive_shm : Bool
  pub subscribe_thread : Option ℕ
  pub channel_thread : Option ℕ
  pub alive_thread : Option ℕ
  pub relock : Found
  pub respond : Found

abbrev pub unmap_if : Bool → Role → List Call
unmap_if true role = unmapped role ∷ []
unmap_if false role = []

-- A context is made, and a thread for it if `pthread_create` gives one; if not, what the handle
-- holds is undefined.
unfoldable pub open_slot : Option ℕ → Slot
open_slot thread = record { context = true; handle = thread }

unfoldable pub open_calls : Role → Option ℕ → List Call
open_calls role none = context_create role ∷ []
open_calls role (some thread) = context_create role ∷ created role thread ∷ []

-- `*ctx = NULL`
abbrev pub clear_slot : Slot → Slot
clear_slot slot = record slot { context = false }

abbrev pub stop_calls : Role → Slot → List Call
stop_calls role slot = if slot.context then stopped role ∷ [] else []

abbrev pub join_calls : Role → Slot → List Call
join_calls role slot =
    if slot.context then joined role slot.handle ∷ context_destroy role ∷ [] else []
