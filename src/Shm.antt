-- ===== src/Shm.antt =====
-- gear/alivemutex.c, `alive_mutex_create`; gear/proxyactivator.c, `proxy_activator_shm_create`; and
-- the three functions that open a proxy's segments (gear/proxychannel.c, gear/proxysubscribe.c,
-- gear/proxyalive.c): which file descriptors are opened and closed.
use gonggo.Base.{
  ℕ, ◌≡◌, Bool, true, false, Option, none, some, List, [], ◌∷◌, ◌++◌, arith, if◌then◌else◌, ◌&&◌,
  not, contains, nat_eq, Bool-cases, Option-cases, inl, inr,
}
use gonggo.Proxy.Activator.{ActivationShm, activation_init}

-- What `shm_open` and `mmap` give; `enoent` says whether `errno` is ENOENT behind the first call,
-- which does not write it when it succeeds.
pub record Opening : Type 0 where
  pub first : Option ℕ
  pub enoent : Bool
  pub second : Option ℕ
  pub mapped : Bool

-- Whether the segment is there, and the descriptors that were opened and closed.
pub record Segment : Type 0 where
  pub ready : Bool
  pub opened : List ℕ
  pub closed : List ℕ

abbrev pub fd_list : Option ℕ → List ℕ
fd_list none = []
fd_list (some fd) = fd ∷ []

-- From the descriptor on.
unfoldable pub map_segment : Option ℕ → List ℕ → Bool → Segment
map_segment none opened mapped = record { ready = false; opened = opened; closed = [] }
map_segment (some fd) opened mapped = record { ready = mapped; opened = opened; closed = fd ∷ [] }

-- The descriptor of the second call takes the place of the first one's.
unfoldable pub open_segment : Opening → Segment
open_segment o =
    if o.enoent
    then map_segment o.second (fd_list o.first ++ fd_list o.second) o.mapped
    else map_segment o.first (fd_list o.first) o.mapped

-- The mutex of the server, and whether it says that the server is alive.
pub record AliveMutexShm : Type 0 where
  pub alive : Bool
  pub held : Bool

unfoldable pub alive_mutex_create : Bool → Opening → Option AliveMutexShm × Segment
alive_mutex_create alive o =
    let s = open_segment o in
    (if s.ready then some (record { alive = alive; held = false }) else none, s)

unfoldable pub alive_mutex_lock : AliveMutexShm → AliveMutexShm
alive_mutex_lock shm = record shm { held = true }

unfoldable pub alive_mutex_die : AliveMutexShm → AliveMutexShm
alive_mutex_die shm = record { alive = false; held = false }

-- The shared memory for activations, with the number that was in it, or in the new file.
unfoldable pub proxy_activator_shm_create : ℕ → Opening → Option ActivationShm × Segment
proxy_activator_shm_create pid o =
    let s = open_segment o in
    (
      if s.ready
          then some (record { proxy_name = ""; pid = pid; state = activation_init })
          else none,
      s,
    )

-- The segment of a proxy is opened, never made.
unfoldable pub proxy_channel_shm_get : Option ℕ → Bool → Segment
proxy_channel_shm_get fd mapped = map_segment fd (fd_list fd) mapped

unfoldable pub proxy_subscribe_shm_get : Option ℕ → Bool → Segment
proxy_subscribe_shm_get fd mapped = map_segment fd (fd_list fd) mapped

unfoldable pub proxy_alive_shm_get : Option ℕ → Bool → Segment
proxy_alive_shm_get fd mapped = map_segment fd (fd_list fd) mapped

-- What is opened and never closed.
abbrev pub leaked : Segment → ℕ → Bool
leaked s fd = contains fd s.opened && not (contains fd s.closed)

-- A descriptor stays open exactly if the first call gave it although `errno` said ENOENT, from an
-- earlier call, and the second call did not give the same again.
pub alive_mutex_create-leaked :
    (alive : Bool) (o : Opening) (fd : ℕ)
    → leaked (alive_mutex_create alive o).1 fd
      ≡ (contains fd (fd_list o.first) && (o.enoent && not (contains fd (fd_list o.second))))
unfolding alive_mutex_create open_segment map_segment
alive_mutex_create-leaked alive o fd = elim (Bool-cases o.enoent) [
  | inl e ↦ elim (Option-cases o.second) [
    | inl f ↦ ground (arith, e, f)
    | inr (x, f) ↦ ground (arith, e, f)
  ]
  | inr e ↦ ground (arith, e)
]
