-- ===== src/Tests/System.antt =====
-- The theorems on the whole server and on activations, on the server that watches one proxy.
use gonggo.Base.{
  ◌≡◌, refl, true, false, none, some, [], ◌∷◌, arith, string_eq, nat_eq, ◌&&◌, not, ◌+◌,
  if◌then◌else◌,
}
use gonggo.Glib
use gonggo.Glib.Assoc.{assoc}
use gonggo.Proxy.Names.{proxy_thread_zombie, proxy_thread_terminating_set}
use gonggo.Proxy.Thread.{
  proxy_terminator_awake, proxy_alive_turn, proxy_terminator_turn, proxy_thread_kill_all,
}
use gonggo.Proxy.Activation.{proxy_activation}
use gonggo.Proxy.Activator.{
  Activator, ActivationShm, activation_idle, activation_request, activation_done, Found, Handshake,
  is_success, subscribe,
}
use gonggo.Proxy.Activation.Outcome.{
  has_segments, has_threads, is_answered, proxy_activation-success,
}
use gonggo.Proxy.Activation.Contexts.{IsSettled, proxy_activation-IsSettled}
use gonggo.Proxy.Activation.Joins.{undefined_joins, proxy_activation-unmade}
use gonggo.Proxy.Activation.Turn.{
  Signal, proxy_activator_turn, proxy_activator, proxy_activator-ends,
}
use gonggo.Proxy.Activation.Entered.{IsAsking, IsEntered, proxy_activator_turn-IsEntered}
use gonggo.System.{Outside, Reach, here, later, watch, activate, with_threads}
use gonggo.System.Phases.{Move, phase}
use gonggo.System.Invariant.{IsSound, Reach-IsSound, Step-Move}
use gonggo.System.Dying.{IsLeft, Reach-IsLeft}
use gonggo.System.Stop.{proxy_terminator_turn-reached, proxy_thread_kill_all-reached}
use gonggo.Tests.Sample.{sample, no_rows}
use gonggo.Tests.Clients.{due, due-IsConsistent}

abbrev outside : Outside
outside = record { C = sample; query = no_rows; uuid = λ n. "u"; strlen = λ s. 3 }

-- The proxy "p1" has its three threads.
abbrev calm : Activator assoc
calm = record {
  shm = record { proxy_name = ""; pid = 0; state = activation_idle };
  threads = record {
    world = due;
    subscribes = ("p1", 6) ∷ [];
    terminating = [];
    queue = [];
    events = [];
  };
  timeouts = [];
  subscribe_slot = record { context = false; handle = some 6 };
  channel_slot = record { context = false; handle = none };
  alive_slot = record { context = false; handle = none };
  calls = [];
}

calm-IsSound : IsSound {G = assoc} calm
unfolding proxy_thread_zombie gonggo.Glib.find_index
calm-IsSound = record {
  consistent = due-IsConsistent;
  single = refl;
  whole = λ p. record { first = ground arith; second = ground arith; waiting = λ h. h };
}

-- It is found dead.
abbrev bereft : Activator assoc
bereft = with_threads calm (proxy_alive_turn {G = assoc} sample calm.threads "p1" true false true).1

found_dead : Reach {G = assoc} outside calm bereft
found_dead = later here (watch "p1" true false true)

Reach-IsSound_example : IsSound {G = assoc} bereft
Reach-IsSound_example = Reach-IsSound {G = assoc} outside calm bereft found_dead calm-IsSound

Step-Move_example :
    Move (phase {G = assoc} calm.threads "p1") (phase {G = assoc} bereft.threads "p1")
Step-Move_example =
    Step-Move {G = assoc} outside calm bereft "p1" calm-IsSound (watch "p1" true false true)

proxy_terminator_turn-reached_example :
    proxy_thread_zombie (proxy_terminator_turn {G = assoc} bereft.threads).terminating "p1" ≡ false
proxy_terminator_turn-reached_example =
    proxy_terminator_turn-reached {G = assoc} outside calm bereft "p1" found_dead calm-IsSound

proxy_thread_kill_all-reached_example :
    let killed = proxy_thread_kill_all {G = assoc} bereft.threads in
    (assoc.lookup killed.subscribes "p1" ≡ none)
    × (assoc.lookup killed.world.channels "p1" ≡ none)
    × (assoc.lookup killed.world.alives "p1" ≡ none)
proxy_thread_kill_all-reached_example =
    proxy_thread_kill_all-reached {G = assoc} outside calm bereft "p1" found_dead calm-IsSound

abbrev asking_shm : ActivationShm
asking_shm = record { proxy_name = "p2"; pid = 9; state = activation_request }

abbrev done : Found
done = record { owner_dead = false; memory = record asking_shm { state = activation_done } }

abbrev good : Handshake
good = record {
  channel_shm = true;
  subscribe_shm = true;
  alive_shm = true;
  subscribe_thread = some 11;
  channel_thread = some 12;
  alive_thread = some 13;
  relock = done;
  respond = done;
}

abbrev signal : Signal
signal = record {
  stopping = false;
  ended = false;
  found = record { owner_dead = false; memory = asking_shm };
}

signal-IsAsking : IsAsking signal good "p2"
signal-IsAsking = record {
  running = refl;
  living = refl;
  named = refl;
  request = refl;
  found = refl;
  relocked = refl;
  responded = refl;
}

-- The proxy that was found dead asks to be activated.
abbrev dead_shm : ActivationShm
dead_shm = record asking_shm { proxy_name = "p1" }

abbrev dead_signal : Signal
dead_signal = record signal { found = record { owner_dead = false; memory = dead_shm } }

abbrev dead_good : Handshake
dead_good = record good {
  relock = record { owner_dead = false; memory = dead_shm };
  respond = record { owner_dead = false; memory = dead_shm };
}

abbrev refused : Activator assoc
refused = (proxy_activator_turn {G = assoc} sample bereft dead_signal dead_good).1

abbrev asks : Reach {G = assoc} outside bereft refused
asks = later here (activate dead_signal dead_good (record { relocked = refl; responded = refl }))

bereft-IsSound : IsSound {G = assoc} bereft
bereft-IsSound = Reach-IsSound {G = assoc} outside calm bereft found_dead calm-IsSound

bereft-zombie : proxy_thread_zombie bereft.threads.terminating "p1" ≡ true
unfolding proxy_thread_zombie proxy_alive_turn proxy_terminator_awake proxy_thread_terminating_set
    gonggo.Glib.find_index string_eq
bereft-zombie = refl

Reach-IsLeft_example : IsLeft {G = assoc} "p1" bereft.threads refused.threads
Reach-IsLeft_example =
    Reach-IsLeft {G = assoc} outside bereft refused "p1" asks bereft-IsSound bereft-zombie refl

calm-free : proxy_thread_zombie calm.threads.terminating "p2" ≡ false
unfolding proxy_thread_zombie gonggo.Glib.find_index
calm-free = refl

proxy_activator_turn-IsEntered_example :
    let (more, a') = proxy_activator_turn {G = assoc} sample calm signal good in
    (more ≡ true) × IsEntered {G = assoc} good "p2" calm.threads a'.threads
proxy_activator_turn-IsEntered_example =
    proxy_activator_turn-IsEntered {G = assoc} sample calm signal good "p2" signal-IsAsking
      calm-free refl refl refl

abbrev asked : Activator assoc
asked = record calm { shm = asking_shm }

proxy_activation-success_example : is_success (proxy_activation {G = assoc} asked good).0 ≡ (
    not (proxy_thread_zombie asked.threads.terminating "p2")
    && (has_segments good && (has_threads good && is_answered good)))
proxy_activation-success_example = proxy_activation-success {G = assoc} asked good

proxy_activation-IsSettled_example :
    IsSettled {G = assoc} subscribe
      (is_success (proxy_activation {G = assoc} asked good).0)
      asked
      (proxy_activation {G = assoc} asked good).1
proxy_activation-IsSettled_example = proxy_activation-IsSettled {G = assoc} subscribe asked good

-- The first thread cannot be made.
abbrev poor : Handshake
poor = record good { subscribe_thread = none }

proxy_activation-unmade_example :
    undefined_joins (proxy_activation {G = assoc} asked poor).1.calls
    ≡ 0
      + (if not (proxy_thread_zombie asked.threads.terminating "p2")
            && (has_segments poor && not (has_threads poor))
          then 1
          else 0)
proxy_activation-unmade_example = proxy_activation-unmade {G = assoc} asked poor

abbrev ending : Signal
ending = record signal { stopping = true }

proxy_activator-ends_example :
    (proxy_activator {G = assoc} sample calm ((signal, good) ∷ (ending, good) ∷ [])).0 ≡ true
proxy_activator-ends_example =
    proxy_activator-ends {G = assoc} sample calm ((signal, good) ∷ (ending, good) ∷ []) refl
