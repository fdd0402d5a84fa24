-- ===== src/Tests/Process.antt =====
-- The theorems on the process, on the loops of its threads, and on what they leave, at concrete
-- data.
use gonggo.Base.{
  ℕ, ◌≡◌, ◌≤◌, ◌+◌, ◌%◌, ◌↔◌, refl, true, false, none, some, List, [], ◌∷◌, arith, string_eq,
  nat_eq, ◌&&◌, not, length, codes, contains, bytes_eq,
}
use gonggo.Base.Int.{pos}
use gonggo.Glib.Assoc.{assoc}
use gonggo.Conf.{Validated, valid}
use gonggo.Proxy.Names.{proxy_terminate_array_exists}
use gonggo.Proxy.Subscribe.{ProxySubscribeShm, subscribe_idle, subscribe_termination}
use gonggo.Proxy.Subscribe.Loop.{SubscribeWake, proxy_subscribe, proxy_subscribe-ends, has_ended}
use gonggo.Proxy.Channel.{channel_idle, channel_acknowledged}
use gonggo.Proxy.Channel.Loop.{ChannelThread, ChannelTurn, proxy_channel, proxy_channel-left}
use gonggo.Shm.{Opening, alive_mutex_create, alive_mutex_create-leaked, leaked, fd_list}
use gonggo.Log.{
  Day, Stat, there, is_daily, gonggo_log, gonggo_log-is_daily, log_filepath, log_filepath-length,
}
use gonggo.Work.{Boot, work, activator_segment, respond_drain, all_started, mg_options}
use gonggo.Work.Traces.{lives, left_behind, work-released}
use gonggo.Work.Order.{tears, tears_server, work-untorn, work-torn_server}
use gonggo.Work.Options.{mg_options-length}
use gonggo.Main.{Surroundings, conf, stop, child, main}
use gonggo.Main.Pid.{main-stops}
use gonggo.Tests.Sample.{sample}
use gonggo.Tests.Proxies.{answers, answer_shm}
use gonggo.Glib
use gonggo.Tests.Clients.{due}

-- Everything succeeds.
abbrev boot : Boot
boot = record {
  db_ensure = true;
  sigaction = true;
  alive_mutex_create = true;
  alive_segment_made = true;
  activator_init = true;
  activator_segment_made = true;
  made = λ w. true;
  mg_start2 = true;
}

-- The activator's segment is made but not mapped.
abbrev unmapped : Boot
unmapped = record boot { activator_init = false }

work-released_example :
    (lives activator_segment false (work unmapped).1)
    ≡ (true && (true && left_behind activator_segment unmapped))
work-released_example = work-released unmapped activator_segment

work-untorn_example : tears respond_drain (work boot).1 false ≡ false
work-untorn_example = work-untorn boot respond_drain

work-torn_server_example : tears_server (work boot).1 false ≡ (all_started boot.made && true)
work-torn_server_example = work-torn_server boot refl refl refl refl

mg_options-length_example :
    (length (mg_options [] (pos 5)) + 2 ≤ 14) × (length (mg_options [] (pos 5)) % 2 ≡ 0)
mg_options-length_example = mg_options-length [] (pos 5)

abbrev validate : List ℕ → Validated
validate path = valid [] false

-- The child 4711, and a later call that finds its file.
abbrev started : Surroundings
started = record {
  pid_content = none;
  junk = [];
  narrow = λ z. z;
  fork = child 4711;
  opened = true;
  locked = true;
  written = true;
  boot = boot;
}

abbrev found : Surroundings
found = record started { pid_content = (main validate (conf [] ∷ []) started).pid_file }

main-stops_example :
    let stopped = main validate (conf [] ∷ stop ∷ []) found in
    (stopped.killed ≡ some (pos 4711)) × (stopped.status ≡ 0)
main-stops_example =
    main-stops validate [] [] false started found 4711 refl (omega arith) refl refl refl refl refl

abbrev spoilt : Surroundings
spoilt = record started { pid_content = some (codes "none") }

abbrev monday : Day
monday = record { year = 126; mon = 5; mday = 1 }

abbrev next_monday : Day
next_monday = record { year = 126; mon = 5; mday = 8 }

abbrev old_log : Stat
old_log = there (record { stamp = monday; lines = (monday, codes "a") ∷ [] })

gonggo_log-is_daily_example :
    is_daily (gonggo_log next_monday old_log true true [] [] (codes "INFO") (codes "b")) ≡ true
unfolding nat_eq
gonggo_log-is_daily_example =
    gonggo_log-is_daily next_monday old_log true true [] [] (codes "INFO") (codes "b") refl

log_filepath-length_example :
    (length (log_filepath (codes "/tmp") (codes "gonggo") (codes "Mon")) + 1 ≤ 100)
    ↔ (length (codes "/tmp") + length (codes "gonggo") ≤ 90)
log_filepath-length_example = log_filepath-length (codes "/tmp") (codes "gonggo") (codes "Mon") refl

abbrev idle_shm : ProxySubscribeShm
idle_shm = record {
  state = subscribe_idle;
  aid = "";
  payload_buff_length = 0;
  remove_request = false;
}

abbrev last_wake : SubscribeWake assoc
last_wake = record {
  stopping = false;
  owner_dead = false;
  stopped = true;
  found = record idle_shm { state = subscribe_termination };
  others = λ w. record w { now = w.now + 1 };
  answer_of = λ aid. none;
}

-- First an answer, then the stop.
abbrev wakes : List (SubscribeWake assoc)
wakes =
    record last_wake { stopped = false; found = answer_shm; answer_of = answers } ∷ last_wake ∷ []

proxy_subscribe-ends_example :
    has_ended {G = assoc} sample (proxy_subscribe {G = assoc} sample due "p1" idle_shm false wakes)
    ≡ true
proxy_subscribe-ends_example =
    proxy_subscribe-ends {G = assoc} sample due "p1" idle_shm false wakes refl

abbrev channel_turn : ChannelTurn
channel_turn = record {
  stopping = false;
  lock = record { owner_dead = false; found = channel_idle };
  idle = record { owner_dead = false; found = channel_idle };
  turn = λ rid. record {
    lock = record { owner_dead = false; found = channel_idle };
    idle = record { owner_dead = false; found = channel_idle };
    opened = true;
    mapped = true;
    answer = record { owner_dead = false; found = channel_acknowledged };
  };
}

-- The activation of "p1" has run out of time.
abbrev late : ChannelThread assoc
late = record {
  world = due;
  shm = record { state = channel_idle; rid = ""; payload_buff_length = 0; held = false };
  timeouts = "p1" ∷ [];
}

late-listed : proxy_terminate_array_exists late.timeouts "p1" ≡ true
unfolding proxy_terminate_array_exists string_eq gonggo.Glib.find_index
late-listed = refl

late-same :
    late.timeouts
    ≡ (proxy_channel {G = assoc}
        (λ s. 3)
        late
        "p1"
        (record channel_turn { stopping = true } ∷ [])).1.timeouts
unfolding proxy_channel
late-same = refl

proxy_channel-left_example :
    let (ended, s'') = proxy_channel {G = assoc} (λ s. 3) late "p1" (channel_turn ∷ []) in
    (ended ≡ true) × (s''.world ≡ late.world)
proxy_channel-left_example =
    proxy_channel-left {G = assoc} (λ s. 3) late late "p1" (record channel_turn { stopping = true })
      channel_turn [] [] refl refl late-listed late-same

abbrev stale : Opening
stale = record { first = some 3; enoent = true; second = some 4; mapped = true }

alive_mutex_create-leaked_example :
    leaked (alive_mutex_create true stale).1 3
    ≡ (contains 3 (fd_list (some 3)) && (true && not (contains 3 (fd_list (some 4)))))
alive_mutex_create-leaked_example = alive_mutex_create-leaked true stale 3
