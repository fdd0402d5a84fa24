-- ===== src/Work/Traces.antt =====
-- gear/work.c: what a run of the process leaves, on every path.
use gonggo.Base.{
  ◌||◌, not, ltb, nat_eq, ◌==◌, ℕ, ◌≡◌, refl, Bool, true, false, List, [], ◌∷◌, ◌++◌, arith,
  if◌then◌else◌, ◌&&◌, Bool-cases, inl, inr, ◌∙◌,
}
use gonggo.Work.{
  activator_segment, made_if, alive_segment, tables_created, created, Resource, Worker, Action,
  Boot, create, destroy, start, stop, join, alive_mutex_lock, alive_mutex_die,
  proxy_thread_kill_all, mg_start, mg_stop, pause, work, clean_up, threads_stop, start_workers,
  is_started, all_started, serve, start_threads, start_contexts, respond_drain, client_timeout,
  proxy_terminator, proxy_activator, error_dbinit, error_start, error_termhandler,
}
use gonggo.Work as Work

-- Numbers that tell the resources apart.
abbrev pub number : Resource → ℕ
number Work.log_context = 0
number Work.uuid_lock = 1
number Work.thread_killer = 2
number Work.db_context = 3
number Work.subscribe_threads = 4
number Work.channel_threads = 5
number Work.alive_threads = 6
number Work.requests = 7
number Work.connections = 8
number Work.services = 9
number Work.proxynames = 10
number Work.terminate_array = 11
number Work.alive_mutex = 12
number Work.activator_context = 13
number Work.terminator_context = 14
number Work.drain_context = 15
number Work.timeout_context = 16
number Work.mg_library = 17
number Work.alive_segment = 18
number Work.activator_segment = 19

abbrev pub worker_number : Worker → ℕ
worker_number respond_drain = 0
worker_number client_timeout = 1
worker_number proxy_terminator = 2
worker_number proxy_activator = 3

-- Whether a resource is there at the end of a trace, given whether it was at its beginning.
abbrev pub lives : Resource → Bool → List Action → Bool
lives r b [] = b
lives r b (create q ∷ rest) = lives r (if number q == number r then true else b) rest
lives r b (destroy q ∷ rest) = lives r (if number q == number r then false else b) rest
lives r b (_ ∷ rest) = lives r b rest

-- Whether a thread runs.
abbrev pub runs : Worker → Bool → List Action → Bool
runs w b [] = b
runs w b (start v ∷ rest) = runs w (if worker_number v == worker_number w then true else b) rest
runs w b (join v ∷ rest) = runs w (if worker_number v == worker_number w then false else b) rest
runs w b (_ ∷ rest) = runs w b rest

-- The process reports which part of its start failed, if any: the database, the handler of its
-- signal, or anything else.
pub work-code :
    (b : Boot)
    → (work b).0 ≡ (
        if b.db_ensure
        then if b.sigaction
          then if b.alive_mutex_create
              && (b.activator_init
                  && (b.made respond_drain
                      && (b.made client_timeout
                          && (b.made proxy_terminator && (b.made proxy_activator && b.mg_start2)))))
            then 0
            else error_start
          else error_termhandler
        else error_dbinit)
unfolding work start_contexts start_threads serve all_started is_started
work-code b = ground arith

lives-append :
    (r : Resource) (xs ys : List Action) (b : Bool)
    → lives r b (xs ++ ys) ≡ lives r (lives r b xs) ys
lives-append r [] ys b = refl
lives-append r (create q ∷ xs) ys b = lives-append r xs ys _
lives-append r (destroy q ∷ xs) ys b = lives-append r xs ys _
lives-append r (start v ∷ xs) ys b = lives-append r xs ys b
lives-append r (stop v ∷ xs) ys b = lives-append r xs ys b
lives-append r (join v ∷ xs) ys b = lives-append r xs ys b
lives-append r (alive_mutex_lock ∷ xs) ys b = lives-append r xs ys b
lives-append r (alive_mutex_die ∷ xs) ys b = lives-append r xs ys b
lives-append r (proxy_thread_kill_all ∷ xs) ys b = lives-append r xs ys b
lives-append r (mg_start ∷ xs) ys b = lives-append r xs ys b
lives-append r (mg_stop ∷ xs) ys b = lives-append r xs ys b
lives-append r (pause ∷ xs) ys b = lives-append r xs ys b

-- Which resources these parts of the process destroy.
abbrev is_context : Resource → Bool
is_context r = ltb 12 (number r) && ltb (number r) 17

-- The named segments, which nothing destroys once their context is gone.
abbrev is_segment : Resource → Bool
is_segment r = ltb 17 (number r)

clean_up-lives :
    (r : Resource) (b http_ctx initialized : Bool)
    → lives r b (clean_up http_ctx initialized) ≡ (
        if is_context r || is_segment r
        then b
        else if number r == 17
        then (if initialized then false else b)
        else false)
unfolding clean_up
clean_up-lives r b http_ctx initialized = ground arith

threads_stop-lives :
    (r : Resource) (b : Bool) (started : Worker → Bool)
    → lives r b (threads_stop started) ≡ (if is_context r then false else b)
unfolding threads_stop
threads_stop-lives r b started = ground arith

start_workers-lives :
    (r : Resource) (b : Bool) (made : Worker → Bool) → lives r b (start_workers made) ≡ b
unfolding start_workers
start_workers-lives r b made = ground arith

-- What remains when the threads are stopped and the rest is cleaned up.
ended-lives :
    (r : Resource) (b : Bool) (started : Worker → Bool) (http_ctx initialized : Bool)
    → lives r b (threads_stop started ++ clean_up http_ctx initialized) ≡ (
        if is_segment r
        then b
        else if number r == 17
        then (if initialized then false else b)
        else false)
ended-lives r b started http_ctx initialized = ground (
  arith,
  lives-append r (threads_stop started) (clean_up http_ctx initialized) b,
  threads_stop-lives r b started,
  clean_up-lives r (lives r b (threads_stop started)) http_ctx initialized,
)

serve-lives :
    (r : Resource) (b : Boot) (was : Bool) → lives r was (serve b).1 ≡ (is_segment r && was)
unfolding serve
serve-lives r b was =
    let now = if 17 == number r then true else was in
    elim (Bool-cases b.mg_start2) [
      | inl e ↦ rw (e, serve) (ended-lives r now (is_started b.made) true true ∙ ground arith)
      | inr e ↦ rw (e, serve) (ended-lives r now (is_started b.made) false true ∙ ground arith)
    ]

start_threads-lives :
    (r : Resource) (b : Boot) (was : Bool)
    → (number r ≡ 17 → was ≡ false)
    → lives r was (start_threads b).1 ≡ (is_segment r && was)
unfolding start_threads
start_threads-lives r b was absent =
    let started = is_started b.made in
    let up = start_workers-lives r was b.made in
    elim (Bool-cases (all_started b.made)) [
      | inl e ↦
          rw (e, start_threads)
            (lives-append r (start_workers b.made) (serve b).1 was ∙ rw up (serve-lives r b was))
      | inr e ↦
          rw (e, start_threads)
            (lives-append r (start_workers b.made) (threads_stop started ++ clean_up false false)
                was
              ∙ rw up (ended-lives r was started false false ∙ ground (arith, absent)))
    ]

-- The segments that a failing start leaves behind.
abbrev pub left_behind : Resource → Boot → Bool
left_behind r b =
    if number r == 18
    then not b.alive_mutex_create && b.alive_segment_made
    else if number r == 19
    then b.alive_mutex_create && (not b.activator_init && b.activator_segment_made)
    else false

made_if-lives :
    (r q : Resource) (b made : Bool)
    → lives r b (made_if made q ++ clean_up false false)
      ≡ lives r (if made && (number q == number r) then true else b) (clean_up false false)
made_if-lives r q b true = refl
made_if-lives r q b false = refl

start_contexts-lives :
    (r : Resource) (b : Boot) (was : Bool)
    → (ltb 12 (number r) ≡ true → was ≡ false)
    → lives r was (start_contexts b).1 ≡ left_behind r b
unfolding start_contexts
start_contexts-lives r b was absent = elim (Bool-cases b.alive_mutex_create) [
  | inr e ↦
      rw (e, start_contexts)
        (made_if-lives r alive_segment _ b.alive_segment_made
          ∙ clean_up-lives r _ false false
          ∙ ground (arith, absent))
  | inl e ↦ elim (Bool-cases b.activator_init) [
    | inr f ↦
        rw (e, f, start_contexts)
          (made_if-lives r activator_segment _ b.activator_segment_made
            ∙ clean_up-lives r _ false false
            ∙ ground (arith, absent))
    | inl f ↦
        rw (e, f, start_contexts)
          (start_threads-lives r (record b { alive_mutex_create = true; activator_init = true }) _
              (λ s. ground (arith, absent, s))
            ∙ ground (arith, absent))
  ]
]

-- On every path the process ends with exactly this left of what it created: the named segment of the
-- alive mutex or of the activator, where its start reached the creation of that segment, made it,
-- and could not map it. Every table, context, lock, library and mapped segment is released.
pub work-released :
    (b : Boot) (r : Resource)
    → lives r false (work b).1 ≡ (b.db_ensure && (b.sigaction && left_behind r b))
unfolding work
work-released b r = ground (
  arith,
  lives-append r created (clean_up false false) false,
  clean_up-lives r (lives r false created) false false,
  lives-append r created (start_contexts b).1 false,
  start_contexts-lives r b (lives r false created),
)
