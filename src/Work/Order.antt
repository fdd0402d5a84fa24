-- ===== src/Work/Order.antt =====
-- gear/work.c: the order in which threads, the web server and their tables end.
use gonggo.Base.{
  ◌≡◌, Bool, true, false, List, [], ◌∷◌, ◌++◌, arith, if◌then◌else◌, ◌&&◌, ◌||◌, Bool-cases, inl,
  inr, ◌∙◌, nat_eq, ◌==◌, ltb,
}
use gonggo.Work.{
  made_if, Resource, Worker, Action, Boot, destroy, start, join, mg_start, mg_stop, work, clean_up,
  threads_stop, start_workers, is_started, all_started, serve, start_threads, start_contexts,
  respond_drain, client_timeout, proxy_terminator, proxy_activator,
}
use gonggo.Work.Traces.{number, worker_number}

-- The tables that threads and callbacks use.
abbrev is_table : Resource → Bool
is_table r = ltb 3 (number r) && ltb (number r) 12

-- Whether a table is destroyed while this thread runs, given whether it runs at first.
abbrev pub tears : Worker → List Action → Bool → Bool
tears w [] b = false
tears w (start v ∷ rest) b = tears w rest (if worker_number v == worker_number w then true else b)
tears w (join v ∷ rest) b = tears w rest (if worker_number v == worker_number w then false else b)
tears w (destroy r ∷ rest) b = let later = tears w rest b in (is_table r && b) || later
tears w (_ ∷ rest) b = tears w rest b

-- Whether a table is destroyed while the web server runs, whose callbacks use them.
abbrev pub tears_server : List Action → Bool → Bool
tears_server [] b = false
tears_server (mg_start ∷ rest) b = tears_server rest true
tears_server (mg_stop ∷ rest) b = tears_server rest false
tears_server (destroy r ∷ rest) b = let later = tears_server rest b in (is_table r && b) || later
tears_server (_ ∷ rest) b = tears_server rest b

clean_up-tears :
    (w : Worker) (b http_ctx initialized : Bool) → tears w (clean_up http_ctx initialized) b ≡ b
unfolding clean_up
clean_up-tears w b http_ctx initialized = ground arith

clean_up-tears_server :
    (b http_ctx initialized : Bool) → tears_server (clean_up http_ctx initialized) b ≡ b
unfolding clean_up
clean_up-tears_server b http_ctx initialized = ground arith

-- Threads that are up are stopped and joined before anything is destroyed.
threads_stop-tears :
    (w : Worker) (started : Worker → Bool) (rest : List Action) (b : Bool)
    → tears w (threads_stop started ++ rest) b ≡ tears w rest (if started w then false else b)
unfolding threads_stop
threads_stop-tears respond_drain started rest b = ground arith
threads_stop-tears client_timeout started rest b = ground arith
threads_stop-tears proxy_terminator started rest b = ground arith
threads_stop-tears proxy_activator started rest b = ground arith

threads_stop-tears_server :
    (started : Worker → Bool) (rest : List Action) (b : Bool)
    → tears_server (threads_stop started ++ rest) b ≡ tears_server rest b
unfolding threads_stop
threads_stop-tears_server started rest b = ground arith

start_workers-tears :
    (w : Worker) (made : Worker → Bool) (rest : List Action) (b : Bool)
    → tears w (start_workers made ++ rest) b ≡ tears w rest (if is_started made w then true else b)
unfolding start_workers is_started
start_workers-tears respond_drain made rest b = ground arith
start_workers-tears client_timeout made rest b = ground arith
start_workers-tears proxy_terminator made rest b = ground arith
start_workers-tears proxy_activator made rest b = ground arith

start_workers-tears_server :
    (made : Worker → Bool) (rest : List Action) (b : Bool)
    → tears_server (start_workers made ++ rest) b ≡ tears_server rest b
unfolding start_workers
start_workers-tears_server made rest b = ground arith

ended-tears :
    (w : Worker) (made : Worker → Bool) (http_ctx initialized : Bool) (b : Bool)
    → (is_started made w ≡ false → b ≡ false)
    → tears w (threads_stop (is_started made) ++ clean_up http_ctx initialized) b ≡ false
ended-tears w made http_ctx initialized b absent =
    threads_stop-tears w (is_started made) (clean_up http_ctx initialized) b
    ∙ clean_up-tears w _ http_ctx initialized
    ∙ ground (arith, absent)

serve-tears :
    (w : Worker) (b : Boot) (was : Bool)
    → (is_started b.made w ≡ false → was ≡ false)
    → tears w (serve b).1 was ≡ false
unfolding serve
serve-tears w b was absent = elim (Bool-cases b.mg_start2) [
  | inl e ↦ rw (e, serve) (ended-tears w b.made true true was absent)
  | inr e ↦ rw (e, serve) (ended-tears w b.made false true was absent)
]

absent :
    (made : Worker → Bool) (w : Worker)
    → is_started made w ≡ false
    → (if is_started made w then true else false) ≡ false
absent made w h = ground (arith, h)

start_threads-tears : (w : Worker) (b : Boot) → tears w (start_threads b).1 false ≡ false
unfolding start_threads
start_threads-tears w b = elim (Bool-cases (all_started b.made)) [
  | inl e ↦
      rw (e, start_threads)
        (start_workers-tears w b.made (serve b).1 false ∙ serve-tears w b _ (absent b.made w))
  | inr e ↦
      rw (e, start_threads)
        (start_workers-tears w b.made _ false
          ∙ ended-tears w b.made false false _ (absent b.made w))
]

aborted-tears :
    (w : Worker) (q : Resource) (made : Bool)
    → tears w (made_if made q ++ clean_up false false) false ≡ false
aborted-tears w q true = clean_up-tears w false false false
aborted-tears w q false = clean_up-tears w false false false

start_contexts-tears : (w : Worker) (b : Boot) → tears w (start_contexts b).1 false ≡ false
unfolding start_contexts
start_contexts-tears w b = elim (Bool-cases b.alive_mutex_create) [
  | inr e ↦ rw (e, start_contexts) (aborted-tears w _ b.alive_segment_made)
  | inl e ↦ elim (Bool-cases b.activator_init) [
    | inr f ↦ rw (e, f, start_contexts) (aborted-tears w _ b.activator_segment_made)
    | inl f ↦
        rw (e, f, start_contexts)
          (start_threads-tears w (record b { alive_mutex_create = true; activator_init = true }))
  ]
]

-- Whatever fails, no table is destroyed while one of the server's four threads runs: they have been
-- stopped and waited for by then.
pub work-untorn : (b : Boot) (w : Worker) → tears w (work b).1 false ≡ false
unfolding work
work-untorn b w = elim (Bool-cases b.db_ensure) [
  | inr e ↦ rw (e, work) (clean_up-tears w false false false)
  | inl e ↦ elim (Bool-cases b.sigaction) [
    | inr f ↦ rw (e, f, work) (clean_up-tears w false false false)
    | inl f ↦
        rw (e, f, work) (start_contexts-tears w (record b { db_ensure = true; sigaction = true }))
  ]
]

serve-tears_server : (b : Boot) → tears_server (serve b).1 false ≡ b.mg_start2
unfolding serve
serve-tears_server b = elim (Bool-cases b.mg_start2) [
  | inl e ↦
      rw (e, serve)
        (threads_stop-tears_server (is_started b.made) _ true
          ∙ clean_up-tears_server true true true)
  | inr e ↦
      rw (e, serve)
        (threads_stop-tears_server (is_started b.made) _ false
          ∙ clean_up-tears_server false false true)
]

start_threads-tears_server :
    (b : Boot) → tears_server (start_threads b).1 false ≡ (all_started b.made && b.mg_start2)
unfolding start_threads
start_threads-tears_server b = elim (Bool-cases (all_started b.made)) [
  | inl e ↦
      rw (e, start_threads)
        (start_workers-tears_server b.made (serve b).1 false ∙ serve-tears_server b)
  | inr e ↦
      rw (e, start_threads)
        (start_workers-tears_server b.made _ false
          ∙ threads_stop-tears_server (is_started b.made) _ false
          ∙ clean_up-tears_server false false false)
]

-- A server that has started destroys its tables before it stops the web server, whose callback for
-- a connection that closes uses them; no run that fails to start does.
pub work-torn_server :
    (b : Boot)
    → b.db_ensure ≡ true
    → b.sigaction ≡ true
    → b.alive_mutex_create ≡ true
    → b.activator_init ≡ true
    → tears_server (work b).1 false ≡ (all_started b.made && b.mg_start2)
unfolding work start_contexts
work-torn_server b d s a i = rw (d, s, a, i, work, start_contexts) (start_threads-tears_server _)
