-- ===== src/System/Invariant.antt =====
-- What holds of the server between any two steps, and what one step of it is for one proxy.
use gonggo.Base.{ℕ, ◌≡◌, refl, String, true, Option, [], Bool-cases, inl, inr, string_eq, distinct}
use gonggo.Glib.{Glib}
use gonggo.Client.World.{World}
use gonggo.Client.Invariant.{IsConsistent}
use gonggo.Client.Steady.{client_service_drop_conn-SameThreads, client_timeout_turn-SameThreads}
use gonggo.Client.Route.Accepted.{same-IsConsistent, client_service_route-IsConsistent}
use gonggo.Client.Drop.Laws.{client_service_drop_conn-IsConsistent}
use gonggo.Client.Drop.Grows.{Grows-IsConsistent}
use gonggo.Client.Timeout.Laws.{client_timeout_turn-IsConsistent}
use gonggo.Proxy.Subscribe.Exchange.{proxy_subscribe_exchange-IsConsistent}
use gonggo.Proxy.Channel.Flags.{proxy_channel_exchange-IsMarking}
use gonggo.Proxy.Activator.{Activator}
use gonggo.System.{
  Outside, Step, Reach, message, close, timeout, answer, hand, watch, terminate, activate, stop,
  tick, IsKeeping, world_of,
}
use gonggo.System as System
use gonggo.Client.Request.{Conn}
use gonggo.System.{ws_data_handler, opcode_text}
use gonggo.Proxy.Thread.{proxy_terminator_turn, proxy_thread_kill_all}
use gonggo.Proxy.Thread.Terminate.{proxy_terminator_turn-IsTerminated}
use gonggo.System.Effects.{alive_turn-IsConsistent, alive_turn-single}
use gonggo.Base.{◌%◌, ◌==◌, nat_eq}
use gonggo.System.Steady.{
  ws_data_handler-SameThreads, proxy_subscribe_exchange-SameThreads,
  proxy_channel_exchange-SameThreads,
}
use gonggo.System.Effects.{
  proxy_activator_turn-IsApart, marking-Grows, terminate_each-Grows, kill_each-SameTables,
}
use gonggo.System.Moves.{world-stays, terminator-moves, alive-moves, kill_all-moves}
use gonggo.System.Starts.{activator-moves}
use gonggo.System.Phases.{phase, Move, stay, Move-IsWhole, IsWhole}

module _ {G : Glib} where
  -- The tables of requests are consistent; no proxy stands twice among the zombies; and each proxy
  -- has all of its threads or none, and waits for the terminator if it is a zombie.
  pub record IsSound (a : Activator G) : Type 0 where
    pub consistent : IsConsistent (world_of a)
    pub single : distinct a.threads.terminating ≡ true
    pub whole : (p : String) → IsWhole (phase a.threads p)

module _ {G : Glib} (O : Outside) where
  -- In a sound state, one whole handler or turn is for each proxy one move of the abstract machine:
  -- the proxy is as it was; or it gets all three of its threads, or loses them, while it is not
  -- dying; or it begins to die and is queued; or, if it was queued, it is freed; or, if it was
  -- watched, the server's end frees it.
  pub Step-Move :
      (a b : Activator G) (p : String)
      → IsSound a
      → Step O a b
      → Move (phase a.threads p) (phase b.threads p)
  unfolding System.ws_close_handler
  Step-Move a b p s (message path uri opcode text conn) =
      world-stays a.threads _ p
        (ws_data_handler-SameThreads O path (world_of a) uri opcode text conn)
  Step-Move a b p s (close conn) =
      world-stays a.threads _ p (client_service_drop_conn-SameThreads O.C O.uuid (world_of a) conn)
  Step-Move a b p s timeout =
      world-stays a.threads _ p (client_timeout_turn-SameThreads O.C (world_of a))
  Step-Move a b p s (answer answer_of name shm state w e) =
      world-stays a.threads w p
        (proxy_subscribe_exchange-SameThreads O.C answer_of (world_of a) w name shm state e)
  Step-Move a b p s (hand turn name shm) = world-stays a.threads _ p (
      proxy_channel_exchange-SameThreads O.strlen turn (world_of a) name shm
        s.consistent.proxynames_valid)
  Step-Move a b p s (watch name owner_dead acquired alive) =
      alive-moves O.C a.threads name p owner_dead acquired alive
  Step-Move a b p s terminate = terminator-moves a.threads p s.single
  Step-Move a b p s (activate signal h k) = activator-moves O.C a signal h p k
  Step-Move a b p s stop = kill_all-moves a.threads p s.single
  Step-Move a b p s (tick seconds) = stay refl

  ws_data_handler-IsConsistent :
      (path : Option String) (w : World G) (uri : String) (opcode : ℕ) (text : String) (conn : Conn)
      → IsConsistent w
      → IsConsistent (ws_data_handler O path w uri opcode text conn).0
  unfolding ws_data_handler
  ws_data_handler-IsConsistent path w uri opcode text conn c =
      elim (Bool-cases (opcode % 16 == opcode_text)) [
        | inl e ↦
            rw (e, ws_data_handler)
              (client_service_route-IsConsistent O.C O.query path w uri text conn c)
        | inr e ↦ rw (e, ws_data_handler) c
      ]

  Step-IsConsistent : (a b : Activator G) → IsSound a → Step O a b → IsConsistent (world_of b)
  unfolding System.ws_close_handler proxy_terminator_turn proxy_thread_kill_all
  Step-IsConsistent a b s (message path uri opcode text conn) =
      ws_data_handler-IsConsistent path (world_of a) uri opcode text conn s.consistent
  Step-IsConsistent a b s (close conn) =
      client_service_drop_conn-IsConsistent O.C O.uuid (world_of a) conn s.consistent
  Step-IsConsistent a b s timeout = client_timeout_turn-IsConsistent O.C (world_of a) s.consistent
  Step-IsConsistent a b s (answer answer_of name shm state w e) =
      proxy_subscribe_exchange-IsConsistent O.C answer_of (world_of a) w name shm state e
        s.consistent
  Step-IsConsistent a b s (hand turn name shm) =
      Grows-IsConsistent
        (marking-Grows O.strlen turn name _ (world_of a) _ (
          proxy_channel_exchange-IsMarking O.strlen turn (world_of a) name shm
            s.consistent.proxynames_valid))
        s.consistent
  Step-IsConsistent a b s (watch name owner_dead acquired alive) =
      alive_turn-IsConsistent O.C a.threads name owner_dead acquired alive s.consistent
  Step-IsConsistent a b s terminate =
      Grows-IsConsistent
        (terminate_each-Grows (record a.threads { queue = [] }) a.threads.queue
          s.consistent.proxynames_valid)
        s.consistent
  Step-IsConsistent a b s (activate signal h k) =
      same-IsConsistent (proxy_activator_turn-IsApart O.C a signal h).tables s.consistent
  Step-IsConsistent a b s stop =
      same-IsConsistent (kill_each-SameTables a.threads _ s.single).0 s.consistent
  Step-IsConsistent a b s (tick seconds) =
      same-IsConsistent
        (record {
          requests_same = refl;
          connections_same = refl;
          services_same = refl;
          proxynames_same = refl;
        })
        s.consistent

  Step-single : (a b : Activator G) → IsSound a → Step O a b → distinct b.threads.terminating ≡ true
  unfolding proxy_thread_kill_all
  Step-single a b s (message path uri opcode text conn) = s.single
  Step-single a b s (close conn) = s.single
  Step-single a b s timeout = s.single
  Step-single a b s (answer answer_of name shm state w e) = s.single
  Step-single a b s (hand turn name shm) = s.single
  Step-single a b s (watch name owner_dead acquired alive) =
      alive_turn-single O.C a.threads name owner_dead acquired alive s.single
  Step-single a b s terminate = (proxy_terminator_turn-IsTerminated a.threads s.single).1.single
  Step-single a b s (activate signal h k) =
      rw (proxy_activator_turn-IsApart O.C a signal h).terminating s.single
  Step-single a b s stop = (kill_each-SameTables a.threads _ s.single).1
  Step-single a b s (tick seconds) = s.single

  pub Step-IsSound : (a b : Activator G) → Step O a b → IsSound a → IsSound b
  Step-IsSound a b step s = record {
    consistent = Step-IsConsistent a b s step;
    single = Step-single a b s step;
    whole = λ p.
        Move-IsWhole (phase a.threads p) (phase b.threads p) (Step-Move a b p s step) (s.whole p);
  }

  -- From a sound state, in any sequence of whole handlers of clients' messages, whole turns of
  -- threads and ticks of the clock, one after the other: the tables of requests are consistent, no
  -- proxy is a zombie twice, every proxy has all three of its threads or none, and every zombie is
  -- queued for the terminator.
  pub Reach-IsSound : (a b : Activator G) → Reach O a b → IsSound a → IsSound b
  Reach-IsSound a b System.here s = s
  Reach-IsSound a b (System.later {b = c} r step) s = Step-IsSound c b step (Reach-IsSound a c r s)
