-- ===== src/System/Stop.antt =====
-- gear/proxyterminator.c and gear/proxy.c within the whole server: what is left of the proxies
-- behind a turn of the terminator, and when the server stops.
use gonggo.Base.{
  ◌≡◌, String, false, none, arith, ◌∙◌, string_eq, Bool-cases, Option-cases, inl, inr,
}
use gonggo.Glib.{Glib}
use gonggo.Proxy.Names.{proxy_thread_zombie}
use gonggo.Proxy.Thread.{proxy_terminator_turn, proxy_thread_kill_all}
use gonggo.Proxy.Thread.Kill.{proxy_thread_kill_all-threads}
use gonggo.Proxy.Thread.Terminate.{proxy_terminator_turn-IsTerminated}
use gonggo.Proxy.Activator.{Activator}
use gonggo.System.{Outside, Reach}
use gonggo.System.Invariant.{IsSound, Reach-IsSound}

module _ {G : Glib} (O : Outside) where
  -- In any state that the server can reach, one turn of the terminator leaves no zombie at all, so
  -- that every proxy may be activated again.
  pub proxy_terminator_turn-reached :
      (a b : Activator G) (p : String)
      → Reach O a b
      → IsSound a
      → proxy_thread_zombie (proxy_terminator_turn b.threads).terminating p ≡ false
  proxy_terminator_turn-reached a b p r s =
      let t = Reach-IsSound O a b r s in
      let w = (t.whole p).waiting in
      let z = (proxy_terminator_turn-IsTerminated b.threads t.single).1.zombies p in
      elim (Bool-cases (proxy_thread_zombie b.threads.terminating p)) [
        | inl e ↦ z ∙ ground (arith, w e)
        | inr e ↦ z ∙ ground (arith, e)
      ]

  -- In any state that the server can reach, its stop ends every thread of every proxy: none is left
  -- in any of the three tables.
  pub proxy_thread_kill_all-reached :
      (a b : Activator G) (p : String)
      → Reach O a b
      → IsSound a
      → let killed = proxy_thread_kill_all b.threads in
        (G.lookup killed.subscribes p ≡ none)
        × (G.lookup killed.world.channels p ≡ none)
        × (G.lookup killed.world.alives p ≡ none)
  proxy_thread_kill_all-reached a b p r s =
      let t = Reach-IsSound O a b r s in
      let first = (t.whole p).first in
      let second = (t.whole p).second in
      let (alives, channels, subscribes) = proxy_thread_kill_all-threads b.threads p in
      elim (Option-cases (G.lookup b.threads.world.alives p)) [
        | inl e ↦ (
          subscribes ∙ ground (arith, e, first, second),
          channels ∙ ground (arith, e, second),
          alives,
        )
        | inr (x, e) ↦ (subscribes ∙ ground (arith, e), channels ∙ ground (arith, e), alives)
      ]
