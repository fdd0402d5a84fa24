-- ===== src/Client/Timeout/Loop.antt =====
-- gear/clienttimeout.c, `client_timeout`: the loop of the thread, beside the other threads.
use gonggo.Base.{Bool, true, false, List, [], ◌∷◌, if◌then◌else◌, Bool-cases, inl, inr}
use gonggo.Glib.{Glib}
use gonggo.Json.{Cjson}
use gonggo.Client.World.{World}
use gonggo.Client.Invariant.{IsConsistent}
use gonggo.Client.Timeout.{client_timeout_turn}
use gonggo.Client.Timeout.Laws.{client_timeout_turn-IsConsistent}

-- One turn: `client_timeout_end` at the head of the loop, and what the other threads and the clock
-- have made of the server by then.
pub record TimeoutTurn (G : Glib) : Type 0 where
  pub stopping : Bool
  pub others : World G → World G

module _ {G : Glib} (C : Cjson) where
  -- The loop; whether it has ended, and the server.
  unfoldable pub client_timeout : World G → List (TimeoutTurn G) → Bool × World G
  client_timeout w [] = (false, w)
  client_timeout w (t ∷ ts) =
      let found = t.others w in
      let result = client_timeout (client_timeout_turn C found) ts in
      if t.stopping then (true, found) else result

module _ {G : Glib} where
  -- The other threads keep the tables consistent.
  pub data AreConsistent : List (TimeoutTurn G) → Type 0 where
    none_left : AreConsistent []
    keeping :
        {t : TimeoutTurn G} {ts : List (TimeoutTurn G)}
        → ((w : World G) → IsConsistent w → IsConsistent (t.others w))
        → AreConsistent ts
        → AreConsistent (t ∷ ts)

  -- However long the thread runs beside threads that keep the tables consistent, they stay so.
  pub client_timeout-IsConsistent :
      (C : Cjson) (w : World G) (ts : List (TimeoutTurn G))
      → AreConsistent ts
      → IsConsistent w
      → IsConsistent (client_timeout C w ts).1
  unfolding client_timeout
  client_timeout-IsConsistent C w [] k h = h
  client_timeout-IsConsistent C w (t ∷ ts) (keeping f k) h = elim (Bool-cases t.stopping) [
    | inl e ↦ rw (e, client_timeout) (f w h)
    | inr e ↦
        rw (e, client_timeout)
          (client_timeout-IsConsistent C (client_timeout_turn C (t.others w)) ts k
            (client_timeout_turn-IsConsistent C (t.others w) (f w h)))
  ]
