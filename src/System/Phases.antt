-- ===== src/System/Phases.antt =====
-- What the server is for one proxy: an abstract machine, which says nothing of requests, of the
-- tables' representation, or of the threads' numbers.
use gonggo.Base.{sym, subst, ◌≡◌, refl, String, Bool, true, false, arith, string_eq, contains}
use gonggo.Glib.{Glib}
use gonggo.Proxy.Names.{proxy_thread_zombie}
use gonggo.Proxy.Thread.{Threads}
use gonggo.Proxy.Activation.Outcome.{is_made}

-- Which of its threads a proxy has, whether it is a zombie, and whether it is queued for the
-- terminator.
pub record Phase : Type 0 where
  pub subscribe : Bool
  pub channel : Bool
  pub alive : Bool
  pub dying : Bool
  pub queued : Bool

-- What can happen to a proxy. Only one that is not dying is started or taken back; it dies at any
-- time; the terminator frees it; and the server's end frees a proxy that is watched.
pub data Move (x y : Phase) : Type 0 where
  stay : y ≡ x → Move x y
  started :
      x.dying ≡ false → y ≡ record x { subscribe = true; channel = true; alive = true } → Move x y
  taken_back :
      x.dying ≡ false
      → y ≡ record x { subscribe = false; channel = false; alive = false }
      → Move x y
  died : y ≡ record x { dying = true; queued = true } → Move x y
  freed :
      x.queued ≡ true
      → y ≡ record {
        subscribe = false;
        channel = false;
        alive = false;
        dying = false;
        queued = false;
      }
      → Move x y
  halted :
      x.alive ≡ true
      → y ≡ record x { subscribe = false; channel = false; alive = false; dying = false }
      → Move x y

-- A proxy has all of its threads or none, and one that is dying is queued.
pub record IsWhole (x : Phase) : Type 0 where
  pub first : x.subscribe ≡ x.channel
  pub second : x.channel ≡ x.alive
  pub waiting : x.dying ≡ true → x.queued ≡ true

pub Move-IsWhole : (x y : Phase) → Move x y → IsWhole x → IsWhole y
Move-IsWhole x y (stay e) w = subst IsWhole (sym e) w
Move-IsWhole x y (started d e) w =
    subst IsWhole (sym e) (record { first = refl; second = refl; waiting = w.waiting })
Move-IsWhole x y (taken_back d e) w =
    subst IsWhole (sym e) (record { first = refl; second = refl; waiting = w.waiting })
Move-IsWhole x y (died e) w =
    subst IsWhole (sym e) (record { first = w.first; second = w.second; waiting = λ _. refl })
Move-IsWhole x y (freed q e) w =
    subst IsWhole (sym e) (record { first = refl; second = refl; waiting = λ h. h })
Move-IsWhole x y (halted l e) w =
    subst IsWhole (sym e)
      (record { first = refl; second = refl; waiting = λ h. absurd (ground (arith, h)) })

module _ {G : Glib} where
  abbrev pub phase : Threads G → String → Phase
  phase s p = record {
    subscribe = is_made (G.lookup s.subscribes p);
    channel = is_made (G.lookup s.world.channels p);
    alive = is_made (G.lookup s.world.alives p);
    dying = proxy_thread_zombie s.terminating p;
    queued = contains p s.queue;
  }
