-- ===== src/System/Starts.antt =====
-- What a turn of the activator is for one proxy.
use gonggo.Base.{
  ◌≡◌, refl, String, Bool, true, false, [], ◌∷◌, arith, ap, subst, sym, Bool-cases, inl, inr,
  string_eq, contains, if◌then◌else◌,
}
use gonggo.Glib.{Glib}
use gonggo.Json.{Cjson}
use gonggo.Proxy.Names.{proxy_thread_zombie}
use gonggo.Proxy.Thread.{Threads}
use gonggo.Proxy.Activation.{proxy_activator_shm_idle, proxy_activation}
use gonggo.Proxy.Activator.{Activator, Handshake, RespondState, is_success, is_ended}
use gonggo.Proxy.Activation.Outcome.{
  proxy_activation-success, has_segments, has_threads, is_answered,
}
use gonggo.Proxy.Activation.Tables.{proxy_activation-IsCut}
use gonggo.Proxy.Activation.Turn.{Signal, is_asked, proxy_activator_turn, follow_up, is_terminated}
use gonggo.Proxy.Activation.Entered.{woken, IsAsking, proxy_activator_turn-IsEntered}
use gonggo.System.{IsKeeping}
use gonggo.System.Effects.{proxy_activator_turn-IsApart}
use gonggo.System.Moves.{cut-moves, entered-moves}
use gonggo.System.Phases.{phase, Move, stay}

abbrev pub is_taken : Signal → Bool
is_taken signal = if is_ended signal.found.memory.state then false else is_asked signal

pub asking :
    (signal : Signal) (h : Handshake)
    → is_asked signal ≡ true
    → IsKeeping signal h
    → IsAsking signal h signal.found.memory.proxy_name
asking signal h e k = record {
  running = ground (arith, e);
  living = ground (arith, e);
  named = ground (arith, e);
  request = ground (arith, e);
  found = refl;
  relocked = k.relocked;
  responded = k.responded;
}

module _ {G : Glib} where
  pub killed_free :
      (s : Threads G) (name p : String)
      → contains p (if proxy_thread_zombie s.terminating name then [] else name ∷ []) ≡ true
      → proxy_thread_zombie s.terminating p ≡ false
  killed_free s name p c = ground (arith, c, ap (proxy_thread_zombie s.terminating))

  follow_up-same :
      (C : Cjson) (state : RespondState) (a : Activator G)
      → is_success state ≡ false
      → (follow_up C state a).1 ≡ a
  unfolding follow_up
  follow_up-same C state a e = elim (Bool-cases (is_terminated state)) [
    | inl f ↦ rw (f, follow_up) refl
    | inr f ↦ rw (f, e, follow_up) refl
  ]

  pub turn_quiet :
      (C : Cjson) (a : Activator G) (signal : Signal) (h : Handshake)
      → is_taken signal ≡ false
      → (proxy_activator_turn C a signal h).1.threads ≡ a.threads
  unfolding proxy_activator_turn proxy_activator_shm_idle
  turn_quiet C a signal h q = elim (Bool-cases (is_ended signal.found.memory.state)) [
    | inl e ↦ rw (e, proxy_activator_turn) refl
    | inr e ↦
        let asked : is_asked signal ≡ false = ground (arith, q, e) in
        rw (e, asked, proxy_activator_turn) refl
  ]

  pub turn_unsuccessful :
      (C : Cjson) (a : Activator G) (signal : Signal) (h : Handshake)
      → is_taken signal ≡ true
      → is_success (proxy_activation (woken a signal) h).0 ≡ false
      → (proxy_activator_turn C a signal h).1 ≡ (proxy_activation (woken a signal) h).1
  unfolding proxy_activator_turn proxy_activator_shm_idle
  turn_unsuccessful C a signal h q s =
      let ended : is_ended signal.found.memory.state ≡ false = ground (arith, q) in
      let asked : is_asked signal ≡ true = ground (arith, q) in
      rw (ended, asked, proxy_activator_turn) (follow_up-same C _ _ s)

  -- A turn of the activator starts the proxy that asks, takes it back, or leaves it.
  pub activator-moves :
      (C : Cjson) (a : Activator G) (signal : Signal) (h : Handshake) (p : String)
      → IsKeeping signal h
      → Move (phase a.threads p) (phase (proxy_activator_turn C a signal h).1.threads p)
  unfolding proxy_activator_shm_idle
  activator-moves C a signal h p k =
      let x = woken a signal in
      let name = signal.found.memory.proxy_name in
      let success = proxy_activation-success x h in
      elim (Bool-cases (is_taken signal)) [
        | inr e ↦
            subst (λ s. Move (phase a.threads p) (phase s p)) (sym (turn_quiet C a signal h e))
              (stay refl)
        | inl e ↦ elim (Bool-cases (is_success (proxy_activation x h).0)) [
          | inl s ↦
              let asked : is_asked signal ≡ true = ground (arith, e) in
              let free : proxy_thread_zombie a.threads.terminating name ≡ false =
                ground (arith, s, success) in
              let made : has_threads h ≡ true = ground (arith, s, success) in
              let there : has_segments h ≡ true = ground (arith, s, success) in
              let done : is_answered h ≡ true = ground (arith, s, success) in
              entered-moves h name p a.threads _ free made
                (proxy_activator_turn-IsEntered C a signal h name (asking signal h asked k) free
                  there made done).1
                (proxy_activator_turn-IsApart C a signal h)
          | inr s ↦
              subst (λ b. Move (phase a.threads p) (phase b.threads p))
                (sym (turn_unsuccessful C a signal h e s))
                (cut-moves _ a.threads _ p (killed_free a.threads name p)
                  (proxy_activation-IsCut x h))
        ]
      ]
