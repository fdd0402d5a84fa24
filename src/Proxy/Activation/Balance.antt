-- ===== src/Proxy/Activation/Balance.antt =====
-- gear/proxyactivator.c: the contexts that the steps of an activation make and destroy.
use gonggo.Base.{
  ℕ, ◌+◌, ◌≡◌, refl, Bool, true, false, List, [], ◌∷◌, ◌++◌, arith, if◌then◌else◌, Bool-cases, inl,
  inr, ◌∙◌, ap,
}
use gonggo.Glib.{Glib}
use gonggo.Proxy.Activation.{
  start_threads, start_channel, start_alive, open_alive, open_channel, open_subscribe, undo_calls,
  wait_respond, note_timeout, undo_threads, respond_wait,
}
use gonggo.Proxy.Activator.{
  Activator, Role, Call, Slot, Handshake, RespondState, is_success, subscribe, channel, alive,
  context_create, context_destroy, open_slot, open_calls,
}

abbrev same_role : Role → Role → Bool
same_role subscribe subscribe = true
same_role channel channel = true
same_role alive alive = true
same_role _ _ = false

abbrev is_create : Role → Call → Bool
is_create r (context_create s) = same_role r s
is_create r _ = false

abbrev is_destroy : Role → Call → Bool
is_destroy r (context_destroy s) = same_role r s
is_destroy r _ = false

abbrev pub bit : Bool → ℕ
bit b = if b then 1 else 0

-- How often a context of this role is made, and destroyed.
abbrev pub creates : Role → List Call → ℕ
creates r [] = 0
creates r (c ∷ cs) = bit (is_create r c) + creates r cs

abbrev pub destroys : Role → List Call → ℕ
destroys r [] = 0
destroys r (c ∷ cs) = bit (is_destroy r c) + destroys r cs

pub creates-append :
    (r : Role) (cs ds : List Call) → creates r (cs ++ ds) ≡ creates r cs + creates r ds
creates-append r [] ds = omega arith
creates-append r (c ∷ cs) ds = ground (arith, creates-append r cs ds)

pub destroys-append :
    (r : Role) (cs ds : List Call) → destroys r (cs ++ ds) ≡ destroys r cs + destroys r ds
destroys-append r [] ds = omega arith
destroys-append r (c ∷ cs) ds = ground (arith, destroys-append r cs ds)

module _ {G : Glib} where
  abbrev pub slot_of : Role → Activator G → Slot
  slot_of subscribe a = a.subscribe_slot
  slot_of channel a = a.channel_slot
  slot_of alive a = a.alive_slot

  -- Between two states, contexts are made and destroyed as the pointers say.
  abbrev pub IsBalanced : Role → Activator G → Activator G → Type 0
  IsBalanced r a b =
      creates r b.calls + (destroys r a.calls + bit (slot_of r a).context)
      ≡ creates r a.calls + (destroys r b.calls + bit (slot_of r b).context)

  open_alive-IsBalanced :
      (r : Role) (a : Activator G) (h : Handshake)
      → a.alive_slot.context ≡ false
      → IsBalanced r a (open_alive a h)
  unfolding open_slot open_calls
  open_alive-IsBalanced r a h f = ground (
    arith,
    f,
    creates-append r a.calls (open_calls alive h.alive_thread),
    destroys-append r a.calls (open_calls alive h.alive_thread),
  )

  open_channel-IsBalanced :
      (r : Role) (a : Activator G) (h : Handshake)
      → a.channel_slot.context ≡ false
      → IsBalanced r a (open_channel a h)
  unfolding open_slot open_calls
  open_channel-IsBalanced r a h f = ground (
    arith,
    f,
    creates-append r a.calls (open_calls channel h.channel_thread),
    destroys-append r a.calls (open_calls channel h.channel_thread),
  )

  open_subscribe-IsBalanced :
      (r : Role) (a : Activator G) (h : Handshake)
      → a.subscribe_slot.context ≡ false
      → IsBalanced r a (open_subscribe a h)
  unfolding open_slot open_calls
  open_subscribe-IsBalanced r a h f = ground (
    arith,
    f,
    creates-append r a.calls (open_calls subscribe h.subscribe_thread),
    destroys-append r a.calls (open_calls subscribe h.subscribe_thread),
  )

  abbrev pub IsCleared : Activator G → Type 0
  IsCleared a =
      (a.subscribe_slot.context ≡ false)
      × (a.channel_slot.context ≡ false)
      × (a.alive_slot.context ≡ false)

  pub start_threads-IsBalanced :
      (r : Role) (a : Activator G) (h : Handshake)
      → IsCleared a
      → IsBalanced r a (start_threads a h).1
  unfolding start_threads start_channel start_alive
  start_threads-IsBalanced r a h (s, c, l) =
      let two = open_channel (open_subscribe a h) h in
      ground (
        arith,
        open_subscribe-IsBalanced r a h s,
        open_channel-IsBalanced r (open_subscribe a h) h c,
        open_alive-IsBalanced r two h l,
      )

  -- With success, the three threads run.
  pub start_threads-open :
      (r : Role) (a : Activator G) (h : Handshake)
      → is_success (start_threads a h).0 ≡ true
      → (slot_of r (start_threads a h).1).context ≡ true
  unfolding start_threads start_channel start_alive open_slot
  start_threads-open r a h e = ground (arith, e)

  undo_threads-IsBalanced : (r : Role) (a : Activator G) → IsBalanced r a (undo_threads a)
  unfolding undo_threads
  undo_threads-IsBalanced r a =
      ground
        (arith, creates-append r a.calls (undo_calls a), destroys-append r a.calls (undo_calls a))

  abbrev waited : RespondState → Activator G → Handshake → Activator G
  waited state a h = note_timeout (wait_respond state a h).0 (wait_respond state a h).1

  -- What the wait leaves alone.
  pub record IsSame (a b : Activator G) : Type 0 where
    pub calls : b.calls ≡ a.calls
    pub slots : (r : Role) → slot_of r b ≡ slot_of r a

  pub wait_respond-IsSame :
      (state : RespondState) (a : Activator G) (h : Handshake) → IsSame a (wait_respond state a h).1
  unfolding wait_respond
  wait_respond-IsSame state a h = record { calls = ground arith; slots = λ r. ground arith }

  pub note_timeout-IsSame :
      (state : RespondState) (a : Activator G) → IsSame a (note_timeout state a)
  unfolding note_timeout
  note_timeout-IsSame state a = record { calls = ground arith; slots = λ r. ground arith }

  IsSame-IsBalanced : (r : Role) (a b : Activator G) → IsSame a b → IsBalanced r a b
  IsSame-IsBalanced r a b s =
      let calls : b.calls ≡ a.calls = s.calls in
      let context : (slot_of r b).context ≡ (slot_of r a).context =
        ap (λ x. x.context) (s.slots r) in
      omega (arith, ap (creates r) calls, ap (destroys r) calls, ap bit context)

  joined-IsBalanced :
      (r : Role) (a b c : Activator G) → IsBalanced r a b → IsBalanced r b c → IsBalanced r a c
  joined-IsBalanced r a b c x y = omega (arith, x, y)

  waited-IsBalanced :
      (r : Role) (state : RespondState) (a : Activator G) (h : Handshake)
      → IsBalanced r a (waited state a h)
  waited-IsBalanced r state a h =
      let b = (wait_respond state a h).1 in
      joined-IsBalanced r a b (waited state a h)
        (IsSame-IsBalanced r a b (wait_respond-IsSame state a h))
        (IsSame-IsBalanced r b (waited state a h) (note_timeout-IsSame _ b))

  pub respond_wait-IsBalanced :
      (r : Role) (state : RespondState) (a : Activator G) (h : Handshake)
      → IsBalanced r a (respond_wait state a h).1
  unfolding respond_wait
  respond_wait-IsBalanced r state a h = elim (Bool-cases (is_success (wait_respond state a h).0)) [
    | inl e ↦ rw e (waited-IsBalanced r state a h)
    | inr e ↦ rw e (
        joined-IsBalanced r a (waited state a h) _ (waited-IsBalanced r state a h)
          (undo_threads-IsBalanced r (waited state a h)))
  ]

  undo_threads-context : (r : Role) (a : Activator G) → (slot_of r (undo_threads a)).context ≡ false
  unfolding undo_threads
  undo_threads-context subscribe a = refl
  undo_threads-context channel a = refl
  undo_threads-context alive a = refl

  pub respond_wait-context :
      (r : Role) (state : RespondState) (a : Activator G) (h : Handshake)
      → (slot_of r (respond_wait state a h).1).context
        ≡ (if is_success (respond_wait state a h).0 then (slot_of r a).context else false)
  unfolding respond_wait
  respond_wait-context r state a h =
      let w = (wait_respond-IsSame state a h).slots r in
      let n = (note_timeout-IsSame (wait_respond state a h).0 (wait_respond state a h).1).slots r in
      elim (Bool-cases (is_success (wait_respond state a h).0)) [
        | inl e ↦ rw e (ap (λ x. x.context) (n ∙ w))
        | inr e ↦ rw e (undo_threads-context r (waited state a h))
      ]
