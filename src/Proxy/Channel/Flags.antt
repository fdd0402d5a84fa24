-- ===== src/Proxy/Channel/Flags.antt =====
-- gear/proxychannel.c: which requests an exchange marks as sent.
use gonggo.Base.{
  ℕ, ◌≡◌, ◌⊎◌, refl, String, Bool, true, false, none, some, List, [], ◌∷◌, arith, inl, inr,
  if◌then◌else◌, ltb, string_eq, Option-cases, Bool-cases, contains, ap, sym, ◌∙◌, subst,
}
use gonggo.Glib.{Glib}
use gonggo.Client.Service.{client_service_table_dup}
use gonggo.Client.Proxyname.{
  client_proxyname_table_request_dup, client_proxyname_table_request_sent,
}
use gonggo.Client.Proxyname.Laws.{IsValid, sent_flag, sent_flag-request_sent}
use gonggo.Client.Proxyname.Valid.{request_sent-IsValid}
use gonggo.Client.World.{World}
use gonggo.Proxy.Channel.{
  ChannelShm, Turn, woken, is_settled, settle, proxy_channel_create_request, exchange_text,
  exchange_request, exchange_each, proxy_channel_exchange,
}
use gonggo.Proxy.Channel.Wait.{is_free, idle_wait-is_free}

-- The environment's turn in which a request with this text is settled: the channel becomes free,
-- the segment is made, and the proxy acknowledges or refuses.
abbrev pub settles : (String → ℕ) → String → Turn → Bool
settles strlen text t =
    if is_free t
    then if ltb (proxy_channel_create_request strlen t.opened t.mapped text) 1
      then false
      else if t.answer.owner_dead
      then false
      else is_settled t.answer.found
    else false

contains-more :
    (j rid : String) (rids : List String) → contains j rids ≡ true → contains j (rid ∷ rids) ≡ true
contains-more j rid rids h = ground (arith, h)

contains-first :
    (j rid : String) (rids : List String)
    → contains j (rid ∷ []) ≡ true
    → contains j (rid ∷ rids) ≡ true
contains-first j rid rids h = ground (arith, h)

module _ {G : Glib} (strlen : String → ℕ) (turn : String → Turn) where
  -- A request that was handed over: its text, and a turn in which it is settled.
  pub record IsHanded (w : World G) (rid : String) : Type 0 where
    pub text : String
    pub found : client_service_table_dup G w.services rid ≡ some text
    pub settled : settles strlen text (turn rid) ≡ true

  abbrev pub marked : World G → String → String → World G
  marked w proxy_name rid = record w {
    proxynames = client_proxyname_table_request_sent G w.proxynames proxy_name rid;
  }

  pub exchange_request-handed :
      (w : World G) (proxy_name rid : String) (shm : ChannelShm)
      → IsHanded w rid
      → ((exchange_request strlen turn w proxy_name rid shm).0 ≡ true)
        × ((exchange_request strlen turn w proxy_name rid shm).1 ≡ marked w proxy_name rid)
  unfolding exchange_request exchange_text settle woken
  exchange_request-handed w proxy_name rid shm h =
      ground (arith, h.found, h.settled, idle_wait-is_free (turn rid) shm)

  exchange_request-unsettled :
      (w : World G) (proxy_name rid text : String) (shm : ChannelShm)
      → client_service_table_dup G w.services rid ≡ some text
      → settles strlen text (turn rid) ≡ false
      → (exchange_request strlen turn w proxy_name rid shm).1 ≡ w
  unfolding exchange_request exchange_text settle woken
  exchange_request-unsettled w proxy_name rid text shm found not_settled =
      ground (arith, found, not_settled, idle_wait-is_free (turn rid) shm)

  pub exchange_request-none :
      (w : World G) (proxy_name rid : String) (shm : ChannelShm)
      → client_service_table_dup G w.services rid ≡ none
      → ((exchange_request strlen turn w proxy_name rid shm).0 ≡ true)
        × ((exchange_request strlen turn w proxy_name rid shm).1 ≡ w)
  unfolding exchange_request
  exchange_request-none w proxy_name rid shm e = ground (arith, e)

  -- One request is handed over and marked, or nothing changes.
  pub exchange_request-cases :
      (w : World G) (proxy_name rid : String) (shm : ChannelShm)
      → ((exchange_request strlen turn w proxy_name rid shm).1 ≡ w)
        ⊎ (IsHanded w rid
            × ((exchange_request strlen turn w proxy_name rid shm).0 ≡ true)
            × ((exchange_request strlen turn w proxy_name rid shm).1 ≡ marked w proxy_name rid))
  exchange_request-cases w proxy_name rid shm =
      elim (Option-cases (client_service_table_dup G w.services rid)) [
        | inl e ↦ inl (exchange_request-none w proxy_name rid shm e).1
        | inr (text, e) ↦ elim (Bool-cases (settles strlen text (turn rid))) [
          | inr no_turn ↦ inl (exchange_request-unsettled w proxy_name rid text shm e no_turn)
          | inl good ↦
              let h : IsHanded w rid = record { text = text; found = e; settled = good } in
              let (alive, e') = exchange_request-handed w proxy_name rid shm h in inr (h, alive, e')
        ]
      ]

  -- What an exchange leaves as it was, and what it may have done to a flag.
  pub record IsMarking (proxy_name : String) (rids : List String) (w w' : World G) : Type 0 where
    pub valid : IsValid G w'.proxynames
    pub rest_same : w' ≡ record w { proxynames = w'.proxynames }
    pub flags :
        (p rid : String)
        → (sent_flag G w'.proxynames p rid ≡ sent_flag G w.proxynames p rid)
          ⊎ ((proxy_name ≡ p)
              × (contains rid rids ≡ true)
              × IsHanded w rid
              × (sent_flag G w'.proxynames p rid ≡ some true))

  marked-IsMarking :
      (w : World G) (proxy_name rid : String)
      → IsValid G w.proxynames
      → IsHanded w rid
      → IsMarking proxy_name (rid ∷ []) w (marked w proxy_name rid)
  marked-IsMarking w proxy_name rid v h = record {
    valid = request_sent-IsValid G w.proxynames proxy_name rid v;
    rest_same = refl;
    flags = λ p j.
        let law = sent_flag-request_sent G w.proxynames proxy_name rid p j v in
        elim (string_eq.dec proxy_name p) [
          | no other ↦ inl (law ∙ ground (arith, other))
          | yes same ↦ elim (string_eq.dec rid j) [
            | no other ↦ inl (law ∙ ground (arith, other))
            | yes one ↦ elim (Option-cases (sent_flag G w.proxynames p j)) [
              | inl e ↦ inl (law ∙ ground (arith, e))
              | inr (b, e) ↦ inr (
                same,
                ground (arith, one),
                subst (IsHanded w) one h,
                law ∙ ground (arith, e, same, one),
              )
            ]
          ]
        ];
  }

  unmarked-IsMarking :
      (w : World G) (proxy_name : String) (rids : List String)
      → IsValid G w.proxynames
      → IsMarking proxy_name rids w w
  unmarked-IsMarking w proxy_name rids v = record {
    valid = v;
    rest_same = refl;
    flags = λ p j. inl refl;
  }

  pub exchange_request-IsMarking :
      (w : World G) (proxy_name rid : String) (shm : ChannelShm)
      → IsValid G w.proxynames
      → IsMarking proxy_name (rid ∷ []) w (exchange_request strlen turn w proxy_name rid shm).1
  exchange_request-IsMarking w proxy_name rid shm v =
      elim (exchange_request-cases w proxy_name rid shm) [
        | inl same ↦
            subst (IsMarking proxy_name (rid ∷ []) w) (sym same)
              (unmarked-IsMarking w proxy_name (rid ∷ []) v)
        | inr (h, _, e) ↦
            subst (IsMarking proxy_name (rid ∷ []) w) (sym e)
              (marked-IsMarking w proxy_name rid v h)
      ]

  -- A request handed over after a marking could have been handed over before it.
  pub IsHanded-before :
      {w w' : World G} {proxy_name : String} {rids : List String} (rid : String)
      → IsMarking proxy_name rids w w'
      → IsHanded w' rid
      → IsHanded w rid
  IsHanded-before {w} {w'} rid m h = record {
    text = h.text;
    found = ap (λ x. client_service_table_dup G x.services rid) (sym m.rest_same) ∙ h.found;
    settled = h.settled;
  }

  joined-IsMarking :
      {w w1 w2 : World G} {proxy_name rid : String} {rids : List String}
      → IsMarking proxy_name (rid ∷ []) w w1
      → IsMarking proxy_name rids w1 w2
      → IsMarking proxy_name (rid ∷ rids) w w2
  joined-IsMarking {w} {w1} {w2} {proxy_name} {rid} {rids} a b = record {
    valid = b.valid;
    rest_same =
        b.rest_same ∙ ap {A = World G} (λ x. record x { proxynames = w2.proxynames }) a.rest_same;
    flags = λ p j. elim (b.flags p j) [
      | inr (same, has, h, e) ↦ inr (same, contains-more j rid rids has, IsHanded-before j a h, e)
      | inl e2 ↦ elim (a.flags p j) [
        | inl e1 ↦ inl (e2 ∙ e1)
        | inr (same, has, h, e1) ↦ inr (same, contains-first j rid rids has, h, e2 ∙ e1)
      ]
    ];
  }

  pub exchange_each-IsMarking :
      (w : World G) (proxy_name : String) (rids : List String) (shm : ChannelShm)
      → IsValid G w.proxynames
      → IsMarking proxy_name rids w (exchange_each strlen turn w proxy_name rids shm).1
  unfolding exchange_each
  exchange_each-IsMarking w proxy_name [] shm v = unmarked-IsMarking w proxy_name [] v
  exchange_each-IsMarking w proxy_name (rid ∷ rids) shm v =
      let (one, w1, shm1) = exchange_request strlen turn w proxy_name rid shm in
      let a = exchange_request-IsMarking w proxy_name rid shm v in
      elim (Bool-cases one) [
        | inr dead ↦ rw dead (joined-IsMarking a (unmarked-IsMarking w1 proxy_name rids a.valid))
        | inl live ↦
            rw live (joined-IsMarking a (exchange_each-IsMarking w1 proxy_name rids shm1 a.valid))
      ]

  -- The requests that an exchange takes up.
  abbrev pub unsent_of : World G → String → List String
  unsent_of w proxy_name =
      elim (client_proxyname_table_request_dup G w.proxynames proxy_name true) [
        | none ↦ []
        | some rids ↦ rids
      ]

  -- An exchange changes nothing but flags in the table of proxies, and a flag that it changes is
  -- one of this proxy, of a request that was not sent before, that has a text, and whose turn the
  -- proxy settled: it then says that the request was sent.
  pub proxy_channel_exchange-IsMarking :
      (w : World G) (proxy_name : String) (shm : ChannelShm)
      → IsValid G w.proxynames
      → IsMarking proxy_name
          (unsent_of w proxy_name)
          w
          (proxy_channel_exchange strlen turn w proxy_name shm).1
  unfolding proxy_channel_exchange
  proxy_channel_exchange-IsMarking w proxy_name shm v =
      elim (Option-cases (client_proxyname_table_request_dup G w.proxynames proxy_name true)) [
        | inl e ↦ rw (e, proxy_channel_exchange) (unmarked-IsMarking w proxy_name _ v)
        | inr (rids, e) ↦
            let all : rids ≡ unsent_of w proxy_name = ground (arith, e) in
            rw (e, proxy_channel_exchange)
              (subst
                (λ x. IsMarking proxy_name x w (exchange_each strlen turn w proxy_name rids shm).1)
                all (exchange_each-IsMarking w proxy_name rids shm v))
      ]
