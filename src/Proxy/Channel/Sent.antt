-- ===== src/Proxy/Channel/Sent.antt =====
-- gear/proxychannel.c: an exchange in which the proxy settles everything.
use gonggo.Base.{
  ℕ, ◌≡◌, ◌≢◌, refl, String, true, false, none, some, List, [], ◌∷◌, arith, inl, inr, string_eq,
  Option-cases, contains, ap, sym, ◌∙◌, subst,
}
use gonggo.Glib.{Glib}
use gonggo.Client.Service.{client_service_table_dup}
use gonggo.Client.Proxyname.{client_proxyname_table_request_dup}
use gonggo.Client.Proxyname.Laws.{IsValid, sent_flag, sent_flag-request_sent, contains-request_dup}
use gonggo.Client.World.{World}
use gonggo.Proxy.Channel.{ChannelShm, Turn, exchange_request, exchange_each, proxy_channel_exchange}
use gonggo.Proxy.Channel.Flags.{
  settles, IsHanded, IsMarking, exchange_request-handed, exchange_request-none,
  exchange_request-IsMarking, exchange_each-IsMarking,
}

module _ {G : Glib} (strlen : String → ℕ) (turn : String → Turn) where
  -- The proxy settles every request that has a text.
  abbrev pub IsWilling : World G → Type 0
  IsWilling w =
      (rid text : String)
      → client_service_table_dup G w.services rid ≡ some text
      → settles strlen text (turn rid) ≡ true

  request-sent :
      (w : World G) (proxy_name rid : String) (shm : ChannelShm)
      → IsValid G w.proxynames
      → IsWilling w
      → ((exchange_request strlen turn w proxy_name rid shm).0 ≡ true)
        × (client_service_table_dup G w.services rid ≢ none
            → sent_flag G w.proxynames proxy_name rid ≢ none
            → sent_flag G
                (exchange_request strlen turn w proxy_name rid shm).1.proxynames
                proxy_name
                rid
              ≡ some true)
  request-sent w proxy_name rid shm v willing =
      elim (Option-cases (client_service_table_dup G w.services rid)) [
        | inl e ↦
            ((exchange_request-none strlen turn w proxy_name rid shm e).0, λ has. absurd (has e))
        | inr (text, e) ↦
            let h : IsHanded strlen turn w rid = record {
              text = text;
              found = e;
              settled = willing rid text e;
            } in
            let (alive, eq) = exchange_request-handed strlen turn w proxy_name rid shm h in
            (
              alive,
              λ has flagged.
                  ap (λ x. sent_flag G x.proxynames proxy_name rid) eq
                  ∙ sent_flag-request_sent G w.proxynames proxy_name rid proxy_name rid v
                  ∙ ground (arith, flagged),
            )
      ]

  -- A marking loses no flag that is set, and takes no request from a proxy.
  still-sent :
      {w w' : World G} {proxy_name : String} {rids : List String} (p rid : String)
      → IsMarking strlen turn proxy_name rids w w'
      → sent_flag G w.proxynames p rid ≡ some true
      → sent_flag G w'.proxynames p rid ≡ some true
  still-sent p rid m h = elim (m.flags p rid) [ inl same ↦ same ∙ h | inr (_, _, _, e) ↦ e ]

  still-flagged :
      {w w' : World G} {proxy_name : String} {rids : List String} (p rid : String)
      → IsMarking strlen turn proxy_name rids w w'
      → sent_flag G w.proxynames p rid ≢ none
      → sent_flag G w'.proxynames p rid ≢ none
  still-flagged p rid m h gone = elim (m.flags p rid) [
    | inl same ↦ h (sym same ∙ gone)
    | inr (_, _, _, e) ↦ ground (arith, e, gone)
  ]

  same-texts :
      {w w' : World G} {proxy_name : String} {rids : List String} (rid : String)
      → IsMarking strlen turn proxy_name rids w w'
      → client_service_table_dup G w'.services rid ≡ client_service_table_dup G w.services rid
  same-texts rid m = ap (λ x. client_service_table_dup G x.services rid) m.rest_same

  each-sent :
      (w : World G) (proxy_name : String) (rids : List String) (shm : ChannelShm)
      → IsValid G w.proxynames
      → IsWilling w
      → ((exchange_each strlen turn w proxy_name rids shm).0 ≡ true)
        × ((rid : String)
            → contains rid rids ≡ true
            → client_service_table_dup G w.services rid ≢ none
            → sent_flag G w.proxynames proxy_name rid ≢ none
            → sent_flag G
                (exchange_each strlen turn w proxy_name rids shm).1.proxynames
                proxy_name
                rid
              ≡ some true)
  unfolding exchange_each
  each-sent w proxy_name [] shm v willing = (refl, λ rid has. absurd (ground (arith, has)))
  each-sent w proxy_name (rid ∷ rids) shm v willing =
      let (one, w1, shm1) = exchange_request strlen turn w proxy_name rid shm in
      let (alive, sent) = request-sent w proxy_name rid shm v willing in
      let m = exchange_request-IsMarking strlen turn w proxy_name rid shm v in
      let (alive', rest) =
        each-sent w1 proxy_name rids shm1 m.valid
          (λ j text e. willing j text (sym (same-texts j m) ∙ e)) in
      let m' = exchange_each-IsMarking strlen turn w1 proxy_name rids shm1 m.valid in
      rw alive (
        alive',
        λ j has text flagged. elim (string_eq.dec j rid) [
          | yes same ↦ still-sent proxy_name j m' (
              subst (λ x. sent_flag G w1.proxynames proxy_name x ≡ some true) (sym same)
                (sent (subst (λ x. client_service_table_dup G w.services x ≢ none) same text)
                  (subst (λ x. sent_flag G w.proxynames proxy_name x ≢ none) same flagged)))
          | no other ↦
              rest j (ground (arith, has, other)) (λ e. text (sym (same-texts j m) ∙ e))
                (still-flagged proxy_name j m flagged)
        ],
      )

  exchange-sent :
      (w : World G) (proxy_name : String) (shm : ChannelShm)
      → IsValid G w.proxynames
      → IsWilling w
      → ((proxy_channel_exchange strlen turn w proxy_name shm).0 ≡ true)
        × ((rid : String)
            → sent_flag G w.proxynames proxy_name rid ≡ some false
            → client_service_table_dup G w.services rid ≢ none
            → sent_flag G
                (proxy_channel_exchange strlen turn w proxy_name shm).1.proxynames
                proxy_name
                rid
              ≡ some true)
  unfolding proxy_channel_exchange
  exchange-sent w proxy_name shm v willing =
      elim (Option-cases (client_proxyname_table_request_dup G w.proxynames proxy_name true)) [
        | inl e ↦
            rw (e, proxy_channel_exchange)
              (
                refl,
                λ rid unsent text. absurd (
                    ground
                      (arith, e, unsent, contains-request_dup G w.proxynames proxy_name rid v)),
              )
        | inr (rids, e) ↦
            let (alive, sent) = each-sent w proxy_name rids shm v willing in
            rw (e, proxy_channel_exchange)
              (
                alive,
                λ rid unsent text.
                    sent rid
                      (ground
                        (arith, e, unsent, contains-request_dup G w.proxynames proxy_name rid v))
                      text (λ gone. ground (arith, unsent, gone)),
              )
      ]

  -- When the proxy settles every request that has a text, an exchange ends alive, and a request of
  -- the proxy that was not yet sent and has a text is then marked as sent.
  pub proxy_channel_exchange-sent :
      (w : World G) (proxy_name rid : String) (shm : ChannelShm)
      → IsValid G w.proxynames
      → IsWilling w
      → sent_flag G w.proxynames proxy_name rid ≡ some false
      → client_service_table_dup G w.services rid ≢ none
      → ((proxy_channel_exchange strlen turn w proxy_name shm).0 ≡ true)
        × (sent_flag G
              (proxy_channel_exchange strlen turn w proxy_name shm).1.proxynames
              proxy_name
              rid
            ≡ some true)
  proxy_channel_exchange-sent w proxy_name rid shm v willing unsent text =
      let (alive, sent) = exchange-sent w proxy_name shm v willing in (alive, sent rid unsent text)
