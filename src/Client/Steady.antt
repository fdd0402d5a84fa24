-- ===== src/Client/Steady.antt =====
-- gear/clientreply.c, gear/clientservice.c and gear/clienttimeout.c: what clients do never changes
-- which threads a proxy has.
use gonggo.Base.{
  ℕ, ◌≡◌, refl, String, Bool, true, false, Option, List, [], ◌∷◌, arith, ◌∙◌, subst, sym,
  Option-cases, inl, inr, string_eq, nat_eq,
}
use gonggo.Glib.{Glib}
use gonggo.Json.{Cjson}
use gonggo.Client.Request.{Conn, client_request_table_get_conn, client_request_table_expired}
use gonggo.Client.Proxyname.{ProxynameTable, ClientProxynameTableValue}
use gonggo.Client.World.{World}
use gonggo.Client.Reply.{
  save_if, write_if, client_service_reply, client_service_expired_reply,
  client_proxy_alive_notification_do, notify_each, client_proxy_alive_notification,
}
use gonggo.Client.Route.{wake_channel, save_request, client_service_route}
use gonggo.Client.Route.Outcome.{
  Outcome, ignored, rejected, answered, accepted, client_service_route-Outcome,
}
use gonggo.Client.Route.Accepted.{SameTables}
use gonggo.Client.Drop.{
  forget_request, note_proxy, forget_each, request_drop_of, request_drops, ask_proxy, ask_each,
  client_service_drop_conn,
}
use gonggo.Client.Timeout.{expire_request, expire_each, client_timeout_turn}
use gonggo.Client.Connection.{client_connection_table_request_dup}
use gonggo.Db.{RespondQueryResult}

module _ {G : Glib} where
  pub record SameThreads (w w' : World G) : Type 0 where
    pub channels : w'.channels ≡ w.channels
    pub alives : w'.alives ≡ w.alives

  pub threads_refl : (w : World G) → SameThreads w w
  threads_refl w = record { channels = refl; alives = refl }

  pub threads_trans :
      {w w' w'' : World G} → SameThreads w w' → SameThreads w' w'' → SameThreads w w''
  threads_trans a b = record { channels = b.channels ∙ a.channels; alives = b.alives ∙ a.alives }

  pub notify_each-SameTables :
      (C : Cjson) (w : World G) (groups : List (Conn × List String)) (name : String)
      (started : Bool)
      → SameTables w (notify_each C w groups name started)
        × SameThreads w (notify_each C w groups name started)
  unfolding notify_each client_proxy_alive_notification_do
  notify_each-SameTables C w [] name started = (
    record {
      requests_same = refl;
      connections_same = refl;
      services_same = refl;
      proxynames_same = refl;
    },
    threads_refl w,
  )
  notify_each-SameTables C w ((conn, rids) ∷ rest) name started =
      let (t, s) =
        notify_each-SameTables C (client_proxy_alive_notification_do C w conn name rids started)
          rest name started in
      (
        record {
          requests_same = t.requests_same;
          connections_same = t.connections_same;
          services_same = t.services_same;
          proxynames_same = t.proxynames_same;
        },
        record { channels = s.channels; alives = s.alives },
      )

  pub notification-SameTables :
      (C : Cjson) (w : World G) (name : String) (started : Bool)
      → SameTables w (client_proxy_alive_notification C w name started)
        × SameThreads w (client_proxy_alive_notification C w name started)
  unfolding client_proxy_alive_notification
  notification-SameTables C w name started = notify_each-SameTables C w _ name started

  wake_channel-SameThreads : (w : World G) (p : String) → SameThreads w (wake_channel w p)
  unfolding wake_channel
  wake_channel-SameThreads w p = elim (Option-cases (G.lookup w.channels p)) [
    | inl e ↦ rw (e, wake_channel) (threads_refl w)
    | inr (x, e) ↦ rw (e, wake_channel) (record { channels = refl; alives = refl })
  ]

  Outcome-SameThreads :
      (C : Cjson) (query : String → ℕ → ℕ → Bool × RespondQueryResult) {w w' : World G}
      {conn : Conn}
      → Outcome C query w conn w'
      → SameThreads w w'
  unfolding save_request write_if
  Outcome-SameThreads C query (ignored e) = subst (SameThreads _) (sym e) (threads_refl _)
  Outcome-SameThreads C query (rejected rid status ne e) =
      subst (SameThreads _) (sym e) (record { channels = refl; alives = refl })
  Outcome-SameThreads C query (answered rid text saves e) =
      subst (SameThreads _) (sym e) (record { channels = ground arith; alives = ground arith })
  Outcome-SameThreads C query (accepted rid p s payload timeout l u t e) =
      subst (SameThreads _) (sym e)
        (threads_trans (record { channels = refl; alives = refl }) (wake_channel-SameThreads _ p))

  pub client_service_route-SameThreads :
      (C : Cjson) (query : String → ℕ → ℕ → Bool × RespondQueryResult) (path : Option String)
      (w : World G) (uri text : String) (conn : Conn)
      → SameThreads w (client_service_route C query path w uri text conn)
  client_service_route-SameThreads C query path w uri text conn =
      Outcome-SameThreads C query (client_service_route-Outcome C query path w uri text conn)

  forget_each-SameThreads :
      (w : World G) (noted : ProxynameTable G) (rids : List String)
      → SameThreads w (forget_each w noted rids).0
  unfolding forget_each forget_request
  forget_each-SameThreads w noted [] = threads_refl w
  forget_each-SameThreads w noted (rid ∷ rids) =
      let s = forget_each-SameThreads (forget_request w rid) (note_proxy w noted rid) rids in
      record { channels = s.channels; alives = s.alives }

module _ {G : Glib} (C : Cjson) (uuid : ℕ → String) where
  request_drops-SameThreads :
      (w : World G) (name : String) (rids : List String)
      → SameThreads w (request_drops C uuid w name rids)
  unfolding request_drops request_drop_of
  request_drops-SameThreads w name [] = threads_refl w
  request_drops-SameThreads w name (rid ∷ rids) =
      let s = request_drops-SameThreads (request_drop_of C uuid w name rid) name rids in
      record { channels = s.channels; alives = s.alives }

  ask_proxy-SameThreads :
      (w : World G) (name : String) (value : ClientProxynameTableValue)
      → SameThreads w (ask_proxy C uuid w name value)
  unfolding ask_proxy
  ask_proxy-SameThreads w name value = elim (Option-cases (G.lookup w.channels name)) [
    | inl e ↦ rw (e, ask_proxy) (threads_refl w)
    | inr (x, e) ↦
        rw (e, ask_proxy)
          (threads_trans (request_drops-SameThreads w name value.request_uuids)
            (wake_channel-SameThreads _ name))
  ]

  ask_each-SameThreads :
      (w : World G) (noted : List (String × ClientProxynameTableValue))
      → SameThreads w (ask_each C uuid w noted)
  unfolding ask_each
  ask_each-SameThreads w [] = threads_refl w
  ask_each-SameThreads w ((name, value) ∷ rest) =
      threads_trans (ask_proxy-SameThreads w name value)
        (ask_each-SameThreads (ask_proxy C uuid w name value) rest)

  pub client_service_drop_conn-SameThreads :
      (w : World G) (conn : Conn) → SameThreads w (client_service_drop_conn C uuid w conn)
  unfolding client_service_drop_conn
  client_service_drop_conn-SameThreads w conn =
      elim (Option-cases (client_connection_table_request_dup G w.connections conn)) [
        | inl e ↦ rw (e, client_service_drop_conn) (threads_refl w)
        | inr (rids, e) ↦
            rw (e, client_service_drop_conn)
              (let forgotten = (forget_each w G.new rids).0 in
                let s =
                  threads_trans (forget_each-SameThreads w G.new rids)
                    (ask_each-SameThreads forgotten (G.entries (forget_each w G.new rids).1)) in
                record { channels = s.channels; alives = s.alives })
      ]

module _ {G : Glib} (C : Cjson) where
  pub client_service_reply-SameThreads :
      (w : World G) (conn : Conn) (rid : String) (headers : C.Json) (payload : Option C.Json)
      (db_save : Bool)
      → SameThreads w (client_service_reply C w conn rid headers payload db_save)
  unfolding client_service_reply write_if save_if
  client_service_reply-SameThreads w conn rid headers payload db_save = record {
    channels = ground arith;
    alives = ground arith;
  }

  expired_reply-SameThreads :
      (w : World G) (conn : Conn) (rid : String) (db_save : Bool)
      → SameThreads w (client_service_expired_reply C w conn rid db_save)
  unfolding client_service_expired_reply write_if save_if
  expired_reply-SameThreads w conn rid db_save = record {
    channels = ground arith;
    alives = ground arith;
  }

  expire_each-SameThreads :
      (w : World G) (rids : List String) → SameThreads w (expire_each C w rids)
  unfolding expire_each expire_request
  expire_each-SameThreads w [] = threads_refl w
  expire_each-SameThreads w (rid ∷ rids) =
      let (conn, _) = client_request_table_get_conn G w.requests rid false false w.now in
      let r = expired_reply-SameThreads w conn rid true in
      let s = expire_each-SameThreads (expire_request C w rid) rids in
      record { channels = s.channels ∙ r.channels; alives = s.alives ∙ r.alives }

  pub client_timeout_turn-SameThreads : (w : World G) → SameThreads w (client_timeout_turn C w)
  unfolding client_timeout_turn
  client_timeout_turn-SameThreads w =
      expire_each-SameThreads w (client_request_table_expired G w.requests w.now)
