-- ===== src/Proxy/Subscribe/Answers.antt =====
-- gear/proxysubscribe.c: what the clients of an answer receive, and what is stored.
use gonggo.Base.{
  ◌≡◌, ◌≢◌, refl, String, Bool, true, false, Option, none, some, List, [], ◌∷◌, ◌++◌, arith, ◌==◌,
  if◌then◌else◌, string_eq, nat_eq, contains, distinct, inl, inr, ap, subst, sym, ◌∙◌, Option-cases,
}
use mathlib.Core.List.{append_assoc, append-nil}
use gonggo.Glib.{Glib}
use gonggo.Json.{Cjson}
use gonggo.Client.Request.{Conn, null, RequestTable, client_request_table_get_conn}
use gonggo.Client.Request.Laws as RequestLaws
use gonggo.Client.World.{World}
use gonggo.Client.Reply.{client_service_reply, save_if, write_if, service_text}
use gonggo.Proxy.Subscribe.{reply_removal, proxy_subscribe_reply, reply_each}

-- The ids that an array holds, if each of its items is a text.
abbrev pub read_rids : (C : Cjson) → List C.Json → Option (List String)
read_rids C [] = some []
read_rids C (item ∷ items) = elim (C.valuestring item) [
  | none ↦ none
  | some rid ↦ elim (read_rids C items) [ none ↦ none | some rids ↦ some (rid ∷ rids) ]
]

-- One message to each connection that waits for one of the requests.
abbrev pub answer_writes :
    (G : Glib) (C : Cjson)
    → RequestTable G
    → List String
    → C.Json
    → Option C.Json
    → List (Conn × String)
answer_writes G C t [] headers payload = []
answer_writes G C t (rid ∷ rids) headers payload =
    let rest = answer_writes G C t rids headers payload in
    let conn = RequestLaws.conn_of G t rid in
    if conn == null then rest else (conn, service_text C rid headers payload) ∷ rest

-- One row for each request that has an id, whether a connection waits or not.
abbrev pub answer_saves :
    (C : Cjson) → List String → C.Json → Option C.Json → List (String × String)
answer_saves C [] headers payload = []
answer_saves C (rid ∷ rids) headers payload =
    let rest = answer_saves C rids headers payload in
    if rid == "" then rest else (rid, service_text C rid headers payload) ∷ rest

module _ {G : Glib} (C : Cjson) (proxy_name : String) (headers : C.Json)
    (payload : Option C.Json) where
  reply-saves :
      (w : World G) (rid : String) (r : Bool)
      → (proxy_subscribe_reply C w proxy_name rid headers payload r).saves
        ≡ w.saves ++ answer_saves C (rid ∷ []) headers payload
  unfolding proxy_subscribe_reply reply_removal client_service_reply save_if write_if
  reply-saves w rid r = ground (arith, append-nil w.saves)

  reply-writes :
      (w : World G) (rid : String) (r : Bool)
      → (proxy_subscribe_reply C w proxy_name rid headers payload r).writes
        ≡ w.writes ++ answer_writes G C w.requests (rid ∷ []) headers payload
  unfolding proxy_subscribe_reply reply_removal client_service_reply save_if write_if
  reply-writes w rid r =
      ground
        (arith, append-nil w.writes, RequestLaws.get_conn-conn_of G w.requests rid true r w.now)

  reply-conn_of :
      (w : World G) (rid : String) (r : Bool) (j : String)
      → (r ≡ true → rid ≢ j)
      → RequestLaws.conn_of G
          (proxy_subscribe_reply C w proxy_name rid headers payload r).requests
          j
        ≡ RequestLaws.conn_of G w.requests j
  unfolding proxy_subscribe_reply reply_removal client_service_reply save_if write_if
      client_request_table_get_conn
  reply-conn_of w rid true j h = ground (arith, h refl, G.lookup-remove w.requests rid j)
  reply-conn_of w rid false j h = elim (Option-cases (G.lookup w.requests rid)) [
    | inl e ↦ ground (arith, e)
    | inr (p, e) ↦
        let law = G.lookup-insert w.requests rid (record p { timestamp = w.now }) j in
        elim (string_eq.dec rid j) [
          | yes same ↦ ground (arith, e, law, same, ap (G.lookup w.requests) same)
          | no differ ↦ ground (arith, e, law, differ)
        ]
  ]

  -- Requests that are not yet answered are still with their connections.
  answer_writes-reply :
      (w : World G) (rid : String) (r : Bool) (rids : List String)
      → (r ≡ true → contains rid rids ≡ false)
      → answer_writes G C
          (proxy_subscribe_reply C w proxy_name rid headers payload r).requests
          rids
          headers
          payload
        ≡ answer_writes G C w.requests rids headers payload
  answer_writes-reply w rid r [] h = refl
  answer_writes-reply w rid r (j ∷ rids) h = ground (
    arith,
    reply-conn_of w rid r j (λ e. ground (arith, h e)),
    answer_writes-reply w rid r rids (λ e. ground (arith, h e)),
  )

  -- The whole effect outside of the tables.
  pub record IsAnswered (w : World G) (rids : List String) (w' : World G) : Type 0 where
    pub written : w'.writes ≡ w.writes ++ answer_writes G C w.requests rids headers payload
    pub saved : w'.saves ≡ w.saves ++ answer_saves C rids headers payload

  reply-IsAnswered :
      (w w' : World G) (rid : String) (r : Bool) (rids : List String)
      → (r ≡ true → contains rid rids ≡ false)
      → IsAnswered (proxy_subscribe_reply C w proxy_name rid headers payload r) rids w'
      → IsAnswered w (rid ∷ rids) w'
  reply-IsAnswered w w' rid r rids h a = record {
    written =
        a.written
        ∙ rw (reply-writes w rid r, answer_writes-reply w rid r rids h)
            (append_assoc w.writes _ _ ∙ ground arith);
    saved = a.saved ∙ rw (reply-saves w rid r) (append_assoc w.saves _ _ ∙ ground arith);
  }

  -- When every item of the array is a text, and none stands twice where the answer ends its
  -- requests, the answering does not stop half-way: each connection that waits for one of the
  -- requests is sent the reply once for each of them, in the array's order, and each request with
  -- an id is stored with the same text.
  pub reply_each-IsAnswered :
      (w : World G) (items : List C.Json) (rids : List String) (r : Bool)
      → read_rids C items ≡ some rids
      → (r ≡ true → distinct rids ≡ true)
      → (w' : World G) × (reply_each C w proxy_name items headers payload r ≡ some w')
        × IsAnswered w rids w'
  unfolding reply_each
  reply_each-IsAnswered w [] rids r h d =
      let none_left : [] ≡ rids = ground (arith, h) in
      (
        w,
        refl,
        subst (λ x. IsAnswered w x w) none_left
            (record { written = sym (append-nil w.writes); saved = sym (append-nil w.saves) }),
      )
  reply_each-IsAnswered w (item ∷ items) rids r h d = elim (Option-cases (C.valuestring item)) [
    | inl e ↦ absurd (ground (arith, e, h))
    | inr (rid, e) ↦ elim (Option-cases (read_rids C items)) [
      | inl e' ↦ absurd (ground (arith, e, e', h))
      | inr (rest, e') ↦
          let whole : rid ∷ rest ≡ rids = ground (arith, e, e', h) in
          let apart : r ≡ true → distinct (rid ∷ rest) ≡ true = λ q. ap distinct whole ∙ d q in
          let (w', done, a) =
            reply_each-IsAnswered (proxy_subscribe_reply C w proxy_name rid headers payload r) items
              rest r e' (λ q. ground (arith, apart q)) in
          (
            w',
            ground (arith, e, done),
            subst (λ x. IsAnswered w x w') whole
                (reply-IsAnswered w w' rid r rest (λ q. ground (arith, apart q)) a),
          )
    ]
  ]
