-- ===== src/Rest/Answer.antt =====
-- gear/resthandler.c and `proxy_channel_rest`: which code a HTTP client gets.
use gonggo.Base.{
  leb, ℕ, ◌≡◌, String, Bool, true, false, Option, none, some, arith, ◌==◌, not, string_eq, nat_eq,
  Option-cases, Bool-cases, inl, inr, ◌&&◌, refl,
}
use gonggo.Base.Int.{ℤ, pos}
use gonggo.Json.{Cjson}
use gonggo.Proxy.Channel.{ChannelShm, Turn, woken, proxy_channel_create_request}
use gonggo.Proxy.Channel.Wait.{is_free, idle_wait-is_free, idle_wait-held}
use gonggo.Http.{HttpRequest, read_payload, split_at, skip_first}
use gonggo.Proxy.Channel.Respond.{
  RestRespond, unset, rest_settle, proxy_channel_rest, is_rest_respond,
}
use gonggo.Rest.{
  missing_endpoint, missing_proxy, wrong_root, proxy_error, HttpError, is_success, http_ok,
  http_error, Handled, check_content_type, forward, rest_payload, rest_path, rest_handler, has_body,
  path_parts,
}

-- Codes of errors.
abbrev pub is_refusal : ℕ → Bool
is_refusal n = leb 400 n && leb n 599

-- The proxy and the endpoint that a request names behind the root.
pub record IsTo (gonggo_name : String) (q : HttpRequest) (proxy endpoint : String) : Type 0 where
  pub run : String
  pub rooted : split_at b'/' (skip_first q.local_uri) ≡ (gonggo_name, some run)
  pub parted : split_at b'/' run ≡ (proxy, some endpoint)

module _ (C : Cjson) (same : String → String → Bool)
    (ask : String → String → Option C.Json → Option RestRespond) where
  -- The handler refuses a request with a code of its own, and returns that code; or it passes on
  -- what the proxy has answered: its text with a code of success, or its error with its code.
  pub data IsReply (has_channel : String → Bool) (proxy endpoint : String) : Handled → Type 0 where
    refused :
        (n : ℕ) (e : HttpError)
        → is_refusal n ≡ true
        → IsReply has_channel proxy endpoint
            (record { reply = http_error (pos n) e; returned = pos n })
    passed :
        (payload : Option C.Json) (r : RestRespond) (text : String)
        → has_channel proxy ≡ true
        → ask proxy endpoint payload ≡ some r
        → is_success r.status ≡ true
        → r.json ≡ some text
        → IsReply has_channel proxy endpoint (record { reply = http_ok text; returned = r.status })
    failed :
        (payload : Option C.Json) (r : RestRespond)
        → has_channel proxy ≡ true
        → ask proxy endpoint payload ≡ some r
        → is_success r.status ≡ false
        → IsReply has_channel proxy endpoint
            (record { reply = http_error r.status (proxy_error r.err); returned = r.status })

  -- Where the process has not ended.
  abbrev pub IsReplied : (String → Bool) → String → String → Option Handled → Type 0
  IsReplied has_channel proxy endpoint none = Unit
  IsReplied has_channel proxy endpoint (some r) = IsReply has_channel proxy endpoint r

  forward-IsReplied :
      (has_channel : String → Bool) (proxy endpoint : String) (payload : Option String)
      → has_channel proxy ≡ true
      → IsReplied has_channel proxy endpoint (forward C same ask proxy endpoint payload)
  unfolding forward
  forward-IsReplied has_channel proxy endpoint payload open_channel =
      let json : Option C.Json = elim payload [ none ↦ none | some s ↦ C.parse s ] in
      elim (Option-cases (ask proxy endpoint json)) [
        | inl e ↦ rw (e, forward) tt
        | inr (r, e) ↦ elim (Bool-cases (is_success r.status)) [
          | inr bad ↦ rw (e, forward, bad) (failed json r open_channel e bad)
          | inl good ↦ elim (Option-cases r.json) [
            | inl f ↦ rw (e, forward, good, f) tt
            | inr (text, f) ↦ rw (e, forward, good, f) (passed json r text open_channel e good f)
          ]
        ]
      ]

  rest_payload-IsReplied :
      (has_channel : String → Bool) (q : HttpRequest) (proxy endpoint : String)
      → has_channel proxy ≡ true
      → IsReplied has_channel proxy endpoint (rest_payload C same ask q proxy endpoint)
  unfolding rest_payload
  rest_payload-IsReplied has_channel q proxy endpoint o =
      let forwarded = λ (p : Option String). forward-IsReplied has_channel proxy endpoint p o in
      elim (Bool-cases (has_body q.request_method)) [
        | inl body ↦ elim (Option-cases (read_payload q.chunks)) [
          | inl e ↦ rw (rest_payload, body, e) (forwarded none)
          | inr (payload, e) ↦ elim (Option-cases (check_content_type same q.http_headers)) [
            | inr (bad, e') ↦ rw (rest_payload, body, e, e') (refused 400 bad refl)
            | inl e' ↦ rw (rest_payload, body, e, e') (forwarded (some payload))
          ]
        ]
        | inr no_body ↦ elim (Bool-cases (q.request_method == "GET")) [
          | inr other ↦ rw (rest_payload, no_body, other) (refused 501 _ refl)
          | inl get ↦ elim (Option-cases q.query_string) [
            | inl e ↦ rw (rest_payload, no_body, get, e) (forwarded none)
            | inr (query, e) ↦ rw (rest_payload, no_body, get, e) (forwarded _)
          ]
        ]
      ]

  -- A request that names a proxy and an endpoint below gonggo's root: where the handler returns, it
  -- has refused the request with a code from 400 to 599 that it also returns; or this proxy has a
  -- channel and was asked for this endpoint, and the client is sent the very text of its answer,
  -- whose code of success is returned, or its error under its code, which is returned.
  pub rest_handler-IsReplied :
      (gonggo_name : String) (has_channel : String → Bool) (q : HttpRequest)
      (proxy endpoint : String)
      → IsTo gonggo_name q proxy endpoint
      → IsReplied has_channel proxy endpoint (rest_handler C same ask gonggo_name has_channel q)
  unfolding rest_handler rest_path path_parts
  rest_handler-IsReplied gonggo_name has_channel q proxy endpoint t =
      let root : (gonggo_name == gonggo_name) ≡ true = ground arith in
      elim (Bool-cases (has_channel proxy)) [
        | inl o ↦
            rw (t.rooted, t.parted, root, o) (rest_payload-IsReplied has_channel q proxy endpoint o)
        | inr closed ↦ rw (t.rooted, t.parted, root, closed) (refused 503 _ refl)
      ]

  -- A request that does not name a proxy and an endpoint below gonggo's root is refused with the
  -- code 400, which is returned, and no proxy is asked.
  rest_handler-refused :
      (gonggo_name : String) (has_channel : String → Bool) (q : HttpRequest)
      → ((proxy endpoint : String) → ¬ IsTo gonggo_name q proxy endpoint)
      → (e : HttpError) × (rest_handler C same ask gonggo_name has_channel q
          ≡ some (record { reply = http_error (pos 400) e; returned = pos 400 }))
  unfolding rest_handler rest_path path_parts
  rest_handler-refused gonggo_name has_channel q n =
      let uri = skip_first q.local_uri in
      elim (string_eq.dec (split_at b'/' uri).0 gonggo_name) [
        | no differ ↦ (wrong_root, ground (arith, differ))
        | yes root ↦ elim (Option-cases (split_at b'/' uri).1) [
          | inl e ↦ (missing_proxy, ground (arith, root, e))
          | inr (run, e) ↦ elim (Option-cases (split_at b'/' run).1) [
            | inl f ↦ (missing_endpoint, ground (arith, root, e, f))
            | inr (endpoint, f) ↦ absurd (
                n (split_at b'/' run).0 endpoint (record {
                  run = run;
                  rooted = ground (arith, root, e);
                  parted = ground (arith, f);
                }))
          ]
        ]
      ]

module _ (C : Cjson) (nan : ℤ) where
  -- Where `proxy_channel_rest` returns, the channel's lock is held exactly if the channel did not
  -- become free: on that path it is not given back.
  pub proxy_channel_rest-held :
      (strlen : String → ℕ) (t : Turn) (answer : Option String) (rid endpoint : String)
      (shm shm' : ChannelShm) (payload : Option C.Json) (r : RestRespond)
      → proxy_channel_rest C nan strlen t answer rid shm endpoint payload ≡ some (r, shm')
      → shm'.held ≡ not (is_free t)
  unfolding proxy_channel_rest rest_settle
  proxy_channel_rest-held strlen t answer rid endpoint shm shm' payload r h =
      ground (arith, h, idle_wait-is_free t shm, idle_wait-held t.lock t.idle shm)

  -- A REST request that the proxy leaves open, as when the channel is ended during the wait, gives
  -- no error text and the code 0.
  pub proxy_channel_rest_unanswered :
      (strlen : String → ℕ) (t : Turn) (answer : Option String) (rid endpoint : String)
      (shm : ChannelShm) (payload : Option C.Json)
      → is_free t ≡ true
      → t.opened ≡ true
      → t.mapped ≡ true
      → t.answer.owner_dead ≡ false
      → is_rest_respond t.answer.found ≡ false
      → elim (proxy_channel_rest C nan strlen t answer rid shm endpoint payload) [
        | none ↦ none
        | some result ↦ some result.0
      ]
        ≡ some unset
  unfolding proxy_channel_rest rest_settle proxy_channel_create_request woken
  proxy_channel_rest_unanswered strlen t answer rid endpoint shm payload free opened mapped alive
        no_answer =
      ground (arith, free, opened, mapped, alive, no_answer, idle_wait-is_free t shm)
