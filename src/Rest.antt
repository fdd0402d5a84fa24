-- ===== src/Rest.antt =====
-- gear/resthandler.c: a HTTP request to a proxy.
pub mod Query
pub mod Answer
use Prim.Native.Char.{Char, code}
use gonggo.Http.{
  HttpRequest, split_at, split_all, onto, rest_param_parse, rest_params, param_object, skip_first,
  append_text, read_payload, starts_with, find_header,
}
use gonggo.Proxy.Channel.Respond.{RestRespond}
use gonggo.Base.{
  ℕ, String, Bool, true, false, Option, none, some, List, [], ◌∷◌, ◌++◌, if◌then◌else◌, ◌==◌, ◌||◌,
  ◌&&◌, ltb, leb, string_eq, nat_eq,
}
use gonggo.Base.Int.{ℤ, pos, negsuc}
use gonggo.Json.{Cjson}
use gonggo.Client.Service.{client_service_table_service_payload_create}
use gonggo.Proxy.Channel.{
  ChannelState, channel_rest, channel_rest_respond, channel_done, ChannelShm, Turn, woken, unlock,
  proxy_channel_idle_wait, proxy_channel_create_request,
}

pub data HttpError : Type 0 where
  wrong_root missing_proxy missing_endpoint missing_content_type : HttpError
  unavailable wrong_content_type unsupported_method : String → HttpError
  proxy_error : Option String → HttpError

-- `mg_send_http_ok` with the text, or `mg_send_http_error` with its code.
pub data HttpReply : Type 0 where
  http_ok : String → HttpReply
  http_error : ℤ → HttpError → HttpReply

-- What the handler sends, and what it returns.
pub record Handled : Type 0 where
  pub reply : HttpReply
  pub returned : ℤ

-- `mg_send_http_error` with a code and a text, and behind it the `return` of a code.
abbrev pub rejected : ℕ → HttpError → ℕ → Handled
rejected sent e returned = record { reply = http_error (pos sent) e; returned = pos returned }

-- What stands behind the root: the proxy, and the endpoint.
unfoldable pub path_parts : Option String → Option String × Option String
path_parts none = (none, none)
path_parts (some run) = let (proxy, endpoint) = split_at b'/' run in (some proxy, endpoint)

abbrev pub has_body : String → Bool
has_body method = method == "POST" || (method == "PUT" || method == "PATCH")

-- A payload that was read must come with its content type.
unfoldable pub check_content_type :
    (String → String → Bool) → List (String × String) → Option HttpError
check_content_type same headers = elim (find_header same headers "Content-Type") [
  | none ↦ some missing_content_type
  | some content_type ↦
      if starts_with "application/json" content_type
      then none
      else some (wrong_content_type content_type)
]

-- `code>=200 && code<=299`
abbrev pub is_success : ℤ → Bool
is_success (pos n) = leb 200 n && leb n 299
is_success (negsuc n) = false

module _ (C : Cjson) (same : String → String → Bool)
    (ask : String → String → Option C.Json → Option RestRespond) where
  -- Behind the payload: the proxy is asked, and its answer passed on. A good answer without a text
  -- is read through NULL.
  unfoldable pub forward : String → String → Option String → Option Handled
  forward proxy endpoint payload =
      let payload_json : Option C.Json = elim payload [ none ↦ none | some s ↦ C.parse s ] in
      elim (ask proxy endpoint payload_json) [
        | none ↦ none
        | some r ↦
            if is_success r.status
            then elim r.json [
              | none ↦ none
              | some text ↦ some (record { reply = http_ok text; returned = r.status })
            ]
            else some
                (record { reply = http_error r.status (proxy_error r.err); returned = r.status })
      ]

  -- With a proxy that has a channel: the payload by the method.
  unfoldable pub rest_payload : HttpRequest → String → String → Option Handled
  rest_payload q proxy endpoint =
      if has_body q.request_method
      then elim (read_payload q.chunks) [
        | none ↦ forward proxy endpoint none
        | some payload ↦ elim (check_content_type same q.http_headers) [
          | some e ↦ some (rejected 400 e 400)
          | none ↦ forward proxy endpoint (some payload)
        ]
      ]
      else if q.request_method == "GET"
      then elim q.query_string [
        | none ↦ forward proxy endpoint none
        | some query ↦ forward proxy endpoint (
            some (
              C.print_unformatted
                (param_object C C.create_object (rest_params (split_all b'&' query)))))
      ]
      else some (rejected 501 (unsupported_method q.request_method) 501)

  unfoldable pub rest_path :
      (String → Bool) → HttpRequest → Option String → Option String → Option Handled
  rest_path has_channel q none endpoint = some (rejected 400 missing_proxy 400)
  rest_path has_channel q (some proxy) none = some (rejected 400 missing_endpoint 400)
  rest_path has_channel q (some proxy) (some endpoint) =
      if has_channel proxy
      then rest_payload q proxy endpoint
      else some (rejected 503 (unavailable proxy) 503)

  -- `none` is a process that ends by reading NULL.
  unfoldable pub rest_handler : String → (String → Bool) → HttpRequest → Option Handled
  rest_handler gonggo_name has_channel q =
      let (gonggo, run) = split_at b'/' (skip_first q.local_uri) in
      let (proxy, endpoint) = path_parts run in
      if gonggo == gonggo_name
      then rest_path has_channel q proxy endpoint
      else some (rejected 400 wrong_root 400)
