-- ===== src/Proxy/Channel/Respond.antt =====
-- `proxy_channel_rest` of gear/proxychannel.c: a HTTP request that is handed to the proxy.
use gonggo.Base.{
  ℕ, String, Bool, true, false, Option, none, some, if◌then◌else◌, ltb, string_eq, nat_eq,
}
use gonggo.Base.Int.{ℤ, pos}
use gonggo.Json.{Cjson}
use gonggo.Client.Service.{client_service_table_service_payload_create}
use gonggo.Proxy.Channel.{
  ChannelState, channel_rest, channel_rest_respond, channel_done, ChannelShm, Turn, woken, unlock,
  proxy_channel_idle_wait, proxy_channel_create_request,
}

pub record RestRespond : Type 0 where
  pub status : ℤ
  pub err : Option String
  pub json : Option String

abbrev pub out_of_service : RestRespond
out_of_service = record { status = pos 500; err = some "proxy is out of service"; json = none }

abbrev pub out_of_order : RestRespond
out_of_order = record { status = pos 500; err = some "proxy is out of order"; json = none }

abbrev pub unset : RestRespond
unset = record { status = pos 0; err = none; json = none }

abbrev pub is_rest_respond : ChannelState → Bool
is_rest_respond channel_rest_respond = true
is_rest_respond _ = false

module _ (C : Cjson) (nan : ℤ) where
  -- The three items of the proxy's answer; `nan` is what C gives for a missing number. An `err`
  -- that is no text is handed to `strdup` as NULL: the process ends there, `none`.
  unfoldable pub rest_answer : Option C.Json → Option RestRespond
  rest_answer none = some (record unset { status = nan })
  rest_answer (some answer) =
      let status : ℤ = elim (C.get_object_item answer "code") [
        | none ↦ nan
        | some item ↦ C.valuedouble item
      ] in
      let json : Option String = elim (C.get_object_item answer "json") [
        | none ↦ none
        | some item ↦ some (C.print_unformatted item)
      ] in
      elim (C.get_object_item answer "err") [
        | none ↦ some (record { status = status; err = none; json = json })
        | some item ↦ elim (C.valuestring item) [
          | none ↦ none
          | some s ↦ some (record { status = status; err = some s; json = json })
        ]
      ]

  -- Behind the wait for the proxy; `answer` is the content of the segment that it names.
  unfoldable pub rest_settle : Option String → Bool → ChannelShm → Option (RestRespond × ChannelShm)
  rest_settle answer owner_dead shm =
      if owner_dead
      then some (out_of_order, unlock shm)
      else if is_rest_respond shm.state
      then elim answer [
        | none ↦ some (out_of_order, unlock (record shm { state = channel_done }))
        | some s ↦ elim (rest_answer (C.parse s)) [
          | none ↦ none
          | some r ↦ some (r, unlock (record shm { state = channel_done }))
        ]
      ]
      else some (unset, unlock shm)

  unfoldable pub proxy_channel_rest :
      (String → ℕ)
      → Turn
      → Option String
      → String
      → ChannelShm
      → String
      → Option C.Json
      → Option (RestRespond × ChannelShm)
  proxy_channel_rest strlen t answer rid shm endpoint payload =
      let (free, waited) = proxy_channel_idle_wait t.lock t.idle shm in
      let body = client_service_table_service_payload_create C endpoint payload in
      let n = proxy_channel_create_request strlen t.opened t.mapped body in
      let sized = record waited { payload_buff_length = n } in
      if free
      then if ltb n 1
        then some (out_of_order, unlock sized)
        else rest_settle answer t.answer.owner_dead
            (woken (record sized { rid = rid; state = channel_rest }) t.answer)
      else some (out_of_service, waited)
