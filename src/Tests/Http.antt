-- ===== src/Tests/Http.antt =====
-- The theorems on HTTP requests, on small ones.
use text.Mathlib.TextEquality.{eq_iff}
use mathlib.Core.Bool.{false≢true}
use gonggo.Base.{
  ℕ, ◌≡◌, refl, String, Bool, true, false, Option, none, some, [], ◌∷◌, ◌==◌, string_eq, nat_eq,
}
use gonggo.Base.Int.{pos}
use gonggo.Proxy.Channel.{
  ChannelShm, Turn, channel_idle, channel_termination, proxy_channel_idle_wait, woken,
}
use gonggo.Http.{append_text, HttpRequest, split_all, rest_params}
use gonggo.Proxy.Channel.Respond.{RestRespond, unset, out_of_service, proxy_channel_rest}
use gonggo.Rest.{rest_handler}
use gonggo.Rest.Query.{IsParam, rest_params-query_text}
use gonggo.Rest.Answer.{IsTo, IsReplied, rest_handler-IsReplied}
use gonggo.Http.{split_at, skip_first}
use gonggo.Tests.Sample.{sample, Doc}

a-IsParam : IsParam "a" "1"
unfolding nat_eq
a-IsParam = record {
  filled = λ e. false≢true ((eq_iff "a" "").1 e);
  key_no_equals = refl;
  key_no_and = refl;
  value_no_and = refl;
}

b-IsParam : IsParam "b" "x=y"
unfolding nat_eq
b-IsParam = record {
  filled = λ e. false≢true ((eq_iff "b" "").1 e);
  key_no_equals = refl;
  key_no_and = refl;
  value_no_and = refl;
}

rest_params-query_text_example :
    rest_params (split_all b'&' "a=1&b=x=y") ≡ ("a", "1") ∷ ("b", "x=y") ∷ []
unfolding append_text
rest_params-query_text_example =
    rest_params-query_text "a" "1" (("b", "x=y") ∷ []) (a-IsParam, (b-IsParam, tt))

abbrev ask : String → String → Option Doc → Option RestRespond
ask proxy endpoint payload = some (record unset { status = pos 404; err = some "no such endpoint" })

abbrev get_request : HttpRequest
get_request = record {
  local_uri = "/gonggo/p1/echo";
  request_method = "GET";
  chunks = [];
  http_headers = [];
  query_string = some "a=1";
}

abbrev same : String → String → Bool
same s t = s == t

abbrev always : String → Bool
always s = true

get-IsTo : IsTo "gonggo" get_request "p1" "echo"
unfolding split_at skip_first nat_eq
get-IsTo = record { run = "p1/echo"; rooted = refl; parted = refl }

rest_handler-IsReplied_example :
    IsReplied sample same ask always "p1" "echo"
      (rest_handler sample same ask "gonggo" always get_request)
rest_handler-IsReplied_example =
    rest_handler-IsReplied sample same ask "gonggo" always get_request "p1" "echo" get-IsTo

abbrev strlen : String → ℕ
strlen s = 3

abbrev idle_shm : ChannelShm
idle_shm = record { state = channel_idle; rid = ""; payload_buff_length = 0; held = false }

-- The channel is ended before the request, and during the wait for the answer.
abbrev ended : Turn
ended = record {
  lock = record { owner_dead = false; found = channel_termination };
  idle = record { owner_dead = false; found = channel_idle };
  opened = true;
  mapped = true;
  answer = record { owner_dead = false; found = channel_termination };
}

abbrev ending : Turn
ending = record ended { lock = record { owner_dead = false; found = channel_idle } }

abbrev ended_shm : ChannelShm
ended_shm = record { state = channel_termination; rid = ""; payload_buff_length = 0; held = true }

refused-rest :
    proxy_channel_rest sample (pos 0) strlen ended none "r1" idle_shm "echo" none
    ≡ some (out_of_service, ended_shm)
unfolding proxy_channel_rest proxy_channel_idle_wait woken
refused-rest = refl
