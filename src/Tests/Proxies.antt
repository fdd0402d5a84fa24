-- ===== src/Tests/Proxies.antt =====
-- The theorems on the proxies' side, on the server that has one request.
use gonggo.Base.{
  ℕ, ◌≡◌, ◌≢◌, refl, String, true, false, Option, none, some, [], ◌∷◌, arith, string_eq, nat_eq,
}
use gonggo.Glib.Assoc.{assoc}
use gonggo.Client.World.{World}
use gonggo.Client.Proxyname.Laws.{sent_flag}
use gonggo.Client.Service.{client_service_table_dup}
use gonggo.Proxy.Subscribe.{
  subscribe_answer, subscribe_done, ProxySubscribeShm, proxy_subscribe_exchange, reply_each,
  rid_items,
}
use gonggo.Proxy.Subscribe.Answers.{IsAnswered, reply_each-IsAnswered}
use gonggo.Proxy.Subscribe.Exchange.{IsAnswer}
use gonggo.Proxy.Subscribe.Answered.{cleared, forwarded, proxy_subscribe_exchange-IsAnswered}
use gonggo.Tests.Sample.{Doc, cell, text, end, answer_doc}
use gonggo.Proxy.Channel.{
  ChannelShm, Turn, channel_idle, channel_acknowledged, channel_termination, proxy_channel_exchange,
  proxy_channel_create_request, exchange_each,
}
use gonggo.Proxy.Channel.Wait.{exchange_request_unfree}
use gonggo.Proxy.Channel.Flags.{IsMarking, unsent_of, proxy_channel_exchange-IsMarking}
use gonggo.Proxy.Channel.Sent.{IsWilling, proxy_channel_exchange-sent}
use gonggo.Proxy.Names.{proxy_thread_zombie, proxy_thread_terminating_drop, zombie-drop}
use gonggo.Proxy.Thread.{Threads, proxy_terminator_turn, proxy_alive_turn}
use gonggo.Proxy.Thread.Terminate.{IsTerminated, proxy_terminator_turn-IsTerminated}
use gonggo.Tests.Sample.{sample, started, headers_doc, items_doc}
use gonggo.Tests.Clients.{due, due-IsValid}

-- Both requests are answered, though only one is waited for.
reply_each-IsAnswered_example :
    (w' : World assoc) × (reply_each {G = assoc} sample due "p1" items_doc headers_doc none true
      ≡ some w')
    × IsAnswered {G = assoc} sample "p1" headers_doc none due ("r1" ∷ "r2" ∷ []) w'
unfolding string_eq
reply_each-IsAnswered_example =
    reply_each-IsAnswered {G = assoc} sample "p1" headers_doc none due items_doc ("r1" ∷ "r2" ∷ [])
      true refl (λ _. refl)

abbrev pub answers : String → Option String
answers aid = some "answer"

abbrev pub answer_shm : ProxySubscribeShm
answer_shm = record {
  state = subscribe_answer;
  aid = "a1";
  payload_buff_length = 7;
  remove_request = true;
}

abbrev rids_doc : Doc
rids_doc = cell (text "r1") (cell (text "r2") end)

sample-IsAnswer : IsAnswer sample answers answer_shm rids_doc headers_doc none
unfolding string_eq
sample-IsAnswer = record {
  long = omega arith;
  text = "answer";
  opened = refl;
  root = answer_doc;
  parsed = refl;
  has_rid = refl;
  rid_kind = refl;
  has_headers = refl;
  maybe_payload = refl;
}

proxy_subscribe_exchange-IsAnswered_example :
    let start = cleared {G = assoc} sample due headers_doc none in
    (w' : World assoc) × (proxy_subscribe_exchange {G = assoc} sample answers due "p1" answer_shm
      ≡ some (subscribe_done, w'))
    × IsAnswered {G = assoc} sample "p1" headers_doc
        (forwarded sample headers_doc none)
        start
        ("r1" ∷ "r2" ∷ [])
        w'
    × (start.writes ≡ due.writes)
    × (start.saves ≡ due.saves)
unfolding rid_items string_eq
proxy_subscribe_exchange-IsAnswered_example =
    proxy_subscribe_exchange-IsAnswered {G = assoc} sample answers due "p1" answer_shm rids_doc
      headers_doc none ("r1" ∷ "r2" ∷ []) sample-IsAnswer refl (λ _. refl)

abbrev pub exchanged : World assoc
exchanged = elim (proxy_subscribe_exchange {G = assoc} sample answers due "p1" answer_shm) [
  | none ↦ started
  | some result ↦ result.1
]

abbrev strlen : String → ℕ
strlen s = 3

abbrev idle_shm : ChannelShm
idle_shm = record { state = channel_idle; rid = ""; payload_buff_length = 0; held = false }

-- A proxy that acknowledges, and one whose channel is ending.
abbrev good_turn : String → Turn
good_turn rid = record {
  lock = record { owner_dead = false; found = channel_idle };
  idle = record { owner_dead = false; found = channel_idle };
  opened = true;
  mapped = true;
  answer = record { owner_dead = false; found = channel_acknowledged };
}

abbrev ending_turn : String → Turn
ending_turn rid = record (good_turn rid) {
  lock = record { owner_dead = false; found = channel_termination };
}

proxy_channel_exchange-IsMarking_example :
    IsMarking {G = assoc} strlen good_turn "p1"
      (unsent_of strlen good_turn due "p1")
      due
      (proxy_channel_exchange {G = assoc} strlen good_turn due "p1" idle_shm).1
proxy_channel_exchange-IsMarking_example =
    proxy_channel_exchange-IsMarking {G = assoc} strlen good_turn due "p1" idle_shm due-IsValid

good-IsWilling : IsWilling {G = assoc} strlen good_turn due
unfolding proxy_channel_create_request
good-IsWilling rid body h = refl

due-text : client_service_table_dup assoc due.services "r1" ≢ none
unfolding client_service_table_dup string_eq
due-text = ground arith

proxy_channel_exchange-sent_example :
    ((proxy_channel_exchange {G = assoc} strlen good_turn due "p1" idle_shm).0 ≡ true)
    × (sent_flag assoc
          (proxy_channel_exchange {G = assoc} strlen good_turn due "p1" idle_shm).1.proxynames
          "p1"
          "r1"
        ≡ some true)
unfolding string_eq
proxy_channel_exchange-sent_example =
    proxy_channel_exchange-sent {G = assoc} strlen good_turn due "p1" "r1" idle_shm due-IsValid
      good-IsWilling refl due-text

good-alive : (proxy_channel_exchange {G = assoc} strlen good_turn due "p1" idle_shm).0 ≡ true
unfolding string_eq
good-alive =
    (proxy_channel_exchange-sent {G = assoc} strlen good_turn due "p1" "r1" idle_shm due-IsValid
      good-IsWilling refl due-text).0

exchange_request_unfree_example :
    let (alive, w', shm') =
      exchange_each {G = assoc} strlen ending_turn due "p1" ("r1" ∷ []) idle_shm in
    (alive ≡ false) × (w' ≡ due) × (shm'.held ≡ true)
exchange_request_unfree_example =
    exchange_request_unfree {G = assoc} strlen ending_turn due "p1" "r1" [] idle_shm due-text refl

abbrev threads : Threads assoc
threads = record {
  world = due;
  subscribes = ("p1", 6) ∷ [];
  terminating = "p1" ∷ [];
  queue = "p1" ∷ [];
  events = [];
}

abbrev watched : Threads assoc
watched = record threads { terminating = []; queue = [] }

proxy_terminator_turn-IsTerminated_example :
    ((proxy_terminator_turn {G = assoc} threads).queue ≡ [])
    × IsTerminated {G = assoc}
        ("p1" ∷ [])
        (record threads { queue = [] })
        (proxy_terminator_turn {G = assoc} threads)
proxy_terminator_turn-IsTerminated_example =
    proxy_terminator_turn-IsTerminated {G = assoc} threads refl

found-dead : (proxy_alive_turn {G = assoc} sample watched "p1" true false true).0 ≡ true
unfolding proxy_alive_turn
found-dead = refl

zombie-drop_example :
    proxy_thread_zombie (proxy_thread_terminating_drop ("p1" ∷ "p2" ∷ []) "p1") "p1" ≡ false
unfolding string_eq
zombie-drop_example = zombie-drop ("p1" ∷ "p2" ∷ []) "p1" "p1" refl
