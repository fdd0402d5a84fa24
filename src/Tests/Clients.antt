-- ===== src/Tests/Clients.antt =====
-- The client side's theorems on a server that has one request of connection 5 to the proxy "p1".
use text.Mathlib.TextEquality.{eq_iff}
use mathlib.Core.Bool.{false≢true}
use gonggo.Base.{
  Option, ℕ, ◌≡◌, ◌≢◌, ◌⊎◌, ◌++◌, refl, String, true, false, none, some, [], ◌∷◌, arith, string_eq,
  nat_eq,
}
use gonggo.Base.Int.{pos}
use gonggo.Glib.Assoc.{assoc}
use gonggo.Client.World.{World}
use gonggo.Client.Invariant.{IsConsistent}
use gonggo.Client.Connection.Laws as ConnectionLaws
use gonggo.Client.Proxyname.{ClientProxynameTableValue, client_proxyname_table_drop_all}
use gonggo.Client.Proxyname.Laws as ProxynameLaws
use gonggo.Client.Proxyname.Everywhere as Everywhere
use gonggo.Client.Request.{is_expired, client_request_table_expired}
use gonggo.Client.Reply.{parsing_status_text}
use gonggo.Client.Route.{client_service_route}
use gonggo.Client.Route.Verdict.{Verdict}
use gonggo.Client.Route.Accepted.{client_service_route-IsConsistent, IsEntered}
use gonggo.Client.Route.Request.{IsRequest, client_service_route-IsEntered}
use gonggo.Client.Route.{save_request}
use gonggo.Client.Timeout.Race.{expire_begin, expire_end, expire_request_race}
use gonggo.Client.Drop.{client_service_drop_conn}
use gonggo.Client.Drop.Laws.{client_service_drop_conn-requests}
use gonggo.Client.Timeout.{client_timeout_turn}
use gonggo.Client.Timeout.Replies.{client_timeout_turn-replies, expired_writes, expired_saves}
use gonggo.Client.Timeout.Cleared.{client_timeout_turn-IsCleared, IsCleared, HasOneProxy}
use gonggo.Tests.Sample.{sample, started, no_rows, root_doc, request_headers_doc, time_doc}

started-IsConsistent : IsConsistent {G = assoc} started
started-IsConsistent = record {
  connections_valid = record { apply = λ conn arr h. ground (arith, h) };
  proxynames_valid = record { apply = λ p v h. absurd (ground (arith, h)) };
  tracked = λ rid ctx h. absurd (ground (arith, h));
}

-- The server behind the request, and one that is 20 seconds on.
abbrev pub asked : World assoc
asked = client_service_route sample no_rows (some "/gonggo") started "/gonggo" "request" 5

pub asked-IsConsistent : IsConsistent {G = assoc} asked
asked-IsConsistent =
    client_service_route-IsConsistent sample no_rows (some "/gonggo") started "/gonggo" "request" 5
      started-IsConsistent

-- A server with the request of connection 5, whose time ran out at 109.
abbrev pub due : World assoc
due = record started {
  requests = ("r1", record { conn = 5; timestamp = 100; timeoutsec = pos 9 }) ∷ [];
  connections = (5, "r1" ∷ []) ∷ [];
  services = ("r1", "s1") ∷ [];
  proxynames = ("p1", record { request_uuids = "r1" ∷ []; sents = false ∷ [] }) ∷ [];
  now = 120;
}

pub due-IsValid : ProxynameLaws.IsValid assoc due.proxynames
due-IsValid = record {
  apply = λ p v h. record {
    aligned = ground (arith, h);
    single = ground (arith, h);
    filled = ground (arith, h);
  };
}

due-single : ConnectionLaws.IsValid assoc due.connections
due-single = record { apply = λ conn arr h. ground (arith, h) }

pub due-IsConsistent : IsConsistent {G = assoc} due
due-IsConsistent = record {
  connections_valid = due-single;
  proxynames_valid = due-IsValid;
  tracked = λ rid ctx h. record {
    by_connection = ground (arith, h);
    with_text = ground (arith, h);
    by_proxy = ("p1", ground (arith, h));
  };
}

no_drop : ◌≢◌ {A = String} "s1" "gonggorequestdrop"
no_drop = λ e. false≢true ((eq_iff "s1" "gonggorequestdrop").1 e)

IsRequest-given : IsRequest sample "request" "r1" "p1" "s1" none 9
unfolding string_eq
IsRequest-given = record {
  root = root_doc;
  headers = request_headers_doc;
  time = time_doc;
  parsed = refl;
  with_headers = refl;
  with_payload = refl;
  with_rid = refl;
  rid_long = omega arith;
  rid_short = omega arith;
  with_proxy = refl;
  with_service = refl;
  service_long = omega arith;
  service_free = no_drop;
  with_timeout = refl;
  limit = refl;
  limit_positive = omega arith;
}

abbrev server_path : Option String
server_path = some "/gonggo"

client_service_route-IsEntered_example :
    IsEntered sample started 5 "r1" "p1" "s1" none (pos 9) asked
    × (asked.writes ≡ (5, "r1") ∷ [])
    × (asked.saves ≡ [])
    × (asked.wakeups ≡ "p1" ∷ [])
unfolding string_eq parsing_status_text
client_service_route-IsEntered_example =
    client_service_route-IsEntered {G = assoc} sample no_rows "/gonggo" started "request" 5 "r1"
      "p1" "s1" none 9 started-IsConsistent IsRequest-given

client_timeout_turn-replies_example :
    let rids = client_request_table_expired assoc due.requests due.now in
    ((client_timeout_turn {G = assoc} sample due).writes
      ≡ [] ++ expired_writes assoc sample due.requests rids)
    × ((client_timeout_turn {G = assoc} sample due).saves ≡ [] ++ expired_saves sample rids)
client_timeout_turn-replies_example = client_timeout_turn-replies {G = assoc} sample due

due-HasOneProxy : HasOneProxy {G = assoc} due "r1"
due-HasOneProxy = λ p p' h h'. ground (arith, h, h')

client_timeout_turn-IsCleared_example :
    (assoc.lookup (client_timeout_turn {G = assoc} sample due).requests "r1" ≡ none)
    × IsCleared {G = assoc} (client_timeout_turn {G = assoc} sample due) 5 "r1"
unfolding string_eq is_expired
client_timeout_turn-IsCleared_example =
    client_timeout_turn-IsCleared {G = assoc} sample due "r1"
      (record { conn = 5; timestamp = 100; timeoutsec = pos 9 }) due-IsConsistent refl refl
      due-HasOneProxy

abbrev uuid : ℕ → String
uuid n = "u"

client_service_drop_conn-requests_example :
    assoc.lookup (client_service_drop_conn {G = assoc} sample uuid due 5).requests "r1" ≡ none
unfolding string_eq nat_eq
client_service_drop_conn-requests_example =
    client_service_drop_conn-requests {G = assoc} sample uuid due 5 "r1" due-IsConsistent

-- Two proxies that have one request.
abbrev twice : assoc.Table String ClientProxynameTableValue
twice =
    ("p1", record { request_uuids = "r1" ∷ []; sents = false ∷ [] })
    ∷ ("p2", record { request_uuids = "r1" ∷ []; sents = true ∷ [] })
    ∷ []

twice-IsValid : ProxynameLaws.IsValid assoc twice
twice-IsValid = record {
  apply = λ p v h. record {
    aligned = ground (arith, h);
    single = ground (arith, h);
    filled = ground (arith, h);
  };
}

p1-other : ◌≢◌ {A = String} "p1" "p2"
p1-other = λ e. false≢true ((eq_iff "p1" "p2").1 e)

twice-first : ProxynameLaws.sent_flag assoc twice "p1" "r1" ≢ none
twice-first = ground arith

twice-second : ProxynameLaws.sent_flag assoc twice "p2" "r1" ≢ none
twice-second = ground arith

drop_all_double_example :
    (ProxynameLaws.sent_flag assoc (client_proxyname_table_drop_all assoc twice "r1") "p1" "r1"
      ≢ none)
    ⊎ (ProxynameLaws.sent_flag assoc (client_proxyname_table_drop_all assoc twice "r1") "p2" "r1"
        ≢ none)
drop_all_double_example =
    Everywhere.drop_all_double assoc twice "r1" "p1" "p2" twice-IsValid p1-other twice-first
      twice-second

-- Connection 7 sends the request again while its time-out is dealt with.
expire_request_race_example :
    let (old, begun) = expire_begin {G = assoc} sample due "r1" in
    let w' =
      expire_end (save_request {G = assoc} sample begun 7 "r1" "p1" "s1" none (pos 9)) old "r1" in
    (assoc.lookup w'.requests "r1"
      ≡ some (record { conn = 7; timestamp = begun.now; timeoutsec = pos 9 }))
    × (assoc.lookup w'.services "r1" ≡ none)
    × ¬ IsConsistent {G = assoc} w'
expire_request_race_example =
    expire_request_race {G = assoc} sample due 7 "r1" "p1" "s1" none (pos 9)
